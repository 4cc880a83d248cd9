-- ===== src/Aptdb/Stanza/RoundTrip.antt =====
-- `readStanzas` takes back the fields that a file was written with.
use fleetmind.Common.{
  ℕ, ◌*◌, ◌^◌, false, ◌||◌, List, [], ◌∷◌, ◌++◌, map, none, ◌≡◌, ◌≢◌, refl, ap, ◌∙◌, All, arith,
  ◌==◌, append-nil, append_assoc,
}
use fleetmind.Common.Cut.{index_byte-append, take-append, drop-suc-append}
use fleetmind.Common.Dict.{lookup, insert}
use fleetmind.Common.Scanner.{unlines, IsScannable, scan_lines-unlines}
use fleetmind.Common.Space.{IsTrimmed, trim_space-space}
use fleetmind.Common.Text.{Bytes, codes, equal_refl, is_empty}
use fleetmind.Aptdb.Stanza.{
  Stanza, field, StanzaReader, no_stanza, continue_field, read_field, read_stanza_line, read_lines,
  read_stanzas,
}

-- A field as it stands in a file: its field_key, the value on the key's line, and continuation lines.
pub record Field : Type 0 where
  pub initial : ℕ
  pub key_rest : Bytes
  pub value : Bytes
  pub more : List Bytes

abbrev pub field_key : Field → Bytes
field_key f = f.initial ∷ f.key_rest

abbrev pub folded : Bytes → List Bytes → Bytes
folded v [] = v
folded v (l ∷ ls) = folded (v ++ (10 ∷ l)) ls

-- What the reader is to hold for a field.
abbrev pub entry : Field → Bytes × Bytes
entry f = (field_key f, folded f.value f.more)

abbrev pub continued : List Bytes → List Bytes → List Bytes
continued [] rest = rest
continued (l ∷ ls) rest = (b' ' ∷ l) ∷ continued ls rest

-- The lines of a field, of a stanza with the blank line behind it, and of a file.
abbrev pub field_lines : Field → List Bytes → List Bytes
field_lines f rest = (field_key f ++ (codes ": " ++ f.value)) ∷ continued f.more rest

abbrev pub stanza_lines : List Field → List Bytes → List Bytes
stanza_lines [] rest = [] ∷ rest
stanza_lines (f ∷ fs) rest = field_lines f (stanza_lines fs rest)

abbrev pub file_lines : List (List Field) → List Bytes
file_lines [] = []
file_lines (fs ∷ file) = stanza_lines fs (file_lines file)

-- The key begins with no white space and has no colon, and the values are trimmed.
pub record IsField (f : Field) : Type 0 where
  pub starts : (f.initial == b' ' || f.initial == 9) ≡ false
  pub no_colon : All (λ c. (c == b':') ≡ false) (field_key f)
  pub trimmed : IsTrimmed f.value
  pub more_trimmed : All IsTrimmed f.more

-- No field's key is already in `m` or the key of an earlier field.
abbrev pub AreNew : Stanza → List Field → Type 0
AreNew m [] = Unit
AreNew m (f ∷ fs) = (lookup (field_key f) m ≡ none) × AreNew (m ++ (entry f ∷ [])) fs

insert_new : (k v : Bytes) (m : Stanza) → lookup k m ≡ none → insert k v m ≡ m ++ ((k, v) ∷ [])
unfolding lookup insert
insert_new k v [] h = refl
insert_new k v ((j, w) ∷ m) h = ground (arith, insert_new k v m)

insert_last :
    (k v w : Bytes) (m : Stanza)
    → lookup k m ≡ none
    → insert k w (m ++ ((k, v) ∷ [])) ≡ m ++ ((k, w) ∷ [])
unfolding lookup insert
insert_last k v w [] h = rw (equal_refl k)
insert_last k v w ((j, x) ∷ m) h = ground (arith, insert_last k v w m)

field_last : (k v : Bytes) (m : Stanza) → lookup k m ≡ none → field k (m ++ ((k, v) ∷ [])) ≡ v
unfolding lookup field
field_last k v [] h = ground (arith, equal_refl k)
field_last k v ((j, x) ∷ m) h = ground (arith, field_last k v m)

read_field-key :
    (m : Stanza) (last k v : Bytes)
    → All (λ c. (c == b':') ≡ false) k
    → IsTrimmed v
    → lookup k m ≡ none
    → read_field (record { cur = m; last_key = last }) (k ++ (b':' ∷ b' ' ∷ v))
      ≡ record { cur = m ++ ((k, v) ∷ []); last_key = k }
unfolding read_field
read_field-key m last k v h t absent = rw (
  index_byte-append b':' k (b' ' ∷ v) h,
  read_field,
  take-append k (b':' ∷ b' ' ∷ v),
  drop-suc-append k (b' ' ∷ v),
  trim_space-space v t,
  insert_new k v m absent,
)

read_stanza_line-field :
    (m : Stanza) (last : Bytes) (f : Field)
    → IsField f
    → lookup (field_key f) m ≡ none
    → read_stanza_line
        (record { cur = m; last_key = last })
        (field_key f ++ (codes ": " ++ f.value))
      ≡ (record { cur = m ++ ((field_key f, f.value) ∷ []); last_key = field_key f }, [])
unfolding read_stanza_line
read_stanza_line-field m last f h absent =
    rw (h.starts)
      (ap (λ r. (r, [])) (read_field-key m last (field_key f) f.value h.no_colon h.trimmed absent))

read_stanza_line_blank :
    (m : Stanza) (e : Bytes × Bytes) (last : Bytes)
    → read_stanza_line (record { cur = e ∷ m; last_key = last }) [] ≡ (no_stanza, (e ∷ m) ∷ [])
unfolding read_stanza_line
read_stanza_line_blank m e last = refl

read_lines_next :
    (r : StanzaReader) (line : Bytes) (lines : List Bytes)
    → read_lines r (line ∷ lines)
      ≡ (read_stanza_line r line).1 ++ read_lines (read_stanza_line r line).0 lines
unfolding read_lines
read_lines_next r line lines = refl

module _ (m : Stanza) (k : Bytes) (absent : lookup k m ≡ none) (named : is_empty k ≡ false) where
  continue_field-line :
      (v l : Bytes)
      → IsTrimmed l
      → continue_field (record { cur = m ++ ((k, v) ∷ []); last_key = k }) (b' ' ∷ l)
        ≡ record { cur = m ++ ((k, v ++ (10 ∷ l)) ∷ []); last_key = k }
  unfolding continue_field
  continue_field-line v l t = rw (
    named,
    field_last k v m absent,
    trim_space-space l t,
    insert_last k v (v ++ (10 ∷ l)) m absent,
  )

  read_lines-more :
      (v : Bytes) (ls rest : List Bytes)
      → All IsTrimmed ls
      → read_lines (record { cur = m ++ ((k, v) ∷ []); last_key = k }) (continued ls rest)
        ≡ read_lines (record { cur = m ++ ((k, folded v ls) ∷ []); last_key = k }) rest
  unfolding read_lines read_stanza_line
  read_lines-more v [] rest h = refl
  read_lines-more v (l ∷ ls) rest h =
      rw (continue_field-line v l h.0) (read_lines-more (v ++ (10 ∷ l)) ls rest h.1)

-- A field with the lines that continue it.
read_lines-field :
    (m : Stanza) (last : Bytes) (f : Field) (rest : List Bytes)
    → IsField f
    → lookup (field_key f) m ≡ none
    → read_lines (record { cur = m; last_key = last }) (field_lines f rest)
      ≡ read_lines (record { cur = m ++ (entry f ∷ []); last_key = field_key f }) rest
read_lines-field m last f rest h absent =
    read_lines_next (record { cur = m; last_key = last }) (field_key f ++ (codes ": " ++ f.value))
      (continued f.more rest)
    ∙ (rw (read_stanza_line-field m last f h absent)
        (read_lines-more m (field_key f) absent refl f.value f.more rest h.more_trimmed))

-- A stanza behind what is already read of it.
read_lines-stanza_rest :
    (m : Stanza) (e : Bytes × Bytes) (last : Bytes) (fs : List Field) (rest : List Bytes)
    → All IsField fs
    → AreNew (e ∷ m) fs
    → read_lines (record { cur = e ∷ m; last_key = last }) (stanza_lines fs rest)
      ≡ ((e ∷ m) ++ map entry fs) ∷ read_lines no_stanza rest
read_lines-stanza_rest m e last [] rest v n =
    read_lines_next (record { cur = e ∷ m; last_key = last }) [] rest
    ∙ (rw (read_stanza_line_blank m e last, append-nil m))
read_lines-stanza_rest m e last (f ∷ fs) rest v n =
    read_lines-field (e ∷ m) last f (stanza_lines fs rest) v.0 n.0
    ∙ (read_lines-stanza_rest (m ++ (entry f ∷ [])) e (field_key f) fs rest v.1 n.1
        ∙ (rw (append_assoc m (entry f ∷ []) (map entry fs))))

-- A stanza as it may stand in a file: it has a field, and no key twice.
pub record IsStanza (fs : List Field) : Type 0 where
  pub some_field : fs ≢ []
  pub fields : All IsField fs
  pub keys : AreNew [] fs

read_lines-stanza :
    (fs : List Field) (rest : List Bytes)
    → IsStanza fs
    → read_lines no_stanza (stanza_lines fs rest) ≡ map entry fs ∷ read_lines no_stanza rest
read_lines-stanza [] rest h = absurd (h.some_field refl)
read_lines-stanza (f ∷ fs) rest h =
    read_lines-field [] [] f (stanza_lines fs rest) h.fields.0 h.keys.0
    ∙ read_lines-stanza_rest [] (entry f) (field_key f) fs rest h.fields.1 h.keys.1

read_lines-file :
    (file : List (List Field))
    → All IsStanza file
    → read_lines no_stanza (file_lines file) ≡ map (map entry) file
unfolding read_lines
read_lines-file [] h = refl
read_lines-file (fs ∷ file) h =
    read_lines-stanza fs (file_lines file) h.0 ∙ ap (◌∷◌ (map entry fs)) (read_lines-file file h.1)

-- `readStanzas` on a file of stanzas, each with its fields as `Key: value` lines, the further lines
-- of a value behind one space, and a blank line at its end, emits those stanzas in order, with the
-- lines of each value joined by newlines, and without an error. This is for values without white
-- space at the ends of a line, keys that stand once in a stanza, and lines that fit the scanner.
pub read_stanzas-file :
    (file : List (List Field))
    → All IsStanza file
    → All (IsScannable (4 * 2 ^ 20)) (file_lines file)
    → read_stanzas (unlines (file_lines file)) ≡ (map (map entry) file, false)
unfolding read_stanzas
read_stanzas-file file h k =
    rw (scan_lines-unlines (4 * 2 ^ 20) (file_lines file) k, read_lines-file file h)
