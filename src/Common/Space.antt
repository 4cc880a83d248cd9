-- ===== src/Common/Space.antt =====
-- `strings.TrimSpace` and `strings.Fields`: white space as package unicode has it, in UTF-8.
use fleetmind.Common.{
  ℕ, zero, suc, Bool, ◌&&◌, ◌||◌, [], ◌∷◌, ◌≡◌, refl, reverse, leb, ◌==◌, if◌then◌else◌,
  reverse-reverse, All, List, true, arith, false, sym, ◌++◌, append-nil, ◌∙◌, ap, append_assoc,
}
use fleetmind.Common.Text.{Bytes, is_empty}

abbrev pub is_ascii_space : ℕ → Bool
is_ascii_space c = c == b' ' || (leb 9 c && leb c 13)

-- U+0085 and U+00A0
abbrev is_space_2 : ℕ → ℕ → Bool
is_space_2 a b = a == 0xC2 && (b == 0x85 || b == 0xA0)

-- U+1680, U+2000 to U+200A, U+2028, U+2029, U+202F, U+205F and U+3000
abbrev is_space_3 : ℕ → ℕ → ℕ → Bool
is_space_3 a b c =
    (a == 0xE1 && b == 0x9A && c == 0x80)
    || (a == 0xE2
        && b == 0x80
        && ((leb 0x80 c && leb c 0x8A) || c == 0xA8 || c == 0xA9 || c == 0xAF))
    || (a == 0xE2 && b == 0x81 && c == 0x9F)
    || (a == 0xE3 && b == 0x80 && c == 0x80)

-- How many bytes of white space a text begins with, as far as its first character goes.
unfoldable pub space_width : Bytes → ℕ
space_width [] = 0
space_width (a ∷ []) = if is_ascii_space a then 1 else 0
space_width (a ∷ b ∷ []) = if is_ascii_space a then 1 else if is_space_2 a b then 2 else 0
space_width (a ∷ b ∷ c ∷ s) =
    if is_ascii_space a then 1 else if is_space_2 a b then 2 else if is_space_3 a b c then 3 else 0

-- The same at the end of a text, which is given in reverse.
unfoldable pub space_width_back : Bytes → ℕ
space_width_back [] = 0
space_width_back (c ∷ []) = if is_ascii_space c then 1 else 0
space_width_back (c ∷ b ∷ []) = if is_ascii_space c then 1 else if is_space_2 b c then 2 else 0
space_width_back (c ∷ b ∷ a ∷ s) =
    if is_ascii_space c then 1 else if is_space_2 b c then 2 else if is_space_3 a b c then 3 else 0

-- The number is how many bytes of a character that was found to be white space are left.
unfoldable pub drop_spaces : (Bytes → ℕ) → ℕ → Bytes → Bytes
drop_spaces width n [] = []
drop_spaces width (suc n) (c ∷ s) = drop_spaces width n s
drop_spaces width zero (c ∷ s) = elim (width (c ∷ s)) [
  | zero ↦ c ∷ s
  | suc w ↦ drop_spaces width w s
]

unfoldable pub trim_space : Bytes → Bytes
trim_space s = reverse (drop_spaces space_width_back 0 (reverse (drop_spaces space_width 0 s)))

-- A text that has no white space at either end.
pub record IsTrimmed (s : Bytes) : Type 0 where
  pub front : space_width s ≡ 0
  pub back : space_width_back (reverse s) ≡ 0

pub drop_spaces_none : (width : Bytes → ℕ) (s : Bytes) → width s ≡ 0 → drop_spaces width 0 s ≡ s
unfolding drop_spaces
drop_spaces_none width [] h = refl
drop_spaces_none width (c ∷ s) h = rw (h, drop_spaces)

pub trim_space-IsTrimmed : (s : Bytes) → IsTrimmed s → trim_space s ≡ s
unfolding trim_space
trim_space-IsTrimmed s t =
    rw
      (drop_spaces_none space_width s t.front, drop_spaces_none space_width_back (reverse s) t.back)
      (reverse-reverse s)

space_width-space : (s : Bytes) → space_width (b' ' ∷ s) ≡ 1
unfolding space_width
space_width-space [] = refl
space_width-space (a ∷ []) = refl
space_width-space (a ∷ b ∷ s) = refl

pub drop_spaces-space :
    (s : Bytes) → drop_spaces space_width 0 (b' ' ∷ s) ≡ drop_spaces space_width 0 s
unfolding drop_spaces
drop_spaces-space s = rw (space_width-space s, drop_spaces)

-- One space in front is dropped.
pub trim_space-space : (s : Bytes) → IsTrimmed s → trim_space (b' ' ∷ s) ≡ s
unfolding trim_space
trim_space-space s t = rw (drop_spaces-space s) (unfold trim_space in trim_space-IsTrimmed s t)

-- A word that has been read so far, if there is one.
abbrev pub flush : Bytes → List Bytes
flush [] = []
flush (c ∷ word) = (c ∷ word) ∷ []

-- `strings.Fields`, behind what is read of a word; the number is as in `drop_spaces`.
unfoldable pub fields_from : Bytes → ℕ → Bytes → List Bytes
fields_from word n [] = flush word
fields_from word (suc n) (c ∷ s) = fields_from word n s
fields_from word zero (c ∷ s) = elim (space_width (c ∷ s)) [
  | zero ↦ fields_from (word ++ (c ∷ [])) zero s
  | suc w ↦ flush word ++ fields_from [] w s
]

unfoldable pub fields : Bytes → List Bytes
fields s = fields_from [] 0 s

-- A printable ASCII character that is not the space.
abbrev pub is_graphic : ℕ → Bool
is_graphic c = leb 0x21 c && leb c 0x7E

-- A word as the kernel prints it.
pub record IsWord (s : Bytes) : Type 0 where
  pub some_byte : is_empty s ≡ false
  pub graphic : All (λ c. is_graphic c ≡ true) s

pub space_width-graphic : (c : ℕ) (s : Bytes) → is_graphic c ≡ true → space_width (c ∷ s) ≡ 0
unfolding space_width
space_width-graphic c [] h = ground arith
space_width-graphic c (a ∷ []) h = ground arith
space_width-graphic c (a ∷ b ∷ s) h = ground arith

fields_from-graphic :
    (word s rest : Bytes)
    → All (λ c. is_graphic c ≡ true) s
    → fields_from word 0 (s ++ rest) ≡ fields_from (word ++ s) 0 rest
unfolding fields_from
fields_from-graphic word [] rest h = rw (append-nil word)
fields_from-graphic word (c ∷ s) rest h =
    rw (space_width-graphic c (s ++ rest) h.0, fields_from)
      (fields_from-graphic (word ++ (c ∷ [])) s rest h.1 ∙ (rw (append_assoc word (c ∷ []) s)))

-- Words with a space between each two.
abbrev pub unwords : List Bytes → Bytes
unwords [] = []
unwords (w ∷ []) = w
unwords (w ∷ v ∷ ws) = w ++ (b' ' ∷ unwords (v ∷ ws))

flush-IsWord : (w : Bytes) → is_empty w ≡ false → flush w ≡ w ∷ []
flush-IsWord [] h = ground arith
flush-IsWord (c ∷ w) h = refl

fields_from-space :
    (w s : Bytes) → is_empty w ≡ false → fields_from w 0 (b' ' ∷ s) ≡ w ∷ fields_from [] 0 s
unfolding fields_from
fields_from-space w s h = rw (space_width-space s, fields_from, flush-IsWord w h)

pub fields-unwords : (ws : List Bytes) → All IsWord ws → fields (unwords ws) ≡ ws
unfolding fields fields_from
fields-unwords [] h = refl
fields-unwords (w ∷ []) h =
    ap fields (sym (append-nil w))
    ∙ fields_from-graphic [] w [] h.0.graphic
    ∙ flush-IsWord w h.0.some_byte
fields-unwords (w ∷ v ∷ ws) h =
    fields_from-graphic [] w (b' ' ∷ unwords (v ∷ ws)) h.0.graphic
    ∙ fields_from-space w (unwords (v ∷ ws)) h.0.some_byte
    ∙ ap (◌∷◌ w) (fields-unwords (v ∷ ws) h.1)
