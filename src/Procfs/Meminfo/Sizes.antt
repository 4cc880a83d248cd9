-- ===== src/Procfs/Meminfo/Sizes.antt =====
-- What `MemInfo` finds in a table as the kernel prints it.
use fleetmind.Common.Cut.{index_byte-append, take-append, drop-suc-append}
use fleetmind.Common.Scanner.{IsScannable, unlines, scan_lines-unlines}
use fleetmind.Common.Decimal.{itoa-IsWord, parse_uint-decimal_from}
use fleetmind.Common.Int.{pos}
use fleetmind.Common.Dict.{Dict, insert}
use fleetmind.Common.Number.{itoa, parse_uint}
use fleetmind.Common.Text.{Bytes, codes, equal, is_empty}
use fleetmind.Common.{
  All-reverse, List, ℕ, All, reverse, suc, ◌++◌, ◌<◌, ◌≡◌, arith, map, reverse-append, ◌*◌, ◌==◌,
  ◌^◌, ◌∷◌, [], false, refl, zero, ◌∙◌, true, ◌%◌, ap, subst, append-nil, append_assoc, List-cases,
  inl, reverse-reverse, inr,
}
use fleetmind.Procfs.Meminfo.{is_kb, meminfo, meminfo_line, meminfo_lines, store_fields}
use fleetmind.Common.Space.{
  is_graphic, IsTrimmed, IsWord, space_width_back, trim_space, drop_spaces, space_width, unwords,
  drop_spaces-space, trim_space-IsTrimmed, space_width-graphic, fields-unwords,
}

-- What follows the number of a line: kB, nothing, or another word.
pub data Suffix : Type 0 where
  kb : Suffix
  bare : Suffix
  other : Bytes → Suffix

-- A line of the table.
pub record Size : Type 0 where
  pub name : Bytes
  pub number : ℕ
  pub suffix : Suffix
  pub padding : ℕ

abbrev spaces : ℕ → Bytes → Bytes
spaces zero s = s
spaces (suc n) s = b' ' ∷ spaces n s

abbrev words : ℕ → Suffix → List Bytes
words n kb = itoa (pos n) ∷ codes "kB" ∷ []
words n bare = itoa (pos n) ∷ []
words n (other w) = itoa (pos n) ∷ w ∷ []

abbrev amount : Size → Bytes
amount s = unwords (words s.number s.suffix)

-- `MemTotal:       16316412 kB`, `HugePages_Total:       0`
abbrev pub print_size : Size → Bytes
print_size s = s.name ++ (b':' ∷ spaces s.padding (amount s))

abbrev pub bytes_of : ℕ → Suffix → ℕ
bytes_of n kb = n * 1024
bytes_of n bare = n
bytes_of n (other w) = n

-- Another word is printable and is not kB, in whatever case.
abbrev pub IsSuffix : Suffix → Type 0
IsSuffix kb = Unit
IsSuffix bare = Unit
IsSuffix (other w) =
    IsWord w
    × (equal w (codes "kB") ≡ false)
    × (equal w (codes "KB") ≡ false)
    × (equal w (codes "kb") ≡ false)
    × (equal w (codes "Kb") ≡ false)

-- What is stored fits a uint64.
pub record IsSize (s : Size) : Type 0 where
  pub trimmed : IsTrimmed s.name
  pub no_colon : All (λ c. (c == b':') ≡ false) s.name
  pub apart : IsSuffix s.suffix
  pub fits : bytes_of s.number s.suffix < 2 ^ 64

-- The sizes in bytes and the bare numbers, each under its name; a later line replaces an earlier one
-- of its name.
abbrev pub stored : List Size → Dict ℕ → Dict ℕ
stored [] m = m
stored (s ∷ ss) m = stored ss (insert s.name (bytes_of s.number s.suffix) m)

drop_spaces-spaces :
    (n : ℕ) (s : Bytes) → drop_spaces space_width 0 (spaces n s) ≡ drop_spaces space_width 0 s
drop_spaces-spaces zero s = refl
drop_spaces-spaces (suc n) s = drop_spaces-space (spaces n s) ∙ drop_spaces-spaces n s

trim_space-spaces : (n : ℕ) (s : Bytes) → IsTrimmed s → trim_space (spaces n s) ≡ s
unfolding trim_space
trim_space-spaces n s t =
    rw (drop_spaces-spaces n s) (unfold trim_space in trim_space-IsTrimmed s t)

amount-front : (s : Bytes) (rest : Bytes) → IsWord s → space_width (s ++ rest) ≡ 0
amount-front [] rest h = ground (arith, h.some_byte)
amount-front (c ∷ s) rest h = space_width-graphic c (s ++ rest) h.graphic.0

graphic-back :
    (s rest : Bytes)
    → All (λ c. is_graphic c ≡ true) s
    → is_empty s ≡ false
    → space_width_back (s ++ rest) ≡ 0
unfolding space_width_back
graphic-back [] rest h some = cc
graphic-back (c ∷ []) [] h some = ground arith
graphic-back (c ∷ []) (b ∷ []) h some = ground arith
graphic-back (c ∷ []) (b ∷ a ∷ rest) h some = ground arith
graphic-back (c ∷ b ∷ []) [] h some = ground arith
graphic-back (c ∷ b ∷ []) (a ∷ rest) h some = ground arith
graphic-back (c ∷ b ∷ a ∷ s) rest h some = ground arith

reverse_some : (s : Bytes) → is_empty s ≡ false → is_empty (reverse s) ≡ false
reverse_some s h = elim (List-cases (reverse s)) [
  | inl e ↦ cc (h, ap reverse e, reverse-reverse s)
  | inr (c, cs, e) ↦ rw e
]

-- A text that ends in a word has no white space at its end.
word-back : (s w : Bytes) → IsWord w → space_width_back (reverse (s ++ w)) ≡ 0
word-back s w h = rw (reverse-append s w) (
    graphic-back (reverse w) (reverse s) (All-reverse (λ c. is_graphic c ≡ true) w h.graphic)
      (reverse_some w h.some_byte))

two_words-back : (v w : Bytes) → IsWord w → space_width_back (reverse (unwords (v ∷ w ∷ []))) ≡ 0
two_words-back v w h =
    subst (λ s. space_width_back (reverse s) ≡ 0) (append_assoc v (codes " ") w)
      (word-back (v ++ codes " ") w h)

kb-IsWord : IsWord (codes "kB")
kb-IsWord = record { some_byte = refl; graphic = ground arith }

words-IsTrimmed : (n : ℕ) (b : Suffix) → IsSuffix b → IsTrimmed (unwords (words n b))
words-IsTrimmed n kb h = record {
  front = amount-front (itoa (pos n)) (codes " kB") (itoa-IsWord n);
  back = two_words-back (itoa (pos n)) (codes "kB") kb-IsWord;
}
words-IsTrimmed n bare h = record {
  front =
      subst (λ s. space_width s ≡ 0) (append-nil (itoa (pos n)))
        (amount-front (itoa (pos n)) [] (itoa-IsWord n));
  back = word-back [] (itoa (pos n)) (itoa-IsWord n);
}
words-IsTrimmed n (other w) h = record {
  front = amount-front (itoa (pos n)) (b' ' ∷ w) (itoa-IsWord n);
  back = two_words-back (itoa (pos n)) w h.0;
}

words-IsWord : (n : ℕ) (b : Suffix) → IsSuffix b → All IsWord (words n b)
words-IsWord n kb h = (itoa-IsWord n, (kb-IsWord, tt))
words-IsWord n bare h = (itoa-IsWord n, tt)
words-IsWord n (other w) h = (itoa-IsWord n, (h.0, tt))

is_kb-other : (w : Bytes) → IsSuffix (other w) → is_kb w ≡ false
unfolding is_kb equal
is_kb-other [] h = refl
is_kb-other (k ∷ []) h = refl
is_kb-other (k ∷ b ∷ []) h = ground arith
is_kb-other (k ∷ l ∷ m ∷ []) h = refl
is_kb-other (k ∷ l ∷ m ∷ b ∷ []) h = ground (arith, h.0.graphic.0)
is_kb-other (k ∷ l ∷ m ∷ b ∷ c ∷ s) h = refl

parse_uint-itoa : (n : ℕ) → n < 2 ^ 64 → parse_uint (itoa (pos n)) ≡ (n, true)
unfolding itoa
parse_uint-itoa n h = parse_uint-decimal_from n h

store_fields-words :
    (name : Bytes) (n : ℕ) (b : Suffix) (out : Dict ℕ)
    → IsSuffix b
    → bytes_of n b < 2 ^ 64
    → store_fields name (words n b) out ≡ insert name (bytes_of n b) out
store_fields-words name n kb out a h =
    let e : n * 1024 % 2 ^ 64 ≡ n * 1024 = omega arith in
    unfold is_kb in rw (parse_uint-itoa n (omega arith), e)
store_fields-words name n bare out a h = rw (parse_uint-itoa n h)
store_fields-words name n (other w) out a h = rw (parse_uint-itoa n h, is_kb-other w a)

meminfo_line-print :
    (s : Size) (out : Dict ℕ)
    → IsSize s
    → meminfo_line (print_size s) out ≡ insert s.name (bytes_of s.number s.suffix) out
unfolding meminfo_line
meminfo_line-print s out h = rw (
  index_byte-append b':' s.name (spaces s.padding (amount s)) h.no_colon,
  meminfo_line,
  take-append s.name (b':' ∷ spaces s.padding (amount s)),
  drop-suc-append s.name (spaces s.padding (amount s)) b':',
  trim_space-IsTrimmed s.name h.trimmed,
  trim_space-spaces s.padding (amount s) (words-IsTrimmed s.number s.suffix h.apart),
  fields-unwords (words s.number s.suffix) (words-IsWord s.number s.suffix h.apart),
  store_fields-words s.name s.number s.suffix out h.apart h.fits,
)

meminfo_lines-print :
    (ss : List Size) (out : Dict ℕ)
    → All IsSize ss
    → meminfo_lines (map print_size ss) out ≡ stored ss out
unfolding meminfo_lines
meminfo_lines-print [] out h = refl
meminfo_lines-print (s ∷ ss) out h =
    ap (meminfo_lines (map print_size ss)) (meminfo_line-print s out h.0)
    ∙ (meminfo_lines-print ss (insert s.name (bytes_of s.number s.suffix) out) h.1)

-- `MemInfo` on a table as the kernel prints it, with any padding, stores under its name, without an
-- error, each size that is given in kB, in bytes, and each number that has no unit, or that another
-- printable word than kB in any case follows, as it is. This is for names without colons and without
-- white space at their ends, values that fit a uint64 when they are stored, and lines that fit the
-- scanner.
pub meminfo-print :
    (ss : List Size)
    → All IsSize ss
    → All (IsScannable (2 ^ 16)) (map print_size ss)
    → meminfo (unlines (map print_size ss)) ≡ (stored ss [], false)
unfolding meminfo
meminfo-print ss h k =
    rw (scan_lines-unlines (2 ^ 16) (map print_size ss) k, meminfo_lines-print ss [] h)
