-- ===== src/Common/Text.antt =====
-- Go strings as lists of bytes, with the functions of package strings that the program calls.
use fleetmind.Common.Tests.{ltb, ◌==◌, if◌then◌else◌}
use fleetmind.Common.Lists.{length, take, drop}
use Prim.Native.Nat.{ℕ, suc, ◌-◌}
use Prim.Native.Char.{code}
use Prim.Native.String.{String}
use mathlib.Core.Path.{◌≡◌, refl}
use mathlib.Core.Logic.{◌↔◌}
use mathlib.Core.Bool.{Bool, true, false, ◌&&◌, ◌||◌}
use mathlib.Core.Option.{Option, none, some}
use mathlib.Core.Option
use mathlib.Core.List.{List, [], ◌∷◌, reverse}
use native.Mathlib.Omega.{arith}

abbrev pub Bytes : Type 0
Bytes = List ℕ

-- The bytes of a literal, which is ASCII.
abbrev pub codes : String → Bytes
codes String.[] = []
codes (String.◌∷◌ c s) = code c ∷ codes s

-- `a == b`
unfoldable pub equal : Bytes → Bytes → Bool
equal [] [] = true
equal (c ∷ s) (d ∷ t) = c == d && equal s t
equal _ _ = false

pub equal_iff : (s t : Bytes) → (equal s t ≡ true) ↔ (s ≡ t)
unfolding equal
equal_iff [] [] = ground arith
equal_iff (c ∷ s) (d ∷ t) = ground (arith, equal_iff s t)
equal_iff _ _ = ground arith

pub equal_refl : (a : Bytes) → equal a a ≡ true
equal_refl a = (equal_iff a a).1 refl

-- `seen[line]`, for a set of texts that is kept as a list.
unfoldable pub is_seen : Bytes → List Bytes → Bool
is_seen line [] = false
is_seen line (s ∷ seen) = equal s line || is_seen line seen

-- `a < b`: the order of bytes, position by position.
unfoldable pub before : Bytes → Bytes → Bool
before [] [] = false
before [] (y ∷ ys) = true
before (x ∷ xs) [] = false
before (x ∷ xs) (y ∷ ys) = ltb x y || (x == y && before xs ys)

pub before_irrefl : (a : Bytes) → before a a ≡ false
unfolding before
before_irrefl [] = refl
before_irrefl (x ∷ a) = ground (arith, before_irrefl a)

pub before_asymm : (a b : Bytes) → before a b ≡ true → before b a ≡ false
unfolding before
before_asymm [] (y ∷ b) h = refl
before_asymm (x ∷ a) (y ∷ b) h = ground (arith, before_asymm a b)
before_asymm _ [] h = ground arith

pub before_trans : (a b c : Bytes) → before a b ≡ true → before b c ≡ true → before a c ≡ true
unfolding before
before_trans (x ∷ a) (y ∷ b) (z ∷ c) h k = ground (arith, before_trans a b c)
before_trans [] _ (z ∷ c) h k = refl
before_trans _ _ _ h k = ground arith

-- Two strings neither of which is before the other are the same.
pub before_total : (a b : Bytes) → before a b ≡ false → before b a ≡ false → a ≡ b
unfolding before
before_total (x ∷ a) (y ∷ b) h k = ground (arith, before_total a b)
before_total _ _ h k = ground arith

-- `s == ""`
abbrev pub is_empty : Bytes → Bool
is_empty [] = true
is_empty (x ∷ s) = false

-- `strings.IndexByte`, with `none` for -1.
unfoldable pub index_byte : ℕ → Bytes → Option ℕ
index_byte c [] = none
index_byte c (x ∷ s) = if x == c then some 0 else Option.map suc (index_byte c s)

-- `strings.LastIndexByte`: the last place wins, so the rest is asked first.
unfoldable pub last_index_byte : ℕ → Bytes → Option ℕ
last_index_byte c [] = none
last_index_byte c (x ∷ s) = elim (last_index_byte c s) [
  | some i ↦ some (suc i)
  | none ↦ if x == c then some 0 else none
]

-- `strings.HasPrefix(s, p)`
unfoldable pub has_prefix : Bytes → Bytes → Bool
has_prefix s [] = true
has_prefix [] (y ∷ p) = false
has_prefix (x ∷ s) (y ∷ p) = x == y && has_prefix s p

-- `strings.HasSuffix(s, p)`
unfoldable pub has_suffix : Bytes → Bytes → Bool
unfolding has_prefix
has_suffix s p = has_prefix (reverse s) (reverse p)

-- `strings.LastIndex(s, p)`
unfoldable pub last_index : Bytes → Bytes → Option ℕ
unfolding has_prefix
last_index [] p = if has_prefix [] p then some 0 else none
last_index (x ∷ s) p = elim (last_index s p) [
  | some i ↦ some (suc i)
  | none ↦ if has_prefix (x ∷ s) p then some 0 else none
]

-- `strings.TrimPrefix(s, p)`
unfoldable pub trim_prefix : Bytes → Bytes → Bytes
unfolding has_prefix
trim_prefix s p = if has_prefix s p then drop (length p) s else s

-- `strings.TrimSuffix(s, p)`
unfoldable pub trim_suffix : Bytes → Bytes → Bytes
unfolding has_suffix
trim_suffix s p = if has_suffix s p then take (length s - length p) s else s

-- `strings.Contains(s, p)`
unfoldable pub contains : Bytes → Bytes → Bool
unfolding has_prefix
contains [] p = has_prefix [] p
contains (x ∷ s) p = has_prefix (x ∷ s) p || contains s p

-- The bytes that stand before the first one that fails the test, and the rest.
unfoldable pub span : (ℕ → Bool) → Bytes → Bytes × Bytes
span t [] = ([], [])
span t (x ∷ s) = let rest = span t s in if t x then (x ∷ rest.0, rest.1) else ([], x ∷ s)

-- `strings.TrimLeft(s, cutset)` for a cutset of ASCII bytes given by a test.
unfoldable pub trim_left : (ℕ → Bool) → Bytes → Bytes
trim_left t [] = []
trim_left t (x ∷ s) = let rest = trim_left t s in if t x then rest else x ∷ s

-- `strings.TrimRight(s, cutset)`
unfoldable pub trim_right : (ℕ → Bool) → Bytes → Bytes
unfolding trim_left
trim_right t s = reverse (trim_left t (reverse s))

-- `strings.Cut(s, sep)` at a separator of one byte; the flag is the third result.
unfoldable pub cut : ℕ → Bytes → Bytes × Bytes × Bool
unfolding index_byte
cut c s = elim (index_byte c s) [
  | none ↦ (s, [], false)
  | some i ↦ (take i s, drop (suc i) s, true)
]
