-- ===== src/Aptdb/Version/Runs.antt =====
-- The comparisons of one round, on runs of non-digits and of digits, are total preorders.
use fleetmind.Common.{ℕ, Ordering, ◌≡◌, refl, [], ◌∷◌, arith}
use fleetmind.Common.Int.{ℤ}
use fleetmind.Common.Text.{Bytes, before_irrefl, before_asymm, before_trans, before_total}
use fleetmind.Aptdb.Version.{
  or_else, weight, compare_int, compare_byte, compare_non_digit, compare_trimmed, compare_digits,
  trim_zeros,
}
use fleetmind.Aptdb.Version.Chain.{flip, Chains, Chains-eq_left, Chains-eq_right}

pub weight_injective : (x y : ℕ) → weight x ≡ weight y → x ≡ y
unfolding weight
weight_injective x y h = ground arith

pub compare_int-flip : (a b : ℤ) → compare_int b a ≡ flip (compare_int a b)
unfolding compare_int
compare_int-flip a b = ground arith

pub compare_int-Chains : (a b c : ℤ) → Chains (compare_int a b) (compare_int b c) (compare_int a c)
unfolding compare_int or_else
compare_int-Chains a b c p q = ground arith

pub compare_int_eq : (a b : ℤ) → compare_int a b ≡ Ordering.eq → a ≡ b
unfolding compare_int
compare_int_eq a b h = ground arith

compare_byte-flip :
    (x y : ℕ) (r s : Ordering) → s ≡ flip r → compare_byte y x s ≡ flip (compare_byte x y r)
unfolding compare_byte
compare_byte-flip x y r s h = ground (arith, compare_int-flip (weight x) (weight y))

-- Two bytes of the same weight are the same.
weight_eq : (x y : ℕ) → compare_int (weight x) (weight y) ≡ Ordering.eq → x ≡ y
weight_eq x y h = weight_injective x y (compare_int_eq _ _ h)

compare_byte-Chains :
    (x y z : ℕ) (r s t : Ordering)
    → Chains r s t
    → Chains (compare_byte x y r) (compare_byte y z s) (compare_byte x z t)
unfolding compare_byte or_else
compare_byte-Chains x y z r s t h p q = ground (
  arith,
  compare_int-Chains (weight x) (weight y) (weight z),
  compare_int-flip (weight x) (weight y),
  weight_eq x y,
  weight_eq y z,
  weight_eq x z,
)

pub compare_non_digit-flip : (a b : Bytes) → compare_non_digit b a ≡ flip (compare_non_digit a b)
unfolding compare_non_digit
compare_non_digit-flip [] [] = refl
compare_non_digit-flip [] (y ∷ b) = compare_byte-flip 0 y _ _ (compare_non_digit-flip [] b)
compare_non_digit-flip (x ∷ a) [] = compare_byte-flip x 0 _ _ (compare_non_digit-flip a [])
compare_non_digit-flip (x ∷ a) (y ∷ b) = compare_byte-flip x y _ _ (compare_non_digit-flip a b)

pub compare_non_digit-Chains :
    (a b c : Bytes) → Chains (compare_non_digit a b) (compare_non_digit b c) (compare_non_digit a c)
unfolding compare_non_digit
compare_non_digit-Chains [] [] [] = Chains-eq_left _
compare_non_digit-Chains [] [] (z ∷ c) = Chains-eq_left _
compare_non_digit-Chains [] (y ∷ b) [] =
    compare_byte-Chains 0 y 0 _ _ _ (compare_non_digit-Chains [] b [])
compare_non_digit-Chains [] (y ∷ b) (z ∷ c) =
    compare_byte-Chains 0 y z _ _ _ (compare_non_digit-Chains [] b c)
compare_non_digit-Chains (x ∷ a) [] [] = Chains-eq_right _
compare_non_digit-Chains (x ∷ a) [] (z ∷ c) =
    compare_byte-Chains x 0 z _ _ _ (compare_non_digit-Chains a [] c)
compare_non_digit-Chains (x ∷ a) (y ∷ b) [] =
    compare_byte-Chains x y 0 _ _ _ (compare_non_digit-Chains a b [])
compare_non_digit-Chains (x ∷ a) (y ∷ b) (z ∷ c) =
    compare_byte-Chains x y z _ _ _ (compare_non_digit-Chains a b c)

compare_trimmed-flip : (a b : Bytes) → compare_trimmed b a ≡ flip (compare_trimmed a b)
unfolding compare_trimmed
compare_trimmed-flip a b = ground (arith, before_asymm a b, before_asymm b a)

compare_trimmed-Chains :
    (a b c : Bytes) → Chains (compare_trimmed a b) (compare_trimmed b c) (compare_trimmed a c)
unfolding compare_trimmed or_else
compare_trimmed-Chains a b c p q = ground (
  arith,
  before_trans a b c,
  before_asymm a b,
  before_asymm b c,
  before_asymm a c,
  before_total a b,
  before_total b c,
  before_total a c,
  before_irrefl a,
)

pub compare_digits-flip : (a b : Bytes) → compare_digits b a ≡ flip (compare_digits a b)
unfolding compare_digits
compare_digits-flip a b = compare_trimmed-flip (trim_zeros a) (trim_zeros b)

pub compare_digits-Chains :
    (a b c : Bytes) → Chains (compare_digits a b) (compare_digits b c) (compare_digits a c)
unfolding compare_digits
compare_digits-Chains a b c = compare_trimmed-Chains (trim_zeros a) (trim_zeros b) (trim_zeros c)
