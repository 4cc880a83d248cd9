-- ===== src/Common/Decimal.antt =====
-- Numbers that are printed are read back.
use fleetmind.Common.Int.{pos}
use fleetmind.Common.Text.{Bytes, is_empty}
use fleetmind.Common.{
  ℕ, ◌<◌, ◌*◌, ◌^◌, ◌+◌, ◌≡◌, suc, ◌∷◌, Bool-cases, arith, ◌/◌, ◌==◌, inl, ◌%◌, ◌∙◌, inr, All, ap,
  false, ==_iff, [], true, zero, min, ◌-◌, refl,
}
use fleetmind.Common.Number.{is_digit, decimal_from, itoa, uint_from, parse_uint, atoi_value}
use fleetmind.Common.Space.{is_graphic, IsWord}

uint_from-digit :
    (m d : ℕ) (acc : Bytes)
    → d < 10
    → m * 10 + d < 2 ^ 64
    → uint_from m ((d + b'0') ∷ acc) ≡ uint_from (m * 10 + d) acc
unfolding uint_from is_digit
uint_from-digit m d acc h k = ground arith

quotient_lt : (n fuel : ℕ) → n < suc fuel → (n / 10 == 0) ≡ false → n / 10 < fuel
quotient_lt n fuel h e = ground arith

-- With fuel for each of its digits, a number is read from where its digits begin.
uint_from-decimal_from :
    (fuel n : ℕ) (acc : Bytes)
    → n < fuel
    → n < 2 ^ 64
    → uint_from 0 (decimal_from fuel n acc) ≡ uint_from n acc
unfolding decimal_from
uint_from-decimal_from zero n acc h k = ground arith
uint_from-decimal_from (suc fuel) n acc h k = elim (Bool-cases (n / 10 == 0)) [
  | inl e ↦ rw e (
      uint_from-digit 0 (n % 10) acc (omega arith) (omega arith)
      ∙ ap (λ m. uint_from m acc) (omega (arith, (==_iff (n / 10) 0).0 e)))
  | inr e ↦ rw e (
      uint_from-decimal_from fuel (n / 10) ((n % 10 + b'0') ∷ acc) (quotient_lt n fuel h e)
        (omega arith)
      ∙ uint_from-digit (n / 10) (n % 10) acc (omega arith) (omega arith)
      ∙ ap (λ m. uint_from m acc) (omega arith))
]

-- The text of a number has a digit.
decimal_from-some_byte :
    (fuel n : ℕ) (acc : Bytes) → is_empty acc ≡ false → is_empty (decimal_from fuel n acc) ≡ false
unfolding decimal_from
decimal_from-some_byte zero n acc h = h
decimal_from-some_byte (suc fuel) n acc h =
    ground (arith, decimal_from-some_byte fuel (n / 10) ((n % 10 + b'0') ∷ acc))

decimal_from-digits :
    (fuel n : ℕ) (acc : Bytes)
    → All (λ c. is_digit c ≡ true) acc
    → All (λ c. is_digit c ≡ true) (decimal_from fuel n acc)
unfolding decimal_from is_digit
decimal_from-digits zero n acc h = h
decimal_from-digits (suc fuel) n acc h =
    ground (arith, decimal_from-digits fuel (n / 10) ((n % 10 + b'0') ∷ acc))

decimal_step-some_byte : (n : ℕ) → is_empty (decimal_from (suc n) n []) ≡ false
unfolding decimal_from
decimal_step-some_byte n = ground (arith, decimal_from-some_byte n (n / 10) ((n % 10 + b'0') ∷ []))

parse_uint-from : (s : Bytes) → is_empty s ≡ false → parse_uint s ≡ uint_from 0 s
unfolding parse_uint
parse_uint-from [] h = ground arith
parse_uint-from (c ∷ s) h = refl

uint_from_end : (n : ℕ) → uint_from n [] ≡ (n, true)
unfolding uint_from
uint_from_end n = refl

pub parse_uint-decimal_from :
    (n : ℕ) → n < 2 ^ 64 → parse_uint (decimal_from (suc n) n []) ≡ (n, true)
parse_uint-decimal_from n h =
    parse_uint-from (decimal_from (suc n) n []) (decimal_step-some_byte n)
    ∙ uint_from-decimal_from (suc n) n [] (omega arith) h
    ∙ uint_from_end n

-- A text that begins with a digit has no sign.
atoi_value-digits :
    (s : Bytes)
    → All (λ c. is_digit c ≡ true) s
    → atoi_value s ≡ pos (min (parse_uint s).0 (2 ^ 63 - 1))
unfolding atoi_value is_digit parse_uint
atoi_value-digits [] h = refl
atoi_value-digits (c ∷ s) h = ground arith

pub atoi_value-itoa : (n : ℕ) → n < 2 ^ 63 → atoi_value (itoa (pos n)) ≡ pos n
unfolding itoa
atoi_value-itoa n h =
    atoi_value-digits (decimal_from (suc n) n []) (decimal_from-digits (suc n) n [] tt)
    ∙ (rw (parse_uint-decimal_from n (omega arith)) (ap pos (omega arith)))

digits-graphic : (s : Bytes) → All (λ c. is_digit c ≡ true) s → All (λ c. is_graphic c ≡ true) s
unfolding is_digit
digits-graphic [] h = tt
digits-graphic (c ∷ s) h = (ground arith, digits-graphic s h.1)

pub itoa-digits : (n : ℕ) → All (λ c. is_digit c ≡ true) (itoa (pos n))
unfolding itoa
itoa-digits n = decimal_from-digits (suc n) n [] tt

pub itoa-IsWord : (n : ℕ) → IsWord (itoa (pos n))
unfolding itoa
itoa-IsWord n = record {
  some_byte = decimal_step-some_byte n;
  graphic = digits-graphic (decimal_from (suc n) n []) (decimal_from-digits (suc n) n [] tt);
}
