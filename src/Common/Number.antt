-- ===== src/Common/Number.antt =====
-- Numbers in texts: `strconv.Atoi` and `strconv.ParseUint(s, 10, 64)`.
use fleetmind.Common.{
  ℕ, ◌+◌, ◌-◌, ◌*◌, ◌^◌, Bool, true, ◌&&◌, Option, none, some, [], ◌∷◌, ltb, leb, ◌==◌,
  if◌then◌else◌, false, min, not, suc, ◌/◌, ◌%◌, zero,
}
use fleetmind.Common.Text.{Bytes}
use fleetmind.Common.Int.{ℤ, pos, negsuc}

unfoldable pub is_digit : ℕ → Bool
is_digit c = leb b'0' c && leb c b'9'

unfoldable pub all_digits : Bytes → Bool
unfolding is_digit
all_digits [] = true
all_digits (c ∷ s) = is_digit c && all_digits s

-- The value of a run of digits read from the left, behind the digits that `acc` stands for.
unfoldable pub decimal : ℕ → Bytes → ℕ
decimal acc [] = acc
decimal acc (c ∷ s) = decimal (acc * 10 + (c - b'0')) s

-- A run of at least one digit.
unfoldable pub natural : Bytes → Option ℕ
unfolding all_digits decimal
natural [] = none
natural (c ∷ s) = if all_digits (c ∷ s) then some (decimal 0 (c ∷ s)) else none

-- -n for 0 ≤ n
abbrev pub negate : ℕ → ℤ
negate n = if n == 0 then pos 0 else negsuc (n - 1)

abbrev non_negative : Option ℕ → Option ℤ
non_negative none = none
non_negative (some n) = if ltb n (2 ^ 63) then some (pos n) else none

abbrev non_positive : Option ℕ → Option ℤ
non_positive none = none
non_positive (some n) = if leb n (2 ^ 63) then some (negate n) else none

-- `strconv.Atoi` on a 64-bit machine; `none` stands for its two errors.
unfoldable pub atoi : Bytes → Option ℤ
unfolding natural
atoi [] = none
atoi (c ∷ s) =
    if c == b'-'
    then non_positive (natural s)
    else if c == b'+'
    then non_negative (natural s)
    else non_negative (natural (c ∷ s))

-- `strconv.Itoa`: the digits of a number, from the last one on, with fuel for them.
unfoldable pub decimal_from : ℕ → ℕ → Bytes → Bytes
decimal_from zero n acc = acc
decimal_from (suc fuel) n acc =
    let rest = decimal_from fuel (n / 10) ((n % 10 + b'0') ∷ acc) in
    if n / 10 == 0 then (n % 10 + b'0') ∷ acc else rest

unfoldable pub itoa : ℤ → Bytes
itoa (pos n) = decimal_from (suc n) n []
itoa (negsuc n) = b'-' ∷ decimal_from (suc (suc n)) (suc n) []

-- `strconv.ParseUint(s, 10, 64)`: the value, and whether there was no error. A number that is out
-- of range gives the greatest one, before what follows it is looked at.
unfoldable pub uint_from : ℕ → Bytes → ℕ × Bool
unfolding is_digit
uint_from n [] = (n, true)
uint_from n (c ∷ s) =
    let rest = uint_from (n * 10 + (c - b'0')) s in
    if not (is_digit c)
    then (0, false)
    else if leb (2 ^ 64) (n * 10 + (c - b'0'))
    then (2 ^ 64 - 1, false)
    else rest

unfoldable pub parse_uint : Bytes → ℕ × Bool
unfolding uint_from
parse_uint [] = (0, false)
parse_uint (c ∷ s) = uint_from 0 (c ∷ s)

-- What `strconv.Atoi` returns beside its error: 0 for a text that is no number, and the nearest
-- int64 for a number out of range.
unfoldable pub atoi_value : Bytes → ℤ
atoi_value [] = pos 0
atoi_value (c ∷ s) =
    if c == b'-'
    then negate (min (parse_uint s).0 (2 ^ 63))
    else if c == b'+'
    then pos (min (parse_uint s).0 (2 ^ 63 - 1))
    else pos (min (parse_uint (c ∷ s)).0 (2 ^ 63 - 1))
