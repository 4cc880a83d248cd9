-- ===== src/Aptdb/Version.antt =====
-- internal/aptdb/version.go: the dpkg order of version strings. The results -1, 0 and 1 are
-- `lt`, `eq` and `gt`. A loop over an index is a recursion on the bytes from that index on.
pub mod Chain
mod Runs
pub mod Order
mod Tests
use fleetmind.Common.{
  ℕ, zero, suc, ◌+◌, Ordering, Bool, true, false, not, ◌&&◌, ◌||◌, Option, none, some, [], ◌∷◌,
  compare, leb, ◌==◌, if◌then◌else◌, length, take, drop,
}
use fleetmind.Common.Int.{ℤ, pos, negsuc, compare_ℤ}
use fleetmind.Common.Number.{is_digit, atoi}
use fleetmind.Common.Text.{Bytes, before, is_empty, index_byte, last_index_byte, span, trim_left}

unfoldable pub is_letter : ℕ → Bool
is_letter c = (leb b'a' c && leb c b'z') || (leb b'A' c && leb c b'Z')

-- The sort position of a byte: the tilde under the end of the string, letters under the others.
unfoldable pub weight : ℕ → ℤ
unfolding is_letter
weight c =
    if c == 0
    then pos 0
    else if c == b'~'
    then negsuc 0
    else if is_letter c
    then pos c
    else pos (c + 256)

unfoldable pub compare_int : ℤ → ℤ → Ordering
compare_int = compare_ℤ

-- One round at the bytes `x` and `y`, of which one may be the 0 behind the end of its string;
-- `rest` is what the later rounds return.
unfoldable pub compare_byte : ℕ → ℕ → Ordering → Ordering
unfolding compare_int
compare_byte x y rest = if x == y then rest else compare_int (weight x) (weight y)

unfoldable pub compare_non_digit : Bytes → Bytes → Ordering
unfolding compare_byte
compare_non_digit [] [] = Ordering.eq
compare_non_digit [] (y ∷ b) = compare_byte 0 y (compare_non_digit [] b)
compare_non_digit (x ∷ a) [] = compare_byte x 0 (compare_non_digit a [])
compare_non_digit (x ∷ a) (y ∷ b) = compare_byte x y (compare_non_digit a b)

unfoldable pub compare_trimmed : Bytes → Bytes → Ordering
compare_trimmed a b =
    if not (length a == length b)
    then compare (length a) (length b)
    else if before a b
    then Ordering.lt
    else if before b a
    then Ordering.gt
    else Ordering.eq

unfoldable pub trim_zeros : Bytes → Bytes
unfolding trim_left
trim_zeros = trim_left (λ c. c == b'0')

unfoldable pub compare_digits : Bytes → Bytes → Ordering
unfolding compare_trimmed trim_zeros
compare_digits a b = compare_trimmed (trim_zeros a) (trim_zeros b)

-- The run of non-digits in front, and what follows it.
unfoldable pub non_digits : Bytes → Bytes × Bytes
unfolding span is_digit
non_digits = span (λ c. not (is_digit c))

unfoldable pub digits : Bytes → Bytes × Bytes
unfolding span is_digit
digits = span is_digit

-- What is left of a string after one round of the loop.
unfoldable pub after_round : Bytes → Bytes
unfolding non_digits digits
after_round a = (digits (non_digits a).1).1

-- `if c := first; c != 0 { return c }`, then the rest
unfoldable pub or_else : Ordering → Ordering → Ordering
or_else Ordering.eq rest = rest
or_else Ordering.lt rest = Ordering.lt
or_else Ordering.gt rest = Ordering.gt

-- The two comparisons of one round.
unfoldable pub compare_round : Bytes → Bytes → Ordering
unfolding compare_non_digit compare_digits non_digits digits or_else
compare_round a b =
    or_else (compare_non_digit (non_digits a).0 (non_digits b).0)
      (compare_digits (digits (non_digits a).1).0 (digits (non_digits b).1).0)

-- The loop, with fuel for its rounds.
unfoldable pub compare_loop : ℕ → Bytes → Bytes → Ordering
unfolding or_else
compare_loop zero a b = Ordering.eq
compare_loop (suc fuel) a b = elim (is_empty a && is_empty b) [
  | true ↦ Ordering.eq
  | false ↦ or_else (compare_round a b) (compare_loop fuel (after_round a) (after_round b))
]

unfoldable pub compare_upstream : Bytes → Bytes → Ordering
unfolding compare_loop
compare_upstream a b = compare_loop (length a + length b) a b

pub record Version : Type 0 where
  pub epoch : ℤ
  pub upstream : Bytes
  pub revision : Bytes

unfoldable pub split_revision : ℤ → Bytes → Version
split_revision e v = elim (last_index_byte b'-' v) [
  | none ↦ record { epoch = e; upstream = v; revision = [] }
  | some i ↦ record { epoch = e; upstream = take i v; revision = drop (suc i) v }
]

-- The epoch in front of the first colon is taken off if it is a number.
unfoldable pub split_epoch : Bytes → Option ℕ → Version
unfolding split_revision
split_epoch v none = split_revision (pos 0) v
split_epoch v (some i) = elim (atoi (take i v)) [
  | none ↦ split_revision (pos 0) v
  | some n ↦ split_revision n (drop (suc i) v)
]

unfoldable pub split : Bytes → Version
unfolding split_epoch
split v = split_epoch v (index_byte b':' v)

unfoldable pub compare_split : Version → Version → Ordering
unfolding compare_int compare_upstream or_else
compare_split a b =
    or_else (compare_int a.epoch b.epoch)
      (or_else (compare_upstream a.upstream b.upstream) (compare_upstream a.revision b.revision))

unfoldable pub compare_versions : Bytes → Bytes → Ordering
unfolding compare_split split
compare_versions a b = compare_split (split a) (split b)
