-- ===== src/Aptdb/Version/Order.antt =====
-- The order of versions is a total preorder, and the loop has enough fuel.
use fleetmind.Common.{
  ℕ, zero, suc, ◌+◌, ◌≤◌, ◌<◌, Ordering, ◌≡◌, ◌≢◌, refl, sym, ap, ◌∙◌, if◌then◌else◌, [], ◌∷◌, Bool,
  false, not, ◌&&◌, length, arith,
}
use fleetmind.Common.Number.{is_digit}
use fleetmind.Common.Text.{Bytes, before, span, is_empty}
use fleetmind.Aptdb.Version.{
  Version, or_else, compare_int, compare_non_digit, compare_digits, non_digits, digits, after_round,
  compare_round, compare_loop, compare_upstream, compare_split, split, compare_versions,
}
use fleetmind.Aptdb.Version.Chain.{flip, Chains, flip-or_else, or_else-Chains, Chains-eq_left}
use fleetmind.Aptdb.Version.Runs.{
  compare_int-flip, compare_int-Chains, compare_non_digit-flip, compare_non_digit-Chains,
  compare_digits-flip, compare_digits-Chains,
}

self_flip : (x : Ordering) → x ≡ flip x → x ≡ Ordering.eq
self_flip Ordering.lt h = cc
self_flip Ordering.eq h = refl
self_flip Ordering.gt h = cc

or_else-flip :
    (x y x' y' : Ordering) → x' ≡ flip x → y' ≡ flip y → or_else x' y' ≡ flip (or_else x y)
or_else-flip x y x' y' h k = rw (h, k) (sym (flip-or_else x y))

compare_round-flip : (a b : Bytes) → compare_round b a ≡ flip (compare_round a b)
unfolding compare_round
compare_round-flip a b =
    or_else-flip (compare_non_digit (non_digits a).0 (non_digits b).0)
      (compare_digits (digits (non_digits a).1).0 (digits (non_digits b).1).0) _ _
      (compare_non_digit-flip (non_digits a).0 (non_digits b).0)
      (compare_digits-flip (digits (non_digits a).1).0 (digits (non_digits b).1).0)

compare_round-Chains :
    (a b c : Bytes) → Chains (compare_round a b) (compare_round b c) (compare_round a c)
unfolding compare_round
compare_round-Chains a b c =
    or_else-Chains _ _ _ _ _ _
      (compare_non_digit-Chains (non_digits a).0 (non_digits b).0 (non_digits c).0)
      (compare_digits-Chains (digits (non_digits a).1).0 (digits (non_digits b).1).0
        (digits (non_digits c).1).0)

compare_loop_nil : (n : ℕ) → compare_loop n [] [] ≡ Ordering.eq
unfolding compare_loop
compare_loop_nil zero = refl
compare_loop_nil (suc n) = refl

-- A round at two empty strings returns 0, so the loop's test may be left out.
compare_loop-suc :
    (n : ℕ) (a b : Bytes)
    → compare_loop (suc n) a b
      ≡ or_else (compare_round a b) (compare_loop n (after_round a) (after_round b))
unfolding compare_loop
compare_loop-suc n [] [] = unfold compare_round after_round before in sym (compare_loop_nil n)
compare_loop-suc n [] (y ∷ b) = refl
compare_loop-suc n (x ∷ a) b = refl

compare_loop-flip : (n : ℕ) (a b : Bytes) → compare_loop n b a ≡ flip (compare_loop n a b)
compare_loop-flip zero a b = unfold compare_loop in refl
compare_loop-flip (suc n) a b =
    rw (compare_loop-suc n a b, compare_loop-suc n b a)
      (or_else-flip (compare_round a b) (compare_loop n (after_round a) (after_round b)) _ _
        (compare_round-flip a b) (compare_loop-flip n (after_round a) (after_round b)))

compare_loop-Chains :
    (n : ℕ) (a b c : Bytes) → Chains (compare_loop n a b) (compare_loop n b c) (compare_loop n a c)
compare_loop-Chains zero a b c = unfold compare_loop in Chains-eq_left _
compare_loop-Chains (suc n) a b c =
    rw (compare_loop-suc n a b, compare_loop-suc n b c, compare_loop-suc n a c)
      (or_else-Chains _ _ _ _ _ _ (compare_round-Chains a b c)
        (compare_loop-Chains n (after_round a) (after_round b) (after_round c)))

length-span : (t : ℕ → Bool) (s : Bytes) → length (span t s).1 ≤ length s
unfolding span
length-span t [] = omega arith
length-span t (x ∷ s) = ground (arith, length-span t s)

-- A round takes at least one byte off a string that is not empty.
length-after_round : (x : ℕ) (s : Bytes) → length (after_round (x ∷ s)) ≤ length s
unfolding after_round
length-after_round x s = ground (
  arith,
  length-span is_digit s,
  length-span (λ c. not (is_digit c)) s,
  length-span is_digit (span (λ c. not (is_digit c)) s).1,
)

length-after_round_le : (s : Bytes) → length (after_round s) ≤ length s
length-after_round_le [] = unfold after_round in omega arith
length-after_round_le (x ∷ s) = omega (arith, length-after_round x s)

length-after_round_lt :
    (a b : Bytes) (n : ℕ)
    → (is_empty a && is_empty b) ≡ false
    → length a + length b ≤ suc n
    → length (after_round a) + length (after_round b) ≤ n
length-after_round_lt [] [] n h k = cc
length-after_round_lt [] (y ∷ b) n h k =
    omega (arith, length-after_round_le [], length-after_round y b)
length-after_round_lt (x ∷ a) b n h k =
    omega (arith, length-after_round x a, length-after_round_le b)

-- Fuel for every byte is enough: more of it changes nothing.
compare_loop_fuel :
    (n m : ℕ) (a b : Bytes)
    → length a + length b ≤ n
    → length a + length b ≤ m
    → compare_loop n a b ≡ compare_loop m a b
compare_loop_fuel n m [] [] h k = compare_loop_nil n ∙ sym (compare_loop_nil m)
compare_loop_fuel zero m (x ∷ a) b h k = absurd (omega arith)
compare_loop_fuel zero m [] (y ∷ b) h k = absurd (omega arith)
compare_loop_fuel (suc n) zero (x ∷ a) b h k = absurd (omega arith)
compare_loop_fuel (suc n) zero [] (y ∷ b) h k = absurd (omega arith)
compare_loop_fuel (suc n) (suc m) [] (y ∷ b) h k =
    rw (compare_loop-suc n [] (y ∷ b), compare_loop-suc m [] (y ∷ b))
      (ap (or_else (compare_round [] (y ∷ b))) (
        compare_loop_fuel n m (after_round []) (after_round (y ∷ b))
          (length-after_round_lt [] (y ∷ b) n refl h) (length-after_round_lt [] (y ∷ b) m refl k)))
compare_loop_fuel (suc n) (suc m) (x ∷ a) b h k =
    rw (compare_loop-suc n (x ∷ a) b, compare_loop-suc m (x ∷ a) b)
      (ap (or_else (compare_round (x ∷ a) b)) (
        compare_loop_fuel n m (after_round (x ∷ a)) (after_round b)
          (length-after_round_lt (x ∷ a) b n refl h) (length-after_round_lt (x ∷ a) b m refl k)))

compare_upstream-eq_loop :
    (n : ℕ) (a b : Bytes) → length a + length b ≤ n → compare_upstream a b ≡ compare_loop n a b
unfolding compare_upstream
compare_upstream-eq_loop n a b h = compare_loop_fuel _ n a b (omega arith) h

compare_upstream_round :
    (a b : Bytes)
    → 0 < length a + length b
    → compare_upstream a b
      ≡ or_else (compare_round a b) (compare_upstream (after_round a) (after_round b))
compare_upstream_round a b h =
    let n = length a + length b in
    rw
      (
        compare_upstream-eq_loop (suc n) a b (omega arith),
        compare_upstream-eq_loop n (after_round a) (after_round b)
            (omega (arith, length-after_round_le a, length-after_round_le b)),
      )
      (compare_loop-suc n a b)

compare_upstream_loop :
    (a b : Bytes)
    → compare_upstream a b ≡ (
        if is_empty a && is_empty b
        then Ordering.eq
        else or_else (compare_round a b) (compare_upstream (after_round a) (after_round b)))
compare_upstream_loop [] [] = unfold compare_upstream in refl
compare_upstream_loop [] (y ∷ b) = compare_upstream_round [] (y ∷ b) (omega arith)
compare_upstream_loop (x ∷ a) b = compare_upstream_round (x ∷ a) b (omega arith)

-- The loop of `compareUpstream` as the code has it, with no fuel: at these strings it ends, with this
-- result. It ends where both strings are empty or where the two comparisons of a round are not both
-- 0, and else goes on with what the round leaves of the strings.
pub data Ends : Bytes → Bytes → Ordering → Type 0 where
  both_empty : Ends [] [] Ordering.eq
  decided :
      {a b : Bytes} {o : Ordering}
      → (is_empty a && is_empty b) ≡ false
      → o ≢ Ordering.eq
      → compare_round a b ≡ o
      → Ends a b o
  goes_on :
      {a b : Bytes} {o : Ordering}
      → (is_empty a && is_empty b) ≡ false
      → compare_round a b ≡ Ordering.eq
      → Ends (after_round a) (after_round b) o
      → Ends a b o

round-Ends :
    (a b : Bytes) (o : Ordering)
    → (is_empty a && is_empty b) ≡ false
    → compare_round a b ≡ o
    → Ends (after_round a) (after_round b) (compare_upstream (after_round a) (after_round b))
    → Ends a b (or_else o (compare_upstream (after_round a) (after_round b)))
unfolding or_else
round-Ends a b Ordering.lt h e later = decided h (ground arith) e
round-Ends a b Ordering.eq h e later = goes_on h e later
round-Ends a b Ordering.gt h e later = decided h (ground arith) e

compare_upstream-Ends_within :
    (n : ℕ) (a b : Bytes) → length a + length b ≤ n → Ends a b (compare_upstream a b)
compare_upstream-Ends_within n [] [] h = unfold compare_upstream in both_empty
compare_upstream-Ends_within zero [] (y ∷ b) h = absurd (omega arith)
compare_upstream-Ends_within zero (x ∷ a) b h = absurd (omega arith)
compare_upstream-Ends_within (suc n) [] (y ∷ b) h = rw (compare_upstream_loop [] (y ∷ b)) (
    round-Ends [] (y ∷ b) _ refl refl (
      compare_upstream-Ends_within n (after_round []) (after_round (y ∷ b))
        (length-after_round_lt [] (y ∷ b) n refl h)))
compare_upstream-Ends_within (suc n) (x ∷ a) b h = rw (compare_upstream_loop (x ∷ a) b) (
    round-Ends (x ∷ a) b _ refl refl (
      compare_upstream-Ends_within n (after_round (x ∷ a)) (after_round b)
        (length-after_round_lt (x ∷ a) b n refl h)))

-- The loop of `compareUpstream` ends on any two strings, after finitely many rounds, and the model,
-- which runs it on fuel, returns the result that it ends with.
pub compare_upstream-Ends : (a b : Bytes) → Ends a b (compare_upstream a b)
compare_upstream-Ends a b = compare_upstream-Ends_within (length a + length b) a b (omega arith)

compare_upstream-flip : (a b : Bytes) → compare_upstream b a ≡ flip (compare_upstream a b)
compare_upstream-flip a b =
    let n = length a + length b in
    rw (compare_upstream-eq_loop n a b (omega arith), compare_upstream-eq_loop n b a (omega arith))
      (compare_loop-flip n a b)

compare_upstream-Chains :
    (a b c : Bytes) → Chains (compare_upstream a b) (compare_upstream b c) (compare_upstream a c)
compare_upstream-Chains a b c =
    let n = length a + length b + length c in
    rw
      (
        compare_upstream-eq_loop n a b (omega arith),
        compare_upstream-eq_loop n b c (omega arith),
        compare_upstream-eq_loop n a c (omega arith),
      )
      (compare_loop-Chains n a b c)

compare_split-flip : (a b : Version) → compare_split b a ≡ flip (compare_split a b)
unfolding compare_split
compare_split-flip a b =
    or_else-flip (compare_int a.epoch b.epoch)
      (or_else (compare_upstream a.upstream b.upstream) (compare_upstream a.revision b.revision)) _
      _ (compare_int-flip a.epoch b.epoch)
      (or_else-flip (compare_upstream a.upstream b.upstream)
        (compare_upstream a.revision b.revision) _ _ (compare_upstream-flip a.upstream b.upstream)
        (compare_upstream-flip a.revision b.revision))

compare_split-Chains :
    (a b c : Version) → Chains (compare_split a b) (compare_split b c) (compare_split a c)
unfolding compare_split
compare_split-Chains a b c =
    or_else-Chains _ _ _ _ _ _ (compare_int-Chains a.epoch b.epoch c.epoch) (
      or_else-Chains _ _ _ _ _ _ (compare_upstream-Chains a.upstream b.upstream c.upstream)
        (compare_upstream-Chains a.revision b.revision c.revision))

-- Swapping the arguments of `CompareVersions` turns its result round: -1 becomes 1, 1 becomes -1,
-- and 0 stays.
pub compare_versions-flip : (a b : Bytes) → compare_versions b a ≡ flip (compare_versions a b)
unfolding compare_versions
compare_versions-flip a b = compare_split-flip (split a) (split b)

-- `CompareVersions` is transitive: if a is not greater than b and b not greater than c, comparing
-- a with c gives -1 if one of the two steps gave -1, and 0 if both gave 0.
pub compare_versions_trans :
    (a b c : Bytes)
    → compare_versions a b ≢ Ordering.gt
    → compare_versions b c ≢ Ordering.gt
    → compare_versions a c ≡ or_else (compare_versions a b) (compare_versions b c)
unfolding compare_versions
compare_versions_trans a b c = compare_split-Chains (split a) (split b) (split c)

pub compare_versions_refl : (a : Bytes) → compare_versions a a ≡ Ordering.eq
compare_versions_refl a = self_flip (compare_versions a a) (compare_versions-flip a a)
