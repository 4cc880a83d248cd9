-- ===== src/Common/Lists.antt =====
-- Lists measured by native numbers, and predicates over all or some of their members.
use Prim.Native.Nat.{ℕ, zero, suc, ◌+◌, ◌≤◌}
use mathlib.Core.Path.{◌≡◌, refl, sym, subst}
use mathlib.Core.Logic.{◌⊎◌, inl, inr}
use mathlib.Core.Bool.{Bool}
use mathlib.Core.List.{List, [], ◌∷◌, ◌++◌, reverse, reverse-append}
use native.Mathlib.Omega.{arith}
use fleetmind.Common.Tests.{if◌then◌else◌}

module _ {ℓ} {A : Type ℓ} where
  abbrev pub length : List A → ℕ
  length [] = 0
  length (x ∷ xs) = suc (length xs)

  abbrev pub take : ℕ → List A → List A
  take zero xs = []
  take (suc n) [] = []
  take (suc n) (x ∷ xs) = x ∷ take n xs

  abbrev pub drop : ℕ → List A → List A
  drop zero xs = xs
  drop (suc n) [] = []
  drop (suc n) (x ∷ xs) = drop n xs

  -- The members that pass a test, in order.
  abbrev pub keep : (A → Bool) → List A → List A
  keep t [] = []
  keep t (x ∷ xs) = let rest = keep t xs in if t x then x ∷ rest else rest

module _ {ℓ} {A : Type ℓ} where
  pub length-append : (xs ys : List A) → length (xs ++ ys) ≡ length xs + length ys
  length-append [] ys = omega arith
  length-append (x ∷ xs) ys = omega (arith, length-append xs ys)

  pub take-append-drop : (n : ℕ) (xs : List A) → take n xs ++ drop n xs ≡ xs
  take-append-drop zero xs = refl
  take-append-drop (suc n) [] = refl
  take-append-drop (suc n) (x ∷ xs) = rw (take-append-drop n xs)

  pub length-take-le : (n : ℕ) (xs : List A) → length (take n xs) ≤ n
  length-take-le zero xs = omega arith
  length-take-le (suc n) [] = omega arith
  length-take-le (suc n) (x ∷ xs) = omega (arith, length-take-le n xs)

module _ {ℓ} {A : Type ℓ} where
  abbrev pub All : (A → Type 0) → List A → Type 0
  All P [] = Unit
  All P (x ∷ xs) = P x × All P xs

  -- A member that satisfies `P`, with its place.
  abbrev pub Any : (A → Type 0) → List A → Type 0
  Any P [] = ⊥
  Any P (x ∷ xs) = P x ⊎ Any P xs

module _ {A : Type 0} where
  -- Membership, with the place.
  abbrev pub IsMember : A → List A → Type 0
  IsMember a [] = ⊥
  IsMember a (x ∷ xs) = (a ≡ x) ⊎ IsMember a xs

module _ {A : Type 0} where
  pub All-IsMember : (P : A → Type 0) (xs : List A) (a : A) → All P xs → IsMember a xs → P a
  All-IsMember P [] a h m = elim m [ ]
  All-IsMember P (x ∷ xs) a h (inl e) = subst P (sym e) h.0
  All-IsMember P (x ∷ xs) a h (inr m) = All-IsMember P xs a h.1 m

  pub IsMember-All : (P : A → Type 0) (xs : List A) → ((a : A) → IsMember a xs → P a) → All P xs
  IsMember-All P [] h = tt
  IsMember-All P (x ∷ xs) h = (h x (inl refl), IsMember-All P xs (λ a m. h a (inr m)))

module _ {ℓ} {A : Type ℓ} (P : A → Type 0) where
  pub All-append : (a b : List A) → All P a → All P b → All P (a ++ b)
  All-append [] b h k = k
  All-append (x ∷ a) b h k = (h.0, All-append a b h.1 k)

  pub All-reverse : (s : List A) → All P s → All P (reverse s)
  All-reverse [] h = tt
  All-reverse (c ∷ s) h =
      rw (reverse-append (c ∷ []) s) (All-append (reverse s) (c ∷ []) (All-reverse s h.1) (h.0, tt))
