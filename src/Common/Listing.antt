-- ===== src/Common/Listing.antt =====
-- The last steps of the tools that return a list: filter it, sort it by a key, cut it off at a limit.
use fleetmind.Common.Keyed.{by_key, sort_by_key-IsSorted}
use fleetmind.Common.Sort.{sort_by, IsSorted, sort_by-perm}
use fleetmind.Common.{
  ℕ, Bool, List, Perm, if◌then◌else◌, ◌<◌, keep, length, ltb, ◌++◌, take, Bool-cases, drop, ◌≡◌,
  ◌≤◌, [], inl, suc, take-append-drop, append-nil, arith, length-take-le, ◌⊎◌, inr, refl, ◌∷◌, zero,
  map, sym,
}
use fleetmind.Common.Text.{Bytes}

module _ {A : Type 0} where
  -- `if len(xs) > limit { xs = xs[:limit] }`
  unfoldable pub capped : ℕ → List A → List A
  capped limit xs = if ltb limit (length xs) then take limit xs else xs

  -- What a list of the wanted members is, up to `limit` of them: with what was cut off behind it, it
  -- is all of them in order, and something was cut off only where the limit was reached.
  pub record IsListing (key : A → Bytes) (wanted : A → Bool) (limit : ℕ) (xs out : List A)
      : Type 0 where
    pub rest : List A
    pub complete : Perm (out ++ rest) (keep wanted xs)
    pub sorted : IsSorted (by_key key) (out ++ rest)
    pub bounded : length out ≤ limit
    pub full : (rest ≡ []) ⊎ (length out ≡ limit)

  length-take : (n : ℕ) (xs : List A) → n < length xs → length (take n xs) ≡ n
  length-take zero xs h = refl
  length-take (suc n) [] h = ground arith
  length-take (suc n) (x ∷ xs) h = ground (arith, length-take n xs)

  module _ (key : A → Bytes) (wanted : A → Bool) (limit : ℕ) (xs ys : List A)
      (perm : Perm ys (keep wanted xs)) (sorted : IsSorted (by_key key) ys) where
    cut-IsListing : limit < length ys → IsListing key wanted limit xs (take limit ys)
    cut-IsListing h = record {
      rest = drop limit ys;
      complete = rw (take-append-drop limit ys) perm;
      sorted = rw (take-append-drop limit ys) sorted;
      bounded = length-take-le limit ys;
      full = inr (length-take limit ys h);
    }

    whole-IsListing : length ys ≤ limit → IsListing key wanted limit xs ys
    whole-IsListing h = record {
      rest = [];
      complete = rw (append-nil ys) perm;
      sorted = rw (append-nil ys) sorted;
      bounded = h;
      full = inl refl;
    }

    capped-IsListing : IsListing key wanted limit xs (capped limit ys)
    unfolding capped
    capped-IsListing = elim (Bool-cases (ltb limit (length ys))) [
      | inl h ↦ rw h (cut-IsListing (ground arith))
      | inr h ↦ rw h (whole-IsListing (ground arith))
    ]

  -- A list that is filtered, sorted and cut off.
  pub sort_by-IsListing :
      (key : A → Bytes) (wanted : A → Bool) (limit : ℕ) (xs : List A)
      → IsListing key wanted limit xs (capped limit (sort_by (by_key key) (keep wanted xs)))
  sort_by-IsListing key wanted limit xs =
      capped-IsListing key wanted limit xs (sort_by (by_key key) (keep wanted xs))
        (sort_by-perm (by_key key) (keep wanted xs)) (sort_by_key-IsSorted key (keep wanted xs))

module _ {A B : Type 0} where
  keep-map :
      (f : A → B) (wanted : B → Bool) (xs : List A)
      → keep wanted (map f xs) ≡ map f (keep (λ x. wanted (f x)) xs)
  keep-map f wanted [] = refl
  keep-map f wanted (x ∷ xs) = elim (Bool-cases (wanted (f x))) [
    | inl h ↦ rw (h, keep-map f wanted xs)
    | inr h ↦ rw (h, keep-map f wanted xs)
  ]

  -- The same, where what is kept is turned into other values before it is sorted.
  pub map-IsListing :
      (f : A → B) (key : B → Bytes) (wanted : B → Bool) (limit : ℕ) (xs : List A)
      → IsListing key wanted limit
          (map f xs)
          (capped limit (sort_by (by_key key) (map f (keep (λ x. wanted (f x)) xs))))
  map-IsListing f key wanted limit xs =
      rw (sym (keep-map f wanted xs)) (sort_by-IsListing key wanted limit (map f xs))
