-- ===== src/Common/Dict.antt =====
-- Go maps with string keys, as association lists.
use fleetmind.Common.Tests.{if◌then◌else◌}
use fleetmind.Common.Text.{Bytes, equal, equal_iff, equal_refl}
use mathlib.Core.Path.{◌≡◌, refl, ◌∙◌}
use mathlib.Core.Option.{Option, none, some}
use mathlib.Core.List.{List, [], ◌∷◌, map}
use native.Mathlib.Omega.{arith}

abbrev pub Dict {ℓ} : Type ℓ → Type ℓ
Dict V = List (Bytes × V)

module _ {ℓ} {V : Type ℓ} where
  -- `v, ok := m[k]`
  unfoldable pub lookup : Bytes → Dict V → Option V
  lookup k [] = none
  lookup k ((j, v) ∷ m) = if equal j k then some v else lookup k m

  -- `m[k] = v`
  unfoldable pub insert : Bytes → V → Dict V → Dict V
  insert k v [] = (k, v) ∷ []
  insert k v ((j, w) ∷ m) = if equal j k then (k, v) ∷ m else (j, w) ∷ insert k v m

  -- `delete(m, k)`
  unfoldable pub delete : Bytes → Dict V → Dict V
  delete k [] = []
  delete k ((j, w) ∷ m) = let rest = delete k m in if equal j k then rest else (j, w) ∷ rest

  -- The values, in the order of the list.
  abbrev pub values : Dict V → List V
  values = map (λ e. e.1)

  -- No key occurs twice.
  abbrev pub IsDistinct : Dict V → Type ℓ
  IsDistinct [] = Unit
  IsDistinct ((j, w) ∷ m) = (lookup j m ≡ none) × IsDistinct m

module _ {ℓ} {V : Type ℓ} where
  pub lookup-insert :
      (key at : Bytes) (x : V) (m : Dict V)
      → lookup at (insert key x m) ≡ (if equal key at then some x else lookup at m)
  unfolding insert lookup
  lookup-insert key at x [] = refl
  lookup-insert key at x ((i, w) ∷ m) =
      ground (arith, equal_iff i at, equal_iff i key, equal_iff key at, lookup-insert key at x m)

  pub lookup-delete :
      (k j : Bytes) (m : Dict V) → lookup j (delete k m) ≡ (if equal k j then none else lookup j m)
  unfolding lookup delete
  lookup-delete k j [] = ground arith
  lookup-delete k j ((i, w) ∷ m) =
      ground (arith, equal_iff k j, equal_iff i k, equal_iff i j, lookup-delete k j m)

  pub insert-IsDistinct :
      (k : Bytes) (v : V) (m : Dict V) → IsDistinct m → IsDistinct (insert k v m)
  unfolding insert lookup
  insert-IsDistinct k v [] d = (refl, tt)
  insert-IsDistinct k v ((i, w) ∷ m) d =
      ground
        (arith, equal_iff i k, equal_iff k i, lookup-insert k i v m, insert-IsDistinct k v m d.1)

  pub delete-IsDistinct : (k : Bytes) (m : Dict V) → IsDistinct m → IsDistinct (delete k m)
  unfolding delete lookup
  delete-IsDistinct k [] d = tt
  delete-IsDistinct k ((i, w) ∷ m) d =
      ground (arith, equal_iff k i, lookup-delete k i m, delete-IsDistinct k m d.1)

  -- A write of the value that is there changes nothing.
  pub insert_same : (k : Bytes) (v : V) (m : Dict V) → lookup k m ≡ some v → insert k v m ≡ m
  unfolding insert lookup
  insert_same k v [] h = ground arith
  insert_same k v ((i, w) ∷ m) h = ground (arith, equal_iff i k, insert_same k v m)

  pub lookup-insert_self : (k : Bytes) (v : V) (m : Dict V) → lookup k (insert k v m) ≡ some v
  lookup-insert_self k v m = lookup-insert k k v m ∙ (rw (equal_refl k))

  pub insert_again : (k : Bytes) (v : V) (m : Dict V) → insert k v (insert k v m) ≡ insert k v m
  insert_again k v m = insert_same k v (insert k v m) (lookup-insert_self k v m)
