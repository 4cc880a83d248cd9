-- ===== src/FleetTools/Order.antt =====
-- internal/tools/fleet_query.go: the order in which the nodes answer does not show.
use fleetmind.Fleet.Registry.{Registry, roster}
use fleetmind.Fleet.Peer.{Peer}
use fleetmind.Common.Text.{Bytes, is_empty}
use mathlib.Core.Option
use fleetmind.Common.{
  ℕ, List, length, Bool, map, ◌≡◌, false, if◌then◌else◌, suc, ◌∷◌, ap, ◌==◌, [], zero, ◌&&◌, ◌||◌,
  ltb, refl, some, arith, none, sym, ◌∙◌, Option-cases, inl, inr, Bool-cases, ◌<◌, ◌≤◌, subst, true,
  ==_iff,
}
use fleetmind.FleetTools.{
  get_at, set_at, blank, finish, finish_all, CallResult, NodeResult, node_result, fleet_query,
  blank_result,
}

module _ {A : Type 0} where
  get_at-set_at :
      (i j : ℕ) (x : A) (xs : List A)
      → get_at j (set_at i x xs) ≡ (if i == j && ltb j (length xs) then some x else get_at j xs)
  unfolding get_at set_at
  get_at-set_at i j x [] = ground arith
  get_at-set_at zero zero x (y ∷ ys) = ground arith
  get_at-set_at zero (suc j) x (y ∷ ys) = ground arith
  get_at-set_at (suc i) zero x (y ∷ ys) = ground arith
  get_at-set_at (suc i) (suc j) x (y ∷ ys) = ground (arith, get_at-set_at i j x ys)

  set_here : (i : ℕ) (x : A) (xs : List A) → i < length xs → get_at i (set_at i x xs) ≡ some x
  set_here i x xs h = get_at-set_at i i x xs ∙ ground arith

  set_there :
      (i j : ℕ) (x : A) (xs : List A) → (i == j) ≡ false → get_at j (set_at i x xs) ≡ get_at j xs
  set_there i j x xs h = get_at-set_at i j x xs ∙ rw h refl

  get_at_past : (i : ℕ) (xs : List A) → length xs ≤ i → get_at i xs ≡ none
  unfolding get_at
  get_at_past i [] h = refl
  get_at_past zero (x ∷ xs) h = ground arith
  get_at_past (suc i) (x ∷ xs) h = get_at_past i xs (omega arith)

  past_get_at : (i : ℕ) (xs : List A) → get_at i xs ≡ none → length xs ≤ i
  unfolding get_at
  past_get_at i [] h = omega arith
  past_get_at zero (x ∷ xs) h = ground arith
  past_get_at (suc i) (x ∷ xs) h = omega (arith, past_get_at i xs h)

  within_get_at : (i : ℕ) (x : A) (xs : List A) → get_at i xs ≡ some x → i < length xs
  unfolding get_at
  within_get_at i x [] h = ground arith
  within_get_at zero x (y ∷ xs) h = omega arith
  within_get_at (suc i) x (y ∷ xs) h = omega (arith, within_get_at i x xs h)

  length-set_at : (i : ℕ) (x : A) (xs : List A) → length (set_at i x xs) ≡ length xs
  unfolding set_at
  length-set_at i x [] = refl
  length-set_at zero x (y ∷ ys) = refl
  length-set_at (suc i) x (y ∷ ys) = ap suc (length-set_at i x ys)

  length-blank : (x : A) (n : ℕ) → length (blank x n) ≡ n
  length-blank x zero = refl
  length-blank x (suc n) = ap suc (length-blank x n)

  none-some : {x : A} → none ≡ some x → ⊥
  none-some h = ground arith

  some_injective : {x y : A} → some x ≡ some y → x ≡ y
  some_injective h = ground arith

  -- Lists with the same members at the same places are the same.
  same_at : (xs ys : List A) → ((j : ℕ) → get_at j xs ≡ get_at j ys) → xs ≡ ys
  unfolding get_at
  same_at [] [] h = refl
  same_at [] (y ∷ ys) h = absurd (none-some (h 0))
  same_at (x ∷ xs) [] h = absurd (none-some (sym (h 0)))
  same_at (x ∷ xs) (y ∷ ys) h =
      ap (λ i. i ∷ xs) (some_injective (h 0)) ∙ ap (◌∷◌ y) (same_at xs ys (λ j. h (suc j)))

get_at-map :
    {A B : Type 0} (f : A → B) (i : ℕ) (xs : List A)
    → get_at i (map f xs) ≡ Option.map f (get_at i xs)
unfolding get_at
get_at-map f i [] = refl
get_at-map f zero (x ∷ xs) = refl
get_at-map f (suc i) (x ∷ xs) = get_at-map f i xs

unfoldable pub is_in : ℕ → List ℕ → Bool
is_in j [] = false
is_in j (i ∷ order) = i == j || is_in j order

module _ {R : Type 0} (call : Bytes → CallResult R) (me : Bytes) (ps : List Peer) where
  past_ltb : (j : ℕ) → ltb j (length ps) ≡ false → length ps ≤ j
  past_ltb j h = ground arith

  finish-none :
      (i : ℕ) (results : List (NodeResult R))
      → get_at i ps ≡ none
      → finish call me ps i results ≡ results
  unfolding finish
  finish-none i results e = rw (e, finish)

  finish-some :
      (i : ℕ) (p : Peer) (results : List (NodeResult R))
      → get_at i ps ≡ some p
      → finish call me ps i results ≡ set_at i (node_result call me p) results
  unfolding finish
  finish-some i p results e = rw (e, finish)

  length-finish :
      (i : ℕ) (results : List (NodeResult R))
      → length (finish call me ps i results) ≡ length results
  length-finish i results = elim (Option-cases (get_at i ps)) [
    | inl e ↦ ap length (finish-none i results e)
    | inr (p, e) ↦
        ap length (finish-some i p results e) ∙ length-set_at i (node_result call me p) results
  ]

  finish_here :
      (i : ℕ) (results : List (NodeResult R))
      → length results ≡ length ps
      → get_at i (finish call me ps i results) ≡ get_at i (map (node_result call me) ps)
  finish_here i results h = elim (Option-cases (get_at i ps)) [
    | inl e ↦
        ap (get_at i) (finish-none i results e)
        ∙ get_at_past i results (omega (arith, past_get_at i ps e))
        ∙ sym (get_at-map (node_result call me) i ps ∙ ap (Option.map (node_result call me)) e)
    | inr (p, e) ↦
        ap (get_at i) (finish-some i p results e)
        ∙ set_here i (node_result call me p) results (omega (arith, within_get_at i p ps e))
        ∙ sym (get_at-map (node_result call me) i ps ∙ ap (Option.map (node_result call me)) e)
  ]

  finish_there :
      (i j : ℕ) (results : List (NodeResult R))
      → (i == j) ≡ false
      → get_at j (finish call me ps i results) ≡ get_at j results
  finish_there i j results h = elim (Option-cases (get_at i ps)) [
    | inl e ↦ ap (get_at j) (finish-none i results e)
    | inr (p, e) ↦
        ap (get_at j) (finish-some i p results e) ∙ set_there i j (node_result call me p) results h
  ]

  get_at-finish :
      (i j : ℕ) (results : List (NodeResult R))
      → length results ≡ length ps
      → get_at j (finish call me ps i results)
        ≡ (if i == j then get_at j (map (node_result call me) ps) else get_at j results)
  get_at-finish i j results h = elim (Bool-cases (i == j)) [
    | inl e ↦
        subst
          (λ k.
            get_at k (finish call me ps i results)
            ≡ (if i == k then get_at k (map (node_result call me) ps) else get_at k results))
          ((==_iff i j).0 e) (rw ((==_iff i i).1 refl) (finish_here i results h))
    | inr e ↦ rw e (finish_there i j results e)
  ]

  -- Each node that came to its end has its result at its place, and no other is touched.
  get_at-finish_all :
      (order : List ℕ) (j : ℕ) (results : List (NodeResult R))
      → length results ≡ length ps
      → get_at j (finish_all call me ps order results)
        ≡ (if is_in j order then get_at j (map (node_result call me) ps) else get_at j results)
  unfolding finish_all is_in
  get_at-finish_all [] j results h = refl
  get_at-finish_all (i ∷ order) j results h =
      get_at-finish_all order j (finish call me ps i results) (length-finish i results ∙ h)
      ∙ ground (arith, get_at-finish i j results h)

  length-finish_all :
      (order : List ℕ) (results : List (NodeResult R))
      → length (finish_all call me ps order results) ≡ length results
  unfolding finish_all
  length-finish_all [] results = refl
  length-finish_all (i ∷ order) results =
      length-finish_all order (finish call me ps i results) ∙ length-finish i results

  all_in :
      (order : List ℕ)
      → ((j : ℕ) → j < length ps → is_in j order ≡ true)
      → (results : List (NodeResult R)) → length results ≡ length ps
      → finish_all call me ps order results ≡ map (node_result call me) ps
  all_in order f results h =
      same_at (finish_all call me ps order results) (map (node_result call me) ps) (λ j.
        elim (Bool-cases (ltb j (length ps))) [
          | inl l ↦ get_at-finish_all order j results h ∙ rw (f j (ground arith)) refl
          | inr l ↦
              get_at_past j (finish_all call me ps order results)
                (omega (arith, length-finish_all order results, past_ltb j l))
              ∙ sym (
                  get_at-map (node_result call me) j ps
                  ∙ ap (Option.map (node_result call me)) (get_at_past j ps (past_ltb j l)))
        ])

module _ {R : Type 0} (call : Bytes → CallResult R) where
  -- Whatever the order in which the nodes answer, once each node of the roster has answered,
  -- fleet_query returns one result for each node in the order of the roster.
  pub fleet_query-roster :
      (r : Registry) (tool : Bytes) (order : List ℕ)
      → is_empty tool ≡ false
      → ((j : ℕ) → j < length (roster r) → is_in j order ≡ true)
      → fleet_query call (some r) tool order ≡ map (node_result call r.self.node_id) (roster r)
  unfolding fleet_query
  fleet_query-roster r tool order h f = rw h (
      all_in call r.self.node_id (roster r) order f (blank blank_result (length (roster r)))
        (length-blank blank_result (length (roster r))))
