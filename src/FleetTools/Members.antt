-- ===== src/FleetTools/Members.antt =====
-- internal/tools/fleet.go: who is in the list.
use fleetmind.Common.Keyed.{by_key}
use fleetmind.FleetTools.{list_fleet, member_of}
use fleetmind.Fleet.Registry.{roster, sorted_peers, Registry, node_id_of}
use fleetmind.Fleet.Registry.Invariant.{IsRemote, Inv}
use fleetmind.Fleet.Peer.{Peer, Time}
use fleetmind.Common.{Bool, List, length, keep, ◌≡◌, ◌∷◌, [], arith, ◌∙◌, refl, ap, map, suc, some}
use fleetmind.Common.Dict.{Dict, values}
use fleetmind.Common.Text.{Bytes, equal, equal_iff, equal_refl}
use fleetmind.Common.Sort.{insert_by, sort_by}

length-keep-insert_by :
    {A : Type 0} (t : A → Bool) (less : A → A → Bool) (x : A) (xs : List A)
    → length (keep t (insert_by less x xs)) ≡ length (keep t (x ∷ xs))
unfolding insert_by
length-keep-insert_by t less x [] = refl
length-keep-insert_by t less x (y ∷ ys) = ground (arith, length-keep-insert_by t less x ys)

length-keep-sort_by :
    {A : Type 0} (t : A → Bool) (less : A → A → Bool) (xs : List A)
    → length (keep t (sort_by less xs)) ≡ length (keep t xs)
unfolding sort_by
length-keep-sort_by t less [] = refl
length-keep-sort_by t less (x ∷ xs) =
    length-keep-insert_by t less x (sort_by less xs) ∙ ground (arith, length-keep-sort_by t less xs)

no_self :
    (me : Bytes) (m : Dict Peer) → IsRemote me m → keep (λ p. equal p.node_id me) (values m) ≡ []
no_self me [] h = refl
no_self me ((id, p) ∷ m) h = ground (arith, equal_iff p.node_id me, no_self me m h.3)

length-values : (m : Dict Peer) → length (values m) ≡ length m
length-values [] = refl
length-values ((id, p) ∷ m) = ap suc (length-values m)

length-insert_by :
    {A : Type 0} (less : A → A → Bool) (x : A) (xs : List A)
    → length (insert_by less x xs) ≡ suc (length xs)
unfolding insert_by
length-insert_by less x [] = refl
length-insert_by less x (y ∷ ys) = ground (arith, length-insert_by less x ys)

length-sort_by :
    {A : Type 0} (less : A → A → Bool) (xs : List A) → length (sort_by less xs) ≡ length xs
unfolding sort_by
length-sort_by less [] = refl
length-sort_by less (x ∷ xs) =
    length-insert_by less x (sort_by less xs) ∙ ap suc (length-sort_by less xs)

length-map : {A B : Type 0} (f : A → B) (xs : List A) → length (map f xs) ≡ length xs
length-map f [] = refl
length-map f (x ∷ xs) = ap suc (length-map f xs)

module _ {F : Type 0} (zero_sec : F) (age : Time → F) where
  length-keep-members :
      (me : Bytes) (ps : List Peer)
      → length (keep (λ m. m.is_self) (map (member_of zero_sec age me) ps))
        ≡ length (keep (λ p. equal p.node_id me) ps)
  length-keep-members me [] = refl
  length-keep-members me (p ∷ ps) = ground (arith, length-keep-members me ps)

  self_once :
      (r : Registry) → Inv r → length (keep (λ p. equal p.node_id r.self.node_id) (roster r)) ≡ 1
  unfolding roster sorted_peers
  self_once r h =
      length-keep-sort_by (λ p. equal p.node_id r.self.node_id) (by_key node_id_of)
        (r.self ∷ values r.peers)
      ∙ (rw (equal_refl r.self.node_id)
          (ap (λ i. suc (length i)) (no_self r.self.node_id r.peers h.remote)))

  length-roster : (r : Registry) → length (roster r) ≡ suc (length r.peers)
  unfolding roster sorted_peers
  length-roster r =
      length-sort_by (by_key node_id_of) (r.self ∷ values r.peers) ∙ ap suc (length-values r.peers)

  -- For a registry that keeps the invariant, list_fleet counts the remote peers and the local node,
  -- lists as many members as it counts, and marks exactly one of them as the local node.
  pub list_fleet_lem :
      (r : Registry)
      → Inv r
      → ((list_fleet zero_sec age (some r)).count ≡ suc (length r.peers))
        × (length (list_fleet zero_sec age (some r)).members
            ≡ (list_fleet zero_sec age (some r)).count)
        × (length (keep (λ m. m.is_self) (list_fleet zero_sec age (some r)).members) ≡ 1)
  unfolding list_fleet
  list_fleet_lem r h = (
    length-map (member_of zero_sec age r.self.node_id) (roster r) ∙ length-roster r,
    refl,
    length-keep-members r.self.node_id (roster r) ∙ self_once r h,
  )
