-- ===== src/Fleet/Registry/Roster.antt =====
-- `Roster` and `Peers`: who is listed, and in which order.
use mathlib.Core.List.Perm
use fleetmind.Common.{[], ◌∷◌, Perm, ◌≡◌, ◌≢◌, sym, none, All, arith}
use fleetmind.Common.Dict.{Dict, lookup, values, IsDistinct}
use fleetmind.Common.Keyed.{by_key, AreDistinct, sort_by_key-IsSorted, sort_by-perm_eq}
use fleetmind.Common.Sort.{IsSorted, sort_by-perm}
use fleetmind.Common.Text.{Bytes, equal_iff}
use fleetmind.Fleet.Peer.{Peer, Peer-set}
use fleetmind.Fleet.Registry.{Registry, node_id_of, sorted_peers, roster}
use fleetmind.Fleet.Registry.Invariant.{Inv, IsRemote}

-- The roster lists the local node and every peer of the map, each once, by rising node id.
pub roster-IsSorted :
    (r : Registry)
    → Perm (roster r) (r.self ∷ values r.peers) × IsSorted (by_key node_id_of) (roster r)
unfolding roster sorted_peers
roster-IsSorted r = (
  sort_by-perm (by_key node_id_of) (r.self ∷ values r.peers),
  sort_by_key-IsSorted node_id_of (r.self ∷ values r.peers),
)

-- An id that is not in the map is not the id of one of its peers.
absent-All :
    (me k : Bytes) (m : Dict Peer)
    → IsRemote me m
    → lookup k m ≡ none
    → All (λ p. k ≢ node_id_of p) (values m)
unfolding lookup
absent-All me k [] v h = tt
absent-All me k ((j, p) ∷ m) v h = ground (arith, equal_iff j k, absent-All me k m v.3)

self-All : (me : Bytes) (m : Dict Peer) → IsRemote me m → All (λ p. me ≢ node_id_of p) (values m)
self-All me [] v = tt
self-All me ((j, p) ∷ m) v = ground (arith, self-All me m v.3)

values-AreDistinct :
    (me : Bytes) (m : Dict Peer) → IsRemote me m → IsDistinct m → AreDistinct node_id_of (values m)
values-AreDistinct me [] v d = tt
values-AreDistinct me ((j, p) ∷ m) v d =
    (rw (v.0) (absent-All me j m v.3 d.0), values-AreDistinct me m v.3 d.1)

pub listed-AreDistinct : (r : Registry) → Inv r → AreDistinct node_id_of (r.self ∷ values r.peers)
listed-AreDistinct r v = (
  self-All r.self.node_id r.peers v.remote,
  values-AreDistinct r.self.node_id r.peers v.remote v.distinct,
)

-- The roster is a function of what the registry holds and not of the order in which Go ranges
-- over its map: two registries with the same local node, whose maps hold the same entries in
-- whatever order, have the same roster.
pub roster-perm_eq :
    (r s : Registry) → Inv r → r.self ≡ s.self → Perm r.peers s.peers → roster r ≡ roster s
unfolding roster sorted_peers
roster-perm_eq r s v e p = rw (sym e) (
    sort_by-perm_eq node_id_of Peer-set (r.self ∷ values r.peers) (r.self ∷ values s.peers)
      (Perm.cons r.self (Perm.map (λ (e : Bytes × Peer). e.1) p)) (listed-AreDistinct r v))
