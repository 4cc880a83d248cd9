-- ===== src/Fleet/Handlers/Join.antt =====
-- POST /fleet/join, where a peer is let in.
use fleetmind.Common.{[], Option, some, ◌≡◌, ◌≢◌, refl, inl, inr, Bool-cases, if◌then◌else◌, arith}
use fleetmind.Common.Dict.{lookup}
use fleetmind.Common.Text.{Bytes, codes, equal, equal_iff}
use fleetmind.Fleet.Handlers.{ok, with_times, admit, join_handler, undisturbed}
use fleetmind.Fleet.Peer.{Time, Peer}
use fleetmind.Fleet.Registry.{Registry, upsert, broadcast, roster}
use fleetmind.Fleet.Registry.Invariant.{Inv, upsert-Inv, broadcast-Inv}
use fleetmind.Fleet.Registry.Upsert.{upsert-lookup}

with_times-node_id : (clock : Time) (p : Peer) → (with_times clock p).node_id ≡ p.node_id
unfolding with_times
with_times-node_id clock p = ground arith

admit-peers :
    (clock : Time) (p : Peer) (r : Registry)
    → (admit undisturbed clock p r).0.peers ≡ (upsert clock (with_times clock p) r).0.peers
unfolding admit broadcast
admit-peers clock p r = elim (Bool-cases (upsert clock (with_times clock p) r).2) [
  | inl e ↦ rw e refl
  | inr e ↦ rw e refl
]

admit-roster :
    (clock : Time) (p : Peer) (r : Registry)
    → (admit undisturbed clock p r).1 ≡ ok (roster (admit undisturbed clock p r).0)
unfolding admit
admit-roster clock p r = refl

pub admit-Inv :
    (clock : Time) (p : Peer) (r : Registry) → Inv r → Inv (admit undisturbed clock p r).0
unfolding admit
admit-Inv clock p r v =
    let stored = upsert-Inv clock (with_times clock p) r v in
    elim (Bool-cases (upsert clock (with_times clock p) r).2) [
      | inl e ↦ rw e (broadcast-Inv _ _ stored)
      | inr e ↦ rw e stored
    ]

abbrev pub IsAdmissible : Peer → Registry → Type 0
IsAdmissible p r = (p.node_id ≢ []) × (p.advertise_url ≢ []) × (p.node_id ≢ r.self.node_id)

pub join_handler_lem :
    (decode : Bytes → Option Peer) (clock : Time) (method body : Bytes) (r : Registry) (p : Peer)
    → method ≡ codes "POST"
    → decode body ≡ some p
    → IsAdmissible p r
    → join_handler decode undisturbed clock method body r ≡ admit undisturbed clock p r
unfolding join_handler
join_handler_lem decode clock method body r p e d a =
    ground (arith, equal_iff method (codes "POST"))

pub admit-lookup :
    (clock : Time) (p : Peer) (r : Registry) (k : Bytes)
    → IsAdmissible p r
    → lookup k (admit undisturbed clock p r).0.peers ≡ (
        if equal p.node_id k
        then some (upsert clock (with_times clock p) r).1
        else lookup k r.peers)
admit-lookup clock p r k a = ground (
  arith,
  admit-peers clock p r,
  upsert-lookup clock (with_times clock p) r k,
  with_times-node_id clock p,
  equal_iff p.node_id r.self.node_id,
)

pub join_handler-admits :
    (decode : Bytes → Option Peer) (clock : Time) (method body : Bytes) (r : Registry) (p : Peer)
    (k : Bytes)
    → method ≡ codes "POST"
    → decode body ≡ some p
    → IsAdmissible p r
    → (lookup k (join_handler decode undisturbed clock method body r).0.peers ≡ (
        if equal p.node_id k
        then some (upsert clock (with_times clock p) r).1
        else lookup k r.peers))
      × ((join_handler decode undisturbed clock method body r).1
          ≡ ok (roster (join_handler decode undisturbed clock method body r).0))
join_handler-admits decode clock method body r p k e d a =
    rw (join_handler_lem decode clock method body r p e d a)
      (admit-lookup clock p r k a, admit-roster clock p r)
