-- ===== src/Fleet/Registry/Upsert.antt =====
-- `Upsert`: what it stores, what it leaves alone, and what its second result says.
use fleetmind.Common.{
  Bool, true, false, not, ◌≡◌, ◌↔◌, refl, sym, ap, ◌∙◌, Option, none, some, inl, inr, Bool-cases,
  if◌then◌else◌, arith,
}
use fleetmind.Common.Dict.{
  lookup, insert, lookup-insert, insert_same, insert_again, lookup-insert_self,
}
use fleetmind.Common.Int.{eq_ℤ_iff}
use fleetmind.Common.Text.{Bytes, equal, equal_iff, equal_refl}
use fleetmind.Fleet.Peer.{Time, Peer, same_peer, same_tools_iff}
use fleetmind.Fleet.Registry.{Registry, joined, merge, store, upsert}
use fleetmind.Fleet.Registry.Invariant.{
  Inv, joined-node_id, merge-node_id, lookup-node_id, is_ignored,
}

-- Two peers with the same join time are the same if `samePeer` says so.
same_peer_iff : (a b : Peer) → a.joined_at ≡ b.joined_at → (same_peer a b ≡ true) ↔ (a ≡ b)
unfolding same_peer
same_peer_iff a b h = ground (
  arith,
  equal_iff a.node_id b.node_id,
  equal_iff a.advertise_url b.advertise_url,
  equal_iff a.version b.version,
  eq_ℤ_iff a.last_heartbeat b.last_heartbeat,
  same_tools_iff a.tools b.tools,
)

merge_joined_at : (prev p : Peer) → (merge prev p).joined_at ≡ prev.joined_at
unfolding merge
merge_joined_at prev p = refl

store-lookup :
    (clock : Time) (p : Peer) (r : Registry) (o : Option Peer) (k : Bytes)
    → lookup k (store clock p r o).0.peers
      ≡ (if equal p.node_id k then some (store clock p r o).1 else lookup k r.peers)
unfolding store
store-lookup clock p r none k = lookup-insert p.node_id k (joined clock p) r.peers
store-lookup clock p r (some prev) k = lookup-insert p.node_id k (merge prev p) r.peers

-- A record that `Upsert` accepts is found afterwards under its own id, as the peer that the call
-- returned; every other entry of the map is as it was. A record with a blank id, or with the
-- local node's, changes no entry.
pub upsert-lookup :
    (clock : Time) (p : Peer) (r : Registry) (k : Bytes)
    → lookup k (upsert clock p r).0.peers ≡ (
        if is_ignored p r
        then lookup k r.peers
        else (if equal p.node_id k then some (upsert clock p r).1 else lookup k r.peers))
unfolding upsert
upsert-lookup clock p r k = elim (Bool-cases (is_ignored p r)) [
  | inl e ↦ rw e
  | inr e ↦ rw e (store-lookup clock p r (lookup p.node_id r.peers) k)
]

not-false : (b : Bool) → not b ≡ false → b ≡ true
not-false true h = refl
not-false false h = cc

merge_same :
    (r : Registry) (p prev : Peer)
    → lookup p.node_id r.peers ≡ some prev
    → (not (same_peer prev (merge prev p)) ≡ false)
      ↔ ((record r { peers = insert p.node_id (merge prev p) r.peers }) ≡ r)
merge_same r p prev h =
    let q = merge prev p in
    let same = same_peer_iff prev q (sym (merge_joined_at prev p)) in
    (
      λ e.
          ap (λ m. record r { peers = m })
            (insert_same p.node_id q r.peers (h ∙ ap some (same.0 (not-false _ e)))),
      λ e.
          let found : lookup p.node_id (insert p.node_id q r.peers) ≡ some q =
            lookup-insert p.node_id p.node_id q r.peers ∙ (rw (equal_refl p.node_id)) in
          let stored = ap (λ (s : Registry). lookup p.node_id s.peers) e in
          let kept : prev ≡ q = cc (h, stored, found) in ap not (same.1 kept),
    )

store-changed :
    (clock : Time) (p : Peer) (r : Registry) (o : Option Peer)
    → lookup p.node_id r.peers ≡ o
    → ((store clock p r o).2 ≡ false) ↔ ((store clock p r o).0 ≡ r)
unfolding store
store-changed clock p r none h = (
  λ e. cc,
  λ e.
      let stored = ap (λ (s : Registry). lookup p.node_id s.peers) e in
      ground (arith, stored, store-lookup clock p r none p.node_id, equal_refl p.node_id),
)
store-changed clock p r (some prev) h = merge_same r p prev h

-- The second result of `Upsert` says whether the registry was changed: it is false exactly when
-- the registry is what it was.
pub upsert-changed :
    (clock : Time) (p : Peer) (r : Registry)
    → ((upsert clock p r).2 ≡ false) ↔ ((upsert clock p r).0 ≡ r)
unfolding upsert
upsert-changed clock p r = elim (Bool-cases (is_ignored p r)) [
  | inl e ↦ rw e (λ _. refl, λ _. refl)
  | inr e ↦ rw e (store-changed clock p r (lookup p.node_id r.peers) refl)
]

merge-joined : (clock : Time) (p : Peer) → merge (joined clock p) p ≡ joined clock p
unfolding merge joined
merge-joined clock p = ground arith

merge-merge : (prev p : Peer) → merge (merge prev p) p ≡ merge prev p
unfolding merge
merge-merge prev p = ground arith

same_peer_refl : (p : Peer) → same_peer p p ≡ true
same_peer_refl p = (same_peer_iff p p refl).1 refl

store_twice :
    (clock clock' : Time) (p : Peer) (r : Registry) (o : Option Peer)
    → store clock' p (store clock p r o).0 (some (store clock p r o).1)
      ≡ ((store clock p r o).0, (store clock p r o).1, false)
unfolding store
store_twice clock clock' p r none = rw (
  merge-joined clock p,
  insert_again p.node_id (joined clock p) r.peers,
  same_peer_refl (joined clock p),
)
store_twice clock clock' p r (some prev) = rw (
  merge-merge prev p,
  insert_again p.node_id (merge prev p) r.peers,
  same_peer_refl (merge prev p),
)

store-self :
    (clock : Time) (p : Peer) (r : Registry) (o : Option Peer)
    → ((store clock p r o).0.self ≡ r.self)
      × (lookup p.node_id (store clock p r o).0.peers ≡ some (store clock p r o).1)
unfolding store
store-self clock p r none = (refl, lookup-insert_self p.node_id (joined clock p) r.peers)
store-self clock p r (some prev) = (refl, lookup-insert_self p.node_id (merge prev p) r.peers)

-- `Upsert` is idempotent: calling it again with the same record, at any later time, returns the
-- same peer, reports no change and leaves the registry as the first call left it.
pub upsert_twice :
    (clock clock' : Time) (p : Peer) (r : Registry)
    → upsert clock' p (upsert clock p r).0 ≡ ((upsert clock p r).0, (upsert clock p r).1, false)
unfolding upsert
upsert_twice clock clock' p r = elim (Bool-cases (is_ignored p r)) [
  | inl e ↦ rw e (rw e refl)
  | inr e ↦
      let (kept, found) = store-self clock p r (lookup p.node_id r.peers) in
      rw e (rw (kept, found, e) (store_twice clock clock' p r (lookup p.node_id r.peers)))
]

-- What `Upsert` does with a record of a peer that it knows.
pub upsert_stored :
    (clock : Time) (p : Peer) (r : Registry) (q : Peer)
    → is_ignored p r ≡ false
    → lookup p.node_id r.peers ≡ some q
    → upsert clock p r ≡ (
      record r { peers = insert p.node_id (merge q p) r.peers },
      merge q p,
      not (same_peer q (merge q p)),
    )
unfolding upsert store
upsert_stored clock p r q e found = rw (e, found, store)

-- `Upsert` never moves the join time of a peer that it knows, and never drops a peer.
pub upsert-joined_at :
    (clock : Time) (p : Peer) (r : Registry) (k : Bytes) (q : Peer)
    → lookup k r.peers ≡ some q
    → (q' : Peer) × (lookup k (upsert clock p r).0.peers ≡ some q') × (q'.joined_at ≡ q.joined_at)
upsert-joined_at clock p r k q h = elim (Bool-cases (is_ignored p r)) [
  | inl e ↦ (q, upsert-lookup clock p r k ∙ (rw e h), refl)
  | inr e ↦ elim (Bool-cases (equal p.node_id k)) [
    | inl f ↦
        let found : lookup p.node_id r.peers ≡ some q = rw ((equal_iff p.node_id k).0 f) h in
        (
          merge q p,
          upsert-lookup clock p r k
              ∙ (rw (e, f)
                  (ap some (
                    ap (λ (u : Registry × Peer × Bool). u.1) (upsert_stored clock p r q e found)))),
          merge_joined_at q p,
        )
    | inr f ↦ (q, upsert-lookup clock p r k ∙ (rw (e, f) h), refl)
  ]
]

store-node_id :
    (clock : Time) (p : Peer) (r : Registry) (o : Option Peer)
    → Inv r
    → lookup p.node_id r.peers ≡ o
    → (store clock p r o).1.node_id ≡ p.node_id
unfolding store
store-node_id clock p r none v h = joined-node_id clock p
store-node_id clock p r (some prev) v h =
    merge-node_id prev p ∙ lookup-node_id r.self.node_id p.node_id r.peers prev v.remote h

-- The peer that `Upsert` returns has the node id of the record that it was given.
pub upsert-node_id :
    (clock : Time) (p : Peer) (r : Registry) → Inv r → (upsert clock p r).1.node_id ≡ p.node_id
unfolding upsert
upsert-node_id clock p r v = elim (Bool-cases (is_ignored p r)) [
  | inl e ↦ rw e
  | inr e ↦ rw e (store-node_id clock p r (lookup p.node_id r.peers) v refl)
]

pub upsert-self : (clock : Time) (p : Peer) (r : Registry) → (upsert clock p r).0.self ≡ r.self
unfolding upsert
upsert-self clock p r = elim (Bool-cases (is_ignored p r)) [
  | inl e ↦ rw e
  | inr e ↦ rw e (store-self clock p r (lookup p.node_id r.peers)).0
]

pub upsert_ignored :
    (clock : Time) (p : Peer) (r : Registry)
    → is_ignored p r ≡ true
    → upsert clock p r ≡ (r, p, false)
unfolding upsert
upsert_ignored clock p r e = rw e
