-- ===== src/Fleet/Bootstrap/Joined.antt =====
-- After a join the node that was let in and the members of the fleet know of each other.
use fleetmind.Common.{
  ℕ, Bool, false, ◌||◌, List, [], ◌∷◌, some, ◌≡◌, ◌≢◌, ◌⊎◌, refl, sym, subst, ◌∙◌, ap, inl, inr,
  Bool-cases, if◌then◌else◌, arith, All,
}
use fleetmind.Common.Dict.{lookup}
use fleetmind.Common.Text.{Bytes, is_empty, equal, equal_iff, equal_refl}
use fleetmind.Fleet.Bootstrap.{learn_member, learn_roster, bootstrap}
use fleetmind.Fleet.Manager.{alone, Manager, announce, upsert_peer, ensure_stream}
use fleetmind.Fleet.Manager.Streams.{ensure_stream-lookup}
use fleetmind.Fleet.Peer.{Time, Peer, peer_added}
use fleetmind.Fleet.Registry.{Registry, upsert, broadcast}
use fleetmind.Fleet.Registry.Invariant.{Inv, upsert-Inv, broadcast-Inv}
use fleetmind.Fleet.Registry.Upsert.{upsert-lookup, upsert-node_id, upsert-self, upsert-joined_at}

-- The node has a peer and a registered stream under this id.
pub record Knows (k : Bytes) (m : Manager) : Type 0 where
  pub peer : Peer
  pub stream : ℕ
  pub stored : lookup k m.registry.peers ≡ some peer
  pub streamed : lookup k m.streams ≡ some stream

ensure_stream-Knows :
    (k : Bytes) (ctx : ℕ) (p : Peer) (m : Manager) → Knows k m → Knows k (ensure_stream ctx p m)
ensure_stream-Knows k ctx p m h =
    let after = ensure_stream-lookup ctx p m in
    let stored : lookup k (ensure_stream ctx p m).registry.peers ≡ some h.peer =
      ap (λ (r : Registry). lookup k r.peers) after.2 ∙ h.stored in
    elim (Bool-cases (equal p.node_id k)) [
      | inl e ↦
          let (c, found) = after.0 in
          record {
            peer = h.peer;
            stream = c;
            stored = stored;
            streamed = rw (sym ((equal_iff p.node_id k).0 e)) found;
          }
      | inr e ↦ record {
        peer = h.peer;
        stream = h.stream;
        stored = stored;
        streamed = after.1 k e ∙ h.streamed;
      }
    ]

-- The manager when a member was stored and its change announced.
stored_member : Time → Peer → Manager → Manager
stored_member clock p m =
    let (m', stored, changed) = upsert_peer clock p m in
    if changed then announce peer_added stored m' else m'

stored_member_lem :
    (clock : Time) (p : Peer) (m : Manager)
    → ((stored_member clock p m).registry.peers ≡ (upsert clock p m.registry).0.peers)
      × ((stored_member clock p m).streams ≡ m.streams)
      × ((stored_member clock p m).registry.self ≡ m.registry.self)
unfolding stored_member broadcast
stored_member_lem clock p m = elim (Bool-cases (upsert clock p m.registry).2) [
  | inl e ↦ rw e (refl, refl, upsert-self clock p m.registry)
  | inr e ↦ rw e (refl, refl, upsert-self clock p m.registry)
]

stored_member-Inv :
    (clock : Time) (p : Peer) (m : Manager)
    → Inv m.registry
    → Inv (stored_member clock p m).registry
unfolding stored_member
stored_member-Inv clock p m v = elim (Bool-cases (upsert clock p m.registry).2) [
  | inl e ↦ rw e (broadcast-Inv _ _ (upsert-Inv clock p m.registry v))
  | inr e ↦ rw e (upsert-Inv clock p m.registry v)
]

stored_member-Knows :
    (k : Bytes) (clock : Time) (p : Peer) (m : Manager)
    → Knows k m
    → Knows k (stored_member clock p m)
stored_member-Knows k clock p m h =
    let (q, found, _) = upsert-joined_at clock p m.registry k h.peer h.stored in
    let after = stored_member_lem clock p m in
    record {
      peer = q;
      stream = h.stream;
      stored = rw (after.0) found;
      streamed = rw (after.1) (h.streamed);
    }

learn_member_lem :
    (me : Bytes) (ctx : ℕ) (clock : Peer → Time) (p : Peer) (m : Manager)
    → equal p.node_id me ≡ false
    → learn_member alone me ctx clock p m
      ≡ ensure_stream ctx (upsert (clock p) p m.registry).1 (stored_member (clock p) p m)
unfolding learn_member stored_member
learn_member_lem me ctx clock p m e = rw e

learn_member-Knows :
    (k me : Bytes) (ctx : ℕ) (clock : Peer → Time) (p : Peer) (m : Manager)
    → Knows k m
    → Knows k (learn_member alone me ctx clock p m)
learn_member-Knows k me ctx clock p m h = elim (Bool-cases (equal p.node_id me)) [
  | inl e ↦ unfold learn_member in rw e h
  | inr e ↦
      rw (learn_member_lem me ctx clock p m e)
        (ensure_stream-Knows k ctx _ _ (stored_member-Knows k (clock p) p m h))
]

-- A turn of the loop changes neither the local node nor what the registry keeps.
learn_member_kept :
    (me : Bytes) (ctx : ℕ) (clock : Peer → Time) (p : Peer) (m : Manager)
    → Inv m.registry
    → Inv (learn_member alone me ctx clock p m).registry
      × ((learn_member alone me ctx clock p m).registry.self ≡ m.registry.self)
learn_member_kept me ctx clock p m v = elim (Bool-cases (equal p.node_id me)) [
  | inl e ↦ unfold learn_member in rw e (v, refl)
  | inr e ↦
      let m' = stored_member (clock p) p m in
      let same = (ensure_stream-lookup ctx (upsert (clock p) p m.registry).1 m').2 in
      rw (learn_member_lem me ctx clock p m e, same)
        (stored_member-Inv (clock p) p m v, (stored_member_lem (clock p) p m).2)
]

learn_member-learns :
    (ctx : ℕ) (clock : Peer → Time) (p : Peer) (m : Manager)
    → Inv m.registry
    → p.node_id ≢ []
    → p.node_id ≢ m.registry.self.node_id
    → Knows p.node_id (learn_member alone m.registry.self.node_id ctx clock p m)
learn_member-learns ctx clock p m v filled other =
    let u = upsert (clock p) p m.registry in
    let m' = stored_member (clock p) p m in
    let me = m.registry.self.node_id in
    let apart : equal p.node_id me ≡ false = ground (arith, equal_iff p.node_id me) in
    let has_stream =
      subst (λ k. (c : ℕ) × (lookup k (ensure_stream ctx u.1 m').streams ≡ some c))
        (upsert-node_id (clock p) p m.registry v) (ensure_stream-lookup ctx u.1 m').0 in
    let stored : lookup p.node_id m'.registry.peers ≡ some u.1 = ground (
      arith,
      (stored_member_lem (clock p) p m).0,
      upsert-lookup (clock p) p m.registry p.node_id,
      equal_refl p.node_id,
      apart,
    ) in
    rw (learn_member_lem me ctx clock p m apart) (record {
      peer = u.1;
      stream = has_stream.0;
      stored =
          ap (λ (r : Registry). lookup p.node_id r.peers) (ensure_stream-lookup ctx u.1 m').2
          ∙ stored;
      streamed = has_stream.1;
    })

learn_roster-Knows :
    (k me : Bytes) (ctx : ℕ) (clock : Peer → Time) (ps : List Peer) (m : Manager)
    → Knows k m
    → Knows k (learn_roster alone me ctx clock ps m)
unfolding learn_roster
learn_roster-Knows k me ctx clock [] m h = h
learn_roster-Knows k me ctx clock (p ∷ ps) m h =
    learn_roster-Knows k me ctx clock ps _ (learn_member-Knows k me ctx clock p m h)

-- A member of a roster whom the local node is to know: not itself, and not one with a blank id.
abbrev pub IsOther : Bytes → Peer → Type 0
IsOther me p = (p.node_id ≡ me) ⊎ (p.node_id ≡ [])

learn_roster-All :
    (me : Bytes) (ctx : ℕ) (clock : Peer → Time) (ps : List Peer) (m : Manager)
    → Inv m.registry
    → m.registry.self.node_id ≡ me
    → All (λ p. IsOther me p ⊎ Knows p.node_id (learn_roster alone me ctx clock ps m)) ps
unfolding learn_roster
learn_roster-All me ctx clock [] m v e = tt
learn_roster-All me ctx clock (p ∷ ps) m v e =
    let m' = learn_member alone me ctx clock p m in
    let kept = learn_member_kept me ctx clock p m v in
    let later =
      learn_roster-All me ctx clock ps m' kept.0 (ap (λ (q : Peer). q.node_id) kept.1 ∙ e) in
    elim (Bool-cases (equal p.node_id me || is_empty p.node_id)) [
      | inl other ↦ (inl (ground (arith, equal_iff p.node_id me)), later)
      | inr new ↦
          let learnt : Knows p.node_id m' =
            subst (λ k. Knows p.node_id (learn_member alone k ctx clock p m)) e
              (learn_member-learns ctx clock p m v (ground arith)
                (ground (arith, equal_iff p.node_id me))) in
          (inr (learn_roster-Knows p.node_id me ctx clock ps m' learnt), later)
    ]

-- When a node has been let in, it knows every member of the roster that it was sent, itself and
-- members with a blank id left aside: each is in its registry, with a registered stream.
pub bootstrap-All :
    (same_base_url : Bytes → Bytes → Bool) (ctx : ℕ) (clock : Peer → Time) (ps : List Peer)
    (m : Manager)
    → Inv m.registry
    → All
        (λ p.
          IsOther m.registry.self.node_id p
          ⊎ Knows p.node_id (bootstrap same_base_url alone ctx clock (some ps) m).0)
        ps
unfolding bootstrap
bootstrap-All same_base_url ctx clock ps m v =
    learn_roster-All m.registry.self.node_id ctx clock ps m v refl
