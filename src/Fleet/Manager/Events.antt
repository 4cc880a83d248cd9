-- ===== src/Fleet/Manager/Events.antt =====
-- What an event from another node's stream does to the registry, the streams and the subscribers.
use fleetmind.Common.{
  ℕ, Bool, true, false, [], none, some, ◌≡◌, ◌≢◌, ◌⊎◌, refl, subst, ◌∙◌, ap, if◌then◌else◌, arith,
  inl, inr, Bool-cases, Option, sym,
}
use fleetmind.Common.Dict.{lookup, Dict}
use fleetmind.Common.Text.{Bytes, equal}
use fleetmind.Fleet.Peer.{
  Time, Peer, Event, EventType, heartbeat, peer_added, peer_removed, unknown,
}
use fleetmind.Fleet.Registry.{Registry, upsert, broadcast}
use fleetmind.Fleet.Registry.Invariant.{Inv, is_ignored}
use fleetmind.Fleet.Registry.Upsert.{upsert-self, upsert-node_id, upsert-lookup, upsert_ignored}
use fleetmind.Fleet.Manager.{
  alone, Manager, upsert_peer, stamped, learn, ensure_stream, cancel_stream, handle_remote_event,
  is_done, tell,
}
use fleetmind.Fleet.Manager.Streams.{
  IsTree, has_context, ensure_stream-lookup, IsStreamed, ensure_stream-IsStreamed,
}
use fleetmind.Fleet.Manager.Orphans.{IsOrphan, cancel_stream-IsOrphan}

-- The two kinds of event that report a living peer.
abbrev pub IsNews : EventType → Type 0
IsNews t = (t ≡ heartbeat) ⊎ (t ≡ peer_added)

-- The manager when `Upsert` has run and its change, if any, has been announced.
stored_at : Time → EventType → Peer → Manager → Manager
stored_at clock t p m =
    let (m', stored, changed) = upsert_peer clock (stamped clock t p) m in
    tell alone t stored changed m'

learn_lem :
    (ctx : ℕ) (clock : Time) (t : EventType) (p : Peer) (m : Manager)
    → learn alone ctx clock t p m
      ≡ ensure_stream ctx (upsert clock (stamped clock t p) m.registry).1 (stored_at clock t p m)
unfolding learn stored_at
learn_lem ctx clock t p m = refl

record StoredAt (clock : Time) (t : EventType) (p : Peer) (m m' : Manager) : Type 0 where
  streams : m'.streams ≡ m.streams
  contexts : m'.contexts ≡ m.contexts
  next_context : m'.next_context ≡ m.next_context
  peers : m'.registry.peers ≡ (upsert clock (stamped clock t p) m.registry).0.peers
  self : m'.registry.self ≡ (upsert clock (stamped clock t p) m.registry).0.self

stored_at-StoredAt :
    (clock : Time) (t : EventType) (p : Peer) (m : Manager)
    → StoredAt clock t p m (stored_at clock t p m)
unfolding stored_at broadcast
stored_at-StoredAt clock heartbeat p m = record {
  streams = refl;
  contexts = refl;
  next_context = refl;
  peers = refl;
  self = refl;
}
stored_at-StoredAt clock peer_removed p m = record {
  streams = refl;
  contexts = refl;
  next_context = refl;
  peers = refl;
  self = refl;
}
stored_at-StoredAt clock (unknown s) p m = record {
  streams = refl;
  contexts = refl;
  next_context = refl;
  peers = refl;
  self = refl;
}
stored_at-StoredAt clock peer_added p m =
    elim (Bool-cases (upsert clock (stamped clock peer_added p) m.registry).2) [
      | inl e ↦ rw e (record {
        streams = refl;
        contexts = refl;
        next_context = refl;
        peers = refl;
        self = refl;
      })
      | inr e ↦ rw e (record {
        streams = refl;
        contexts = refl;
        next_context = refl;
        peers = refl;
        self = refl;
      })
    ]

stamped-node_id :
    (clock : Time) (t : EventType) (p : Peer) → (stamped clock t p).node_id ≡ p.node_id
unfolding stamped
stamped-node_id clock heartbeat p = ground arith
stamped-node_id clock _ p = refl

handle_news :
    (ctx : ℕ) (clock : Time) (e : Event) (m : Manager)
    → IsNews e.type
    → equal e.peer.node_id m.registry.self.node_id ≡ false
    → handle_remote_event alone ctx clock e m ≡ learn alone ctx clock e.type e.peer m
unfolding handle_remote_event
handle_news ctx clock e m (inl t) ne = rw (ne, t)
handle_news ctx clock e m (inr t) ne = rw (ne, t)

module _ (ctx : ℕ) (clock : Time) (e : Event) (m : Manager) (valid : Inv m.registry)
    (news : IsNews e.type) (other : equal e.peer.node_id m.registry.self.node_id ≡ false) where
  news_peer : Peer
  news_peer = (upsert clock (stamped clock e.type e.peer) m.registry).1

  news_id : news_peer.node_id ≡ e.peer.node_id
  unfolding news_peer
  news_id =
      upsert-node_id clock (stamped clock e.type e.peer) m.registry valid
      ∙ stamped-node_id clock e.type e.peer

  news_lem :
      handle_remote_event alone ctx clock e m
      ≡ ensure_stream ctx news_peer (stored_at clock e.type e.peer m)
  unfolding news_peer
  news_lem = handle_news ctx clock e m news other ∙ learn_lem ctx clock e.type e.peer m

  news_stream : IsStreamed ctx e.peer.node_id m (handle_remote_event alone ctx clock e m)
  news_stream =
      let m' = stored_at clock e.type e.peer m in
      let kept = stored_at-StoredAt clock e.type e.peer m in
      let before : lookup e.peer.node_id m.streams ≡ lookup e.peer.node_id m'.streams =
        ap (λ (s : Dict ℕ). lookup e.peer.node_id s) (sym kept.streams) in
      let there =
        subst (λ k. IsStreamed ctx k m' (ensure_stream ctx news_peer m')) news_id
          (ensure_stream-IsStreamed ctx news_peer m') in
      rw news_lem (record {
        stream = there.stream;
        registered = there.registered;
        origin = elim there.origin [
          | inl h ↦ inl (before ∙ h)
          | inr (h, d) ↦ inr (before ∙ h, d ∙ ap (is_done ctx) kept.contexts)
        ];
      })

  news_peers :
      (handle_remote_event alone ctx clock e m).registry.peers
      ≡ (upsert clock (stamped clock e.type e.peer) m.registry).0.peers
  news_peers =
      let m' = stored_at clock e.type e.peer m in
      ap (λ (m : Manager). m.registry.peers) news_lem
      ∙ ap (λ (r : Registry). r.peers) (ensure_stream-lookup ctx news_peer m').2
      ∙ (stored_at-StoredAt clock e.type e.peer m).peers

  pub news_self : (handle_remote_event alone ctx clock e m).registry.self ≡ m.registry.self
  news_self =
      let m' = stored_at clock e.type e.peer m in
      ap (λ (m : Manager). m.registry.self) news_lem
      ∙ ap (λ (r : Registry). r.self) (ensure_stream-lookup ctx news_peer m').2
      ∙ (stored_at-StoredAt clock e.type e.peer m).self
      ∙ upsert-self clock (stamped clock e.type e.peer) m.registry

  pub news_others :
      (k : Bytes)
      → equal e.peer.node_id k ≡ false
      → lookup k (handle_remote_event alone ctx clock e m).registry.peers
        ≡ lookup k m.registry.peers
  news_others k ne = ground (
    arith,
    ne,
    news_peers,
    upsert-lookup clock (stamped clock e.type e.peer) m.registry k,
    stamped-node_id clock e.type e.peer,
  )

  -- A heartbeat or a peer-added event about another node, with no call of another goroutine in
  -- between, puts that node's peer in the map, as `Upsert` merges it, and leaves the other entries
  -- alone. Afterwards a stream is registered for the node: the one that was registered before, if
  -- any, whatever became of it, and else a new one, which has ended only if the stream has over which
  -- the event came.
  pub handle_remote_event-learns :
      (k : Bytes)
      → e.peer.node_id ≢ []
      → (lookup k (handle_remote_event alone ctx clock e m).registry.peers ≡ (
          if equal e.peer.node_id k
          then some (upsert clock (stamped clock e.type e.peer) m.registry).1
          else lookup k m.registry.peers))
        × IsStreamed ctx e.peer.node_id m (handle_remote_event alone ctx clock e m)
  handle_remote_event-learns k ne = (
    ground (
      arith,
      ne,
      news_peers,
      upsert-lookup clock (stamped clock e.type e.peer) m.registry k,
      stamped-node_id clock e.type e.peer,
    ),
    news_stream,
  )

  -- Cancelling the stream over which a node was first heard of makes the node an orphan.
  pub cancelled-IsOrphan :
      (a : Bytes)
      → IsTree m.next_context m.contexts
      → has_context ctx m.contexts ≡ true
      → lookup a m.streams ≡ some ctx
      → lookup e.peer.node_id m.streams ≡ none
      → IsOrphan e.peer.node_id (cancel_stream a (handle_remote_event alone ctx clock e m))
  cancelled-IsOrphan a tree known streamed fresh =
      let m' = stored_at clock e.type e.peer m in
      let kept = stored_at-StoredAt clock e.type e.peer m in
      rw news_lem (
        subst (λ k. IsOrphan k (cancel_stream a (ensure_stream ctx news_peer m'))) news_id
          (cancel_stream-IsOrphan m' a ctx news_peer (rw (kept.contexts, kept.next_context) tree)
            (rw (kept.contexts) known) (rw (kept.streams) streamed)
            (rw (kept.streams, news_id) fresh)))

fresh_known : {o : Option ℕ} {c : ℕ} → o ≡ none → o ≡ some c → ⊥
fresh_known h k = ground arith

-- The registry behind what `Upsert` returned.
abbrev told : EventType → Manager → Registry × Peer × Bool → Registry
told t m u = (tell alone t u.1 u.2 (record m { registry = u.0 })).registry

told_unchanged :
    (t : EventType) (p : Peer) (m : Manager) → told t m (m.registry, p, false) ≡ m.registry
told_unchanged heartbeat p m = refl
told_unchanged peer_added p m = refl
told_unchanged peer_removed p m = refl
told_unchanged (unknown s) p m = refl

upsert_blank :
    (clock : Time) (t : EventType) (p : Peer) (m : Manager)
    → is_ignored (stamped clock t p) m.registry ≡ true
    → (stored_at clock t p m).registry ≡ m.registry
unfolding stored_at
upsert_blank clock t p m h =
    ap (told t m) (upsert_ignored clock (stamped clock t p) m.registry h)
    ∙ told_unchanged t (stamped clock t p) m

-- An event with a blank node id, which `Upsert` ignores, still starts a stream, where none is
-- registered for the blank id: afterwards a new one is, which has ended only if the stream has over
-- which the event came. The registry, its subscribers included, stays as it was. No call of another
-- goroutine comes in between.
pub handle_remote_event_blank :
    (ctx : ℕ) (clock : Time) (e : Event) (m : Manager)
    → Inv m.registry
    → IsNews e.type
    → equal e.peer.node_id m.registry.self.node_id ≡ false
    → e.peer.node_id ≡ []
    → lookup [] m.streams ≡ none
    → ((c : ℕ) × (lookup [] (handle_remote_event alone ctx clock e m).streams ≡ some c)
        × (is_done c (handle_remote_event alone ctx clock e m).contexts ≡ is_done ctx m.contexts))
      × ((handle_remote_event alone ctx clock e m).registry ≡ m.registry)
handle_remote_event_blank ctx clock e m v news ne blank fresh =
    let p = stamped clock e.type e.peer in
    let ignored : is_ignored p m.registry ≡ true =
      ground (arith, stamped-node_id clock e.type e.peer) in
    let there =
      subst (λ k. IsStreamed ctx k m (handle_remote_event alone ctx clock e m)) blank
        (news_stream ctx clock e m v news ne) in
    (
      elim there.origin [
        | inl h ↦ absurd (fresh_known fresh h)
        | inr (h, d) ↦ (there.stream, there.registered, d)
      ],
      ap (λ (m : Manager). m.registry) (news_lem ctx clock e m v news ne)
          ∙ (ensure_stream-lookup ctx (news_peer ctx clock e m v news ne)
              (stored_at clock e.type e.peer m)).2
          ∙ upsert_blank clock e.type e.peer m ignored,
    )
