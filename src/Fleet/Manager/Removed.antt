-- ===== src/Fleet/Manager/Removed.antt =====
-- What a peer-removed event from another node's stream does, and whom it makes an orphan.
use fleetmind.Fleet.Manager.Events.{IsNews, news_self, news_others, cancelled-IsOrphan}
use fleetmind.Fleet.Manager.Orphans.{IsOrphan}
use fleetmind.Fleet.Manager.Streams.{
  IsMade, cancel_stream-lookup, IsEnded, cancel_stream-IsEnded, IsTree, has_context,
}
use fleetmind.Common.Dict.{lookup, delete, Dict}
use fleetmind.Fleet.Registry.Invariant.{Inv, lookup-node_id}
use fleetmind.Fleet.Peer.{Peer, Time, Event, peer_removed}
use fleetmind.Common.{
  inl, inr, true, Option, ℕ, ◌≡◌, none, some, false, if◌then◌else◌, refl, ap, ◌∙◌, subst, sym,
  Bool-cases, Option-cases,
}
use fleetmind.Fleet.Registry.{remove, broadcast}
use fleetmind.Fleet.Manager.{
  forget, handle_remote_event, Manager, alone, announce, cancel_stream, stop_stream,
}
use fleetmind.Common.Text.{Bytes, equal, equal_iff}

forget-none : (k : Bytes) (m : Manager) → lookup k m.registry.peers ≡ none → forget alone k m ≡ m
unfolding forget remove
forget-none k m h = rw (h, remove)

forget-some :
    (k : Bytes) (m : Manager) (p : Peer)
    → lookup k m.registry.peers ≡ some p
    → forget alone k m
      ≡ announce peer_removed p (
          cancel_stream p.node_id
            (record m { registry = record (m.registry) { peers = delete k m.registry.peers } }))
unfolding forget remove
forget-some k m p h = rw (h, remove)

handle_removed :
    (ctx : ℕ) (clock : Time) (e : Event) (m : Manager)
    → e.type ≡ peer_removed
    → equal e.peer.node_id m.registry.self.node_id ≡ false
    → handle_remote_event alone ctx clock e m ≡ forget alone e.peer.node_id m
unfolding handle_remote_event
handle_removed ctx clock e m t ne = rw (ne, t)

-- What becomes of the manager when a node is to be forgotten whose entry is given.
abbrev pub IsForgotten : Option Peer → Bytes → Bytes → Manager → Manager → Type 0
IsForgotten none id k m m' = m' ≡ m
IsForgotten (some p) id k m m' =
    (m'.registry
      ≡ broadcast (record { type = peer_removed; peer = p })
          (record (m.registry) { peers = delete id m.registry.peers }))
    × (lookup k m'.streams ≡ (if equal id k then none else lookup k m.streams))
    × IsEnded (lookup id m.streams) m'.contexts

forget-IsForgotten :
    (id k : Bytes) (m : Manager) (o : Option Peer)
    → Inv m.registry
    → IsMade (lookup id m.streams) m.contexts
    → lookup id m.registry.peers ≡ o
    → IsForgotten o id k m (forget alone id m)
forget-IsForgotten id k m none v known h = forget-none id m h
forget-IsForgotten id k m (some p) v known h =
    let own = lookup-node_id m.registry.self.node_id id m.registry.peers p v.remote h in
    let m' : Manager = record m {
      registry = record (m.registry) { peers = delete id m.registry.peers };
    } in
    let gone = cancel_stream-lookup p.node_id k m' in
    rw (forget-some id m p h) (
      ap (broadcast (record { type = peer_removed; peer = p })) gone.1,
      gone.0 ∙ (rw own),
      subst (λ j. IsEnded (lookup id m.streams) (cancel_stream j m').contexts) (sym own)
          (cancel_stream-IsEnded id m' known),
    )

-- A peer-removed event about another node, with no call of another goroutine in between: about a
-- node that is not in the map it changes nothing at all. Else the registry loses that node's entry
-- and broadcasts the removal, and nothing more; the map of streams loses that node's entry and no
-- other; and that node's stream, which is taken to run in a context that was made, has ended.
pub handle_remote_event-forgets :
    (ctx : ℕ) (clock : Time) (e : Event) (m : Manager) (k : Bytes)
    → Inv m.registry
    → e.type ≡ peer_removed
    → equal e.peer.node_id m.registry.self.node_id ≡ false
    → IsMade (lookup e.peer.node_id m.streams) m.contexts
    → IsForgotten
        (lookup e.peer.node_id m.registry.peers)
        e.peer.node_id
        k
        m
        (handle_remote_event alone ctx clock e m)
handle_remote_event-forgets ctx clock e m k v t ne known =
    rw (handle_removed ctx clock e m t ne)
      (forget-IsForgotten e.peer.node_id k m (lookup e.peer.node_id m.registry.peers) v known refl)

streams_apart :
    (k a : Bytes) (s : Dict ℕ) {c : ℕ} → lookup k s ≡ none → lookup a s ≡ some c → equal k a ≡ false
streams_apart k a s fresh streamed = elim (Bool-cases (equal k a)) [
  | inl e ↦ cc (ap (λ k. lookup k s) ((equal_iff k a).0 e), streamed, fresh)
  | inr e ↦ e
]

-- Neither the registry nor an announcement matters to streams and contexts.
forgotten-IsOrphan :
    (j k : Bytes) (m : Manager) (p : Peer)
    → lookup k m.registry.peers ≡ some p
    → p.node_id ≡ k
    → IsOrphan j (cancel_stream k m)
    → IsOrphan j (forget alone k m)
unfolding cancel_stream stop_stream
forgotten-IsOrphan j k m p h own orphan =
    rw (forget-some k m p h, own)
      (elim (Option-cases (lookup k m.streams)) [
        | inl e ↦ rw e (subst (λ o. IsOrphan j (stop_stream k o m)) e orphan)
        | inr (c, e) ↦ rw e (subst (λ o. IsOrphan j (stop_stream k o m)) e orphan)
      ])

-- A node that is first heard of over the stream of node `a`, and that has no stream then, is an
-- orphan once the news that `a` is gone follows: its stream is registered and has ended. Both
-- events are handled with no call of another goroutine in between, the local loop's included; node
-- `a` is in the map, is not the local node, and its stream is the one over which the node was heard
-- of, in a context that was made.
pub handle_remote_event-IsOrphan :
    (ctx ctx' : ℕ) (clock clock' : Time) (e e' : Event) (m : Manager) (q : Peer)
    → Inv m.registry
    → IsNews e.type
    → equal e.peer.node_id m.registry.self.node_id ≡ false
    → IsTree m.next_context m.contexts
    → has_context ctx m.contexts ≡ true
    → lookup e'.peer.node_id m.streams ≡ some ctx
    → lookup e.peer.node_id m.streams ≡ none
    → e'.type ≡ peer_removed
    → equal e'.peer.node_id m.registry.self.node_id ≡ false
    → lookup e'.peer.node_id m.registry.peers ≡ some q
    → IsOrphan e.peer.node_id
        (handle_remote_event alone ctx' clock' e' (handle_remote_event alone ctx clock e m))
handle_remote_event-IsOrphan ctx ctx' clock clock' e e' m q v news other tree known streamed fresh
      gone remote there =
    let a = e'.peer.node_id in
    let m' = handle_remote_event alone ctx clock e m in
    let apart = streams_apart e.peer.node_id a m.streams fresh streamed in
    rw
      (handle_removed ctx' clock' e' m' gone
        (ap (λ (p : Peer). equal a p.node_id) (news_self ctx clock e m v news other) ∙ remote))
      (forgotten-IsOrphan e.peer.node_id a m' q
        (news_others ctx clock e m v news other a apart ∙ there)
        (lookup-node_id m.registry.self.node_id a m.registry.peers q v.remote there)
        (cancelled-IsOrphan ctx clock e m v news other a tree known streamed fresh))
