-- ===== src/Fleet/Manager/Prune.antt =====
-- One turn of the prune loop, over the registry and the streams together.
use fleetmind.Common.{
  Bool, false, ◌||◌, List, [], ◌∷◌, Option, none, some, ◌≡◌, refl, ◌∙◌, ap, if◌then◌else◌, arith, ℕ,
  Bool-cases, subst, inl, sym, inr,
}
use fleetmind.Common.Dict.{Dict, lookup, IsDistinct}
use fleetmind.Common.Text.{Bytes, equal, equal_iff}
use fleetmind.Fleet.Peer.{Time, Duration, Peer, peer_removed}
use fleetmind.Fleet.Registry.{Registry, is_stale, prune, prune_stale, broadcast}
use fleetmind.Fleet.Registry.Invariant.{Inv, IsRemote}
use fleetmind.Fleet.Registry.Prune.{unless_stale, prune_stale-lookup}
use fleetmind.Fleet.Manager.{alone, Manager, announce, evict, cancel_stream, prune_tick}
use fleetmind.Fleet.Manager.Streams.{
  cancel_stream-lookup, IsMade, IsEnded, cancel_stream_mono, cancel_stream-IsEnded,
  cancel_stream-IsMade,
}

-- Whether a node is among the evicted ones.
abbrev is_evicted : Bytes → List Peer → Bool
is_evicted k [] = false
is_evicted k (p ∷ ps) = equal p.node_id k || is_evicted k ps

evict-streams :
    (k : Bytes) (ps : List Peer) (m : Manager)
    → lookup k (evict alone ps m).streams ≡ (if is_evicted k ps then none else lookup k m.streams)
unfolding evict broadcast
evict-streams k [] m = refl
evict-streams k (p ∷ ps) m = ground (
  arith,
  evict-streams k ps (announce peer_removed p (cancel_stream p.node_id m)),
  (cancel_stream-lookup p.node_id k m).0,
)

evict-peers : (ps : List Peer) (m : Manager) → (evict alone ps m).registry.peers ≡ m.registry.peers
unfolding evict broadcast
evict-peers [] m = refl
evict-peers (p ∷ ps) m =
    evict-peers ps _ ∙ ap (λ (r : Registry). r.peers) (cancel_stream-lookup p.node_id [] m).1

-- Whether the pruning evicts what stands under a key.
abbrev pub stale_at : Time → Duration → Option Peer → Bool
stale_at now d none = false
stale_at now d (some p) = is_stale now d p

evicted_absent :
    (now : Time) (d : Duration) (me k : Bytes) (m : Dict Peer)
    → IsRemote me m
    → IsDistinct m
    → is_evicted k (prune now d m).1 ≡ stale_at now d (lookup k m)
unfolding prune lookup
evicted_absent now d me k [] v h = refl
evicted_absent now d me k ((j, p) ∷ m) v h =
    ground (arith, equal_iff j k, v.0, h.0, evicted_absent now d me k m v.3 h.1)

prune_stale-evicted :
    (now : Time) (d : Duration) (k : Bytes) (r : Registry)
    → Inv r
    → is_evicted k (prune_stale now d r).1 ≡ stale_at now d (lookup k r.peers)
unfolding prune_stale
prune_stale-evicted now d k r v = evicted_absent now d r.self.node_id k r.peers v.remote v.distinct

evict_mono :
    (o : Option ℕ) (ps : List Peer) (m : Manager)
    → IsEnded o m.contexts
    → IsEnded o (evict alone ps m).contexts
unfolding evict
evict_mono o [] m h = h
evict_mono o (p ∷ ps) m h =
    evict_mono o ps (announce peer_removed p (cancel_stream p.node_id m))
      (cancel_stream_mono o p.node_id m h)

abbrev unless : Bool → Option ℕ → Option ℕ
unless b o = if b then o else none

evict-IsEnded :
    (k : Bytes) (ps : List Peer) (m : Manager)
    → IsMade (lookup k m.streams) m.contexts
    → IsEnded (unless (is_evicted k ps) (lookup k m.streams)) (evict alone ps m).contexts
unfolding evict
evict-IsEnded k [] m h = tt
evict-IsEnded k (p ∷ ps) m h =
    let m' = announce peer_removed p (cancel_stream p.node_id m) in
    elim (Bool-cases (equal p.node_id k)) [
      | inl e ↦
          let own = (equal_iff p.node_id k).0 e in
          let ended : IsEnded (lookup k m.streams) (cancel_stream p.node_id m).contexts =
            subst (λ j. IsEnded (lookup k m.streams) (cancel_stream j m).contexts) (sym own)
              (cancel_stream-IsEnded k m h) in
          rw e (evict_mono (lookup k m.streams) ps m' ended)
      | inr e ↦
          let same : lookup k (cancel_stream p.node_id m).streams ≡ lookup k m.streams =
            (cancel_stream-lookup p.node_id k m).0 ∙ (rw e) in
          let known : IsMade (lookup k m'.streams) m'.contexts =
            rw same (cancel_stream-IsMade (lookup k m.streams) p.node_id m h) in
          rw e (
            subst (λ o. IsEnded (unless (is_evicted k ps) o) (evict alone ps m').contexts) same
              (evict-IsEnded k ps m' known))
    ]

-- A turn of the prune loop, with no call of another goroutine in between, takes each stale peer out
-- of the registry, its stream out of the map of streams, and ends that stream, which is taken to run
-- in a context that was made. Every other peer stays as it was, and so does every other entry of
-- the map of streams.
pub prune_tick-lookup :
    (now : Time) (m : Manager) (k : Bytes)
    → Inv m.registry
    → IsMade (lookup k m.streams) m.contexts
    → (lookup k (prune_tick alone now m).registry.peers
        ≡ unless_stale now m.options.dead_after (lookup k m.registry.peers))
      × (lookup k (prune_tick alone now m).streams ≡ (
          if stale_at now m.options.dead_after (lookup k m.registry.peers)
          then none
          else lookup k m.streams))
      × IsEnded
          (if stale_at now m.options.dead_after (lookup k m.registry.peers)
            then lookup k m.streams
            else none)
          (prune_tick alone now m).contexts
unfolding prune_tick
prune_tick-lookup now m k v known =
    let d = m.options.dead_after in
    let m' : Manager = record m { registry = (prune_stale now d m.registry).0 } in
    let dead = (prune_stale now d m.registry).1 in
    (
      ap (λ (ps : Dict Peer). lookup k ps) (evict-peers dead m')
          ∙ prune_stale-lookup now d m.registry k v.distinct,
      evict-streams k dead m'
          ∙ ap (λ b. if b then none else lookup k m.streams)
              (prune_stale-evicted now d k m.registry v),
      subst (λ b. IsEnded (unless b (lookup k m.streams)) (evict alone dead m').contexts)
          (prune_stale-evicted now d k m.registry v) (evict-IsEnded k dead m' known),
    )
