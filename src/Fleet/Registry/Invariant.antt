-- ===== src/Fleet/Registry/Invariant.antt =====
-- What every method of the registry keeps.
use fleetmind.Common.{
  ℕ, ◌≤◌, ◌<◌, Bool, false, List, [], ◌∷◌, ◌≡◌, ◌≢◌, refl, Option, none, some, length, drop, arith,
  length-append, Bool-cases, inl, inr, ◌||◌, ◌∙◌,
}
use fleetmind.Common.Dict.{
  Dict, IsDistinct, lookup, insert, delete, insert-IsDistinct, delete-IsDistinct,
}
use fleetmind.Common.Int.{ℤ}
use fleetmind.Common.Text.{Bytes, equal, equal_iff, is_empty}
use fleetmind.Fleet.Peer.{Time, Duration, Peer, Event}
use fleetmind.Fleet.Registry.{
  Registry, Channel, new_registry, touch_self_heartbeat, joined, merge, store, upsert, remove,
  prune, prune_stale, subscribe, drop_subscriber, cancel, offer_all, broadcast, receive_from,
  receive,
}

-- Every peer stands under its own id, which is neither blank nor `me`.
abbrev pub IsRemote : Bytes → Dict Peer → Type 0
IsRemote me [] = Unit
IsRemote me ((id, p) ∷ m) = (p.node_id ≡ id) × (id ≢ []) × (id ≢ me) × IsRemote me m

-- Subscriber ids fall along the list and stay under `next`; no buffer is over its capacity.
abbrev pub IsBuffered : ℕ → List (ℕ × Channel) → Type 0
IsBuffered next [] = Unit
IsBuffered next ((j, ch) ∷ s) =
    (j < next) × (length ch.buffered ≤ ch.capacity) × (1 ≤ ch.capacity) × IsBuffered j s

pub record Inv (r : Registry) : Type 0 where
  pub distinct : IsDistinct r.peers
  pub remote : IsRemote r.self.node_id r.peers
  pub buffered : IsBuffered r.next_sub_id r.subscribers

pub insert-IsRemote :
    (me k : Bytes) (p : Peer) (m : Dict Peer)
    → p.node_id ≡ k
    → k ≢ []
    → k ≢ me
    → IsRemote me m
    → IsRemote me (insert k p m)
unfolding insert
insert-IsRemote me k p [] e n s h = (e, n, s, tt)
insert-IsRemote me k p ((j, q) ∷ m) e n s h = ground (arith, insert-IsRemote me k p m e n s h.3)

pub delete-IsRemote : (me k : Bytes) (m : Dict Peer) → IsRemote me m → IsRemote me (delete k m)
unfolding delete
delete-IsRemote me k [] h = tt
delete-IsRemote me k ((j, q) ∷ m) h = ground (arith, delete-IsRemote me k m h.3)

pub lookup-node_id :
    (me k : Bytes) (m : Dict Peer) (p : Peer) → IsRemote me m → lookup k m ≡ some p → p.node_id ≡ k
unfolding lookup
lookup-node_id me k [] p h e = cc
lookup-node_id me k ((j, q) ∷ m) p h e = ground (arith, equal_iff j k, lookup-node_id me k m p h.3)

-- `m` after the pruning, with a key that was not in it.
lookup-prune-none :
    (now : Time) (d : Duration) (k : Bytes) (m : Dict Peer)
    → lookup k m ≡ none
    → lookup k (prune now d m).0 ≡ none
unfolding lookup prune
lookup-prune-none now d k [] h = refl
lookup-prune-none now d k ((j, q) ∷ m) h = ground (arith, lookup-prune-none now d k m)

pub prune-IsDistinct :
    (now : Time) (d : Duration) (m : Dict Peer) → IsDistinct m → IsDistinct (prune now d m).0
unfolding prune
prune-IsDistinct now d [] h = tt
prune-IsDistinct now d ((j, q) ∷ m) h =
    ground (arith, prune-IsDistinct now d m h.1, lookup-prune-none now d j m h.0)

prune-IsRemote :
    (now : Time) (d : Duration) (me : Bytes) (m : Dict Peer)
    → IsRemote me m
    → IsRemote me (prune now d m).0
unfolding prune
prune-IsRemote now d me [] h = tt
prune-IsRemote now d me ((j, q) ∷ m) h = ground (arith, prune-IsRemote now d me m h.3)

IsBuffered-mono : (n m : ℕ) (s : List (ℕ × Channel)) → n ≤ m → IsBuffered n s → IsBuffered m s
IsBuffered-mono n m [] h b = tt
IsBuffered-mono n m ((j, ch) ∷ s) h b = (omega arith, b.1, b.2, b.3)

drop_subscriber-IsBuffered :
    (id n : ℕ) (s : List (ℕ × Channel)) → IsBuffered n s → IsBuffered n (drop_subscriber id s)
unfolding drop_subscriber
drop_subscriber-IsBuffered id n [] b = tt
drop_subscriber-IsBuffered id n ((j, ch) ∷ s) b =
    ground
      (arith, drop_subscriber-IsBuffered id j s b.3, IsBuffered-mono j n (drop_subscriber id s))

offer_all-IsBuffered :
    (e : Event) (n : ℕ) (s : List (ℕ × Channel)) → IsBuffered n s → IsBuffered n (offer_all e s)
unfolding offer_all
offer_all-IsBuffered e n [] b = tt
offer_all-IsBuffered e n ((j, ch) ∷ s) b =
    ground (arith, offer_all-IsBuffered e j s b.3, length-append ch.buffered (e ∷ []))

length-drop_one : (es : List Event) → length (drop 1 es) ≤ length es
length-drop_one [] = omega arith
length-drop_one (e ∷ es) = omega arith

receive_from-IsBuffered :
    (id n : ℕ) (s : List (ℕ × Channel)) → IsBuffered n s → IsBuffered n (receive_from id s)
unfolding receive_from
receive_from-IsBuffered id n [] b = tt
receive_from-IsBuffered id n ((j, ch) ∷ s) b =
    ground (arith, receive_from-IsBuffered id j s b.3, length-drop_one ch.buffered)

pub new_registry-Inv : (self : Peer) → Inv (new_registry self)
unfolding new_registry
new_registry-Inv self = record { distinct = tt; remote = tt; buffered = tt }

-- The registry with one peer written under its own id.
insert-Inv :
    (k : Bytes) (p : Peer) (r : Registry)
    → p.node_id ≡ k
    → k ≢ []
    → k ≢ r.self.node_id
    → Inv r
    → Inv (record r { peers = insert k p r.peers })
insert-Inv k p r e n s v = record {
  distinct = insert-IsDistinct k p r.peers v.distinct;
  remote = insert-IsRemote r.self.node_id k p r.peers e n s v.remote;
  buffered = v.buffered;
}

pub joined-node_id : (clock : Time) (p : Peer) → (joined clock p).node_id ≡ p.node_id
unfolding joined
joined-node_id clock p = ground arith

pub merge-node_id : (prev p : Peer) → (merge prev p).node_id ≡ prev.node_id
unfolding merge
merge-node_id prev p = refl

-- The guard of `Upsert`.
abbrev pub is_ignored : Peer → Registry → Bool
is_ignored p r = is_empty p.node_id || equal p.node_id r.self.node_id

pub is_ignored-false :
    (p : Peer) (r : Registry)
    → is_ignored p r ≡ false
    → (p.node_id ≢ []) × (p.node_id ≢ r.self.node_id)
is_ignored-false p r h = ground (arith, equal_iff p.node_id r.self.node_id)

store-Inv :
    (clock : Time) (p : Peer) (r : Registry) (o : Option Peer)
    → lookup p.node_id r.peers ≡ o
    → (p.node_id ≢ []) × (p.node_id ≢ r.self.node_id)
    → Inv r
    → Inv (store clock p r o).0
unfolding store
store-Inv clock p r none h g v =
    insert-Inv p.node_id (joined clock p) r (joined-node_id clock p) g.0 g.1 v
store-Inv clock p r (some prev) h g v =
    insert-Inv p.node_id (merge prev p) r
      (merge-node_id prev p ∙ lookup-node_id r.self.node_id p.node_id r.peers prev v.remote h) g.0
      g.1 v

pub upsert-Inv : (clock : Time) (p : Peer) (r : Registry) → Inv r → Inv (upsert clock p r).0
unfolding upsert
upsert-Inv clock p r v = elim (Bool-cases (is_ignored p r)) [
  | inl e ↦ rw e v
  | inr e ↦ rw e (store-Inv clock p r (lookup p.node_id r.peers) refl (is_ignored-false p r e) v)
]

pub remove-Inv : (id : Bytes) (r : Registry) → Inv r → Inv (remove id r).0
unfolding remove
remove-Inv id r v = ground (
  arith,
  delete-IsDistinct id r.peers v.distinct,
  delete-IsRemote r.self.node_id id r.peers v.remote,
)

pub prune_stale-Inv :
    (now : Time) (d : Duration) (r : Registry) → Inv r → Inv (prune_stale now d r).0
unfolding prune_stale
prune_stale-Inv now d r v = record {
  distinct = prune-IsDistinct now d r.peers v.distinct;
  remote = prune-IsRemote now d r.self.node_id r.peers v.remote;
  buffered = v.buffered;
}

pub broadcast-Inv : (e : Event) (r : Registry) → Inv r → Inv (broadcast e r)
unfolding broadcast
broadcast-Inv e r v = record {
  distinct = v.distinct;
  remote = v.remote;
  buffered = offer_all-IsBuffered e _ _ v.buffered;
}

pub subscribe-Inv : (b : ℤ) (r : Registry) → Inv r → Inv (subscribe b r).0
unfolding subscribe
subscribe-Inv b r v = record {
  distinct = v.distinct;
  remote = v.remote;
  buffered = ground (arith, v.buffered);
}

pub data Operation : Type 0 where
  touches : Time → Operation
  upserts : Time → Peer → Operation
  removes : Bytes → Operation
  prunes : Time → Duration → Operation
  subscribes : ℤ → Operation
  cancels receives : ℕ → Operation
  broadcasts : Event → Operation

unfoldable pub step : Operation → Registry → Registry
step (touches now) r = (touch_self_heartbeat now r).0
step (upserts clock p) r = (upsert clock p r).0
step (removes id) r = (remove id r).0
step (prunes now d) r = (prune_stale now d r).0
step (subscribes b) r = (subscribe b r).0
step (cancels id) r = cancel id r
step (receives id) r = receive id r
step (broadcasts e) r = broadcast e r

pub step-Inv : (o : Operation) (r : Registry) → Inv r → Inv (step o r)
unfolding step
step-Inv (touches now) r v =
    unfold touch_self_heartbeat in
    record { distinct = v.distinct; remote = v.remote; buffered = v.buffered }
step-Inv (upserts clock p) r v = upsert-Inv clock p r v
step-Inv (removes id) r v = remove-Inv id r v
step-Inv (prunes now d) r v = prune_stale-Inv now d r v
step-Inv (subscribes b) r v = subscribe-Inv b r v
step-Inv (cancels id) r v =
    unfold cancel in
    record {
      distinct = v.distinct;
      remote = v.remote;
      buffered = drop_subscriber-IsBuffered id _ _ v.buffered;
    }
step-Inv (receives id) r v =
    unfold receive in
    record {
      distinct = v.distinct;
      remote = v.remote;
      buffered = receive_from-IsBuffered id _ _ v.buffered;
    }
step-Inv (broadcasts e) r v = broadcast-Inv e r v

unfoldable pub run : List Operation → Registry → Registry
unfolding step
run [] r = r
run (o ∷ os) r = run os (step o r)

run-Inv : (os : List Operation) (r : Registry) → Inv r → Inv (run os r)
unfolding run
run-Inv [] r v = v
run-Inv (o ∷ os) r v = run-Inv os (step o r) (step-Inv o r v)

-- Whatever methods are called on a new registry, in whatever order: no node id stands twice in its
-- map, each peer stands under its own id, neither a blank id nor the local node's is in the map,
-- subscriber ids are distinct and below the next one, and no channel holds more than its capacity,
-- which is at least 1.
pub run-new_registry-Inv : (self : Peer) (os : List Operation) → Inv (run os (new_registry self))
run-new_registry-Inv self os = run-Inv os (new_registry self) (new_registry-Inv self)
