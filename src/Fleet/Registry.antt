-- ===== src/Fleet/Registry.antt =====
-- internal/fleet/registry.go: the view that one node has of its fleet. Each method holds the lock
-- over all that it reads and writes, so it is one step on the state. The map of peers is an
-- association list; where the code ranges over it, the list's order stands for Go's random one.
pub mod Invariant
mod Tests
pub mod Upsert
pub mod Prune
pub mod Roster
pub mod Subscribers
use fleetmind.Common.{
  ℕ, ◌+◌, Bool, true, false, not, ◌&&◌, ◌||◌, List, [], ◌∷◌, ◌++◌, Option, none, some, ltb, ◌==◌,
  if◌then◌else◌, length, drop,
}
use fleetmind.Common.Dict.{Dict, lookup, insert, delete, values}
use fleetmind.Common.Int.{ℤ, pos, pos_part, ltb_ℤ}
use fleetmind.Common.Keyed.{by_key}
use fleetmind.Common.Sort.{sort_by}
use fleetmind.Common.Text.{Bytes, equal, is_empty}
use fleetmind.Fleet.Peer.{Time, Duration, Peer, Event, zero_peer, is_zero, sub, same_peer}

-- A buffered channel: what was sent and not yet received, oldest first.
pub record Channel : Type 0 where
  pub buffered : List Event
  pub capacity : ℕ

pub record Registry : Type 0 where
  pub self : Peer
  pub peers : Dict Peer
  pub subscribers : List (ℕ × Channel)
  pub next_sub_id : ℕ

unfoldable pub new_registry : Peer → Registry
new_registry self = record { self = self; peers = []; subscribers = []; next_sub_id = 0 }

unfoldable pub touch_self_heartbeat : Time → Registry → Registry × Peer
touch_self_heartbeat now r =
    let self = record (r.self) { last_heartbeat = now } in (record r { self = self }, self)

abbrev pub node_id_of : Peer → Bytes
node_id_of p = p.node_id

-- Sorting by node id, with the ranged-over values behind `front`.
unfoldable pub sorted_peers : List Peer → List Peer
unfolding sort_by
sorted_peers = sort_by (by_key node_id_of)

unfoldable pub roster : Registry → List Peer
unfolding sorted_peers
roster r = sorted_peers (r.self ∷ values r.peers)

unfoldable pub remote_peers : Registry → List Peer
unfolding sorted_peers
remote_peers r = sorted_peers (values r.peers)

unfoldable pub has : Bytes → Registry → Bool
unfolding lookup
has id r = elim (lookup id r.peers) [ none ↦ false | some p ↦ true ]

-- The refreshed peer: the join time stays, and a field that the new record leaves blank stays.
unfoldable pub merge : Peer → Peer → Peer
merge prev p = record prev {
  advertise_url = if is_empty p.advertise_url then prev.advertise_url else p.advertise_url;
  version = if is_empty p.version then prev.version else p.version;
  tools = if 0 == length p.tools then prev.tools else p.tools;
  last_heartbeat = if is_zero p.last_heartbeat then prev.last_heartbeat else p.last_heartbeat;
}

-- `clock` is what `time.Now().UTC()` returns where the code asks for it.
unfoldable pub joined : Time → Peer → Peer
joined clock p = if is_zero p.joined_at then record p { joined_at = clock } else p

-- The body of `Upsert` behind its guard, at what the map holds under the node id.
unfoldable pub store : Time → Peer → Registry → Option Peer → Registry × Peer × Bool
store clock p r none =
    let p' = joined clock p in (record r { peers = insert p.node_id p' r.peers }, p', true)
store clock p r (some prev) =
    let merged = merge prev p in
    (record r { peers = insert p.node_id merged r.peers }, merged, not (same_peer prev merged))

unfoldable pub upsert : Time → Peer → Registry → Registry × Peer × Bool
upsert clock p r =
    if is_empty p.node_id || equal p.node_id r.self.node_id
    then (r, p, false)
    else store clock p r (lookup p.node_id r.peers)

unfoldable pub remove : Bytes → Registry → Registry × Peer × Bool
unfolding lookup delete
remove id r = elim (lookup id r.peers) [
  | none ↦ (r, zero_peer, false)
  | some p ↦ (record r { peers = delete id r.peers }, p, true)
]

-- A peer with no heartbeat yet is never stale.
unfoldable pub is_stale : Time → Duration → Peer → Bool
unfolding sub
is_stale now dead_after p =
    not (is_zero p.last_heartbeat) && ltb_ℤ dead_after (sub now p.last_heartbeat)

-- The loop over the map: what stays in it, and what is evicted.
unfoldable pub prune : Time → Duration → Dict Peer → Dict Peer × List Peer
unfolding is_stale
prune now dead_after [] = ([], [])
prune now dead_after ((id, p) ∷ m) =
    let rest = prune now dead_after m in
    if is_stale now dead_after p then (rest.0, p ∷ rest.1) else ((id, p) ∷ rest.0, rest.1)

unfoldable pub prune_stale : Time → Duration → Registry → Registry × List Peer
unfolding prune
prune_stale now dead_after r =
    let rest = prune now dead_after r.peers in (record r { peers = rest.0 }, rest.1)

-- The registry and the id under which the new channel stands.
unfoldable pub subscribe : ℤ → Registry → Registry × ℕ
subscribe buffer r =
    let ch : Channel = record {
      buffered = [];
      capacity = if ltb_ℤ buffer (pos 1) then 16 else pos_part buffer;
    } in
    (
      record r {
        subscribers = (r.next_sub_id, ch) ∷ r.subscribers;
        next_sub_id = r.next_sub_id + 1;
      },
      r.next_sub_id,
    )

unfoldable pub drop_subscriber : ℕ → List (ℕ × Channel) → List (ℕ × Channel)
drop_subscriber id [] = []
drop_subscriber id ((j, ch) ∷ s) =
    let rest = drop_subscriber id s in if j == id then rest else (j, ch) ∷ rest

-- The function that `Subscribe` returns beside the channel. A second call finds nothing.
unfoldable pub cancel : ℕ → Registry → Registry
unfolding drop_subscriber
cancel id r = record r { subscribers = drop_subscriber id r.subscribers }

-- `select { case ch <- e: default: }`
unfoldable pub offer : Event → Channel → Channel
offer e ch =
    if ltb (length ch.buffered) ch.capacity
    then record ch { buffered = ch.buffered ++ (e ∷ []) }
    else ch

unfoldable pub offer_all : Event → List (ℕ × Channel) → List (ℕ × Channel)
unfolding offer
offer_all e [] = []
offer_all e ((j, ch) ∷ s) = (j, offer e ch) ∷ offer_all e s

unfoldable pub broadcast : Event → Registry → Registry
unfolding offer_all
broadcast e r = record r { subscribers = offer_all e r.subscribers }

-- The reader's side of a channel: the oldest event, if there is one.
unfoldable pub receive_from : ℕ → List (ℕ × Channel) → List (ℕ × Channel)
receive_from id [] = []
receive_from id ((j, ch) ∷ s) =
    (j, if j == id then record ch { buffered = drop 1 ch.buffered } else ch) ∷ receive_from id s

unfoldable pub receive : ℕ → Registry → Registry
unfolding receive_from
receive id r = record r { subscribers = receive_from id r.subscribers }
