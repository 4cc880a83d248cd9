-- ===== src/Fleet/Manager.antt =====
-- internal/fleet/manager.go: the local node's part in the fleet. The manager's goroutines share
-- the registry and the map of streams, each call of which holds a lock. Between two such calls of
-- one goroutine come calls of others, which are an argument (`Others`) of what makes several calls.
-- `cancelStream` calls the cancel function behind its lock: what comes in between reads and adds
-- contexts, and one that it adds below the cancelled one is done either way. A context is a number; cancelling one is a flag, and a context is
-- done if its flag or that of a context it was derived from is set (package context).
pub mod Streams
pub mod Orphans
mod Tests
pub mod Prune
pub mod Backoff
pub mod Events
pub mod Removed
use fleetmind.Common.{
  ℕ, ◌+◌, ◌*◌, ◌-◌, ◌^◌, Bool, true, false, ◌&&◌, ◌||◌, List, [], ◌∷◌, Option, none, some, ltb, leb,
  ◌==◌, if◌then◌else◌,
}
use fleetmind.Common.Dict.{Dict, lookup, insert, delete}
use fleetmind.Common.Int.{pos, negsuc, leb_ℤ, ltb_ℤ, sub_ℕ}
use fleetmind.Common.Text.{Bytes, equal, is_empty}
use fleetmind.Fleet.Peer.{
  Time, Duration, Peer, Event, EventType, heartbeat, peer_added, peer_removed, unknown, is_zero,
}
use fleetmind.Fleet.Registry.{
  Registry, subscribe, upsert, remove, prune_stale, broadcast, touch_self_heartbeat,
}

-- The durations of `ManagerOptions`, and the URL of the node to join; the rest configures HTTP.
pub record Options : Type 0 where
  pub bootstrap_url : Bytes
  pub heartbeat_interval : Duration
  pub dead_after : Duration
  pub reconnect_initial : Duration
  pub reconnect_max : Duration

-- n * time.Second
abbrev pub seconds : ℕ → Duration
seconds n = pos (n * 1_000_000_000)

abbrev or_default : Duration → ℕ → Duration
or_default d n = if leb_ℤ d (pos 0) then seconds n else d

unfoldable pub apply_defaults : Options → Options
apply_defaults o = record o {
  heartbeat_interval = or_default o.heartbeat_interval 10;
  dead_after = or_default o.dead_after 30;
  reconnect_initial = or_default o.reconnect_initial 1;
  reconnect_max = or_default o.reconnect_max 30;
}

pub record Context : Type 0 where
  pub id : ℕ
  pub parent : ℕ
  pub cancelled : Bool

-- `ctx.Err() != nil`. The list has the newest context first, so a parent stands behind its child.
unfoldable pub is_done : ℕ → List Context → Bool
is_done c [] = false
is_done c (x ∷ xs) = (x.id == c && x.cancelled) || is_done (if x.id == c then x.parent else c) xs

-- The call of a cancel function.
unfoldable pub cancel_context : ℕ → List Context → List Context
cancel_context c [] = []
cancel_context c (x ∷ xs) =
    (if x.id == c then record x { cancelled = true } else x) ∷ cancel_context c xs

pub record Manager : Type 0 where
  pub options : Options
  pub registry : Registry
  pub local_events : ℕ
  pub contexts : List Context
  pub next_context : ℕ
  pub streams : Dict ℕ

-- The context that `Run` is called with.
abbrev pub root : ℕ
root = 0

unfoldable pub new_manager : Registry → Options → Manager
unfolding subscribe apply_defaults
new_manager reg opts = record {
  options = apply_defaults opts;
  registry = (subscribe (pos 128) reg).0;
  local_events = (subscribe (pos 128) reg).1;
  contexts = record { id = root; parent = root; cancelled = false } ∷ [];
  next_context = 1;
  streams = [];
}

-- A stream is started only if none is registered for the node; the map keeps its cancel function.
unfoldable pub start_stream : ℕ → Bytes → Option ℕ → Manager → Manager
start_stream parent k (some c) m = m
start_stream parent k none m = record m {
  contexts = record { id = m.next_context; parent = parent; cancelled = false } ∷ m.contexts;
  next_context = m.next_context + 1;
  streams = insert k m.next_context m.streams;
}

unfoldable pub ensure_stream : ℕ → Peer → Manager → Manager
ensure_stream parent p m = start_stream parent p.node_id (lookup p.node_id m.streams) m

unfoldable pub stop_stream : Bytes → Option ℕ → Manager → Manager
stop_stream k none m = record m { streams = delete k m.streams }
stop_stream k (some c) m = record m {
  streams = delete k m.streams;
  contexts = cancel_context c m.contexts;
}

unfoldable pub cancel_stream : Bytes → Manager → Manager
cancel_stream k m = stop_stream k (lookup k m.streams) m

abbrev pub announce : EventType → Peer → Manager → Manager
announce t p m = record m { registry = broadcast (record { type = t; peer = p }) m.registry }

-- `Upsert` on the manager's registry.
abbrev pub upsert_peer : Time → Peer → Manager → Manager × Peer × Bool
upsert_peer clock p m = let u = upsert clock p m.registry in (record m { registry = u.0 }, u.1, u.2)

-- One turn of `localEventLoop`: the event that was received, in the loop's context.
unfoldable pub local_event : ℕ → Event → Manager → Manager
local_event ctx ev m =
    if is_empty ev.peer.node_id || equal ev.peer.node_id m.registry.self.node_id
    then m
    else elim (ev.type) [
      | heartbeat ↦ ensure_stream ctx ev.peer m
      | peer_added ↦ ensure_stream ctx ev.peer m
      | peer_removed ↦ cancel_stream ev.peer.node_id m
      | unknown s ↦ m
    ]

-- A heartbeat that carries no time is given the local one.
unfoldable pub stamped : Time → EventType → Peer → Peer
stamped clock heartbeat p =
    if is_zero p.last_heartbeat then record p { last_heartbeat = clock } else p
stamped clock _ p = p

-- What the other goroutines do between the calls of one: `others 0` behind its first call, and so
-- on.
abbrev pub Others : Type 0
Others = ℕ → Manager → Manager

-- No call of another goroutine comes in between.
abbrev pub alone : Others
alone n m = m

-- What is left for later, when some places have passed.
abbrev pub later : ℕ → Others → Others
later k others n = others (n + k)

-- `Broadcast` of a change, if it is announced at all.
abbrev pub tell : Others → EventType → Peer → Bool → Manager → Manager
tell others peer_added p changed m = if changed then others 1 (announce peer_added p m) else m
tell others _ p changed m = m

-- A peer that another node reports: stored, and streamed from in the context of that node's stream.
unfoldable pub learn : Others → ℕ → Time → EventType → Peer → Manager → Manager
unfolding stamped
learn others ctx clock t p m =
    let (m', stored, changed) = upsert_peer clock (stamped clock t p) m in
    ensure_stream ctx stored (tell others t stored changed (others 0 m'))

unfoldable pub forget : Others → Bytes → Manager → Manager
forget others k m =
    let (reg, removed, found) = remove k m.registry in
    if found
    then announce peer_removed removed
        (others 1 (cancel_stream removed.node_id (others 0 (record m { registry = reg }))))
    else m

-- The node id of the local peer never changes, so it does not matter when it is read.
unfoldable pub handle_remote_event : Others → ℕ → Time → Event → Manager → Manager
handle_remote_event others ctx clock e m =
    if equal e.peer.node_id m.registry.self.node_id then m else elim (e.type) [
      | heartbeat ↦ learn others ctx clock heartbeat e.peer m
      | peer_added ↦ learn others ctx clock peer_added e.peer m
      | peer_removed ↦ forget others e.peer.node_id m
      | unknown s ↦ m
    ]

-- One beat of `heartbeatLoop`, the first one included.
unfoldable pub heartbeat_tick : Others → Time → Manager → Manager
heartbeat_tick others now m =
    let (reg, self) = touch_self_heartbeat now m.registry in
    announce heartbeat self (others 0 (record m { registry = reg }))

unfoldable pub evict : Others → List Peer → Manager → Manager
evict others [] m = m
evict others (p ∷ ps) m =
    evict (later 2 others) ps
      (announce peer_removed p (others 1 (cancel_stream p.node_id (others 0 m))))

-- One turn of `pruneLoop`.
unfoldable pub prune_tick : Others → Time → Manager → Manager
prune_tick others now m =
    let (reg, dead) = prune_stale now m.options.dead_after m.registry in
    evict others dead (record m { registry = reg })

-- `delay *= 2` on an int64.
unfoldable pub double : Duration → Duration
double (pos n) = if ltb (2 * n) (2 ^ 63) then pos (2 * n) else sub_ℕ (2 * n) (2 ^ 64)
double (negsuc n) =
    if leb (2 * n + 2) (2 ^ 63) then negsuc (2 * n + 1) else pos (2 ^ 64 - (2 * n + 2))

-- The delay behind one that was waited out.
unfoldable pub next_delay : Options → Duration → Duration
next_delay o d = if ltb_ℤ o.reconnect_max (double d) then o.reconnect_max else double d

-- The waits of `runStream`, one for each connection that ended: the flag says whether the
-- connection delivered an event, which sets the delay back.
unfoldable pub stream_waits : Options → Duration → List Bool → List Duration
stream_waits o d [] = []
stream_waits o d (delivered ∷ later) =
    let d' = if delivered then o.reconnect_initial else d in
    d' ∷ stream_waits o (next_delay o d') later

-- The waits of `retryBootstrap`, each before one attempt; the flag says whether it succeeded,
-- which ends the loop.
unfoldable pub retry_waits : Options → Duration → List Bool → List Duration
retry_waits o d [] = []
retry_waits o d (succeeded ∷ later) =
    let rest = retry_waits o (next_delay o d) later in d ∷ (if succeeded then [] else rest)
