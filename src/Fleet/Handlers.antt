-- ===== src/Fleet/Handlers.antt =====
-- internal/fleet/handlers.go. A response is its status, with what the body holds; decoding and
-- encoding JSON is package encoding/json. Headers that no code here reads are left out.
pub mod Join
use fleetmind.Common.{◌||◌, List, [], ◌∷◌, ◌++◌, Option, none, some, if◌then◌else◌, ℕ}
use fleetmind.Common.Text.{Bytes, codes, equal, is_empty}
use fleetmind.Fleet.Client.{print_type}
use fleetmind.Fleet.Peer.{Time, Peer, Event, peer_added, is_zero}
use fleetmind.Fleet.Registry.{Registry, upsert, broadcast, roster}

pub data Response : Type 0 where
  method_not_allowed : Bytes → Response
  bad_request : Response
  ok : List Peer → Response

-- The times that a join request leaves out.
unfoldable pub with_times : Time → Peer → Peer
with_times clock p =
    let p' = if is_zero p.joined_at then record p { joined_at = clock } else p in
    if is_zero p'.last_heartbeat then record p' { last_heartbeat = p'.joined_at } else p'

-- What the other goroutines do to the registry between two of the calls of a handler, which are
-- numbered; and the case that they do nothing.
abbrev pub Meanwhile : Type 0
Meanwhile = ℕ → Registry → Registry

abbrev pub undisturbed : Meanwhile
undisturbed n r = r

-- A peer is stored, its change announced, and the roster is returned. `Upsert` reads the clock
-- only where the join time is missing, which it is not here.
unfoldable pub admit : Meanwhile → Time → Peer → Registry → Registry × Response
admit others clock p r =
    let (r', stored, changed) = upsert clock (with_times clock p) r in
    let told = others 0 r' in
    let r'' =
      if changed
      then others 1 (broadcast (record { type = peer_added; peer = stored }) told)
      else told in
    (r'', ok (roster r''))

-- `decode` is the JSON decoder on the body, bounded to 64 KiB and refusing unknown fields.
module _ (decode : Bytes → Option Peer) where
  unfoldable pub join_handler : Meanwhile → Time → Bytes → Bytes → Registry → Registry × Response
  join_handler others clock method body r =
      if equal method (codes "POST")
      then elim (decode body) [
        | none ↦ (r, bad_request)
        | some p ↦
            if is_empty p.node_id || is_empty p.advertise_url
            then (r, bad_request)
            else admit others clock p r
      ]
      else (r, method_not_allowed (codes "POST"))

unfoldable pub peers_handler : Bytes → Registry → Response
peers_handler method r =
    if equal method (codes "GET") then ok (roster r) else method_not_allowed (codes "GET")

-- `marshal` is `json.Marshal` on a `Peer`.
module _ (marshal : Peer → Option Bytes) where
  unfoldable pub write_sse : Event → Option Bytes
  write_sse e = elim (marshal e.peer) [
    | none ↦ none
    | some payload ↦
        some (
          codes "event: " ++ (print_type e.type ++ (codes "\ndata: " ++ (payload ++ codes "\n\n"))))
  ]

  -- Events are written one after the other, up to the first that cannot be.
  unfoldable pub write_events : List Event → Bytes
  write_events [] = []
  write_events (e ∷ es) = elim (write_sse e) [ none ↦ [] | some text ↦ text ++ write_events es ]

abbrev pub added : Peer → Event
added p = record { type = peer_added; peer = p }

abbrev pub replay : List Peer → List Event
replay [] = []
replay (p ∷ ps) = added p ∷ replay ps

-- The body of GET /fleet/events, for a reader that takes `received` from its channel before the
-- request ends: the roster is replayed first.
module _ (marshal : Peer → Option Bytes) where
  unfoldable pub events_body : Registry → List Event → Bytes
  events_body r received = write_events marshal (replay (roster r) ++ received)
