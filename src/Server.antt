-- ===== src/Server.antt =====
-- internal/mcpserver/server.go: setting up the fleet, and how serving ends. Routing is package
-- net/http.
pub mod Ended
use fleetmind.Fleet.Registry.{Registry, new_registry}
use fleetmind.Fleet.Peer.{Time, Peer}
use fleetmind.Common.Text.{Bytes, codes, is_empty}
use fleetmind.Common.{true, false, Bool, List, Option, if◌then◌else◌, ◌++◌, ◌∷◌, [], none, some}

-- `buildFleet`: `id` is what `NewNodeID` returns, with `none` for an error, and `now` the clock.
module _ (tool_names : List Bytes) where
  abbrev pub self_peer : Bytes → Bytes → Bytes → Time → Peer
  self_peer id url version now = record {
    node_id = id;
    advertise_url = url;
    version = version;
    tools = tool_names;
    joined_at = now;
    last_heartbeat = now;
  }

  unfoldable pub build_fleet : Option Bytes → Bytes → Bytes → Time → Option Registry
  build_fleet id url version now =
      if is_empty url
      then none
      else elim id [ none ↦ none | some i ↦ some (new_registry (self_peer i url version now)) ]

-- What `Serve` does to the server and to the fleet's manager, in its order.
pub data Effect : Type 0 where
  listen start_manager shut_down cancel_manager wait_manager : Effect

-- What the select returns: the context was cancelled, and the shutdown then went well or not; or
-- the listener ended, with an error or not.
pub data Ending : Type 0 where
  cancelled : Bool → Ending
  ended : Option Bytes → Ending

abbrev pub start_effects : Bool → List Effect
start_effects fleet = if fleet then listen ∷ start_manager ∷ [] else listen ∷ []

-- `if mgrCancel != nil { mgrCancel(); mgrWg.Wait() }`
abbrev pub stop_effects : Bool → List Effect
stop_effects fleet = if fleet then cancel_manager ∷ wait_manager ∷ [] else []

-- The effects, and the error that is returned; `failed` stands for that of the shutdown.
unfoldable pub serve : Bytes → Bool → Ending → List Effect × Option Bytes
serve failed fleet (cancelled true) =
    (start_effects fleet ++ (shut_down ∷ stop_effects fleet), none)
serve failed fleet (cancelled false) =
    (start_effects fleet ++ (shut_down ∷ stop_effects fleet), some failed)
serve failed fleet (ended err) = (start_effects fleet ++ stop_effects fleet, err)

-- `aptDBRoot`
unfoldable pub apt_db_root : Bool → Bytes
apt_db_root in_snap = if in_snap then codes "/var/lib/snapd/hostfs" else codes "/"
