-- ===== src/FleetTools.antt =====
-- internal/tools/fleet.go and internal/tools/fleet_query.go. What a node answers is a parameter: the
-- call is the MCP client of a library.
pub mod Order
use fleetmind.Fleet.Registry.{Registry, roster}
use fleetmind.Fleet.Peer.{Time, Peer, is_zero}
use fleetmind.Common.Text.{Bytes, equal, is_empty}
use fleetmind.Common.{
  Bool, List, [], ℕ, Option, false, suc, ◌∷◌, if◌then◌else◌, none, some, zero, ◌++◌, map, length,
  true,
}
pub mod Members
mod Tests

-- `F` is float64; `age` gives the seconds from an instant to now.
pub record FleetMember (F : Type 0) : Type 0 where
  pub node_id : Bytes
  pub advertise_url : Bytes
  pub version : Bytes
  pub tools : List Bytes
  pub joined_at : Time
  pub last_heartbeat : Time
  pub heartbeat_age_sec : F
  pub is_self : Bool

pub record ListFleetOut (F : Type 0) : Type 0 where
  pub enabled : Bool
  pub self_node_id : Bytes
  pub count : ℕ
  pub members : List (FleetMember F)

module _ {F : Type 0} (zero_sec : F) (age : Time → F) where
  abbrev pub member_of : Bytes → Peer → FleetMember F
  member_of me p = record {
    node_id = p.node_id;
    advertise_url = p.advertise_url;
    version = p.version;
    tools = p.tools;
    joined_at = p.joined_at;
    last_heartbeat = p.last_heartbeat;
    heartbeat_age_sec = if is_zero p.last_heartbeat then zero_sec else age p.last_heartbeat;
    is_self = equal p.node_id me;
  }

  -- Without a registry fleet mode is disabled.
  unfoldable pub list_fleet : Option Registry → ListFleetOut F
  list_fleet none = record { enabled = false; self_node_id = []; count = 0; members = [] }
  list_fleet (some r) =
      let members = map (member_of r.self.node_id) (roster r) in
      record {
        enabled = true;
        self_node_id = r.self.node_id;
        count = length members;
        members = members;
      }

-- What `peerCallTool` returns: an error, a result that is an error, or a result with its structured
-- content, if that is an object. A content is a text, or `none` for another kind.
pub data CallResult (R : Type 0) : Type 0 where
  call_error : Bytes → CallResult R
  tool_error : List (Option Bytes) → CallResult R
  answered : List (Option Bytes) → Option R → CallResult R

pub record NodeResult (R : Type 0) : Type 0 where
  pub node_id : Bytes
  pub advertise_url : Bytes
  pub is_self : Bool
  pub text : Bytes
  pub result : Option R
  pub error : Bytes

unfoldable pub first_content : List (Option Bytes) → Bytes
first_content [] = []
first_content (none ∷ cs) = first_content cs
first_content (some t ∷ cs) = t

unfoldable pub text_parts : List (Option Bytes) → List Bytes
text_parts [] = []
text_parts (none ∷ cs) = text_parts cs
text_parts (some t ∷ cs) = t ∷ text_parts cs

-- `strings.Join(parts, "\n")`
unfoldable pub join_lines : List Bytes → Bytes
join_lines [] = []
join_lines (s ∷ []) = s
join_lines (s ∷ t ∷ ts) = s ++ (10 ∷ join_lines (t ∷ ts))

module _ {R : Type 0} (call : Bytes → CallResult R) (me : Bytes) where
  abbrev pub new_result : Peer → NodeResult R
  new_result p = record {
    node_id = p.node_id;
    advertise_url = p.advertise_url;
    is_self = equal p.node_id me;
    text = [];
    result = none;
    error = [];
  }

  abbrev pub set_answer : CallResult R → NodeResult R → NodeResult R
  set_answer (call_error e) nr = record nr { error = e }
  set_answer (tool_error cs) nr = record nr { error = first_content cs }
  set_answer (answered cs sc) nr = record nr { text = join_lines (text_parts cs); result = sc }

  -- What the goroutine of a node makes of it.
  unfoldable pub node_result : Peer → NodeResult R
  node_result p = set_answer (call p.advertise_url) (new_result p)

abbrev pub blank_result : {R : Type 0} → NodeResult R
blank_result = record {
  node_id = [];
  advertise_url = [];
  is_self = false;
  text = [];
  result = none;
  error = [];
}

module _ {A : Type 0} where
  unfoldable pub get_at : ℕ → List A → Option A
  get_at i [] = none
  get_at zero (x ∷ xs) = some x
  get_at (suc i) (x ∷ xs) = get_at i xs

  -- `results[i] = x`
  unfoldable pub set_at : ℕ → A → List A → List A
  set_at i x [] = []
  set_at zero x (y ∷ ys) = x ∷ ys
  set_at (suc i) x (y ∷ ys) = y ∷ set_at i x ys

  -- `make([]A, n)`
  abbrev pub blank : A → ℕ → List A
  blank x zero = []
  blank x (suc n) = x ∷ blank x n

module _ {R : Type 0} (call : Bytes → CallResult R) where
  -- The goroutine of a node comes to its end.
  unfoldable pub finish : Bytes → List Peer → ℕ → List (NodeResult R) → List (NodeResult R)
  finish me ps i results = elim (get_at i ps) [
    | none ↦ results
    | some p ↦ set_at i (node_result call me p) results
  ]

  -- The order in which the goroutines end is given by their numbers.
  unfoldable pub finish_all : Bytes → List Peer → List ℕ → List (NodeResult R) → List (NodeResult R)
  finish_all me ps [] results = results
  finish_all me ps (i ∷ order) results = finish_all me ps order (finish me ps i results)

  -- The results of the tool.
  unfoldable pub fleet_query : Option Registry → Bytes → List ℕ → List (NodeResult R)
  fleet_query none tool order = []
  fleet_query (some r) tool order =
      if is_empty tool
      then []
      else finish_all r.self.node_id (roster r) order (blank blank_result (length (roster r)))
