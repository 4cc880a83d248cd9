-- ===== src/Fleet/Client.antt =====
-- internal/fleet/client.go: the base URLs of peers, and the reader of the event stream. Requests
-- and their responses are package net/http; what the code does with them is in Fleet/Bootstrap.
pub mod Stream
use fleetmind.Common.{
  ℕ, Bool, false, ◌||◌, List, [], ◌∷◌, ◌++◌, Option, none, some, ◌==◌, if◌then◌else◌,
}
use fleetmind.Common.Space.{trim_space}
use fleetmind.Common.Text.{Bytes, codes, equal, is_empty, has_prefix, trim_prefix, trim_right}
use fleetmind.Fleet.Peer.{Peer, Event, EventType, heartbeat, peer_added, peer_removed, unknown}

-- What `url.Parse` finds, as far as the code reads it.
pub record Url : Type 0 where
  pub scheme : Bytes
  pub host : Bytes
  pub path : Bytes

abbrev is_slash : ℕ → Bool
is_slash c = c == b'/'

abbrev pub has_no_host : Url → Bool
has_no_host u = is_empty u.scheme || is_empty u.host

-- `parse` is `url.Parse`, and `print` gives `u.String()` for `u` with the path in place of its own.
module _ (parse : Bytes → Option Url) (print : Bytes → Url → Bytes) where
  unfoldable pub join_url : Bytes → Bytes → Option Bytes
  join_url base path = elim (parse (trim_right is_slash base)) [
    | none ↦ none
    | some u ↦
        if has_no_host u
        then none
        else some (print base (record u { path = trim_right is_slash u.path ++ path }))
  ]

-- `to_lower` is `strings.ToLower`.
module _ (parse : Bytes → Option Url) (to_lower : Bytes → Bytes) where
  unfoldable pub normalize_base_url : Bytes → Option Bytes
  normalize_base_url raw = elim (parse (trim_right is_slash raw)) [
    | none ↦ none
    | some u ↦
        if has_no_host u then none else some (to_lower u.scheme ++ (codes "://" ++ to_lower u.host))
  ]

  -- internal/fleet/manager.go
  unfoldable pub same_base_url : Bytes → Bytes → Bool
  same_base_url a b = if is_empty a || is_empty b then false else elim (normalize_base_url a) [
    | none ↦ false
    | some au ↦ elim (normalize_base_url b) [ none ↦ false | some bu ↦ equal au bu ]
  ]

-- `EventType(s)`
unfoldable pub parse_type : Bytes → EventType
parse_type s =
    if equal s (codes "heartbeat")
    then heartbeat
    else if equal s (codes "peer_added")
    then peer_added
    else if equal s (codes "peer_removed")
    then peer_removed
    else unknown s

unfoldable pub print_type : EventType → Bytes
print_type heartbeat = codes "heartbeat"
print_type peer_added = codes "peer_added"
print_type peer_removed = codes "peer_removed"
print_type (unknown s) = s

-- The loop's variables.
pub record Reader : Type 0 where
  pub evt_type : Bytes
  pub data_buf : Bytes

abbrev pub start : Reader
start = record { evt_type = []; data_buf = [] }

abbrev is_line_end : ℕ → Bool
is_line_end c = c == 13 || c == 10

unfoldable pub read_data : Reader → Bytes → Reader
read_data r chunk = record r {
  data_buf =
      (if is_empty r.data_buf then r.data_buf else r.data_buf ++ (10 ∷ []))
      ++ trim_prefix chunk (codes " ");
}

-- `unmarshal` is `json.Unmarshal` into a `Peer`.
module _ (unmarshal : Bytes → Option Peer) where
  -- The events that a blank line hands over.
  unfoldable pub dispatch : Reader → List Event
  dispatch r = elim (unmarshal r.data_buf) [
    | none ↦ []
    | some p ↦ (record { type = parse_type r.evt_type; peer = p }) ∷ []
  ]

  -- One line, with its end taken off.
  unfoldable pub read_line : Reader → Bytes → Reader × List Event
  read_line r line =
      if is_empty line
      then (if is_empty r.data_buf then (r, []) else (start, dispatch r))
      else if has_prefix line (codes "event:")
      then (record r { evt_type = trim_space (trim_prefix line (codes "event:")) }, [])
      else if has_prefix line (codes "data:")
      then (read_data r (trim_prefix line (codes "data:")), [])
      else (r, [])

  -- The stream up to its end: `line` is what `ReadString` has read of a line so far, and what
  -- stands behind the last newline is not handed over.
  unfoldable pub read_stream : Reader → Bytes → Bytes → List Event
  read_stream r line [] = []
  read_stream r line (c ∷ s) =
      let (r', events) = read_line r (trim_right is_line_end (line ++ (c ∷ []))) in
      let next = read_stream r' [] s in
      let same = read_stream r (line ++ (c ∷ [])) s in if c == 10 then events ++ next else same

  unfoldable pub stream_events : Bytes → List Event
  stream_events = read_stream start []
