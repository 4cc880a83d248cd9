-- ===== src/Fleet/Peer.antt =====
-- internal/fleet/peer.go, and what the program uses of package time. An instant is the number of
-- nanoseconds since the zero time; locations do not show, since the code compares by `Equal`.
use fleetmind.Common.{Bool, true, false, ◌&&◌, List, [], ◌∷◌, ◌≡◌, ◌↔◌, arith, if◌then◌else◌}
use fleetmind.Common.Int.{ℤ, pos, ltb_ℤ, eq_ℤ, ◌-ℤ◌, min_int64, max_int64}
use fleetmind.Common.Text.{Bytes, equal, equal_iff}

abbrev pub Time : Type 0
Time = ℤ

abbrev pub Duration : Type 0
Duration = ℤ

-- `time.Time{}`
abbrev pub zero_time : Time
zero_time = pos 0

-- `t.IsZero()`
abbrev pub is_zero : Time → Bool
is_zero t = eq_ℤ t zero_time

-- `t.Sub(u)`: a difference out of the range of int64 is replaced by the nearest end.
unfoldable pub sub : Time → Time → Duration
sub t u =
    let d = t -ℤ u in
    if ltb_ℤ d min_int64 then min_int64 else if ltb_ℤ max_int64 d then max_int64 else d

pub record Peer : Type 0 where
  pub node_id : Bytes
  pub advertise_url : Bytes
  pub version : Bytes
  pub tools : List Bytes
  pub joined_at : Time
  pub last_heartbeat : Time

-- `Peer{}`
abbrev pub zero_peer : Peer
zero_peer = record {
  node_id = [];
  advertise_url = [];
  version = [];
  tools = [];
  joined_at = zero_time;
  last_heartbeat = zero_time;
}

-- An event type is a string on the wire; any other string is `unknown`.
pub data EventType : Type 0 where
  heartbeat peer_added peer_removed : EventType
  unknown : Bytes → EventType

pub record Event : Type 0 where
  pub type : EventType
  pub peer : Peer

-- The comparison of two tool lists by length and position.
unfoldable pub same_tools : List Bytes → List Bytes → Bool
same_tools [] [] = true
same_tools (x ∷ a) (y ∷ b) = equal x y && same_tools a b
same_tools _ _ = false

pub same_tools_iff : (a b : List Bytes) → (same_tools a b ≡ true) ↔ (a ≡ b)
unfolding same_tools
same_tools_iff (x ∷ a) (y ∷ b) = ground (arith, same_tools_iff a b, equal_iff x y)
same_tools_iff _ _ = ground arith

-- The join time is not compared.
unfoldable pub same_peer : Peer → Peer → Bool
same_peer a b =
    equal a.node_id b.node_id
    && equal a.advertise_url b.advertise_url
    && equal a.version b.version
    && eq_ℤ a.last_heartbeat b.last_heartbeat
    && same_tools a.tools b.tools

pub Peer-set : IsSet Peer
Peer-set = hlevel
