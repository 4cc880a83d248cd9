-- ===== src/Fleet/Tests.antt =====
-- Handlers, the bootstrap and the event stream at concrete inputs.
use fleetmind.Common.{
  Bool, false, [], ◌∷◌, ◌++◌, Option, none, some, ◌≡◌, ◌⊎◌, refl, arith, All, if◌then◌else◌,
}
use fleetmind.Common.Dict.{lookup, values}
use fleetmind.Common.Int.{pos}
use fleetmind.Common.Sort.{sort_by, insert_by}
use fleetmind.Common.Text.{Bytes, codes, equal, before}
use fleetmind.Fleet.Bootstrap.{bootstrap}
use fleetmind.Fleet.Bootstrap.Joined.{Knows, IsOther}
use fleetmind.Fleet.Bootstrap.Mutual.{bootstrap_mutual}
use fleetmind.Fleet.Client.Stream.{stream_events-events_body, IsSendable}
use fleetmind.Fleet.Client.{stream_events}
use fleetmind.Fleet.Handlers.Join.{IsAdmissible}
use fleetmind.Fleet.Handlers.{events_body, replay, join_handler, admit, undisturbed}
use fleetmind.Fleet.Manager.{alone, Manager}
use fleetmind.Fleet.Peer.{Peer}
use fleetmind.Fleet.Registry.Invariant.{Inv}
use fleetmind.Fleet.Registry.{roster, sorted_peers}
use fleetmind.Fleet.Sample.{a, b, c, knows_b, c-ne-a, news}

-- A codec for the sample nodes: a node is written as its id.
abbrev read_node : Bytes → Option Peer
read_node s =
    if equal s (codes "a")
    then some a
    else if equal s (codes "b")
    then some b
    else if equal s (codes "c")
    then some c
    else none

abbrev write_node : Peer → Option Bytes
write_node p = some p.node_id

abbrev never_same : Bytes → Bytes → Bool
never_same x y = false

-- "c", which knows nobody, joins "a", which knows "b".
abbrev joining : Manager
joining = record {
  options = record {
    bootstrap_url = codes "http://a";
    heartbeat_interval = pos 10;
    dead_after = pos 30;
    reconnect_initial = pos 1;
    reconnect_max = pos 8;
  };
  registry = record { self = c; peers = []; subscribers = []; next_sub_id = 0 };
  local_events = 0;
  contexts = record { id = 0; parent = 0; cancelled = false } ∷ [];
  next_context = 1;
  streams = [];
}

joining-Inv : Inv joining.registry
joining-Inv = record { distinct = tt; remote = tt; buffered = tt }

c-IsAdmissible : IsAdmissible c knows_b
c-IsAdmissible = (ground arith, ground arith, c-ne-a)

bootstrap_mutual_example :
    ((q : Peer) × (lookup
          (codes "c")
          (join_handler read_node undisturbed (pos 95) (codes "POST") (codes "c") knows_b).0.peers
        ≡ some q))
    × All
        (λ p.
          IsOther (codes "c") p
          ⊎ Knows p.node_id
              (bootstrap never_same alone 0
                (λ _. pos 95)
                (some (roster (admit undisturbed (pos 95) c knows_b).0))
                joining).0)
        ((join_handler read_node undisturbed (pos 95) (codes "POST") (codes "c") knows_b).0.self
          ∷ values
              (join_handler read_node undisturbed
                (pos 95)
                (codes "POST")
                (codes "c")
                knows_b).0.peers)
unfolding equal join_handler admit
bootstrap_mutual_example =
    bootstrap_mutual read_node never_same 0 (λ _. pos 95) (pos 95) (codes "c") joining knows_b _
      joining-Inv refl c-IsAdmissible refl

a-IsSendable : IsSendable write_node read_node a
unfolding equal
a-IsSendable = record {
  first = b'a';
  rest = [];
  marshals = refl;
  unmarshals = refl;
  one_line = ground arith;
}

b-IsSendable : IsSendable write_node read_node b
unfolding equal
b-IsSendable = record {
  first = b'b';
  rest = [];
  marshals = refl;
  unmarshals = refl;
  one_line = ground arith;
}

c-IsSendable : IsSendable write_node read_node c
unfolding equal
c-IsSendable = record {
  first = b'c';
  rest = [];
  marshals = refl;
  unmarshals = refl;
  one_line = ground arith;
}

stream_events-events_body_example :
    stream_events read_node (events_body write_node knows_b (news ∷ []))
    ≡ replay (roster knows_b) ++ (news ∷ [])
unfolding roster sorted_peers sort_by insert_by before
stream_events-events_body_example =
    stream_events-events_body write_node read_node knows_b (news ∷ [])
      ((tt, a-IsSendable), ((tt, b-IsSendable), ((tt, c-IsSendable), tt)))
