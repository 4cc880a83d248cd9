-- ===== src/Fleet/Sample.antt =====
-- Concrete nodes and registries for the tests: "a" is the local node, "b" and "c" are others.
use fleetmind.Common.{ℕ, [], ◌∷◌, ◌++◌, ◌≢◌, refl, arith}
use fleetmind.Common.Dict.{lookup}
use fleetmind.Common.Int.{pos}
use fleetmind.Common.Text.{Bytes, codes, equal}
use fleetmind.Fleet.Peer.{Peer, Event, heartbeat}
use fleetmind.Fleet.Registry.Invariant.{Inv}
use fleetmind.Fleet.Registry.{Registry}

abbrev pub node : Bytes → ℕ → Peer
node id beat = record {
  node_id = id;
  advertise_url = codes "http://" ++ id;
  version = codes "1";
  tools = [];
  joined_at = pos 5;
  last_heartbeat = pos beat;
}

abbrev pub a : Peer
a = node (codes "a") 10

abbrev pub b : Peer
b = node (codes "b") 20

abbrev pub c : Peer
c = node (codes "c") 90

-- "a" knows "b", and has one subscriber.
abbrev pub knows_b : Registry
knows_b = record {
  self = a;
  peers = (codes "b", b) ∷ [];
  subscribers = (0, record { buffered = []; capacity = 2 }) ∷ [];
  next_sub_id = 1;
}

abbrev pub knows_both : Registry
knows_both = record knows_b { peers = (codes "b", b) ∷ (codes "c", c) ∷ [] }

-- The same map, ranged over the other way.
abbrev pub knows_both' : Registry
knows_both' = record knows_b { peers = (codes "c", c) ∷ (codes "b", b) ∷ [] }

pub b-ne-a : codes "b" ≢ codes "a"
b-ne-a = ground arith

pub c-ne-a : codes "c" ≢ codes "a"
c-ne-a = ground arith

pub knows_b-Inv : Inv knows_b
unfolding lookup equal
knows_b-Inv = record {
  distinct = (refl, tt);
  remote = (refl, ground arith, b-ne-a, tt);
  buffered = omega arith;
}

pub knows_both-Inv : Inv knows_both
unfolding lookup equal
knows_both-Inv = record {
  distinct = (refl, (refl, tt));
  remote = (refl, ground arith, b-ne-a, (refl, ground arith, c-ne-a, tt));
  buffered = omega arith;
}

abbrev pub news : Event
news = record { type = heartbeat; peer = c }
