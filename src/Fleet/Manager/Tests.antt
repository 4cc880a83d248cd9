-- ===== src/Fleet/Manager/Tests.antt =====
-- The manager's theorems at concrete inputs.
use fleetmind.Common.{
  ℕ, true, false, [], ◌∷◌, none, some, ◌≡◌, refl, inl, arith, All, if◌then◌else◌,
}
use fleetmind.Common.Dict.{lookup}
use fleetmind.Common.Int.{pos}
use fleetmind.Common.Text.{codes, equal}
use fleetmind.Fleet.Manager.Backoff.{stream_waits-IsWithin, IsWithin}
use fleetmind.Fleet.Manager.Events.{handle_remote_event-learns, handle_remote_event_blank}
use fleetmind.Fleet.Manager.Removed.{
  handle_remote_event-forgets, handle_remote_event-IsOrphan, IsForgotten,
}
use fleetmind.Fleet.Manager.Streams.{IsStreamed, IsEnded}
use fleetmind.Fleet.Manager.Orphans.{IsOrphan}
use fleetmind.Fleet.Manager.Prune.{prune_tick-lookup, stale_at}
use fleetmind.Fleet.Manager.{
  alone, Manager, Options, stream_waits, next_delay, double, stamped, handle_remote_event,
  prune_tick, is_done,
}
use fleetmind.Fleet.Peer.{Event, heartbeat, peer_removed}
use fleetmind.Fleet.Registry.Prune.{unless_stale}
use fleetmind.Fleet.Registry.{upsert}
use fleetmind.Fleet.Sample.{b, c, node, knows_b, knows_b-Inv, news}

abbrev options : Options
options = record {
  bootstrap_url = [];
  heartbeat_interval = pos 0;
  dead_after = pos 30;
  reconnect_initial = pos 1;
  reconnect_max = pos 8;
}

-- "a" streams from "b", in context 1.
abbrev managing : Manager
managing = record {
  options = options;
  registry = knows_b;
  local_events = 0;
  contexts =
      record { id = 1; parent = 0; cancelled = false }
      ∷ record { id = 0; parent = 0; cancelled = false }
      ∷ [];
  next_context = 2;
  streams = (codes "b", 1) ∷ [];
}

abbrev gone : Event
gone = record { type = peer_removed; peer = b }

abbrev blank : Event
blank = record { type = heartbeat; peer = node [] 90 }

stream_waits-IsWithin_example :
    All
      (IsWithin (pos 1) (pos 8))
      (stream_waits options (pos 1) (false ∷ false ∷ true ∷ false ∷ []))
stream_waits-IsWithin_example =
    stream_waits-IsWithin options (pos 1) (false ∷ false ∷ true ∷ false ∷ []) (omega arith)
      (omega arith) (omega arith) (omega arith)

waits :
    stream_waits options (pos 1) (false ∷ false ∷ true ∷ false ∷ false ∷ false ∷ false ∷ [])
    ≡ pos 1 ∷ pos 2 ∷ pos 1 ∷ pos 2 ∷ pos 4 ∷ pos 8 ∷ pos 8 ∷ []
unfolding stream_waits next_delay double
waits = refl

handle_remote_event-learns_example :
    (lookup (codes "c") (handle_remote_event alone 1 (pos 95) news managing).registry.peers ≡ (
      if equal (codes "c") (codes "c")
      then some (upsert (pos 95) (stamped (pos 95) heartbeat c) knows_b).1
      else lookup (codes "c") knows_b.peers))
    × IsStreamed 1 (codes "c") managing (handle_remote_event alone 1 (pos 95) news managing)
unfolding equal
handle_remote_event-learns_example =
    handle_remote_event-learns 1 (pos 95) news managing knows_b-Inv (inl refl) refl (codes "c")
      (ground arith)

handle_remote_event-forgets_example :
    IsForgotten
      (some b)
      (codes "b")
      (codes "b")
      managing
      (handle_remote_event alone 1 (pos 95) gone managing)
unfolding equal lookup
handle_remote_event-forgets_example =
    handle_remote_event-forgets 1 (pos 95) gone managing (codes "b") knows_b-Inv refl refl refl

-- "a" hears of "c" over its stream from "b", and then that "b" is gone.
handle_remote_event-IsOrphan_example :
    IsOrphan (codes "c") (
      handle_remote_event alone 1
        (pos 96)
        gone
        (handle_remote_event alone 1 (pos 95) news managing))
unfolding equal lookup
handle_remote_event-IsOrphan_example =
    handle_remote_event-IsOrphan 1 1 (pos 95) (pos 96) news gone managing b knows_b-Inv (inl refl)
      refl (omega arith) refl refl refl refl refl refl

handle_remote_event_blank_example :
    ((n : ℕ) × (lookup [] (handle_remote_event alone 1 (pos 95) blank managing).streams ≡ some n)
      × (is_done n (handle_remote_event alone 1 (pos 95) blank managing).contexts
          ≡ is_done 1 managing.contexts))
    × ((handle_remote_event alone 1 (pos 95) blank managing).registry ≡ knows_b)
unfolding equal lookup
handle_remote_event_blank_example =
    handle_remote_event_blank 1 (pos 95) blank managing knows_b-Inv (inl refl) refl refl refl

prune_tick-lookup_example :
    (lookup (codes "b") (prune_tick alone (pos 100) managing).registry.peers
      ≡ unless_stale (pos 100) (pos 30) (lookup (codes "b") knows_b.peers))
    × (lookup (codes "b") (prune_tick alone (pos 100) managing).streams ≡ (
        if stale_at (pos 100) (pos 30) (lookup (codes "b") knows_b.peers)
        then none
        else lookup (codes "b") managing.streams))
    × IsEnded
        (if stale_at (pos 100) (pos 30) (lookup (codes "b") knows_b.peers)
          then lookup (codes "b") managing.streams
          else none)
        (prune_tick alone (pos 100) managing).contexts
unfolding lookup equal
prune_tick-lookup_example = prune_tick-lookup (pos 100) managing (codes "b") knows_b-Inv refl
