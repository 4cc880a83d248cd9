-- ===== src/Fleet/Manager/Backoff.antt =====
-- The waits between connections.
use fleetmind.Common.{ℕ, ◌*◌, ◌^◌, ◌<◌, Bool, true, false, List, [], ◌∷◌, ◌≡◌, All, min, arith}
use fleetmind.Common.Int.{pos, negsuc, ◌≤ℤ◌, ◌<ℤ◌}
use fleetmind.Fleet.Peer.{Duration}
use fleetmind.Fleet.Manager.{Options, apply_defaults, double, next_delay, stream_waits}

-- After `applyDefaults` every duration is positive, a duration that was positive is the one that
-- was given, and applying the defaults again changes nothing.
pub apply_defaults_lem :
    (o : Options)
    → (pos 0 <ℤ (apply_defaults o).heartbeat_interval)
      × (pos 0 <ℤ (apply_defaults o).dead_after)
      × (pos 0 <ℤ (apply_defaults o).reconnect_initial)
      × (pos 0 <ℤ (apply_defaults o).reconnect_max)
      × (apply_defaults (apply_defaults o) ≡ apply_defaults o)
unfolding apply_defaults
apply_defaults_lem o = ground arith

-- The delay behind one that is positive and at most 2 ^ 62 - 1 is its double, held down to the
-- maximum: the doubling does not overflow.
next_delay_lem :
    (o : Options) (d n : ℕ)
    → o.reconnect_max ≡ pos n
    → d < 2 ^ 62
    → next_delay o (pos d) ≡ pos (min (2 * d) n)
unfolding next_delay double
next_delay_lem o d n h k = ground arith

-- The bounds of a wait.
abbrev pub IsWithin : Duration → Duration → Duration → Type 0
IsWithin lo hi d = (lo ≤ℤ d) × (d ≤ℤ hi)

next_delay-IsWithin :
    (o : Options) (d : Duration)
    → pos 0 <ℤ o.reconnect_initial
    → o.reconnect_initial ≤ℤ o.reconnect_max
    → o.reconnect_max <ℤ pos (2 ^ 62)
    → IsWithin o.reconnect_initial o.reconnect_max d
    → IsWithin o.reconnect_initial o.reconnect_max (next_delay o d)
unfolding next_delay double
next_delay-IsWithin o (pos d) h k l w = ground arith
next_delay-IsWithin o (negsuc d) h k l w = absurd (omega arith)

-- Where the first delay is positive and at most the greatest, and that is below 2 ^ 62 ns (146
-- years), every wait of a stream lies between the two, whatever the connections did.
pub stream_waits-IsWithin :
    (o : Options) (d : Duration) (ends : List Bool)
    → pos 0 <ℤ o.reconnect_initial
    → o.reconnect_initial ≤ℤ o.reconnect_max
    → o.reconnect_max <ℤ pos (2 ^ 62)
    → IsWithin o.reconnect_initial o.reconnect_max d
    → All (IsWithin o.reconnect_initial o.reconnect_max) (stream_waits o d ends)
unfolding stream_waits
stream_waits-IsWithin o d [] h k l w = tt
stream_waits-IsWithin o d (true ∷ ends) h k l w =
    let first : IsWithin o.reconnect_initial o.reconnect_max o.reconnect_initial = omega arith in
    (
      first,
      stream_waits-IsWithin o (next_delay o o.reconnect_initial) ends h k l
          (next_delay-IsWithin o o.reconnect_initial h k l first),
    )
stream_waits-IsWithin o d (false ∷ ends) h k l w =
    (w, stream_waits-IsWithin o (next_delay o d) ends h k l (next_delay-IsWithin o d h k l w))
