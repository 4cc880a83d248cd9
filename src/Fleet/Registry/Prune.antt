-- ===== src/Fleet/Registry/Prune.antt =====
-- `PruneStale`: exactly the stale peers go, and all of them are returned.
use mathlib.Core.List.{perm_middle}
use mathlib.Core.List.Perm
use fleetmind.Common.{
  List, true, false, [], ◌∷◌, ◌++◌, Perm, ◌≡◌, ◌≢◌, ◌↔◌, refl, Option, none, some, inl, inr,
  Bool-cases, if◌then◌else◌, arith, All,
}
use fleetmind.Common.Dict.{Dict, lookup, values, IsDistinct}
use fleetmind.Common.Int.{eq_ℤ_iff, ◌-ℤ◌, ◌<ℤ◌, ◌≤ℤ◌, min_int64, max_int64}
use fleetmind.Common.Text.{Bytes, equal_iff}
use fleetmind.Fleet.Peer.{Time, Duration, Peer, zero_time, sub}
use fleetmind.Fleet.Registry.{Registry, is_stale, prune, prune_stale}

-- What the map gives for a key, less the stale peers.
abbrev pub unless_stale : Time → Duration → Option Peer → Option Peer
unless_stale now d none = none
unless_stale now d (some p) = if is_stale now d p then none else some p

prune-lookup :
    (now : Time) (d : Duration) (m : Dict Peer) (k : Bytes)
    → IsDistinct m
    → lookup k (prune now d m).0 ≡ unless_stale now d (lookup k m)
unfolding prune lookup
prune-lookup now d [] k h = refl
prune-lookup now d ((j, p) ∷ m) k h = ground (arith, prune-lookup now d m k h.1, equal_iff j k, h.0)

-- After `PruneStale` the map has, under each id, the peer that stood there, unless that peer is
-- stale: then it has none.
pub prune_stale-lookup :
    (now : Time) (d : Duration) (r : Registry) (k : Bytes)
    → IsDistinct r.peers
    → lookup k (prune_stale now d r).0.peers ≡ unless_stale now d (lookup k r.peers)
unfolding prune_stale
prune_stale-lookup now d r k h = prune-lookup now d r.peers k h

prune-perm :
    (now : Time) (d : Duration) (m : Dict Peer)
    → Perm ((prune now d m).1 ++ values (prune now d m).0) (values m)
unfolding prune
prune-perm now d [] = Perm.refl []
prune-perm now d ((j, p) ∷ m) = elim (Bool-cases (is_stale now d p)) [
  | inl e ↦ rw e (Perm.cons p (prune-perm now d m))
  | inr e ↦ rw e (
      Perm.trans (perm_middle (prune now d m).1 (values (prune now d m).0))
        (Perm.cons p (prune-perm now d m)))
]

prune-evicted :
    (now : Time) (d : Duration) (m : Dict Peer)
    → All (λ p. is_stale now d p ≡ true) (prune now d m).1
unfolding prune
prune-evicted now d [] = tt
prune-evicted now d ((j, p) ∷ m) = ground (arith, prune-evicted now d m)

prune-kept :
    (now : Time) (d : Duration) (m : Dict Peer)
    → All (λ p. is_stale now d p ≡ false) (values (prune now d m).0)
unfolding prune
prune-kept now d [] = tt
prune-kept now d ((j, p) ∷ m) = elim (Bool-cases (is_stale now d p)) [
  | inl e ↦ rw e (prune-kept now d m)
  | inr e ↦ rw e (e, prune-kept now d m)
]

-- For a deadline between the ends of int64, the upper one excluded, a peer is stale exactly when
-- it has had a heartbeat and the time since then, taken with no bound, is over the deadline: that
-- the code's subtraction stops at the ends of int64 makes no difference.
pub is_stale_iff :
    (now : Time) (d : Duration) (p : Peer)
    → min_int64 ≤ℤ d
    → d <ℤ max_int64
    → (is_stale now d p ≡ true)
      ↔ ((p.last_heartbeat ≢ zero_time) × (d <ℤ (now -ℤ p.last_heartbeat)))
unfolding is_stale sub
is_stale_iff now d p h k = ground (arith, eq_ℤ_iff p.last_heartbeat zero_time)

-- A peer that has had a heartbeat, but none within the deadline.
abbrev pub IsSilent : Time → Duration → Peer → Type 0
IsSilent now d p = (p.last_heartbeat ≢ zero_time) × (d <ℤ (now -ℤ p.last_heartbeat))

module _ (now : Time) (d : Duration) (low : min_int64 ≤ℤ d) (high : d <ℤ max_int64) where
  IsSilent-All : (ps : List Peer) → All (λ p. is_stale now d p ≡ true) ps → All (IsSilent now d) ps
  IsSilent-All [] h = tt
  IsSilent-All (p ∷ ps) (h, hs) = ((is_stale_iff now d p low high).0 h, IsSilent-All ps hs)

  stale_none :
      (ps : List Peer) → All (λ p. is_stale now d p ≡ false) ps → All (λ p. ¬ IsSilent now d p) ps
  stale_none [] h = tt
  stale_none (p ∷ ps) (h, hs) = (λ s. cc (h, (is_stale_iff now d p low high).1 s), stale_none ps hs)

-- The peers that `PruneStale` returns and those that it keeps are together the peers that were
-- there, each as often. All that are returned have had a heartbeat, and the time since the last one,
-- taken with no bound, is over the deadline; of none that is kept are both true. The deadline is
-- between the ends of int64, the upper one excluded.
pub prune_stale-perm :
    (now : Time) (d : Duration) (r : Registry)
    → min_int64 ≤ℤ d
    → d <ℤ max_int64
    → Perm ((prune_stale now d r).1 ++ values (prune_stale now d r).0.peers) (values r.peers)
      × All (IsSilent now d) (prune_stale now d r).1
      × All (λ p. ¬ IsSilent now d p) (values (prune_stale now d r).0.peers)
unfolding prune_stale
prune_stale-perm now d r low high = (
  prune-perm now d r.peers,
  IsSilent-All now d low high (prune now d r.peers).1 (prune-evicted now d r.peers),
  stale_none now d low high (values (prune now d r.peers).0) (prune-kept now d r.peers),
)
