-- ===== src/Fleet/Registry/Tests.antt =====
-- The registry's theorems at concrete inputs.
use mathlib.Core.List.Perm
use fleetmind.Common.{false, [], ◌∷◌, ◌++◌, Perm, some, ◌≡◌, ◌↔◌, refl, All, take, arith}
use fleetmind.Common.Dict.{lookup, values}
use fleetmind.Common.Int.{pos}
use fleetmind.Common.Keyed.{by_key}
use fleetmind.Common.Sort.{IsSorted}
use fleetmind.Common.Text.{codes, equal}
use fleetmind.Fleet.Peer.{Peer}
use fleetmind.Fleet.Registry.Invariant.{Inv, upserts, subscribes, run, run-new_registry-Inv}
use fleetmind.Fleet.Registry.Prune.{prune_stale-perm, IsSilent}
use fleetmind.Fleet.Registry.Roster.{roster-IsSorted, roster-perm_eq}
use fleetmind.Fleet.Registry.Subscribers
use fleetmind.Fleet.Registry.Subscribers.{
  channel, broadcasts-channel, subscribe-channel, cancel-channel,
}
use fleetmind.Fleet.Registry.Upsert.{upsert-changed, upsert-joined_at}
use fleetmind.Fleet.Registry.{upsert, new_registry, roster, prune_stale, node_id_of}
use fleetmind.Fleet.Sample.{a, b, c, knows_b, knows_both, knows_both', knows_both-Inv, news}

run-new_registry-Inv_example :
    Inv (run (upserts (pos 7) b ∷ subscribes (pos 64) ∷ []) (new_registry a))
run-new_registry-Inv_example = run-new_registry-Inv a (upserts (pos 7) b ∷ subscribes (pos 64) ∷ [])

upsert-changed_example :
    ((upsert (pos 7) b knows_b).2 ≡ false) ↔ ((upsert (pos 7) b knows_b).0 ≡ knows_b)
upsert-changed_example = upsert-changed (pos 7) b knows_b

-- "b" comes again, with a later heartbeat and another join time.
upsert-joined_at_example :
    (q : Peer) × (lookup
        (codes "b")
        (upsert (pos 7) (record b { joined_at = pos 8; last_heartbeat = pos 30 }) knows_b).0.peers
      ≡ some q)
    × (q.joined_at ≡ pos 5)
unfolding lookup equal
upsert-joined_at_example =
    upsert-joined_at (pos 7) (record b { joined_at = pos 8; last_heartbeat = pos 30 }) knows_b
      (codes "b") b refl

roster-IsSorted_example :
    Perm (roster knows_both') (a ∷ c ∷ b ∷ []) × IsSorted (by_key node_id_of) (roster knows_both')
roster-IsSorted_example = roster-IsSorted knows_both'

roster-perm_eq_example : roster knows_both ≡ roster knows_both'
roster-perm_eq_example =
    roster-perm_eq knows_both knows_both' knows_both-Inv refl
      (Perm.swap (codes "c", c) (codes "b", b) [])

prune_stale-perm_example :
    Perm
      ((prune_stale (pos 100) (pos 30) knows_both).1
        ++ values (prune_stale (pos 100) (pos 30) knows_both).0.peers)
      (b ∷ c ∷ [])
    × All (IsSilent (pos 100) (pos 30)) (prune_stale (pos 100) (pos 30) knows_both).1
    × All
        (λ p. ¬ IsSilent (pos 100) (pos 30) p)
        (values (prune_stale (pos 100) (pos 30) knows_both).0.peers)
prune_stale-perm_example =
    prune_stale-perm (pos 100) (pos 30) knows_both (omega arith) (omega arith)

broadcasts-channel_example :
    channel 0 (Subscribers.broadcasts (news ∷ news ∷ news ∷ []) knows_b).subscribers
    ≡ some (record { buffered = take 2 (news ∷ news ∷ news ∷ []); capacity = 2 })
broadcasts-channel_example =
    broadcasts-channel (news ∷ news ∷ news ∷ []) knows_b 0 (record { buffered = []; capacity = 2 })
      refl
