-- ===== src/Fleet/Bootstrap.antt =====
-- internal/fleet/manager.go, `bootstrap`: the roster of the node that was asked to let this one in
-- is stored and streamed from, and every other member is told. What `client.Join` returns is an
-- argument, with `none` for an error, and so is `sameBaseURL`.
pub mod Joined
pub mod Mutual
use fleetmind.Common.{ℕ, Bool, true, false, ◌||◌, List, [], ◌∷◌, Option, none, some, if◌then◌else◌}
use fleetmind.Common.Text.{Bytes, equal}
use fleetmind.Fleet.Manager.{Manager, Others, later, tell, upsert_peer, ensure_stream}
use fleetmind.Fleet.Peer.{Time, Peer, peer_added}

-- One turn of the first loop; `clock` is the time at which `Upsert` asks for it.
unfoldable pub learn_member : Others → Bytes → ℕ → (Peer → Time) → Peer → Manager → Manager
learn_member others me ctx clock p m =
    if equal p.node_id me
    then m
    else (let (m', stored, changed) = upsert_peer (clock p) p m in
        ensure_stream ctx stored (tell others peer_added stored changed (others 0 m')))

unfoldable pub learn_roster : Others → Bytes → ℕ → (Peer → Time) → List Peer → Manager → Manager
learn_roster others me ctx clock [] m = m
learn_roster others me ctx clock (p ∷ ps) m =
    learn_roster (later 3 others) me ctx clock ps (others 2 (learn_member others me ctx clock p m))

module _ (same_base_url : Bytes → Bytes → Bool) where
  -- The URLs that the second loop sends the local peer to.
  unfoldable pub announced_to : Bytes → Bytes → List Peer → List Bytes
  announced_to me url [] = []
  announced_to me url (p ∷ ps) =
      let rest = announced_to me url ps in
      if equal p.node_id me || same_base_url p.advertise_url url
      then rest
      else p.advertise_url ∷ rest

  -- The manager, the URLs that were announced to, and whether the node got in.
  unfoldable pub bootstrap :
      Others → ℕ → (Peer → Time) → Option (List Peer) → Manager → Manager × List Bytes × Bool
  bootstrap others ctx clock none m = (m, [], false)
  bootstrap others ctx clock (some roster) m =
      let me = m.registry.self.node_id in
      (
        learn_roster others me ctx clock roster m,
        announced_to me m.options.bootstrap_url roster,
        true,
      )
