-- ===== src/Host/Network/Tests.antt =====
-- What ss is called with.
use fleetmind.Common.{Option, ◌∷◌, List, [], true, ◌≡◌, none, some, refl}
use fleetmind.Host.Network.{family, family_args, ss_args, ListSocketsIn}
use fleetmind.Common.Text.{Bytes, equal, codes}

abbrev same : Bytes → Bytes
same s = s

computed : ListSocketsIn → Option (List Bytes)
unfolding ss_args family_args family equal
computed = ss_args same

udp_only :
    ss_args same (record { protocols = codes "udp" ∷ []; listening = true })
    ≡ some (codes "-n" ∷ codes "-p" ∷ codes "-l" ∷ codes "-u" ∷ [])
unfolding computed
udp_only = refl

no_such_protocol : ss_args same (record { protocols = codes "sctp" ∷ []; listening = true }) ≡ none
unfolding computed
no_such_protocol = refl
