-- ===== src/Host/Network.antt =====
-- internal/tools/network.go.
mod Tests
use mathlib.Core.Option
use fleetmind.Common.Dict.{Dict, lookup}
use fleetmind.Sysfs.{NetIface}
use fleetmind.Common.{List, Option, Bool, if◌then◌else◌, none, some, ◌≡◌, All, map, true, ◌∷◌, []}
use fleetmind.Common.Text.{Bytes, equal, is_seen, codes}

pub record ListSocketsIn : Type 0 where
  pub protocols : List Bytes
  pub listening : Bool

unfoldable pub family : Bytes → Option Bytes
family p =
    if equal p (codes "tcp")
    then some (codes "-t")
    else if equal p (codes "udp")
    then some (codes "-u")
    else if equal p (codes "unix")
    then some (codes "-x")
    else none

-- `to_lower` is `strings.ToLower`.
module _ (to_lower : Bytes → Bytes) where
  unfoldable pub family_args : List Bytes → Option (List Bytes)
  family_args [] = some []
  family_args (p ∷ ps) = elim (family (to_lower p)) [
    | none ↦ none
    | some f ↦ Option.map (◌∷◌ f) (family_args ps)
  ]

  abbrev pub protocol_args : List Bytes → Option (List Bytes)
  protocol_args [] = some (codes "-t" ∷ codes "-u" ∷ codes "-x" ∷ [])
  protocol_args (p ∷ ps) = family_args (p ∷ ps)

  unfoldable pub ss_args : ListSocketsIn → Option (List Bytes)
  ss_args i =
      let mode = if i.listening then codes "-l" else codes "-a" in
      Option.map (λ fs. codes "-n" ∷ codes "-p" ∷ mode ∷ fs) (protocol_args i.protocols)

  -- The tool, with `none` for an error; `run` is `Runner.Run` on ss.
  unfoldable pub list_sockets : (List Bytes → Option Bytes) → ListSocketsIn → Option Bytes
  list_sockets run i = elim (ss_args i) [ none ↦ none | some args ↦ run args ]

pub record InterfaceOut : Type 0 where
  pub link : NetIface
  pub addresses : List Bytes

-- list_network_interfaces, at what `net.Interfaces` gives for each name.
unfoldable pub list_network_interfaces :
    Option (List NetIface) → Dict (List Bytes) → Option (List InterfaceOut)
list_network_interfaces none addrs = none
list_network_interfaces (some raws) addrs = some (
    map
      (λ r. record { link = r; addresses = elim (lookup r.name addrs) [ none ↦ [] | some a ↦ a ] })
      raws)
