-- ===== src/Config/Tests.antt =====
-- A configuration with nothing but the URL to join.
use fleetmind.Fleet.Client.{Url}
use fleetmind.Common.Int.{pos}
use fleetmind.Common.Text.{Bytes, equal, codes}
use fleetmind.Common.Space.{drop_spaces, space_width, space_width_back, trim_space}
use fleetmind.Common.Number.{decimal_from, itoa}
use fleetmind.Common.{Bool, Option, [], true, ◌++◌, some, ℕ, ◌∷◌, ◌≡◌, if◌then◌else◌, none, refl}
use fleetmind.Config.{
  advertised, checked_urls, flag_or_config, is_enabled, resolve_bind, resolve_fleet, resolve_port,
  validate_url, Resolved, refused,
}

abbrev get : Bytes → Option Bytes
get key = some (if equal key (codes "join-url") then codes " http://a\n" else [])

-- Every text is a URL of the host `h`, but the empty one.
abbrev parse : Bytes → Option Url
parse [] = none
parse (c ∷ s) = some (record { scheme = codes "http"; host = codes "h"; path = [] })

abbrev same : Bytes → Bytes
same s = s

abbrev join_host_port : Bytes → Bytes → Bytes
join_host_port host port = host ++ (b':' ∷ port)

-- All that resolving the configuration computes with.
computed : Bool → Bytes → Bytes → Bytes → ℕ → Resolved
unfolding resolve_fleet flag_or_config is_enabled advertised checked_urls validate_url resolve_port
    resolve_bind equal itoa decimal_from trim_space drop_spaces space_width space_width_back
computed = resolve_fleet get parse same join_host_port

wildcard : resolve_fleet get parse same join_host_port true [] [] (codes "::") 80 ≡ refused
unfolding computed
wildcard = refl

default_port : resolve_port get (pos 0) ≡ some 8765
unfolding computed
default_port = refl

-- The flag is not checked against the ports of TCP.
large_port : resolve_port get (pos 70000) ≡ some 70000
unfolding computed
large_port = refl
