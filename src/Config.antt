-- ===== src/Config.antt =====
-- cmd/fleetmind/main.go: how the flags and the configuration are resolved. `get` is `snapconf.Get`,
-- with `none` for an error.
pub mod Checked
use fleetmind.Common.Number.{itoa, atoi}
use fleetmind.Common.Space.{trim_space}
use fleetmind.Common.Int.{ℤ, ltb_ℤ, pos, pos_part}
use fleetmind.Fleet.Client.{Url}
use mathlib.Core.Option
use fleetmind.Common.{
  Bool, Option, if◌then◌else◌, none, some, ℕ, ◌||◌, false, not, ◌&&◌, ◌∷◌, [], true, ◌++◌,
}
use fleetmind.Common.Text.{Bytes, equal, codes, is_empty}
mod Tests

-- What `resolveFleet` returns: an error, nil, or a configuration.
pub data Resolved : Type 0 where
  refused : Resolved
  disabled : Resolved
  enabled : Bytes → Bytes → Resolved

module _ (get : Bytes → Option Bytes) where
  unfoldable pub resolve_bind : Bytes → Option Bytes
  resolve_bind flag_bind =
      if equal flag_bind (codes "127.0.0.1")
      then elim (get (codes "bind")) [
        | none ↦ none
        | some raw ↦ some (if is_empty raw then codes "127.0.0.1" else raw)
      ]
      else some flag_bind

  abbrev pub checked_port : Option ℤ → Option ℕ
  checked_port none = none
  checked_port (some p) = if ltb_ℤ p (pos 1) || ltb_ℤ (pos 65535) p then none else some (pos_part p)

  abbrev pub config_port : Option Bytes → Option ℕ
  config_port none = none
  config_port (some raw) = if is_empty raw then some 8765 else checked_port (atoi raw)

  unfoldable pub resolve_port : ℤ → Option ℕ
  resolve_port flag_port =
      if ltb_ℤ (pos 0) flag_port
      then some (pos_part flag_port)
      else config_port (get (codes "port"))

  -- A flag, or else what the configuration has under a key.
  unfoldable pub flag_or_config : Bytes → Bytes → Option Bytes
  flag_or_config [] key = Option.map trim_space (get key)
  flag_or_config (c ∷ flag) key = some (c ∷ flag)

-- `parse` is `url.Parse`.
unfoldable pub validate_url : (Bytes → Option Url) → Bytes → Bool
validate_url parse raw = elim (parse raw) [
  | none ↦ false
  | some u ↦
      (equal u.scheme (codes "http") || equal u.scheme (codes "https")) && not (is_empty u.host)
]

abbrev pub is_on : Bytes → Bool
is_on s =
    equal s (codes "1") || equal s (codes "true") || equal s (codes "yes") || equal s (codes "on")

abbrev pub is_wildcard : Bytes → Bool
is_wildcard host = equal host (codes "0.0.0.0") || equal host (codes "::")

-- `to_lower` is `strings.ToLower`, and `join_host_port` is `net.JoinHostPort`.
module _ (get : Bytes → Option Bytes) (parse : Bytes → Option Url) (to_lower : Bytes → Bytes)
    (join_host_port : Bytes → Bytes → Bytes) where
  -- Whether fleet mode is on, with `none` for an error.
  unfoldable pub is_enabled : Bool → Bytes → Bytes → Option Bool
  is_enabled flag_on join advertise =
      if flag_on || not (is_empty join) || not (is_empty advertise)
      then some true
      else Option.map (λ raw. is_on (to_lower (trim_space raw))) (get (codes "fleet"))

  -- The URL to advertise, with `none` for an error.
  unfoldable pub advertised : Bytes → Bytes → ℕ → Option Bytes
  advertised (c ∷ advertise) bind port = some (c ∷ advertise)
  advertised [] bind port =
      if is_wildcard bind
      then none
      else some (codes "http://" ++ join_host_port bind (itoa (pos port)))

  -- The end of `resolveFleet`.
  unfoldable pub checked_urls : Bytes → Option Bytes → Resolved
  checked_urls join none = refused
  checked_urls join (some advertise) =
      if validate_url parse advertise && (is_empty join || validate_url parse join)
      then enabled join advertise
      else refused

  unfoldable pub resolve_fleet : Bool → Bytes → Bytes → Bytes → ℕ → Resolved
  resolve_fleet flag_on flag_join flag_advertise bind port =
      elim (flag_or_config get flag_join (codes "join-url")) [
        | none ↦ refused
        | some join ↦ elim (flag_or_config get flag_advertise (codes "advertise-url")) [
          | none ↦ refused
          | some advertise ↦ elim (is_enabled flag_on join advertise) [
            | none ↦ refused
            | some on ↦ elim on [
              | false ↦ disabled
              | true ↦ checked_urls join (advertised advertise bind port)
            ]
          ]
        ]
      ]
