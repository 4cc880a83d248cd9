-- ===== src/Snapconf.antt =====
-- internal/snapconf/snapconf.go. `getenv` is `os.Getenv`; `S` is what snapd keeps, and `get` and
-- `set` are the two programs `snapctl get` and `snapctl set` on it, with `none` for an error.
use fleetmind.Common.Space.{trim_space}
use mathlib.Core.Option
use fleetmind.Processes.{upper}
use fleetmind.Common.{true, ℕ, Bool, Option, if◌then◌else◌, false, not, ◌++◌, ◌==◌, map, some, ◌&&◌}
use fleetmind.Common.Text.{Bytes, codes, is_empty}

-- `strings.ReplaceAll(key, "-", "_")` and `strings.ToUpper`, on keys of ASCII letters and dashes.
abbrev pub env_char : ℕ → ℕ
env_char c = if c == b'-' then b'_' else upper c

unfoldable pub env_key : Bytes → Bytes
env_key key = codes "FLEETMIND_" ++ map env_char key

module _ (getenv : Bytes → Bytes) where
  unfoldable pub in_snap : Bool
  in_snap = not (is_empty (getenv (codes "SNAP"))) && not (is_empty (getenv (codes "SNAP_NAME")))

  module _ {S : Type 0} where
    unfoldable pub get_config : (S → Bytes → Option Bytes) → S → Bytes → Option Bytes
    get_config get s key = elim in_snap [
      | false ↦ some (getenv (env_key key))
      | true ↦ Option.map trim_space (get s key)
    ]

    unfoldable pub set_config : (S → Bytes → Bytes → Option S) → S → Bytes → Bytes → Option S
    set_config set s key value = elim in_snap [ false ↦ some s | true ↦ set s key value ]
