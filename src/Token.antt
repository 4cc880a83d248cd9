-- ===== src/Token.antt =====
-- internal/mcpserver/token.go: where the bearer token comes from.
pub mod Kept
use fleetmind.Snapconf.{get_config, in_snap, set_config}
use fleetmind.Common.Text.{Bytes, codes, is_empty}
use fleetmind.Common.{true, Option, none, if◌then◌else◌, some, false, ◌∷◌, [], ◌++◌}
mod Tests

-- The token, with `none` for an error; what snapd keeps then; and the file that the token is
-- mirrored to, with its content. Whether that file can be written has no bearing on the rest.
pub record Outcome (S : Type 0) : Type 0 where
  pub token : Option Bytes
  pub state : S
  pub mirrored : Option (Bytes × Bytes)

module _ {S : Type 0} where
  abbrev pub found : Bytes → S → Outcome S
  found tok s = record { token = some tok; state = s; mirrored = none }

  abbrev pub broken : S → Outcome S
  broken s = record { token = none; state = s; mirrored = none }

-- A configured value that is there and not empty.
abbrev pub some_text : Option Bytes → Option Bytes
some_text none = none
some_text (some []) = none
some_text (some (c ∷ s)) = some (c ∷ s)

-- `join` is `filepath.Join`; `fresh` is what `generateToken` returns, 32 random bytes in base64.
module _ {S : Type 0} (getenv : Bytes → Bytes) (get : S → Bytes → Option Bytes)
    (set : S → Bytes → Bytes → Option S) (join : Bytes → Bytes → Bytes) where
  abbrev pub mirror_of : Bytes → Option (Bytes × Bytes)
  mirror_of tok =
      if is_empty (getenv (codes "SNAP_COMMON"))
      then none
      else some (join (getenv (codes "SNAP_COMMON")) (codes "token"), tok ++ (10 ∷ []))

  -- What is done with a new token.
  unfoldable pub persist : Bytes → S → Outcome S
  persist tok s = elim (in_snap getenv) [
    | false ↦ found tok s
    | true ↦ elim (set_config getenv set s (codes "token") tok) [
      | none ↦ broken s
      | some t ↦ record { token = some tok; state = t; mirrored = mirror_of tok }
    ]
  ]

  unfoldable pub generate : Option Bytes → S → Outcome S
  generate none s = broken s
  generate (some tok) s = persist tok s

  unfoldable pub ensure_token : Option Bytes → S → Outcome S
  ensure_token fresh s = elim (some_text (get_config getenv get s (codes "token"))) [
    | some tok ↦ found tok s
    | none ↦ elim (some_text (some (getenv (codes "FLEETMIND_TOKEN")))) [
      | some tok ↦ found tok s
      | none ↦ generate fresh s
    ]
  ]
