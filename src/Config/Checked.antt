-- ===== src/Config/Checked.antt =====
-- cmd/fleetmind/main.go: what is checked before the server starts.
use fleetmind.Common.Number.{atoi, itoa}
use fleetmind.Common.Int.{ℤ, pos, negsuc}
use fleetmind.Fleet.Client.{Url}
use fleetmind.Common.{
  Option, ℕ, ◌≡◌, some, ◌≤◌, arith, true, ◌⊎◌, [], none, inl, inr, false, suc, ◌∷◌, zero, ◌++◌,
  Bool, sym, ◌∙◌,
}
use fleetmind.Config.{
  checked_urls, resolve_port, checked_port, validate_url, advertised, config_port, is_wildcard,
  flag_or_config, resolve_fleet, Resolved, refused, disabled,
}
use fleetmind.Common.Text.{Bytes, codes, is_empty}

module _ (get : Bytes → Option Bytes) where
  checked_port-IsPort : (p : Option ℤ) (n : ℕ) → checked_port get p ≡ some n → (1 ≤ n) × (n ≤ 65535)
  checked_port-IsPort none n h = ground arith
  checked_port-IsPort (some (pos m)) n h = ground arith
  checked_port-IsPort (some (negsuc m)) n h = ground arith

  config_port-IsPort :
      (raw : Option Bytes) (n : ℕ) → config_port get raw ≡ some n → (1 ≤ n) × (n ≤ 65535)
  config_port-IsPort none n h = ground arith
  config_port-IsPort (some []) n h = ground arith
  config_port-IsPort (some (c ∷ raw)) n h = checked_port-IsPort (atoi (c ∷ raw)) n h

  no_flag : (m : ℕ) → resolve_port get (negsuc m) ≡ config_port get (get (codes "port"))
  unfolding resolve_port
  no_flag m = ground arith

  -- A port that does not come from a positive flag is one of TCP; a positive flag is taken as it is.
  pub resolve_port_lem :
      (flag : ℤ) (n : ℕ) → resolve_port get flag ≡ some n → ((1 ≤ n) × (n ≤ 65535)) ⊎ (flag ≡ pos n)
  unfolding resolve_port
  resolve_port_lem (pos zero) n h = inl (config_port-IsPort (get (codes "port")) n h)
  resolve_port_lem (pos (suc m)) n h = inr (ground arith)
  resolve_port_lem (negsuc m) n h =
      inl (config_port-IsPort (get (codes "port")) n (sym (no_flag m) ∙ h))

module _ (get : Bytes → Option Bytes) (parse : Bytes → Option Url) (to_lower : Bytes → Bytes)
    (join_host_port : Bytes → Bytes → Bytes) where
  -- Where the URL comes from that a node advertises.
  abbrev pub IsSource : Bytes → Bytes → ℕ → Bytes → Type 0
  IsSource given bind port url =
      ((is_empty given ≡ false) × (url ≡ given))
      ⊎ ((is_empty given ≡ true)
          × (is_wildcard bind ≡ false)
          × (url ≡ codes "http://" ++ join_host_port bind (itoa (pos port))))

  -- The URLs of the flags and of the configuration, and what is made of them.
  pub record IsChecked (flag_join flag_advertise bind : Bytes) (port : ℕ) (join advertise : Bytes)
      : Type 0 where
    pub given : Bytes
    pub joined : flag_or_config get flag_join (codes "join-url") ≡ some join
    pub read : flag_or_config get flag_advertise (codes "advertise-url") ≡ some given
    pub source : IsSource given bind port advertise
    pub valid : validate_url parse advertise ≡ true
    pub joinable : (join ≡ []) ⊎ (validate_url parse join ≡ true)

  module _ (flag_on : Bool) (flag_join flag_advertise bind : Bytes) (port : ℕ) where
    abbrev resolved : Resolved
    resolved =
        resolve_fleet get parse to_lower join_host_port flag_on flag_join flag_advertise bind port

    abbrev after_flags : Bytes → Bytes → Option Bool → Resolved
    after_flags join given none = refused
    after_flags join given (some false) = disabled
    after_flags join given (some true) =
        checked_urls get parse to_lower join_host_port join
          (advertised get parse to_lower join_host_port given bind port)
