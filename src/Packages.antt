-- ===== src/Packages.antt =====
-- internal/tools/apt.go: the three tools on packages, and `LastUpdate` of internal/aptdb/aptdb.go.
pub mod Listed
use fleetmind.Common.Keyed.{by_key}
use fleetmind.Common.Sort.{sort_by}
use fleetmind.Common.Listing.{capped}
use fleetmind.Logs.{is_alphanumeric, every}
use fleetmind.Aptdb.Upgrade.{Package, UpgradeInfo, upgrade_name}
use fleetmind.Common.Int.{ℤ, pos, negsuc}
use fleetmind.Common.{
  Bool, List, Option, ℕ, none, not, some, if◌then◌else◌, ◌&&◌, ◌||◌, ◌∷◌, leb, length, suc, ◌==◌,
  [], ltb, zero, map, keep,
}
use fleetmind.Common.Text.{Bytes, is_empty, contains}
mod Tests

-- `boundedLimit`, with `none` for an error.
unfoldable pub bounded_limit : ℤ → ℕ → ℕ → Option ℕ
bounded_limit (pos zero) def max = some def
bounded_limit (negsuc n) def max = none
bounded_limit (pos (suc n)) def max = if ltb max (suc n) then none else some (suc n)

-- `pkgNameRE`
abbrev pub is_name_char : ℕ → Bool
is_name_char c = is_alphanumeric c || c == b'.' || c == b'_' || c == b'+' || c == b'-'

unfoldable pub is_name_pattern : Bytes → Bool
is_name_pattern s = not (is_empty s) && leb (length s) 64 && every is_name_char s

abbrev pub is_bad_pattern : Bytes → Bool
is_bad_pattern s = not (is_empty s) && not (is_name_pattern s)

pub record ListUpgradableIn : Type 0 where
  pub security_only : Bool
  pub name_pattern : Bytes
  pub limit : ℤ

pub record ListInstalledIn : Type 0 where
  pub name_pattern : Bytes
  pub limit : ℤ

pub record InstalledPackage : Type 0 where
  pub name : Bytes
  pub version : Bytes
  pub architecture : Bytes
  pub status : Bytes
  pub source : Bytes
  pub section : Bytes

abbrev pub installed_package : Package → InstalledPackage
installed_package p = record {
  name = p.name;
  version = p.version;
  architecture = p.architecture;
  status = p.status;
  source = p.source;
  section = p.section;
}

abbrev pub installed_name : InstalledPackage → Bytes
installed_name p = p.name

-- `to_lower` is `strings.ToLower`. In both tools `none` stands for an error, also of reading the
-- packages. What list_upgradable_packages copies has the fields of an `UpgradeInfo`.
module _ (to_lower : Bytes → Bytes) where
  unfoldable pub matches_name : Bytes → Bytes → Bool
  matches_name pattern name =
      is_empty (to_lower pattern) || contains (to_lower name) (to_lower pattern)

  unfoldable pub is_wanted : ListUpgradableIn → UpgradeInfo → Bool
  is_wanted i u = not (i.security_only && not u.security) && matches_name i.name_pattern u.name

  unfoldable pub list_upgradable :
      ListUpgradableIn → Option (List UpgradeInfo) → Option (List UpgradeInfo)
  list_upgradable i found = elim (bounded_limit i.limit 500 2000) [
    | none ↦ none
    | some limit ↦ if is_bad_pattern i.name_pattern then none else elim found [
      | none ↦ none
      | some us ↦ some (capped limit (sort_by (by_key upgrade_name) (keep (is_wanted i) us)))
    ]
  ]

  unfoldable pub list_installed :
      ListInstalledIn → Option (List Package) → Option (List InstalledPackage)
  list_installed i found = elim (bounded_limit i.limit 1000 5000) [
    | none ↦ none
    | some limit ↦ if is_bad_pattern i.name_pattern then none else elim found [
      | none ↦ none
      | some ps ↦ some (
          capped limit (
            sort_by (by_key installed_name)
              (map installed_package (keep (λ p. matches_name i.name_pattern p.name) ps))))
    ]
  ]

-- `LastUpdate`, at what `os.Stat` gives for the stamp and for the directory of the lists.
unfoldable pub last_update : {I : Type 0} → Option I → Option I → Option I
last_update (some stamp) lists = some stamp
last_update none lists = lists

pub record AptUpdateStatus (I : Type 0) : Type 0 where
  pub updates_pending : ℕ
  pub security_updates_pending : ℕ
  pub reboot_required : Bool
  pub reboot_required_packages : List Bytes
  pub last_apt_update : I
  pub last_apt_update_age_sec : ℤ

abbrev pub count_security : List UpgradeInfo → ℕ
count_security [] = 0
count_security (u ∷ us) = if u.security then suc (count_security us) else count_security us

-- The tool apt_update_status, at what the three methods return: `age` gives the seconds since an
-- instant, as the code computes them with a float64.
unfoldable pub apt_update_status :
    {I : Type 0}
    → (I → ℤ)
    → Option (List UpgradeInfo)
    → Bool × List Bytes × Bool
    → Option I
    → Option (AptUpdateStatus I)
apt_update_status age none reboot last = none
apt_update_status age (some us) (required, pkgs, failed) last = if failed then none else elim last [
  | none ↦ none
  | some t ↦ some (record {
    updates_pending = length us;
    security_updates_pending = count_security us;
    reboot_required = required;
    reboot_required_packages = pkgs;
    last_apt_update = t;
    last_apt_update_age_sec = age t;
  })
]
