-- ===== src/Aptdb/Upgrade.antt =====
-- internal/aptdb/aptdb.go, `UpgradablePackages`: the candidate of each installed package.
pub mod Best
pub mod Listed
mod Tests
use fleetmind.Common.{
  Ordering, Bool, true, false, not, ◌&&◌, List, [], ◌∷◌, Option, none, some, if◌then◌else◌,
}
use fleetmind.Common.Dict.{Dict, lookup}
use fleetmind.Common.Keyed.{by_key}
use fleetmind.Common.Sort.{sort_by}
use fleetmind.Common.Text.{Bytes, codes, equal, has_suffix}
use fleetmind.Aptdb.Version.{compare_versions}

pub record Package : Type 0 where
  pub name : Bytes
  pub version : Bytes
  pub architecture : Bytes
  pub status : Bytes
  pub source : Bytes
  pub section : Bytes
  pub priority : Bytes

pub record AvailableEntry : Type 0 where
  pub version : Bytes
  pub architecture : Bytes
  pub origin : Bytes
  pub suite : Bytes
  pub component : Bytes
  pub filename : Bytes

pub record UpgradeInfo : Type 0 where
  pub name : Bytes
  pub architecture : Bytes
  pub installed_version : Bytes
  pub candidate_version : Bytes
  pub origin : Bytes
  pub suite : Bytes
  pub security : Bool

unfoldable pub is_security_suite : Bytes → Bool
unfolding has_suffix
is_security_suite s = has_suffix s (codes "-security")

abbrev pub is_gt : Ordering → Bool
is_gt Ordering.lt = false
is_gt Ordering.eq = false
is_gt Ordering.gt = true

abbrev pub is_eq : Ordering → Bool
is_eq Ordering.lt = false
is_eq Ordering.eq = true
is_eq Ordering.gt = false

-- `CompareVersions(a, b) > 0`
unfoldable pub is_newer : Bytes → Bytes → Bool
unfolding compare_versions
is_newer a b = is_gt (compare_versions a b)

-- `CompareVersions(a, b) == 0`
unfoldable pub is_same : Bytes → Bytes → Bool
unfolding compare_versions
is_same a b = is_eq (compare_versions a b)

-- The loop's variables, with `none` for a nil `best`.
pub record Choice : Type 0 where
  pub best : AvailableEntry
  pub best_security : Bool

abbrev pub chosen : AvailableEntry → Bool → Choice
chosen c security = record { best = c; best_security = security }

-- The end of the loop's body, behind its guards.
unfoldable pub choose : AvailableEntry → Option Choice → Option Choice
choose c none = some (chosen c (is_security_suite c.suite))
choose c (some b) =
    if is_newer c.version b.best.version
    then some (chosen c (is_security_suite c.suite))
    else if is_same c.version b.best.version && is_security_suite c.suite
    then some (chosen c true)
    else some b

unfoldable pub consider : Package → AvailableEntry → Option Choice → Option Choice
consider p c best =
    if not (equal c.architecture p.architecture) && not (equal c.architecture (codes "all"))
    then best
    else if has_suffix c.suite (codes "-backports")
    then best
    else if not (is_newer c.version p.version)
    then best
    else choose c best

unfoldable pub best_candidate : Package → List AvailableEntry → Option Choice → Option Choice
best_candidate p [] best = best
best_candidate p (c ∷ cands) best = best_candidate p cands (consider p c best)

abbrev pub upgrade_info : Package → Choice → UpgradeInfo
upgrade_info p b = record {
  name = p.name;
  architecture = p.architecture;
  installed_version = p.version;
  candidate_version = b.best.version;
  origin = b.best.origin;
  suite = b.best.suite;
  security = b.best_security;
}

unfoldable pub upgrades : Dict (List AvailableEntry) → List Package → List UpgradeInfo
upgrades available [] = []
upgrades available (p ∷ installed) =
    let rest = upgrades available installed in
    elim (lookup p.name available) [
      | none ↦ rest
      | some cands ↦ elim (best_candidate p cands none) [
        | none ↦ rest
        | some b ↦ upgrade_info p b ∷ rest
      ]
    ]

abbrev pub upgrade_name : UpgradeInfo → Bytes
upgrade_name u = u.name

-- What is installed and what is available are given, as the two other methods return them.
unfoldable pub upgradable_packages : Dict (List AvailableEntry) → List Package → List UpgradeInfo
unfolding sort_by
upgradable_packages available installed =
    sort_by (by_key upgrade_name) (upgrades available installed)
