-- ===== src/Aptdb/Upgrade/Listed.antt =====
-- internal/aptdb/aptdb.go: what `UpgradablePackages` lists.
use fleetmind.Common.{true, false, List, [], ◌∷◌, Option, none, some, ◌≡◌, refl, All}
use fleetmind.Common.Dict.{Dict, lookup}
use fleetmind.Common.Keyed.{by_key, sort_by_key-IsSorted}
use fleetmind.Common.Sort.{IsSorted, All-sort_by}
use fleetmind.Common.Text.{codes, has_suffix}
use fleetmind.Aptdb.Upgrade.{
  Package, AvailableEntry, UpgradeInfo, Choice, is_security_suite, is_newer, best_candidate,
  upgrade_info, upgrades, upgrade_name, upgradable_packages,
}
use fleetmind.Aptdb.Upgrade.Best.{is_upgrade, best_candidate-chosen}
use native.Mathlib.Omega.{arith}

-- An entry of the result: its candidate is newer than what is installed, is not from a backports
-- pocket, and is flagged exactly if it is from a security pocket.
abbrev pub IsUpgrade : UpgradeInfo → Type 0
IsUpgrade u =
    (is_newer u.candidate_version u.installed_version ≡ true)
    × (has_suffix u.suite (codes "-backports") ≡ false)
    × (u.security ≡ is_security_suite u.suite)

is_upgrade-IsUpgrade :
    (p : Package) (b : Choice)
    → is_upgrade p b.best ≡ true
    → b.best_security ≡ is_security_suite b.best.suite
    → IsUpgrade (upgrade_info p b)
unfolding is_upgrade
is_upgrade-IsUpgrade p b h k = (ground arith, ground arith, k)

module _ (p : Package) (cands : List AvailableEntry) (rest : List UpgradeInfo) where
  abbrev with_upgrade : Option Choice → List UpgradeInfo
  with_upgrade none = rest
  with_upgrade (some b) = upgrade_info p b ∷ rest

  with_upgrade-All :
      (o : Option Choice)
      → best_candidate p cands none ≡ o
      → All IsUpgrade rest
      → All IsUpgrade (with_upgrade o)
  with_upgrade-All none h k = k
  with_upgrade-All (some b) h k =
      let c = best_candidate-chosen p cands b h in (is_upgrade-IsUpgrade p b c.1 c.2, k)

with_cands-All :
    (p : Package) (o : Option (List AvailableEntry)) (rest : List UpgradeInfo)
    → All IsUpgrade rest
    → All IsUpgrade (elim o [
      | none ↦ rest
      | some cands ↦ elim (best_candidate p cands none) [
        | none ↦ rest
        | some b ↦ upgrade_info p b ∷ rest
      ]
    ])
with_cands-All p none rest k = k
with_cands-All p (some cands) rest k =
    with_upgrade-All p cands rest (best_candidate p cands none) refl k

upgrades-All :
    (available : Dict (List AvailableEntry)) (installed : List Package)
    → All IsUpgrade (upgrades available installed)
unfolding upgrades
upgrades-All available [] = tt
upgrades-All available (p ∷ installed) =
    with_cands-All p (lookup p.name available) (upgrades available installed)
      (upgrades-All available installed)

-- Each entry of the result has a candidate that is newer than the installed version and not from a
-- backports pocket, its security flag says whether the candidate's suite is a security pocket, and
-- the entries stand by rising name.
pub upgradable_packages-IsUpgrade :
    (available : Dict (List AvailableEntry)) (installed : List Package)
    → All IsUpgrade (upgradable_packages available installed)
      × IsSorted (by_key upgrade_name) (upgradable_packages available installed)
unfolding upgradable_packages
upgradable_packages-IsUpgrade available installed = (
  All-sort_by IsUpgrade (by_key upgrade_name) (upgrades available installed)
      (upgrades-All available installed),
  sort_by_key-IsSorted upgrade_name (upgrades available installed),
)
