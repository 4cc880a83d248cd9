-- ===== src/Packages/Tests.antt =====
-- A host with three packages that can be upgraded.
use fleetmind.Packages.Listed.{list_upgradable-IsListing, is_asked_for}
use fleetmind.Common.Int.{negsuc, pos}
use fleetmind.Aptdb.Upgrade.{Package, UpgradeInfo, upgrade_name}
use fleetmind.Logs.{every}
use fleetmind.Common.Text.{Bytes, before, contains, has_prefix, codes}
use fleetmind.Common.Sort.{insert_by, sort_by}
use fleetmind.Common.Listing.{IsListing, capped}
use fleetmind.Common.{List, Bool, Option, [], some, true, ◌≡◌, none, ◌∷◌, false, refl, ◌≤◌}
use fleetmind.Packages.{
  bounded_limit, is_name_pattern, is_wanted, list_installed, list_upgradable, matches_name,
  ListUpgradableIn, installed_package,
}

abbrev upgrade : Bytes → Bool → UpgradeInfo
upgrade name security = record {
  name = name;
  architecture = codes "amd64";
  installed_version = codes "1";
  candidate_version = codes "2";
  origin = codes "Ubuntu";
  suite = codes "noble";
  security = security;
}

abbrev pending : List UpgradeInfo
pending =
    upgrade (codes "vim") true ∷ upgrade (codes "bash") true ∷ upgrade (codes "gcc") false ∷ []

abbrev request : Bytes → ListUpgradableIn
request s = record { security_only = true; name_pattern = s; limit = pos 1 }

-- No letter is a capital here.
abbrev same : Bytes → Bytes
same s = s

abbrev shell : Package
shell = record {
  name = codes "bash";
  version = codes "5.2";
  architecture = codes "amd64";
  status = codes "install ok installed";
  source = [];
  section = codes "shells";
  priority = codes "required";
}

-- All that the tools compute with.
computed : ListUpgradableIn → Option (List UpgradeInfo) → Option (List UpgradeInfo)
unfolding list_upgradable list_installed is_wanted matches_name bounded_limit is_name_pattern every
    capped sort_by insert_by before contains has_prefix
computed = list_upgradable same

bad_pattern : list_upgradable same (request (codes "a b")) (some pending) ≡ none
unfolding computed
bad_pattern = refl

no_negative_limit : bounded_limit (negsuc 0) 500 2000 ≡ none
unfolding bounded_limit
no_negative_limit = refl

list_upgradable-IsListing_example :
    IsListing upgrade_name
      (is_asked_for same (request []))
      1
      pending
      (upgrade (codes "bash") true ∷ [])
    × (1 ≤ 2000)
unfolding computed
list_upgradable-IsListing_example =
    list_upgradable-IsListing same (request []) 1 pending (upgrade (codes "bash") true ∷ []) refl
      refl

installed :
    list_installed same (record { name_pattern = codes "as"; limit = pos 0 }) (some (shell ∷ []))
    ≡ some (installed_package shell ∷ [])
unfolding computed
installed = refl
