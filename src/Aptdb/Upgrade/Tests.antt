-- ===== src/Aptdb/Upgrade/Tests.antt =====
-- The theorems on upgrades at a package with three available entries.
use fleetmind.Common.{
  List, [], ◌∷◌, none, some, Bool, true, false, ◌≡◌, refl, IsMember, inl, inr, All,
}
use fleetmind.Common.Dict.{Dict, lookup}
use fleetmind.Common.Keyed.{by_key}
use fleetmind.Common.Number.{atoi}
use fleetmind.Common.Sort.{IsSorted}
use fleetmind.Aptdb.Version.{compare_versions, compare_round, after_round, weight}
use fleetmind.Common.Text.{
  Bytes, codes, equal, has_suffix, has_prefix, before, index_byte, last_index_byte,
}
use fleetmind.Aptdb.Upgrade.{
  Package, AvailableEntry, chosen, best_candidate, is_security_suite, upgradable_packages,
  upgrade_name, upgrades, upgrade_info, consider, choose,
}
use fleetmind.Aptdb.Upgrade.Best.{
  is_upgrade, is_better, best_candidate-chosen, best_candidate-maximal,
}
use fleetmind.Aptdb.Upgrade.Listed.{IsUpgrade, upgradable_packages-IsUpgrade}

abbrev bash_package : Package
bash_package = record {
  name = codes "bash";
  version = codes "5.1-6";
  architecture = codes "amd64";
  status = codes "install ok installed";
  source = [];
  section = [];
  priority = [];
}

abbrev entry : Bytes → Bytes → AvailableEntry
entry version suite = record {
  version = version;
  architecture = codes "amd64";
  origin = codes "Ubuntu";
  suite = suite;
  component = codes "main";
  filename = [];
}

abbrev updates : AvailableEntry
updates = entry (codes "5.1-6u1") (codes "jammy-updates")

abbrev security : AvailableEntry
security = entry (codes "5.1-6u1") (codes "jammy-security")

abbrev backports : AvailableEntry
backports = entry (codes "5.2") (codes "jammy-backports")

abbrev entries : List AvailableEntry
entries = backports ∷ updates ∷ security ∷ []

abbrev available : Dict (List AvailableEntry)
available = (codes "bash", entries) ∷ []

-- All that a choice computes with.
computed : Package → AvailableEntry → Bool
unfolding is_upgrade is_better equal has_suffix has_prefix best_candidate consider choose
    is_security_suite compare_versions compare_round after_round before index_byte last_index_byte
    weight atoi upgradable_packages upgrades lookup
computed = is_upgrade

newest_security : best_candidate bash_package entries none ≡ some (chosen security true)
unfolding computed
newest_security = refl

best_candidate-chosen_example :
    IsMember security entries
    × (is_upgrade bash_package security ≡ true)
    × (true ≡ is_security_suite (codes "jammy-security"))
unfolding computed
best_candidate-chosen_example =
    best_candidate-chosen bash_package entries (chosen security true) newest_security

best_candidate-maximal_example : is_better updates security ≡ false
unfolding computed
best_candidate-maximal_example =
    best_candidate-maximal bash_package entries (chosen security true) updates newest_security
      (inr (inl refl)) refl

upgradable_packages-IsUpgrade_example :
    All IsUpgrade (upgradable_packages available (bash_package ∷ []))
    × IsSorted (by_key upgrade_name) (upgradable_packages available (bash_package ∷ []))
upgradable_packages-IsUpgrade_example = upgradable_packages-IsUpgrade available (bash_package ∷ [])

one_upgrade :
    upgradable_packages available (bash_package ∷ [])
    ≡ upgrade_info bash_package (chosen security true) ∷ []
unfolding computed
one_upgrade = refl
