-- ===== src/Packages/Listed.antt =====
-- internal/tools/apt.go: what the two lists hold, and the bounds of their limits.
use fleetmind.Common.Keyed.{by_key}
use fleetmind.Common.Sort.{sort_by}
use fleetmind.Common.Listing.{IsListing, capped, sort_by-IsListing, map-IsListing}
use fleetmind.Aptdb.Upgrade.{Package, UpgradeInfo, upgrade_name}
use fleetmind.Common.{
  true, false, inl, inr, [], ◌∷◌, ℕ, List, ◌≤◌, ◌≡◌, some, arith, suc, keep, map, sym, zero, Bool,
  Bool-cases, subst, fun_ext, inl, true, inr, ◌||◌, refl,
}
use fleetmind.Common.Int.{ℤ, pos, negsuc}
use fleetmind.Common.Text.{contains, Bytes, is_empty}
use fleetmind.Packages.{
  bounded_limit, list_installed, list_upgradable, ListInstalledIn, ListUpgradableIn,
  InstalledPackage, installed_name, is_wanted, matches_name, installed_package,
}

bounded_limit-max :
    (requested : ℤ) (def max n : ℕ) → def ≤ max → bounded_limit requested def max ≡ some n → n ≤ max
unfolding bounded_limit
bounded_limit-max (pos zero) def max n h k = ground arith
bounded_limit-max (pos (suc m)) def max n h k = ground arith
bounded_limit-max (negsuc m) def max n h k = ground arith

abbrev pub holds : Bytes → Bytes → Bool
holds [] name = true
holds (c ∷ cs) name = contains name (c ∷ cs)

holds_lem : (pattern name : Bytes) → is_empty pattern || contains name pattern ≡ holds pattern name
holds_lem [] name = refl
holds_lem (c ∷ cs) name = refl

module _ (to_lower : Bytes → Bytes) where
  list_upgradable_lem :
      (i : ListUpgradableIn) (limit : ℕ) (us out : List UpgradeInfo)
      → bounded_limit i.limit 500 2000 ≡ some limit
      → list_upgradable to_lower i (some us) ≡ some out
      → capped limit (sort_by (by_key upgrade_name) (keep (is_wanted to_lower i) us)) ≡ out
  unfolding list_upgradable
  list_upgradable_lem i limit us out h k = ground arith

  list_installed_lem :
      (i : ListInstalledIn) (limit : ℕ) (ps : List Package) (out : List InstalledPackage)
      → bounded_limit i.limit 1000 5000 ≡ some limit
      → list_installed to_lower i (some ps) ≡ some out
      → capped limit (
          sort_by
            (by_key installed_name)
            (map installed_package (keep (λ p. matches_name to_lower i.name_pattern p.name) ps)))
        ≡ out
  unfolding list_installed
  list_installed_lem i limit ps out h k = ground arith

  -- The name, in lower case, holds the pattern in lower case, or there is no pattern.
  abbrev pub is_named : Bytes → Bytes → Bool
  is_named pattern name = holds (to_lower pattern) (to_lower name)

  -- The upgrades that a request asks for.
  abbrev pub is_asked_for : ListUpgradableIn → UpgradeInfo → Bool
  is_asked_for i u = elim i.security_only [
    | true ↦ elim u.security [ true ↦ is_named i.name_pattern u.name | false ↦ false ]
    | false ↦ is_named i.name_pattern u.name
  ]

  is_named-matches_name :
      (pattern name : Bytes) → matches_name to_lower pattern name ≡ is_named pattern name
  unfolding matches_name
  is_named-matches_name pattern name = holds_lem (to_lower pattern) (to_lower name)

  is_asked_for-is_wanted :
      (i : ListUpgradableIn) (u : UpgradeInfo) → is_wanted to_lower i u ≡ is_asked_for i u
  unfolding is_wanted
  is_asked_for-is_wanted i u =
      let named = is_named-matches_name i.name_pattern u.name in
      elim (Bool-cases i.security_only) [
        | inl h ↦ elim (Bool-cases u.security) [ inl k ↦ rw (h, k, named) | inr k ↦ rw (h, k) ]
        | inr h ↦ rw (h, named)
      ]

  -- Where list_upgradable_packages succeeds, it lists, by rising name and up to the limit, the
  -- upgrades that are asked for: the security upgrades where only those are, else all, and of them
  -- those whose name, in lower case, holds the pattern in lower case, if there is one. What it leaves
  -- out stands behind them in that order, and it leaves something out only where the limit is
  -- reached. The limit is at most 2000.
  pub list_upgradable-IsListing :
      (i : ListUpgradableIn) (limit : ℕ) (us out : List UpgradeInfo)
      → bounded_limit i.limit 500 2000 ≡ some limit
      → list_upgradable to_lower i (some us) ≡ some out
      → IsListing upgrade_name (is_asked_for i) limit us out × (limit ≤ 2000)
  list_upgradable-IsListing i limit us out h k = (
    subst (λ w. IsListing upgrade_name w limit us out) (fun_ext (is_asked_for-is_wanted i))
        (rw (sym (list_upgradable_lem i limit us out h k))
          (sort_by-IsListing upgrade_name (is_wanted to_lower i) limit us)),
    bounded_limit-max i.limit 500 2000 limit (omega arith) h,
  )

  -- The same of list_installed_packages, whose limit is at most 5000.
  pub list_installed-IsListing :
      (i : ListInstalledIn) (limit : ℕ) (ps : List Package) (out : List InstalledPackage)
      → bounded_limit i.limit 1000 5000 ≡ some limit
      → list_installed to_lower i (some ps) ≡ some out
      → IsListing installed_name
          (λ p. matches_name to_lower i.name_pattern p.name)
          limit
          (map installed_package ps)
          out
        × (limit ≤ 5000)
  list_installed-IsListing i limit ps out h k = (
    rw (sym (list_installed_lem i limit ps out h k)) (
        map-IsListing installed_package installed_name
          (λ p. matches_name to_lower i.name_pattern p.name) limit ps),
    bounded_limit-max i.limit 1000 5000 limit (omega arith) h,
  )
