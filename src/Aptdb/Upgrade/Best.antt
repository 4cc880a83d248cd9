-- ===== src/Aptdb/Upgrade/Best.antt =====
-- internal/aptdb/aptdb.go: the candidate that `UpgradablePackages` chooses is a best one.
use fleetmind.Common.{
  Ordering, Bool, true, false, not, ◌&&◌, ◌||◌, List, [], ◌∷◌, Option, none, some, ◌≡◌, ◌≢◌, ◌↔◌,
  refl, ◌⊎◌, inl, inr, Bool-cases, sym, subst, ap, if◌then◌else◌, IsMember, All, All-IsMember,
  IsMember-All,
}
use fleetmind.Common.Text.{Bytes, codes, equal, has_suffix}
use fleetmind.Aptdb.Version.{compare_versions, or_else}
use fleetmind.Aptdb.Version.Order.{
  compare_versions-flip, compare_versions_trans, compare_versions_refl,
}
use fleetmind.Aptdb.Version.Chain.{flip}
use fleetmind.Aptdb.Upgrade.{
  Package, AvailableEntry, Choice, chosen, is_security_suite, is_gt, is_eq, is_newer, is_same,
  choose, consider, best_candidate,
}
use native.Mathlib.Omega.{arith}

-- Whether an entry may be offered for a package: architecture, suite and a newer version.
unfoldable pub is_upgrade : Package → AvailableEntry → Bool
is_upgrade p c =
    (equal c.architecture p.architecture || equal c.architecture (codes "all"))
    && not (has_suffix c.suite (codes "-backports"))
    && is_newer c.version p.version

-- Whether an entry would be preferred to the chosen one, which has the version `b`.
unfoldable pub is_better : AvailableEntry → AvailableEntry → Bool
unfolding is_newer is_same is_security_suite
is_better c b =
    is_newer c.version b.version
    || (is_same c.version b.version && is_security_suite c.suite && not (is_security_suite b.suite))

-- `x`, `y` and `z` compare c with b, b' with b, and c with b'.
beaten_kept :
    (x y z : Ordering) (c b' b : Bool)
    → (is_gt x || (is_eq x && c && not b)) ≡ false
    → (is_gt y || (is_eq y && b')) ≡ true
    → (flip y ≢ Ordering.gt → flip z ≢ Ordering.gt → flip x ≡ or_else (flip y) (flip z))
    → (is_gt z || (is_eq z && c && not b')) ≡ false
unfolding or_else
beaten_kept x _ Ordering.lt c b' b h k t = refl
beaten_kept x Ordering.lt z c b' b h k t = ground arith
beaten_kept x Ordering.eq Ordering.eq c b' b h k t = ground arith
beaten_kept Ordering.gt Ordering.gt Ordering.eq c b' b h k t = ground arith
beaten_kept Ordering.lt Ordering.gt Ordering.eq c b' b h k t = ground arith
beaten_kept Ordering.eq Ordering.gt Ordering.eq c b' b h k t = ground arith
beaten_kept Ordering.gt _ Ordering.gt c b' b h k t = ground arith
beaten_kept Ordering.eq Ordering.gt Ordering.gt c b' b h k t = ground arith
beaten_kept Ordering.lt Ordering.gt Ordering.gt c b' b h k t = ground arith
beaten_kept Ordering.eq Ordering.eq Ordering.gt c b' b h k t = ground arith
beaten_kept Ordering.lt Ordering.eq Ordering.gt c b' b h k t = ground arith

flipped_trans :
    (c d b : Bytes)
    → flip (compare_versions d b) ≢ Ordering.gt
    → flip (compare_versions c d) ≢ Ordering.gt
    → flip (compare_versions c b)
      ≡ or_else (flip (compare_versions d b)) (flip (compare_versions c d))
flipped_trans c d b =
    rw
      (
        sym (compare_versions-flip d b),
        sym (compare_versions-flip c d),
        sym (compare_versions-flip c b),
      )
      (compare_versions_trans b d c)

-- The test by which `choose` replaces an entry.
unfoldable is_preferred : AvailableEntry → AvailableEntry → Bool
unfolding is_newer is_same is_security_suite
is_preferred d b =
    is_newer d.version b.version || (is_same d.version b.version && is_security_suite d.suite)

choose_lem :
    (c : AvailableEntry) (b : Choice)
    → choose c (some b)
      ≡ (if is_preferred c b.best then some (chosen c (is_security_suite c.suite)) else some b)
unfolding choose is_preferred
choose_lem c b = ground arith

is_preferred-is_better : (c b : AvailableEntry) → is_preferred c b ≡ false → is_better c b ≡ false
unfolding is_preferred is_better
is_preferred-is_better c b h = ground arith

-- What `choose` replaces stays beaten.
is_better_kept :
    (c d b : AvailableEntry)
    → is_better c b ≡ false
    → is_preferred d b ≡ true
    → is_better c d ≡ false
unfolding is_better is_preferred is_newer is_same
is_better_kept c d b h k =
    beaten_kept _ (compare_versions d.version b.version) _ _ _ _ h k
      (flipped_trans c.version d.version b.version)

is_better_irrefl : (c : AvailableEntry) → is_better c c ≡ false
unfolding is_better is_newer is_same
is_better_irrefl c = rw (compare_versions_refl c.version) (ground arith)

-- What holds of the loop's variables when it has looked at the entries in `S`.
abbrev IsBest : Package → (AvailableEntry → Type 0) → Option Choice → Type 0
IsBest p S none = (c : AvailableEntry) → S c → is_upgrade p c ≡ false
IsBest p S (some b) =
    (b.best_security ≡ is_security_suite b.best.suite)
    × (is_upgrade p b.best ≡ true)
    × S b.best
    × ((c : AvailableEntry) → S c → is_upgrade p c ≡ true → is_better c b.best ≡ false)

abbrev Also : (AvailableEntry → Type 0) → AvailableEntry → AvailableEntry → Type 0
Also S x c = S c ⊎ (c ≡ x)

consider_lem :
    (p : Package) (c : AvailableEntry) (best : Option Choice)
    → consider p c best ≡ (if is_upgrade p c then choose c best else best)
unfolding consider is_upgrade
consider_lem p c best = ground arith

module _ (p : Package) (S : AvailableEntry → Type 0) (x : AvailableEntry) where
  IsBest-skip :
      (best : Option Choice) → is_upgrade p x ≡ false → IsBest p S best → IsBest p (Also S x) best
  IsBest-skip none h k = λ c s. elim s [ inl t ↦ k c t | inr e ↦ rw e h ]
  IsBest-skip (some b) h k = (
    k.0,
    k.1,
    inl k.2,
    λ c s u. elim s [ inl t ↦ k.3 c t u | inr e ↦ ground (arith, ap (is_upgrade p) e) ],
  )

  -- The entry is taken over, and nothing that was beaten is better.
  IsBest-take :
      is_upgrade p x ≡ true
      → ((c : AvailableEntry) → S c → is_upgrade p c ≡ true → is_better c x ≡ false)
      → IsBest p (Also S x) (some (chosen x (is_security_suite x.suite)))
  IsBest-take h k =
      (refl, h, inr refl, λ c s u. elim s [ inl t ↦ k c t u | inr e ↦ rw e (is_better_irrefl x) ])

  IsBest-keep :
      (b : Choice) → is_better x b.best ≡ false → IsBest p S (some b) → IsBest p (Also S x) (some b)
  IsBest-keep b h k = (k.0, k.1, inl k.2, λ c s u. elim s [ inl t ↦ k.3 c t u | inr e ↦ rw e h ])

  IsBest-choose :
      (best : Option Choice)
      → is_upgrade p x ≡ true
      → IsBest p S best
      → IsBest p (Also S x) (choose x best)
  unfolding choose
  IsBest-choose none h k = IsBest-take h (λ c s u. ground (arith, k c s))
  IsBest-choose (some b) h k = elim (Bool-cases (is_preferred x b.best)) [
    | inl e ↦
        rw (choose_lem x b, e) (IsBest-take h (λ c s u. is_better_kept c x b.best (k.3 c s u) e))
    | inr e ↦ rw (choose_lem x b, e) (IsBest-keep b (is_preferred-is_better x b.best e) k)
  ]

  IsBest-consider :
      (best : Option Choice) → IsBest p S best → IsBest p (Also S x) (consider p x best)
  IsBest-consider best k = elim (Bool-cases (is_upgrade p x)) [
    | inl h ↦ rw (consider_lem p x best, h) (IsBest-choose best h k)
    | inr h ↦ rw (consider_lem p x best, h) (IsBest-skip best h k)
  ]

best_candidate-IsBest :
    (p : Package) (S T : AvailableEntry → Type 0) (cands : List AvailableEntry)
    (best : Option Choice)
    → ((c : AvailableEntry) → S c → T c)
    → ((c : AvailableEntry) → IsMember c cands → T c)
    → ((c : AvailableEntry) → T c → S c ⊎ IsMember c cands)
    → IsBest p S best
    → IsBest p T (best_candidate p cands best)
unfolding best_candidate
best_candidate-IsBest p S T [] none f g h k =
    λ c t. elim (h c t) [ inl s ↦ k c s | inr m ↦ elim m [ ] ]
best_candidate-IsBest p S T [] (some b) f g h k =
    (k.0, k.1, f b.best k.2, λ c t u. elim (h c t) [ inl s ↦ k.3 c s u | inr m ↦ elim m [ ] ])
best_candidate-IsBest p S T (x ∷ cands) best f g h k =
    best_candidate-IsBest p (Also S x) T cands (consider p x best)
      (λ c s. elim s [ inl s' ↦ f c s' | inr e ↦ g c (inl e) ]) (λ c m. g c (inr m))
      (λ c t. elim (h c t) [
        | inl s ↦ inl (inl s)
        | inr m ↦ elim m [ inl e ↦ inl (inr e) | inr m' ↦ inr m' ]
      ])
      (IsBest-consider p S x best k)

abbrev IsNoEntry : AvailableEntry → Type 0
IsNoEntry c = ⊥

best_candidate_lem :
    (p : Package) (cands : List AvailableEntry)
    → IsBest p (λ c. IsMember c cands) (best_candidate p cands none)
best_candidate_lem p cands =
    best_candidate-IsBest p IsNoEntry (λ c. IsMember c cands) cands none (λ c s. elim s [ ])
      (λ c m. m) (λ c m. inr m) (λ c s. elim s [ ])

IsBest-none :
    (p : Package) (S : AvailableEntry → Type 0) (best : Option Choice)
    → IsBest p S best
    → ((c : AvailableEntry) → S c → is_upgrade p c ≡ false)
    → best ≡ none
IsBest-none p S none k h = refl
IsBest-none p S (some b) k h = ground (arith, h b.best k.2, k.1)

-- No candidate is chosen for a package exactly when no entry may be offered for it.
pub best_candidate-none :
    (p : Package) (cands : List AvailableEntry)
    → (best_candidate p cands none ≡ none) ↔ All (λ c. is_upgrade p c ≡ false) cands
best_candidate-none p cands = (
  λ h.
      IsMember-All (λ c. is_upgrade p c ≡ false) cands
        (subst (λ o. IsBest p (λ c. IsMember c cands) o) h (best_candidate_lem p cands)),
  λ h.
      IsBest-none p (λ c. IsMember c cands) (best_candidate p cands none)
        (best_candidate_lem p cands) (λ c. All-IsMember (λ d. is_upgrade p d ≡ false) cands c h),
)

-- A chosen candidate is one of the entries, it may be offered, and the security flag says whether
-- its suite is a security pocket.
pub best_candidate-chosen :
    (p : Package) (cands : List AvailableEntry) (b : Choice)
    → best_candidate p cands none ≡ some b
    → IsMember b.best cands
      × (is_upgrade p b.best ≡ true)
      × (b.best_security ≡ is_security_suite b.best.suite)
best_candidate-chosen p cands b h =
    let k : IsBest p (λ c. IsMember c cands) (some b) =
      subst (λ o. IsBest p (λ c. IsMember c cands) o) h (best_candidate_lem p cands) in
    (k.2, k.1, k.0)

-- No entry that may be offered is newer than the chosen candidate, and none of the same version is
-- from a security pocket unless the chosen candidate is.
pub best_candidate-maximal :
    (p : Package) (cands : List AvailableEntry) (b : Choice) (c : AvailableEntry)
    → best_candidate p cands none ≡ some b
    → IsMember c cands
    → is_upgrade p c ≡ true
    → is_better c b.best ≡ false
best_candidate-maximal p cands b c h m u =
    let k : IsBest p (λ c. IsMember c cands) (some b) =
      subst (λ o. IsBest p (λ c. IsMember c cands) o) h (best_candidate_lem p cands) in
    k.3 c m u
