-- ===== src/Aptdb/Reboot/Listed.antt =====
-- internal/aptdb/aptdb.go: which names `RebootRequired` returns.
use fleetmind.Common.{
  false, ◌||◌, List, [], ◌∷◌, ◌++◌, ◌≡◌, refl, arith, Bool-cases, inl, inr, map, ◌∙◌,
}
use fleetmind.Common.Keyed.{by_key, sort_by_key-IsSorted, self_key}
use fleetmind.Common.Sort.{IsSorted, sort_by, insert_by}
use fleetmind.Common.Space.{trim_space}
use fleetmind.Common.Text.{Bytes, equal, equal_iff, is_empty, before, is_seen}
use fleetmind.Aptdb.Reboot.{split_from, collect, reboot_packages}

is_seen-append :
    (k s : Bytes) (xs : List Bytes) → is_seen k (xs ++ (s ∷ [])) ≡ (is_seen k xs || equal s k)
unfolding is_seen
is_seen-append k s [] = ground arith
is_seen-append k s (x ∷ xs) = ground (arith, is_seen-append k s xs)

-- Whether a name is in the list or is not blank and is a line of the rest, trimmed.
is_seen-collect :
    (k : Bytes) (pkgs lines : List Bytes)
    → is_empty k ≡ false
    → is_seen k (collect pkgs lines) ≡ (is_seen k pkgs || is_seen k (map trim_space lines))
unfolding collect is_seen
is_seen-collect k pkgs [] h = ground arith
is_seen-collect k pkgs (line ∷ lines) h = ground (
  arith,
  equal_iff (trim_space line) k,
  is_seen-append k (trim_space line) pkgs,
  is_seen-collect k pkgs lines h,
  is_seen-collect k (pkgs ++ (trim_space line ∷ [])) lines h,
)

is_seen-insert_by :
    (k x : Bytes) (xs : List Bytes)
    → is_seen k (insert_by (by_key self_key) x xs) ≡ (equal x k || is_seen k xs)
unfolding is_seen insert_by
is_seen-insert_by k x [] = refl
is_seen-insert_by k x (y ∷ ys) = ground (arith, is_seen-insert_by k x ys)

is_seen-sort_by :
    (k : Bytes) (xs : List Bytes) → is_seen k (sort_by (by_key self_key) xs) ≡ is_seen k xs
unfolding is_seen sort_by
is_seen-sort_by k [] = refl
is_seen-sort_by k (x ∷ xs) =
    is_seen-insert_by k x (sort_by (by_key self_key) xs) ∙ (rw (is_seen-sort_by k xs))

-- A name is returned exactly if it is a line of the file with the white space at its ends taken
-- off. This is for names that are not blank.
pub is_seen-reboot_packages :
    (k text : Bytes)
    → is_empty k ≡ false
    → is_seen k (reboot_packages text) ≡ is_seen k (map trim_space (split_from [] text))
unfolding reboot_packages is_seen
is_seen-reboot_packages k text h =
    is_seen-sort_by k (collect [] (split_from [] text))
    ∙ is_seen-collect k [] (split_from [] text) h

-- No name of the list is blank, and none stands in it twice.
abbrev pub AreOnce : List Bytes → Type 0
AreOnce [] = Unit
AreOnce (x ∷ xs) = (is_empty x ≡ false) × (is_seen x xs ≡ false) × AreOnce xs

AreOnce-append :
    (x : Bytes) (xs : List Bytes)
    → AreOnce xs
    → is_empty x ≡ false
    → is_seen x xs ≡ false
    → AreOnce (xs ++ (x ∷ []))
unfolding is_seen
AreOnce-append x [] o h k = (h, refl, tt)
AreOnce-append x (y ∷ ys) o h k = (
  o.0,
  ground (arith, equal_iff x y, equal_iff y x, is_seen-append y x ys, o.1),
  AreOnce-append x ys o.2 h (ground arith),
)

collect-AreOnce : (pkgs lines : List Bytes) → AreOnce pkgs → AreOnce (collect pkgs lines)
unfolding collect
collect-AreOnce pkgs [] o = o
collect-AreOnce pkgs (line ∷ lines) o =
    let name = trim_space line in
    elim (Bool-cases (is_empty name || is_seen name pkgs)) [
      | inl h ↦ rw h (collect-AreOnce pkgs lines o)
      | inr h ↦ rw h (
          collect-AreOnce (pkgs ++ (name ∷ [])) lines
            (AreOnce-append name pkgs o (ground arith) (ground arith)))
    ]

AreOnce-insert_by :
    (x : Bytes) (xs : List Bytes)
    → AreOnce xs
    → is_empty x ≡ false
    → is_seen x xs ≡ false
    → AreOnce (insert_by (by_key self_key) x xs)
unfolding insert_by is_seen
AreOnce-insert_by x [] o h k = (h, refl, tt)
AreOnce-insert_by x (y ∷ ys) o h k = elim (Bool-cases (before y x)) [
  | inl e ↦ rw e (
    o.0,
    ground (arith, equal_iff x y, equal_iff y x, is_seen-insert_by y x ys, o.1),
    AreOnce-insert_by x ys o.2 h (ground arith),
  )
  | inr e ↦ rw e (h, k, o)
]

sort_by-AreOnce : (xs : List Bytes) → AreOnce xs → AreOnce (sort_by (by_key self_key) xs)
unfolding sort_by
sort_by-AreOnce [] o = tt
sort_by-AreOnce (x ∷ xs) o =
    AreOnce-insert_by x (sort_by (by_key self_key) xs) (sort_by-AreOnce xs o.2) o.0
      (is_seen-sort_by x xs ∙ o.1)

-- The names that are returned are sorted, none is blank, and none is returned twice.
pub reboot_packages-AreOnce :
    (text : Bytes)
    → AreOnce (reboot_packages text) × IsSorted (by_key self_key) (reboot_packages text)
unfolding reboot_packages
reboot_packages-AreOnce text = (
  sort_by-AreOnce (collect [] (split_from [] text)) (collect-AreOnce [] (split_from [] text) tt),
  sort_by_key-IsSorted self_key (collect [] (split_from [] text)),
)
