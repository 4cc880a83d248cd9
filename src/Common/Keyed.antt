-- ===== src/Common/Keyed.antt =====
-- Sorting by a key that no two members share: the result depends on the members alone.
use mathlib.Core.List.{Permᴰ}
use mathlib.Core.Logic.{∥∥₁_elim}
use fleetmind.Common.{
  List, [], ◌∷◌, Perm, Bool, false, ◌≡◌, ◌≢◌, refl, sym, ap, subst, ◌∙◌, arith, All,
}
use fleetmind.Common.Sort.{insert_by, sort_by, IsSorted, sort_by-IsSorted}
use fleetmind.Common.Text.{Bytes, before, before_asymm, before_trans, before_total}

abbrev pub self_key : Bytes → Bytes
self_key s = s

module _ {A : Type 0} (key : A → Bytes) where
  -- `func(i, j int) bool { return out[i].Key < out[j].Key }`
  abbrev pub by_key : A → A → Bool
  by_key a b = before (key a) (key b)

  -- No two members have the same key.
  abbrev pub AreDistinct : List A → Type 0
  AreDistinct [] = Unit
  AreDistinct (x ∷ xs) = All (λ y. key x ≢ key y) xs × AreDistinct xs

pub before_trans_not :
    (a b c : Bytes) → before b a ≡ false → before c b ≡ false → before c a ≡ false
before_trans_not a b c h k = ground (
  arith,
  before_trans b c a,
  before_total a b,
  before_asymm c a,
  before_total b c,
  before_trans c a b,
)

module _ {A : Type 0} (key : A → Bytes) where
  pub sort_by_key-IsSorted : (xs : List A) → IsSorted (by_key key) (sort_by (by_key key) xs)
  sort_by_key-IsSorted =
      sort_by-IsSorted (by_key key) (λ a b. before_asymm (key a) (key b))
        (λ a b c. before_trans_not (key a) (key b) (key c))

  insert_by_comm :
      (x y : A) (xs : List A)
      → key x ≢ key y
      → insert_by (by_key key) x (insert_by (by_key key) y xs)
        ≡ insert_by (by_key key) y (insert_by (by_key key) x xs)
  unfolding insert_by
  insert_by_comm x y [] ne =
      ground (arith, before_total (key x) (key y), before_asymm (key x) (key y))
  insert_by_comm x y (z ∷ zs) ne = ground (
    arith,
    insert_by_comm x y zs,
    before_total (key x) (key y),
    before_asymm (key x) (key y),
    before_trans (key z) (key x) (key y),
    before_trans (key z) (key y) (key x),
    before_trans_not (key z) (key x) (key y),
    before_trans_not (key z) (key y) (key x),
  )

  All-perm : (P : A → Type 0) {xs ys : List A} → Permᴰ xs ys → All P xs → All P ys
  All-perm P Permᴰ.nil h = tt
  All-perm P (Permᴰ.cons e p) h = (rw e at (h.0), All-perm P p h.1)
  All-perm P (Permᴰ.swap e f) h = (rw f at (h.1.0), (rw e at (h.0), h.1.1))
  All-perm P (Permᴰ.trans p q) h = All-perm P q (All-perm P p h)

  AreDistinct-perm : {xs ys : List A} → Permᴰ xs ys → AreDistinct key xs → AreDistinct key ys
  AreDistinct-perm Permᴰ.nil d = tt
  AreDistinct-perm (Permᴰ.cons {b = b} e p) d =
      (rw e at (All-perm (λ y. key _ ≢ key y) p d.0), AreDistinct-perm p d.1)
  AreDistinct-perm (Permᴰ.swap {l = l} e f) d = (
    (
      (λ h. d.0.0 (ap key e ∙ sym h ∙ ap key (sym f))),
      subst (λ z. All (λ y. key z ≢ key y) l) f d.1.0,
    ),
    (subst (λ z. All (λ y. key z ≢ key y) l) e d.0.1, d.1.1),
  )
  AreDistinct-perm (Permᴰ.trans p q) d = AreDistinct-perm q (AreDistinct-perm p d)

  sort_by-perm_d_eq :
      {xs ys : List A}
      → Permᴰ xs ys
      → AreDistinct key xs
      → sort_by (by_key key) xs ≡ sort_by (by_key key) ys
  unfolding sort_by
  sort_by-perm_d_eq Permᴰ.nil d = refl
  sort_by-perm_d_eq (Permᴰ.cons e p) d = rw (e, sort_by-perm_d_eq p d.1)
  sort_by-perm_d_eq (Permᴰ.swap {a} {b} {l = l} e f) d =
      rw (sym e, sym f) (insert_by_comm a b (sort_by (by_key key) l) d.0.0)
  sort_by-perm_d_eq (Permᴰ.trans p q) d =
      sort_by-perm_d_eq p d ∙ sort_by-perm_d_eq q (AreDistinct-perm p d)

  -- The order in which the members arrive does not show in the sorted list.
  pub sort_by-perm_eq :
      IsSet A
      → (xs ys : List A) → Perm xs ys
      → AreDistinct key xs
      → sort_by (by_key key) xs ≡ sort_by (by_key key) ys
  sort_by-perm_eq s xs ys p d =
      let lists : IsSet (List A) = hlevel s in ∥∥₁_elim p (lists _ _) (λ q. sort_by-perm_d_eq q d)
