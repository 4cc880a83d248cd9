-- ===== src/Aptdb/Version/Chain.antt =====
-- Comparisons that are total preorders: what `Ordering` results must satisfy at two and at three
-- arguments, and that doing one comparison after another keeps it.
use fleetmind.Common.{Ordering, ◌≡◌, ◌≢◌, refl, arith}
use fleetmind.Aptdb.Version.{or_else}

abbrev pub flip : Ordering → Ordering
flip Ordering.lt = Ordering.gt
flip Ordering.eq = Ordering.eq
flip Ordering.gt = Ordering.lt

-- The results of comparing a with b, b with c and a with c fit together.
abbrev pub Chains : Ordering → Ordering → Ordering → Type 0
Chains ab bc ac = ab ≢ Ordering.gt → bc ≢ Ordering.gt → ac ≡ or_else ab bc

pub flip-or_else : (x y : Ordering) → flip (or_else x y) ≡ or_else (flip x) (flip y)
unfolding or_else
flip-or_else Ordering.lt y = refl
flip-or_else Ordering.eq y = refl
flip-or_else Ordering.gt y = refl

pub or_else-Chains :
    (ab bc ac ab' bc' ac' : Ordering)
    → Chains ab bc ac
    → Chains ab' bc' ac'
    → Chains (or_else ab ab') (or_else bc bc') (or_else ac ac')
unfolding or_else
or_else-Chains Ordering.lt Ordering.lt ac ab' bc' ac' h k p q = ground arith
or_else-Chains Ordering.lt Ordering.eq ac ab' bc' ac' h k p q = ground arith
or_else-Chains Ordering.eq Ordering.lt ac ab' bc' ac' h k p q = ground arith
or_else-Chains Ordering.eq Ordering.eq ac ab' bc' ac' h k p q = ground arith
or_else-Chains Ordering.gt _ ac ab' bc' ac' h k p q = ground arith
or_else-Chains _ Ordering.gt ac ab' bc' ac' h k p q = ground arith

pub Chains-eq_left : (r : Ordering) → Chains Ordering.eq r r
unfolding or_else
Chains-eq_left r p q = refl

pub Chains-eq_right : (r : Ordering) → Chains r Ordering.eq r
unfolding or_else
Chains-eq_right r p q = ground arith
