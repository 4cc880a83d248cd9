-- ===== src/Boot/Chain.antt =====
-- internal/tools/boot.go, `walkCriticalChain`: what kind of chain it returns.
use fleetmind.Common.Keyed.{AreDistinct}
use fleetmind.Common.Text.{Bytes, is_empty, is_seen, equal_iff}
use fleetmind.Common.{
  List, ℕ, ◌≡◌, arith, some, ◌<◌, ◌∷◌, ◌≤◌, All, [], inl, IsMember, inr, ◌⊎◌, Option-cases, ap,
  refl, Bool-cases, ltb, subst, sym, false, if◌then◌else◌, length, none, suc, ◌∙◌, zero, Bool, true,
  ◌≢◌,
}
use fleetmind.Boot.{
  latest, ChainEntry, Latest, later_of, active_enter_of, next_unit, walk_chain, walk_critical_chain,
}
use fleetmind.Sysd.{Bus, best_effort, unit_after, UnitTimings, unit_timings, startup_usec}

no_name : (s : Bytes) → is_empty s ≡ false → s ≡ [] → ⊥
no_name s h e = ground arith

named_or_none :
    (name v : Bytes)
    → (if is_empty name then none else some name) ≡ some v
    → (is_empty name ≡ false) × (name ≡ v)
named_or_none [] v h = ground arith
named_or_none (c ∷ name) v h = (refl, ground arith)

module _ (bus : Bus) where
  -- The time at which a unit became active, with 0 where it cannot be read.
  abbrev pub time_of : Bytes → ℕ
  time_of name = best_effort bus (active_enter_of bus name)

  -- `v` is a predecessor of `u` that became active, and none became active later.
  pub record IsGate (u v : Bytes) : Type 0 where
    pub path : Bytes
    pub after : List Bytes
    pub found : bus.get_unit u ≡ some path
    pub listed : unit_after bus path ≡ some after
    pub member : IsMember v after
    pub active : 0 < time_of v
    pub last : All (λ n. time_of n ≤ time_of v) after

  -- Each entry gates the one before it, of which the first stands behind `u`.
  abbrev pub IsChainFrom : Bytes → List ChainEntry → Type 0
  IsChainFrom u [] = Unit
  IsChainFrom u (e ∷ es) = IsGate u e.unit × IsChainFrom e.unit es

  -- A chain that starts at `u`, if it has an entry.
  abbrev pub StartsAt : Bytes → List ChainEntry → Type 0
  StartsAt u [] = Unit
  StartsAt u (e ∷ es) = (e.unit ≡ u) × IsChainFrom e.unit es

  -- What is known of the latest predecessor, against the one that the loop started from.
  record IsLatest (after : List Bytes) (best r : Latest) : Type 0 where
    grows : best.1 ≤ r.1
    covers : All (λ n. time_of n ≤ r.1) after
    chosen : (r ≡ best) ⊎ (IsMember r.0 after × (time_of r.0 ≡ r.1) × (best.1 < r.1))

  later_of-cases :
      (name : Bytes) (best : Latest)
      → ((later_of bus name (active_enter_of bus name) best ≡ best) × (time_of name ≤ best.1))
        ⊎ ((later_of bus name (active_enter_of bus name) best ≡ (name, time_of name))
            × (best.1 < time_of name))
  later_of-cases name best = elim (Option-cases (active_enter_of bus name)) [
    | inl e ↦ rw e (inl (refl, omega arith))
    | inr (t, e) ↦ elim (Bool-cases (ltb best.1 t)) [
      | inl l ↦ rw e (inr (rw l, ground arith))
      | inr l ↦ rw e (inl (rw l, ground arith))
    ]
  ]

  weaken-All :
      (after : List Bytes) (a b : ℕ)
      → a ≤ b
      → All (λ n. time_of n ≤ a) after
      → All (λ n. time_of n ≤ b) after
  weaken-All [] a b h k = tt
  weaken-All (n ∷ after) a b h k = (omega arith, weaken-All after a b h k.1)

  skip :
      (name : Bytes) (after : List Bytes) (best r : Latest)
      → time_of name ≤ best.1
      → IsLatest after best r
      → IsLatest (name ∷ after) best r
  skip name after best r h k = record {
    grows = k.grows;
    covers = (omega (arith, k.grows), k.covers);
    chosen = elim k.chosen [ inl e ↦ inl e | inr (m, t, l) ↦ inr (inr m, t, l) ];
  }

  advance :
      (name : Bytes) (after : List Bytes) (best r : Latest)
      → best.1 < time_of name
      → IsLatest after (name, time_of name) r
      → IsLatest (name ∷ after) best r
  advance name after best r h k = record {
    grows = omega (arith, k.grows);
    covers = (k.grows, k.covers);
    chosen = elim k.chosen [
      | inl e ↦ inr (
          subst (λ (p : Latest). IsMember p.0 (name ∷ after) × (time_of p.0 ≡ p.1) × (best.1 < p.1))
            (sym e) (inl refl, refl, h))
      | inr (m, t, l) ↦ inr (inr m, t, omega arith)
    ];
  }

  latest-IsLatest :
      (after : List Bytes) (best : Latest) → IsLatest after best (latest bus after best)
  unfolding latest
  latest-IsLatest [] best = record { grows = omega arith; covers = tt; chosen = inl refl }
  latest-IsLatest (name ∷ after) best = elim (later_of-cases name best) [
    | inl (e, l) ↦ rw e (skip name after best _ l (latest-IsLatest after best))
    | inr (e, l) ↦ rw e (advance name after best _ l (latest-IsLatest after (name, time_of name)))
  ]

  next_unit_lem :
      (path : Bytes) (after : List Bytes)
      → unit_after bus path ≡ some after
      → next_unit bus path ≡ (
          if is_empty (latest bus after ([], 0)).0 then none else some (latest bus after ([], 0)).0)
  unfolding next_unit
  next_unit_lem path after a = rw (a, next_unit)

  no_next : (path v : Bytes) → unit_after bus path ≡ none → next_unit bus path ≡ some v → ⊥
  unfolding next_unit
  no_next path v e h = ground arith

  latest-IsGate :
      (u path : Bytes) (after : List Bytes) (best : Latest)
      → bus.get_unit u ≡ some path
      → unit_after bus path ≡ some after
      → is_empty best.0 ≡ false
      → IsLatest after ([], 0) best
      → IsGate u best.0
  latest-IsGate u path after best f a named k = elim k.chosen [
    | inl e ↦ absurd (no_name best.0 named (ap (λ (p : Latest). p.0) e))
    | inr (m, t, l) ↦ record {
      path = path;
      after = after;
      found = f;
      listed = a;
      member = m;
      active = omega (arith, t, l);
      last = weaken-All after best.1 (time_of best.0) (omega (arith, t)) k.covers;
    }
  ]

  next_unit-IsGate :
      (u path v : Bytes) → bus.get_unit u ≡ some path → next_unit bus path ≡ some v → IsGate u v
  next_unit-IsGate u path v f h = elim (Option-cases (unit_after bus path)) [
    | inl e ↦ absurd (no_next path v e h)
    | inr (after, e) ↦
        let named =
          named_or_none (latest bus after ([], 0)).0 v (sym (next_unit_lem path after e) ∙ h) in
        subst (IsGate u) named.1 (
          latest-IsGate u path after (latest bus after ([], 0)) f e named.0
            (latest-IsLatest after ([], 0)))
  ]

  -- What holds of the result of a walk that has `visited` some units and is at `cur`.
  record IsWalk (depth : ℕ) (visited : List Bytes) (cur : Bytes) (chain : List ChainEntry)
      : Type 0 where
    bounded : length chain ≤ depth
    fresh : All (λ e. is_seen e.unit visited ≡ false) chain
    distinct : AreDistinct (λ e. e.unit) chain
    linked : StartsAt cur chain
    timed : All (λ e. active_enter_of bus e.unit ≡ some e.active_at) chain

  empty-IsWalk : (depth : ℕ) (visited : List Bytes) (cur : Bytes) → IsWalk depth visited cur []
  empty-IsWalk depth visited cur = record {
    bounded = omega arith;
    fresh = tt;
    distinct = tt;
    linked = tt;
    timed = tt;
  }

  abbrev entry_of : Bytes → UnitTimings → ChainEntry
  entry_of cur t = record { unit = cur; active_at = t.active_enter; startup = startup_usec t }

  -- The chain behind an entry starts at one that gates it.
  StartsAt-IsChainFrom :
      (u v : Bytes) (chain : List ChainEntry) → IsGate u v → StartsAt v chain → IsChainFrom u chain
  StartsAt-IsChainFrom u v [] g h = tt
  StartsAt-IsChainFrom u v (e ∷ es) g h = (subst (IsGate u) (sym h.0) g, h.1)

  fresh-cons :
      (cur : Bytes) (visited : List Bytes) (chain : List ChainEntry)
      → All (λ e. is_seen e.unit (cur ∷ visited) ≡ false) chain
      → All (λ e. is_seen e.unit visited ≡ false) chain × All (λ e. cur ≢ e.unit) chain
  unfolding is_seen
  fresh-cons cur visited [] h = (tt, tt)
  fresh-cons cur visited (e ∷ chain) h =
      let rest = fresh-cons cur visited chain h.1 in
      ((ground arith, rest.0), (ground (arith, equal_iff cur e.unit), rest.1))

  module _ (depth : ℕ) (visited : List Bytes) (cur path : Bytes) (t : UnitTimings)
      (unseen : is_seen cur visited ≡ false) (found : bus.get_unit cur ≡ some path)
      (timings : unit_timings bus path cur ≡ some t) where
    timed_here : active_enter_of bus cur ≡ some t.active_enter
    unfolding active_enter_of
    timed_here = rw (found, timings, active_enter_of)

    last-IsWalk : IsWalk (suc depth) visited cur (entry_of cur t ∷ [])
    last-IsWalk = record {
      bounded = omega arith;
      fresh = (unseen, tt);
      distinct = (tt, tt);
      linked = (refl, tt);
      timed = (timed_here, tt);
    }

    more-IsWalk :
        (v : Bytes) (chain : List ChainEntry)
        → IsGate cur v
        → IsWalk depth (cur ∷ visited) v chain
        → IsWalk (suc depth) visited cur (entry_of cur t ∷ chain)
    more-IsWalk v chain g k =
        let f = fresh-cons cur visited chain k.fresh in
        record {
          bounded = omega (arith, k.bounded);
          fresh = (unseen, f.0);
          distinct = (f.1, k.distinct);
          linked = (refl, StartsAt-IsChainFrom cur v chain g k.linked);
          timed = (timed_here, k.timed);
        }

    walk_chain-last :
        next_unit bus path ≡ none
        → walk_chain bus (suc depth) visited cur ≡ (entry_of cur t ∷ [], false)
    unfolding walk_chain
    walk_chain-last h = rw (unseen, found, timings, h, walk_chain)

    walk_chain-more :
        (v : Bytes)
        → next_unit bus path ≡ some v
        → (walk_chain bus (suc depth) visited cur).0
          ≡ entry_of cur t ∷ (walk_chain bus depth (cur ∷ visited) v).0
    unfolding walk_chain
    walk_chain-more v h = rw (unseen, found, timings, h, walk_chain)

  module _ (depth : ℕ) (visited : List Bytes) (cur : Bytes) where
    walk_chain-seen :
        is_seen cur visited ≡ true → walk_chain bus (suc depth) visited cur ≡ ([], false)
    unfolding walk_chain
    walk_chain-seen h = rw (h, walk_chain)

    walk_chain-lost :
        is_seen cur visited ≡ false
        → bus.get_unit cur ≡ none
        → walk_chain bus (suc depth) visited cur ≡ ([], true)
    unfolding walk_chain
    walk_chain-lost h k = rw (h, k, walk_chain)

    walk_chain-untimed :
        (path : Bytes)
        → is_seen cur visited ≡ false
        → bus.get_unit cur ≡ some path
        → unit_timings bus path cur ≡ none
        → walk_chain bus (suc depth) visited cur ≡ ([], true)
    unfolding walk_chain
    walk_chain-untimed path h k t = rw (h, k, t, walk_chain)

  walk_chain-IsWalk :
      (depth : ℕ) (visited : List Bytes) (cur : Bytes)
      → IsWalk depth visited cur (walk_chain bus depth visited cur).0
  unfolding walk_chain
  walk_chain-IsWalk zero visited cur = empty-IsWalk zero visited cur
  walk_chain-IsWalk (suc depth) visited cur =
      let Goal : List ChainEntry → Type 0 = IsWalk (suc depth) visited cur in
      let stop : (failed : Bool)
          → walk_chain bus (suc depth) visited cur ≡ ([], failed)
          → Goal (walk_chain bus (suc depth) visited cur).0 =
        λ failed e.
          subst (λ (r : List ChainEntry × Bool). Goal r.0) (sym e)
            (empty-IsWalk (suc depth) visited cur) in
      elim (Bool-cases (is_seen cur visited)) [
        | inl s ↦ stop false (walk_chain-seen depth visited cur s)
        | inr s ↦ elim (Option-cases (bus.get_unit cur)) [
          | inl f ↦ stop true (walk_chain-lost depth visited cur s f)
          | inr (path, f) ↦ elim (Option-cases (unit_timings bus path cur)) [
            | inl u ↦ stop true (walk_chain-untimed depth visited cur path s f u)
            | inr (t, u) ↦ elim (Option-cases (next_unit bus path)) [
              | inl n ↦
                  subst (λ (r : List ChainEntry × Bool). Goal r.0)
                    (sym (walk_chain-last depth visited cur path t s f u n))
                    (last-IsWalk depth visited cur path t s f u)
              | inr (v, n) ↦ subst Goal (sym (walk_chain-more depth visited cur path t s f u v n)) (
                  more-IsWalk depth visited cur path t s f u v
                    (walk_chain bus depth (cur ∷ visited) v).0 (next_unit-IsGate cur path v f n)
                    (walk_chain-IsWalk depth (cur ∷ visited) v))
            ]
          ]
        ]
      ]

  -- The critical chain starts at the given unit, if it has an entry, has at most 32 entries, names
  -- no unit twice, and shows for each the time at which it became active. Each entry but the first
  -- is a predecessor of the one before it that became active, and none of that one's predecessors
  -- became active later.
  pub walk_critical_chain-IsChainFrom :
      (start : Bytes)
      → (length (walk_critical_chain bus start).0 ≤ 32)
        × AreDistinct (λ e. e.unit) (walk_critical_chain bus start).0
        × StartsAt start (walk_critical_chain bus start).0
        × All (λ e. active_enter_of bus e.unit ≡ some e.active_at) (walk_critical_chain bus start).0
  unfolding walk_critical_chain
  walk_critical_chain-IsChainFrom start =
      let k = walk_chain-IsWalk 32 [] start in (k.bounded, k.distinct, k.linked, k.timed)
