-- ===== src/Processes/Listed.antt =====
-- internal/tools/process.go: what list_processes returns.
use fleetmind.Common.Text.{Bytes, is_empty}
use fleetmind.Common.Sort.{
  IsSorted, sort_by, sort_by-IsSorted, All-take, take-IsSorted, keep-All, keep-IsSorted, All-mono,
  All-sort_by,
}
use fleetmind.Common.Int.{ℤ, ltb_ℤ, pos, pos_part, leb_ℤ}
use fleetmind.Procfs.Process.{ProcessSummary}
use fleetmind.Common.{
  List, ◌≡◌, arith, All, Bool-cases, Option, ◌&&◌, ◌||◌, Bool, leb, ltb, length, false, inl, true,
  length-take-le, some, inr, keep, sym, [], refl, ◌∷◌,
}
use fleetmind.Processes.{
  cap_list, more_resident, keeps, list_processes_tool, ListProcessesIn, name_matcher,
  effective_limit, equal_fold_state, is_valid_state, upper_all, matches,
}

by_resident : (ps : List ProcessSummary) → IsSorted more_resident (sort_by more_resident ps)
by_resident = sort_by-IsSorted more_resident (λ a b h. ground arith) (λ a b c h k. ground arith)

-- What a property of all members, an order or a bound makes of the cap.
module _ (cap : ℤ) (ps : List ProcessSummary) where
  cap_list-All : (P : ProcessSummary → Type 0) → All P ps → All P (cap_list cap ps)
  unfolding cap_list
  cap_list-All P h = elim (Bool-cases (ltb_ℤ (pos 0) cap && ltb (pos_part cap) (length ps))) [
    | inl e ↦ rw e (All-take P (pos_part cap) ps h)
    | inr e ↦ rw e h
  ]

  cap_list-IsSorted : IsSorted more_resident ps → IsSorted more_resident (cap_list cap ps)
  unfolding cap_list
  cap_list-IsSorted h = elim (Bool-cases (ltb_ℤ (pos 0) cap && ltb (pos_part cap) (length ps))) [
    | inl e ↦ rw e (take-IsSorted more_resident (pos_part cap) ps h)
    | inr e ↦ rw e h
  ]

  length-cap_list : (leb_ℤ cap (pos 0) || leb (length (cap_list cap ps)) (pos_part cap)) ≡ true
  unfolding cap_list
  length-cap_list = ground (arith, length-take-le (pos_part cap) ps)

module _ (compiles : Bytes → Option (Bytes → Bool)) where
  list_processes_tool_lem :
      (i : ListProcessesIn) (m : Option (Bytes → Bool)) (found out : List ProcessSummary)
      → name_matcher compiles i.name_regex ≡ some m
      → list_processes_tool compiles i (some found) ≡ some out
      → cap_list
          (effective_limit i.limit i.top)
          (keep (keeps m i.state) (sort_by more_resident found))
        ≡ out
  unfolding list_processes_tool
  list_processes_tool_lem i m found out h k = ground arith

  -- Where list_processes succeeds, each process that it returns matches the pattern and is in the
  -- state that was asked for, they stand by falling resident size, and there are no more of them
  -- than the effective limit, if that is positive.
  pub list_processes_tool-IsSorted :
      (i : ListProcessesIn) (m : Option (Bytes → Bool)) (found out : List ProcessSummary)
      → name_matcher compiles i.name_regex ≡ some m
      → list_processes_tool compiles i (some found) ≡ some out
      → All (λ p. keeps m i.state p ≡ true) out
        × IsSorted more_resident out
        × ((leb_ℤ (effective_limit i.limit i.top) (pos 0)
              || leb (length out) (pos_part (effective_limit i.limit i.top)))
            ≡ true)
  list_processes_tool-IsSorted i m found out h k =
      let cap = effective_limit i.limit i.top in
      let ps = keep (keeps m i.state) (sort_by more_resident found) in
      rw (sym (list_processes_tool_lem i m found out h k)) (
        cap_list-All cap ps (λ p. keeps m i.state p ≡ true)
            (keep-All (keeps m i.state) (sort_by more_resident found)),
        cap_list-IsSorted cap ps (
            keep-IsSorted more_resident (keeps m i.state) (sort_by more_resident found)
              (by_resident found)),
        length-cap_list cap ps,
      )

-- A state as /proc prints it has a letter and a word in parentheses, and matches no letter.
equal_fold_state_long : (s w : Bytes) → ltb 2 (length s) ≡ true → equal_fold_state s w ≡ false
unfolding equal_fold_state
equal_fold_state_long [] w h = ground arith
equal_fold_state_long (c ∷ []) w h = ground arith
equal_fold_state_long (c ∷ d ∷ []) w h = ground arith
equal_fold_state_long (c ∷ d ∷ e ∷ s) [] h = refl
equal_fold_state_long (c ∷ d ∷ e ∷ s) (x ∷ []) h = refl
equal_fold_state_long (c ∷ d ∷ e ∷ s) (x ∷ y ∷ w) h = refl

and_false : (b : Bool) → (b && false) ≡ false
and_false true = refl
and_false false = refl

valid-some_byte : (s : Bytes) → is_valid_state s ≡ true → is_empty s ≡ false
unfolding is_valid_state
valid-some_byte [] h = ground arith
valid-some_byte (c ∷ s) h = refl

keeps_long :
    (m : Option (Bytes → Bool)) (state : Bytes) (p : ProcessSummary)
    → is_empty state ≡ false
    → ltb 2 (length p.state) ≡ true
    → keeps m state p ≡ false
unfolding keeps
keeps_long m state p h k =
    rw (h, equal_fold_state_long p.state (upper_all state) k) (and_false (matches m p.comm))

keep_none :
    (t : ProcessSummary → Bool) (ps : List ProcessSummary)
    → All (λ p. t p ≡ false) ps
    → keep t ps ≡ []
keep_none t [] h = refl
keep_none t (p ∷ ps) h = rw (h.0, keep_none t ps h.1)

cap_list-nil : (cap : ℤ) → cap_list cap [] ≡ []
unfolding cap_list
cap_list-nil cap = ground arith

-- Whenever a valid state is asked for, list_processes returns no process at all: it compares the
-- letter with the whole state, which /proc prints as a letter and a word in parentheses, and which
-- has more than two bytes therefore. This is for a pattern that is absent or compiles.
pub list_processes_tool-state :
    (compiles : Bytes → Option (Bytes → Bool)) (i : ListProcessesIn) (m : Option (Bytes → Bool))
    (found : List ProcessSummary)
    → name_matcher compiles i.name_regex ≡ some m
    → is_valid_state i.state ≡ true
    → All (λ p. ltb 2 (length p.state) ≡ true) found
    → list_processes_tool compiles i (some found) ≡ some []
unfolding list_processes_tool
list_processes_tool-state compiles i m found h v long =
    let empty : is_empty i.state ≡ false = valid-some_byte i.state v in
    let none_kept : keep (keeps m i.state) (sort_by more_resident found) ≡ [] =
      keep_none (keeps m i.state) (sort_by more_resident found) (
        All-mono (λ p. ltb 2 (length p.state) ≡ true) (λ p. keeps m i.state p ≡ false)
          (sort_by more_resident found) (λ p k. keeps_long m i.state p empty k)
          (All-sort_by (λ p. ltb 2 (length p.state) ≡ true) more_resident found long)) in
    rw (h, list_processes_tool, empty, v, none_kept, cap_list-nil (effective_limit i.limit i.top))
