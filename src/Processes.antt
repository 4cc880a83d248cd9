-- ===== src/Processes.antt =====
-- internal/tools/process.go: the tools list_processes and get_process.
pub mod Listed
mod Tests
use fleetmind.Common.Sort.{sort_by}
use mathlib.Core.Option
use fleetmind.Common.{
  ℕ, Bool, Option, if◌then◌else◌, map, List, leb, ltb, some, true, ◌&&◌, ◌==◌, ◌∷◌, false, none,
  ◌-◌, ◌||◌, length, not, keep, take, [],
}
use fleetmind.Procfs.Process.{ProcessSummary, process}
use fleetmind.Common.Text.{Bytes, is_empty}
use fleetmind.Common.Int.{ℤ, leb_ℤ, ltb_ℤ, pos, pos_part}

pub record ListProcessesIn : Type 0 where
  pub limit : ℤ
  pub top : ℤ
  pub name_regex : Bytes
  pub state : Bytes

unfoldable pub effective_limit : ℤ → ℤ → ℤ
effective_limit limit top =
    if ltb_ℤ (pos 0) limit && ltb_ℤ (pos 0) top
    then (if ltb_ℤ top limit then top else limit)
    else if ltb_ℤ (pos 0) limit
    then limit
    else if ltb_ℤ (pos 0) top
    then top
    else pos 0

-- `sort.Slice` by falling resident size.
abbrev pub more_resident : ProcessSummary → ProcessSummary → Bool
more_resident a b = ltb b.vm_rss a.vm_rss

-- `len(in.State) != 1 || !strings.ContainsAny(strings.ToUpper(in.State), "RSDZTI")`: of one byte,
-- `strings.ToUpper` is the capital of a small letter.
abbrev pub upper : ℕ → ℕ
upper c = if leb b'a' c && leb c b'z' then c - 32 else c

abbrev pub is_state_letter : ℕ → Bool
is_state_letter c = c == b'R' || c == b'S' || c == b'D' || c == b'Z' || c == b'T' || c == b'I'

unfoldable pub is_valid_state : Bytes → Bool
is_valid_state (c ∷ []) = is_state_letter (upper c)
is_valid_state _ = false

-- `strings.EqualFold(p.State, wantState)` at a state that was found valid: one of its letters, in
-- either case, or the long s, which folds with the S.
unfoldable pub equal_fold_state : Bytes → Bytes → Bool
equal_fold_state (c ∷ []) (w ∷ []) = upper c == w
equal_fold_state (c ∷ d ∷ []) (w ∷ []) = c == 0xC5 && d == 0xBF && w == b'S'
equal_fold_state _ _ = false

abbrev pub upper_all : Bytes → Bytes
upper_all = map upper

abbrev pub matches : Option (Bytes → Bool) → Bytes → Bool
matches none name = true
matches (some m) name = m name

unfoldable pub keeps : Option (Bytes → Bool) → Bytes → ProcessSummary → Bool
keeps m state p = matches m p.comm && (is_empty state || equal_fold_state p.state (upper_all state))

unfoldable pub cap_list : ℤ → List ProcessSummary → List ProcessSummary
cap_list cap ps =
    if ltb_ℤ (pos 0) cap && ltb (pos_part cap) (length ps) then take (pos_part cap) ps else ps

-- `compiles` is `regexp.Compile`, with the matcher of the pattern, or `none` for an error.
module _ (compiles : Bytes → Option (Bytes → Bool)) where
  -- The matcher, if there is a pattern.
  unfoldable pub name_matcher : Bytes → Option (Option (Bytes → Bool))
  name_matcher [] = some none
  name_matcher (c ∷ s) =
      if ltb 200 (length (c ∷ s)) then none else Option.map some (compiles (c ∷ s))

  -- The handler, at what `ListProcesses` returns; `none` stands for an error.
  unfoldable pub list_processes_tool :
      ListProcessesIn → Option (List ProcessSummary) → Option (List ProcessSummary)
  list_processes_tool i found = elim (name_matcher i.name_regex) [
    | none ↦ none
    | some m ↦ if not (is_empty i.state) && not (is_valid_state i.state) then none else elim found [
      | none ↦ none
      | some ps ↦ some (
          cap_list (effective_limit i.limit i.top)
            (keep (keeps m i.state) (sort_by more_resident ps)))
    ]
  ]

-- The get_process tool; `read` gives the status and the command line of a process.
unfoldable pub get_process_tool : (ℤ → Option Bytes × Option Bytes) → ℤ → Option ProcessSummary
get_process_tool read pid =
    if leb_ℤ pid (pos 0) then none else process pid (read pid).0 (read pid).1
