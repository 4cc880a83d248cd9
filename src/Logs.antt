-- ===== src/Logs.antt =====
-- internal/tools/logs.go: the arguments that journalctl is called with, and the tail of dmesg.
-- Running the two programs is internal/exectool.
pub mod Arguments
mod Tests
use fleetmind.Common.{
  ℕ, zero, suc, ◌+◌, ◌/◌, ◌%◌, Bool, true, false, not, ◌&&◌, ◌||◌, List, [], ◌∷◌, ◌++◌, Option,
  none, some, ltb, leb, ◌==◌, if◌then◌else◌, length, reverse,
}
use fleetmind.Common.Number.{itoa}
use fleetmind.Common.Int.{ℤ, pos, negsuc, ltb_ℤ, pos_part}
use fleetmind.Common.Text.{Bytes, codes, equal, is_empty}

pub record JournalIn : Type 0 where
  pub unit : Bytes
  pub lines : ℤ
  pub priority : Bytes
  pub since : Bytes
  pub boot : ℤ
  pub match : Bytes

abbrev pub is_alphanumeric : ℕ → Bool
is_alphanumeric c =
    (leb b'A' c && leb c b'Z') || (leb b'a' c && leb c b'z') || (leb b'0' c && leb c b'9')

unfoldable pub every : (ℕ → Bool) → Bytes → Bool
every t [] = true
every t (c ∷ s) = t c && every t s

abbrev pub is_unit_char : ℕ → Bool
is_unit_char c = is_alphanumeric c || c == b'@' || c == b':' || c == b'_' || c == b'.' || c == b'-'

abbrev pub is_since_char : ℕ → Bool
is_since_char c = is_alphanumeric c || c == b':' || c == b'-' || c == b'+' || c == b' '

abbrev pub is_printable : ℕ → Bool
is_printable c = leb 0x20 c && leb c 0x7E

-- `unitRE`, `sinceRE` and `matchRE`
unfoldable pub is_unit : Bytes → Bool
is_unit s = not (is_empty s) && every is_unit_char s

unfoldable pub is_since : Bytes → Bool
is_since s = not (is_empty s) && leb (length s) 40 && every is_since_char s

unfoldable pub is_match : Bytes → Bool
is_match s = not (is_empty s) && every is_printable s

unfoldable pub is_priority : Bytes → Bool
is_priority s =
    equal s (codes "emerg")
    || equal s (codes "alert")
    || equal s (codes "crit")
    || equal s (codes "err")
    || equal s (codes "warning")
    || equal s (codes "notice")
    || equal s (codes "info")
    || equal s (codes "debug")

-- What one block of `journalArgs` appends, with `none` for an error. `flag` is the option's name.
abbrev pub option_args : Bytes → Bytes → Bool → Option (List Bytes)
option_args flag value valid =
    if is_empty value then some [] else if valid then some (flag ∷ value ∷ []) else none

abbrev pub append_args : Option (List Bytes) → Option (List Bytes) → Option (List Bytes)
append_args none more = none
append_args (some args) none = none
append_args (some args) (some more) = some (args ++ more)

unfoldable pub lines_args : ℤ → Option (List Bytes)
lines_args lines =
    let n = if ltb_ℤ lines (pos 1) then pos 100 else lines in
    if ltb_ℤ (pos 5000) n
    then none
    else some (codes "--no-pager" ∷ codes "-o" ∷ codes "short-iso" ∷ codes "-n" ∷ itoa n ∷ [])

unfoldable pub boot_args : ℤ → Option (List Bytes)
boot_args (pos zero) = some []
boot_args (pos (suc n)) = none
boot_args (negsuc n) = if ltb 9 n then none else some (codes "-b" ∷ itoa (negsuc n) ∷ [])

-- `compiles` tells whether `regexp.Compile` takes a pattern.
module _ (compiles : Bytes → Bool) where
  unfoldable pub journal_args : JournalIn → Option (List Bytes)
  journal_args i = append_args (lines_args i.lines) (
      append_args (option_args (codes "--unit") i.unit (is_unit i.unit)) (
        append_args (option_args (codes "-p") i.priority (is_priority i.priority)) (
          append_args (option_args (codes "--since") i.since (is_since i.since)) (
            append_args (boot_args i.boot) (
              option_args (codes "--grep") i.match
                (leb (length i.match) 200 && is_match i.match && compiles i.match))))))

-- The loop from the end of the text, which is given in reverse; `out` is what it has passed.
unfoldable pub tail_from : ℕ → ℕ → Bytes → Bytes → Bytes
tail_from n count [] out = out
tail_from n count (c ∷ s) out =
    let more = tail_from n (count + 1) s (c ∷ out) in
    let same = tail_from n count s (c ∷ out) in
    if c == 10 then (if ltb n (count + 1) then out else more) else same

unfoldable pub tail_lines : Bytes → ℤ → Bytes
tail_lines s n = if ltb_ℤ n (pos 1) then s else tail_from (pos_part n) 0 (reverse s) []

-- The two tools. `run` is `Runner.Run`: the standard output of a program at its arguments, or
-- `none` for an error.
module _ (compiles : Bytes → Bool) (run : Bytes → List Bytes → Option Bytes) where
  unfoldable pub read_journal : JournalIn → Option Bytes
  read_journal i = elim (journal_args compiles i) [
    | none ↦ none
    | some args ↦ run (codes "journalctl") args
  ]

  unfoldable pub read_dmesg : ℤ → Option Bytes
  read_dmesg requested =
      let n = if ltb_ℤ requested (pos 1) then pos 200 else requested in
      if ltb_ℤ (pos 5000) n
      then none
      else elim (run (codes "dmesg") (codes "--time-format=iso" ∷ codes "--color=never" ∷ [])) [
        | none ↦ none
        | some stdout ↦ some (tail_lines stdout n)
      ]
