-- ===== src/Logs/Tests.antt =====
-- A request for the errors of one unit.
use fleetmind.Common.{Bool, true, List, [], ◌∷◌, Option, some, none, ◌≡◌, refl, All}
use fleetmind.Common.Number.{decimal_from, itoa}
use fleetmind.Common.Int.{pos, negsuc}
use fleetmind.Common.Text.{Bytes, codes, equal}
use fleetmind.Logs.{
  JournalIn, is_unit, is_since, is_match, is_priority, every, lines_args, boot_args, journal_args,
  tail_from, tail_lines,
}
use fleetmind.Logs.Arguments.{IsPrintable, journal_args-IsPrintable}

abbrev any : Bytes → Bool
any s = true

abbrev request : JournalIn
request = record {
  unit = codes "ssh.service";
  lines = pos 0;
  priority = codes "err";
  since = [];
  boot = negsuc 0;
  match = codes "fail.*";
}

abbrev arguments : List Bytes
arguments =
    codes "--no-pager"
    ∷ codes "-o"
    ∷ codes "short-iso"
    ∷ codes "-n"
    ∷ codes "100"
    ∷ codes "--unit"
    ∷ codes "ssh.service"
    ∷ codes "-p"
    ∷ codes "err"
    ∷ codes "-b"
    ∷ codes "-1"
    ∷ codes "--grep"
    ∷ codes "fail.*"
    ∷ []

-- All that a request is checked with.
computed : JournalIn → Option (List Bytes)
unfolding journal_args lines_args boot_args is_unit is_since is_match is_priority every decimal_from
    itoa equal tail_lines tail_from
computed = journal_args any

accepted : journal_args any request ≡ some arguments
unfolding computed
accepted = refl

wrong_unit : journal_args any (record request { unit = codes "a b" }) ≡ none
unfolding computed
wrong_unit = refl

last_two : tail_lines (codes "a\nb\nc\n") (pos 2) ≡ codes "b\nc\n"
unfolding computed
last_two = refl

journal_args-IsPrintable_example : All IsPrintable arguments
journal_args-IsPrintable_example = journal_args-IsPrintable any request arguments accepted
