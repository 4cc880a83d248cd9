-- ===== src/Processes/Tests.antt =====
-- Two processes, from what the kernel prints for them.
use fleetmind.Processes.Listed.{list_processes_tool-state}
use fleetmind.Common.{Option, none, Bool, List, [], some, true, ◌∷◌, ◌≡◌, refl}
use fleetmind.Common.Int.{ℤ, pos}
use fleetmind.Common.Sort.{insert_by, sort_by}
use fleetmind.Procfs.Meminfo.{is_kb, parse_kbytes}
use fleetmind.Processes.{
  cap_list, effective_limit, equal_fold_state, is_valid_state, keeps, list_processes_tool,
  name_matcher, ListProcessesIn,
}
use fleetmind.Common.Text.{Bytes, cut, equal, index_byte, trim_left, trim_right, codes}
use fleetmind.Procfs.Process.{
  list_entry, list_processes, process, set_cmd_line, set_status, status_line, status_lines,
  ProcessSummary, new_process,
}
use fleetmind.Common.Space.{
  drop_spaces, fields, fields_from, space_width, space_width_back, trim_space,
}
use fleetmind.Procfs.Blocks.{split_at}
use fleetmind.Common.Number.{
  all_digits, atoi, atoi_value, decimal, is_digit, natural, parse_uint, uint_from,
}

abbrev status : Bytes
status = codes "Name:\tbash\nState:\tS (sleeping)\nPPid:\t1\nUid:\t1000\t1000\nVmRSS:\t 2 kB\n"

-- What is read for every process.
abbrev read : ℤ → Option Bytes × Option Bytes
read pid = (some status, some (codes "bash\0-l\0"))

abbrev shell : ℤ → ProcessSummary
shell pid = record (new_process pid) {
  ppid = pos 1;
  comm = codes "bash";
  state = codes "S (sleeping)";
  uid = pos 1000;
  cmd_line = codes "bash" ∷ codes "-l" ∷ [];
  vm_rss = 2048;
}

-- No pattern compiles.
abbrev no_regexp : Bytes → Option (Bytes → Bool)
no_regexp s = none

abbrev request : Bytes → ListProcessesIn
request state = record { limit = pos 5; top = pos 1; name_regex = []; state = state }

-- All that the tool computes with.
computed : ListProcessesIn → Option (List ProcessSummary) → Option (List ProcessSummary)
unfolding list_processes_tool name_matcher keeps cap_list effective_limit is_valid_state
    equal_fold_state sort_by insert_by list_processes list_entry process set_cmd_line status_lines
    status_line set_status split_at fields fields_from space_width space_width_back drop_spaces
    trim_space trim_right trim_left atoi natural all_digits decimal atoi_value parse_uint uint_from
    is_digit parse_kbytes is_kb cut index_byte equal
computed = list_processes_tool no_regexp

found : list_processes read ((codes "7", true) ∷ (codes "irq", true) ∷ []) ≡ shell (pos 7) ∷ []
unfolding computed
found = refl

list_processes_tool-state_example :
    list_processes_tool no_regexp (request (codes "s")) (some (shell (pos 7) ∷ [])) ≡ some []
unfolding computed
list_processes_tool-state_example =
    list_processes_tool-state no_regexp (request (codes "s")) none (shell (pos 7) ∷ []) refl refl
      (refl, tt)
