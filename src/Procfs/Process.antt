-- ===== src/Procfs/Process.antt =====
-- internal/procfs/procfs.go, `Process` and `ListProcesses`.
use fleetmind.Procfs.Meminfo.{parse_kbytes}
use fleetmind.Procfs.Blocks.{split_at}
use fleetmind.Common.Number.{atoi, atoi_value}
use fleetmind.Common.Space.{trim_space, fields}
use fleetmind.Common.Text.{Bytes, cut, equal, codes, trim_right}
use fleetmind.Common.Int.{ℤ, pos}
use fleetmind.Common.{List, Option, ℕ, Bool, if◌then◌else◌, some, ◌∷◌, [], ◌++◌, ◌==◌, none}

pub record ProcessSummary : Type 0 where
  pub pid : ℤ
  pub ppid : ℤ
  pub comm : Bytes
  pub state : Bytes
  pub uid : ℤ
  pub gid : ℤ
  pub cmd_line : List Bytes
  pub threads : ℤ
  pub vm_size : ℕ
  pub vm_rss : ℕ

abbrev pub new_process : ℤ → ProcessSummary
new_process pid = record {
  pid = pid;
  ppid = pos 0;
  comm = [];
  state = [];
  uid = pos 0;
  gid = pos 0;
  cmd_line = [];
  threads = pos 0;
  vm_size = 0;
  vm_rss = 0;
}

-- The number in the first field, or what was there before.
abbrev pub first_number : ℤ → List Bytes → ℤ
first_number old [] = old
first_number old (f ∷ fs) = atoi_value f

-- The switch on the key of a status line.
unfoldable pub set_status : Bytes → Bytes → ProcessSummary → ProcessSummary
set_status key val p =
    if equal key (codes "Name")
    then record p { comm = val }
    else if equal key (codes "State")
    then record p { state = val }
    else if equal key (codes "PPid")
    then record p { ppid = atoi_value val }
    else if equal key (codes "Uid")
    then record p { uid = first_number p.uid (fields val) }
    else if equal key (codes "Gid")
    then record p { gid = first_number p.gid (fields val) }
    else if equal key (codes "Threads")
    then record p { threads = atoi_value val }
    else if equal key (codes "VmSize")
    then record p { vm_size = parse_kbytes val }
    else if equal key (codes "VmRSS")
    then record p { vm_rss = parse_kbytes val }
    else p

unfoldable pub status_line : Bytes → ProcessSummary → ProcessSummary
status_line line p =
    let (key, val, ok) = cut b':' line in if ok then set_status key (trim_space val) p else p

unfoldable pub status_lines : List Bytes → ProcessSummary → ProcessSummary
status_lines [] p = p
status_lines (line ∷ lines) p = status_lines lines (status_line line p)

abbrev pub is_nul : ℕ → Bool
is_nul c = c == 0

unfoldable pub set_cmd_line : Option Bytes → ProcessSummary → ProcessSummary
set_cmd_line none p = p
set_cmd_line (some cmd) p = record p { cmd_line = split_at 0 [] (trim_right is_nul cmd) }

-- `none` stands for an error.
unfoldable pub process : ℤ → Option Bytes → Option Bytes → Option ProcessSummary
process pid none cmd = none
process pid (some status) cmd =
    some (set_cmd_line cmd (status_lines (split_at 10 [] status) (new_process pid)))

-- The files of a process are below the number that its directory's name stands for.
module _ (read : ℤ → Option Bytes × Option Bytes) where
  unfoldable pub list_entry : Bytes × Bool → List ProcessSummary
  list_entry (name, is_dir) =
      if is_dir
      then elim (atoi name) [
        | none ↦ []
        | some pid ↦ elim (process pid (read pid).0 (read pid).1) [ none ↦ [] | some p ↦ p ∷ [] ]
      ]
      else []

  unfoldable pub list_processes : List (Bytes × Bool) → List ProcessSummary
  list_processes [] = []
  list_processes (e ∷ entries) = list_entry e ++ list_processes entries
