-- ===== src/Procfs/Blocks.antt =====
-- internal/procfs/procfs.go: /proc/cpuinfo, /proc/modules, /proc/loadavg, /proc/uptime and what
-- `KernelInfo` reads.
mod Tests
use fleetmind.Common.Number.{atoi_value, parse_uint}
use fleetmind.Common.Scanner.{scan_lines}
use fleetmind.Common.Space.{fields, trim_space}
use fleetmind.Common.Dict.{Dict, insert}
use fleetmind.Common.Text.{Bytes, codes, index_byte, equal, trim_suffix}
use fleetmind.Common.{
  List, Option, ℕ, Bool, [], ◌∷◌, if◌then◌else◌, some, take, ◌++◌, drop, none, ◌==◌, ◌^◌, suc, ltb,
}
use fleetmind.Common.Int.{negsuc, ℤ, pos}

pub record CpuInfoEntry : Type 0 where
  pub processor : ℤ
  pub values : Dict Bytes

abbrev pub no_processor : CpuInfoEntry
no_processor = record { processor = negsuc 0; values = [] }

-- `if len(cur.Fields) > 0 { out = append(out, cur) }`
abbrev pub emit_entry : CpuInfoEntry → List CpuInfoEntry
emit_entry cur = elim cur.values [ [] ↦ [] | e ∷ m ↦ cur ∷ [] ]

abbrev pub after_entry : CpuInfoEntry → CpuInfoEntry
after_entry cur = elim cur.values [ [] ↦ cur | e ∷ m ↦ no_processor ]

-- A line with a colon at the given place.
unfoldable pub cpuinfo_field : Bytes → ℕ → CpuInfoEntry → CpuInfoEntry
cpuinfo_field line colon cur =
    let k = trim_space (take colon line) in
    let v = trim_space (drop (suc colon) line) in
    record {
      processor = if equal k (codes "processor") then atoi_value v else cur.processor;
      values = insert k v cur.values;
    }

unfoldable pub cpuinfo_lines : CpuInfoEntry → List Bytes → List CpuInfoEntry
cpuinfo_lines cur [] = emit_entry cur
cpuinfo_lines cur ([] ∷ lines) = emit_entry cur ++ cpuinfo_lines (after_entry cur) lines
cpuinfo_lines cur ((c ∷ line) ∷ lines) =
    cpuinfo_lines
      (elim (index_byte b':' (c ∷ line)) [
        | none ↦ cur
        | some colon ↦ cpuinfo_field (c ∷ line) colon cur
      ])
      lines

unfoldable pub cpuinfo : Bytes → List CpuInfoEntry × Bool
cpuinfo text =
    let (lines, failed) = scan_lines (2 ^ 20) text in (cpuinfo_lines no_processor lines, failed)

pub record Module : Type 0 where
  pub name : Bytes
  pub size : ℕ
  pub used_by : ℤ
  pub dependents : List Bytes
  pub state : Bytes
  pub offset : ℕ

-- `strings.Split(s, sep)` at a separator of one byte, behind what is read of the first part.
unfoldable pub split_at : ℕ → Bytes → Bytes → List Bytes
split_at sep part [] = part ∷ []
split_at sep part (c ∷ s) =
    let next = split_at sep [] s in
    let more = split_at sep (part ++ (c ∷ [])) s in if c == sep then part ∷ next else more

-- `parse_uint_any` is the value of `strconv.ParseUint(s, 0, 64)`.
module _ (parse_uint_any : Bytes → ℕ) where
  unfoldable pub parse_module : List Bytes → Option Module
  parse_module (name ∷ size ∷ used ∷ deps ∷ more) = some (record {
    name = name;
    size = (parse_uint size).0;
    used_by = atoi_value used;
    dependents =
        if equal deps (codes "-") then [] else split_at b',' [] (trim_suffix deps (codes ","));
    state = elim more [ [] ↦ [] | s ∷ rest ↦ s ];
    offset = elim more [ [] ↦ 0 | s ∷ rest ↦ elim rest [ [] ↦ 0 | o ∷ last ↦ parse_uint_any o ] ];
  })
  parse_module _ = none

  unfoldable pub module_lines : List Bytes → List Module
  module_lines [] = []
  module_lines (line ∷ lines) =
      let rest = module_lines lines in
      elim (parse_module (fields line)) [ none ↦ rest | some m ↦ m ∷ rest ]

  unfoldable pub modules : Bytes → List Module × Bool
  modules text = let (lines, failed) = scan_lines (2 ^ 16) text in (module_lines lines, failed)

-- `F` is float64, and `parse_float` the value of `strconv.ParseFloat`.
pub record LoadAvg (F : Type 0) : Type 0 where
  pub one : F
  pub five : F
  pub fifteen : F
  pub running : ℤ
  pub total : ℤ
  pub last_pid : ℤ

-- The counts around a slash that is not the first byte.
abbrev pub task_counts : Bytes → ℤ × ℤ
task_counts s = elim (index_byte b'/' s) [
  | none ↦ (pos 0, pos 0)
  | some slash ↦
      if ltb 0 slash
      then (atoi_value (take slash s), atoi_value (drop (suc slash) s))
      else (pos 0, pos 0)
]

module _ {F : Type 0} (parse_float : Bytes → F) where
  unfoldable pub load_fields : List Bytes → Option (LoadAvg F)
  load_fields (a ∷ b ∷ c ∷ tasks ∷ pid ∷ more) = some (record {
    one = parse_float a;
    five = parse_float b;
    fifteen = parse_float c;
    running = (task_counts tasks).0;
    total = (task_counts tasks).1;
    last_pid = atoi_value pid;
  })
  load_fields _ = none

  unfoldable pub load_avg : Bytes → Option (LoadAvg F)
  load_avg text = load_fields (fields text)

  unfoldable pub uptime_fields : List Bytes → Option (F × F)
  uptime_fields (up ∷ idle ∷ more) = some (parse_float up, parse_float idle)
  uptime_fields _ = none

  unfoldable pub uptime : Bytes → Option (F × F)
  uptime text = uptime_fields (fields text)

pub record KernelInfo : Type 0 where
  pub version : Bytes
  pub cmd_line : Bytes
  pub sysctl : Dict Bytes

abbrev pub read_trimmed : Option Bytes → Bytes
read_trimmed none = []
read_trimmed (some b) = trim_space b

-- `strings.ReplaceAll(s, "\x00", " ")`
abbrev pub replace_nul : Bytes → Bytes
replace_nul [] = []
replace_nul (c ∷ s) = (if c == 0 then b' ' else c) ∷ replace_nul s

abbrev pub sysctl_keys : List Bytes
sysctl_keys =
    codes "osrelease"
    ∷ codes "ostype"
    ∷ codes "hostname"
    ∷ codes "domainname"
    ∷ codes "version"
    ∷ codes "tainted"
    ∷ []

-- `read` gives the content of a file below /proc.
module _ (read : Bytes → Option Bytes) where
  unfoldable pub read_sysctls : List Bytes → Dict Bytes → Dict Bytes
  read_sysctls [] m = m
  read_sysctls (key ∷ keys) m =
      read_sysctls keys (elim (read (codes "sys/kernel/" ++ key)) [
        | none ↦ m
        | some b ↦ insert key (trim_space b) m
      ])

  unfoldable pub kernel_info : KernelInfo
  kernel_info = record {
    version = read_trimmed (read (codes "version"));
    cmd_line = elim (read (codes "cmdline")) [ none ↦ [] | some b ↦ trim_space (replace_nul b) ];
    sysctl = read_sysctls sysctl_keys [];
  }
