-- ===== src/Host/Cpu.antt =====
-- internal/tools/cpu.go and internal/tools/load.go.
use fleetmind.Common.Space.{fields}
use fleetmind.Procfs.Blocks.{LoadAvg, CpuInfoEntry}
use fleetmind.Common.Dict.{Dict, lookup}
use fleetmind.Common.Int.{ℤ}
use fleetmind.Common.Text.{Bytes, codes, is_empty}
use fleetmind.Common.{Option, ℕ, Bool, List, ◌∷◌, [], if◌then◌else◌, some, length, none, ◌||◌}

pub record CpuInfo (F : Type 0) : Type 0 where
  pub logical_cores : ℕ
  pub model_name : Bytes
  pub vendor : Bytes
  pub cpu_family : Bytes
  pub microcode : Bytes
  pub flags : List Bytes
  pub mhz_min : F
  pub mhz_max : F

-- `m[key]`, with an empty text for a missing key.
abbrev pub value_at : Bytes → Dict Bytes → Bytes
value_at key m = elim (lookup key m) [ none ↦ [] | some v ↦ v ]

abbrev pub first_value : Bytes → Bytes → Bytes
first_value [] new = new
first_value (c ∷ old) new = c ∷ old

-- `parse_mhz` is `parseFloatField`; `is_less` and `is_zero` compare in float64.
module _ {F : Type 0} (zero_mhz : F) (parse_mhz : Bytes → F) (is_less : F → F → Bool)
    (is_zero : F → Bool) where
  abbrev pub add_mhz : F → CpuInfo F → CpuInfo F
  add_mhz mhz out =
      if is_less zero_mhz mhz
      then record out {
        mhz_min = if is_zero out.mhz_min || is_less mhz out.mhz_min then mhz else out.mhz_min;
        mhz_max = if is_less out.mhz_max mhz then mhz else out.mhz_max;
      }
      else out

  abbrev pub add_flags : Bytes → List Bytes → List Bytes
  add_flags text (f ∷ fs) = f ∷ fs
  add_flags text [] = if is_empty text then [] else fields text

  unfoldable pub add_entry : CpuInfoEntry → CpuInfo F → CpuInfo F
  add_entry e out = add_mhz (parse_mhz (value_at (codes "cpu MHz") e.values)) (record out {
    model_name = first_value out.model_name (value_at (codes "model name") e.values);
    vendor = first_value out.vendor (value_at (codes "vendor_id") e.values);
    cpu_family = first_value out.cpu_family (value_at (codes "cpu family") e.values);
    microcode = first_value out.microcode (value_at (codes "microcode") e.values);
    flags = add_flags (value_at (codes "flags") e.values) out.flags;
  })

  unfoldable pub add_cpus : List CpuInfoEntry → CpuInfo F → CpuInfo F
  add_cpus [] out = out
  add_cpus (e ∷ es) out = add_cpus es (add_entry e out)

  unfoldable pub cpu_info : Option (List CpuInfoEntry) → Option (CpuInfo F)
  cpu_info none = none
  cpu_info (some es) = some (
      add_cpus es (record {
        logical_cores = length es;
        model_name = [];
        vendor = [];
        cpu_family = [];
        microcode = [];
        flags = [];
        mhz_min = zero_mhz;
        mhz_max = zero_mhz;
      }))

pub record LoadInfo (F : Type 0) : Type 0 where
  pub load1 : F
  pub load5 : F
  pub load15 : F
  pub running_tasks : ℤ
  pub total_tasks : ℤ
  pub uptime_sec : F
  pub idle_sec : F

-- An uptime that cannot be read is zero.
unfoldable pub load_info :
    {F : Type 0} → F → Option (LoadAvg F) → Option (F × F) → Option (LoadInfo F)
load_info zero_sec none up = none
load_info zero_sec (some la) up = some (record {
  load1 = la.one;
  load5 = la.five;
  load15 = la.fifteen;
  running_tasks = la.running;
  total_tasks = la.total;
  uptime_sec = elim up [ none ↦ zero_sec | some t ↦ t.0 ];
  idle_sec = elim up [ none ↦ zero_sec | some t ↦ t.1 ];
})
