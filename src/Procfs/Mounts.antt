-- ===== src/Procfs/Mounts.antt =====
-- internal/procfs/procfs.go, `MountsForPID`.
pub mod RoundTrip
mod Tests
use fleetmind.Common.Space.{fields}
use mathlib.Core.Option
use fleetmind.Common.Scanner.{scan_lines}
use fleetmind.Common.Number.{atoi_value}
use fleetmind.Common.Int.{ℤ, pos}
use fleetmind.Common.{
  List, ℕ, Option, if◌then◌else◌, Bool, ltb, none, some, take, length, ◌-◌, drop, leb, ◌^◌, ◌+◌,
  ◌∷◌, suc, [], zero,
}
use fleetmind.Common.Text.{Bytes, cut, equal, codes}

pub record MountEntry : Type 0 where
  pub mount_id : ℤ
  pub parent_id : ℤ
  pub dev_major : ℤ
  pub dev_minor : ℤ
  pub root : Bytes
  pub mount_point : Bytes
  pub options : Bytes
  pub optional_fields : List Bytes
  pub fs_type : Bytes
  pub source : Bytes
  pub super_options : Bytes

-- `fields[i]`
abbrev pub nth : ℕ → List Bytes → Bytes
nth i [] = []
nth zero (f ∷ fs) = f
nth (suc i) (f ∷ fs) = nth i fs

-- The first field that is a dash.
unfoldable pub index_dash : List Bytes → Option ℕ
index_dash [] = none
index_dash (f ∷ fs) = if equal f (codes "-") then some 0 else Option.map suc (index_dash fs)

-- The two numbers of a device; without a colon both stay 0.
abbrev pub dev_numbers : Bytes → ℤ × ℤ
dev_numbers s =
    let (maj, min, ok) = cut b':' s in
    if ok then (atoi_value maj, atoi_value min) else (pos 0, pos 0)

-- What becomes of a line. `fields[6:dash]` panics if the dash stands before the seventh field.
pub data LineResult : Type 0 where
  skipped : LineResult
  panicked : LineResult
  parsed : MountEntry → LineResult

unfoldable pub mount_entry : List Bytes → ℕ → MountEntry
mount_entry fs dash = record {
  mount_id = atoi_value (nth 0 fs);
  parent_id = atoi_value (nth 1 fs);
  dev_major = (dev_numbers (nth 2 fs)).0;
  dev_minor = (dev_numbers (nth 2 fs)).1;
  root = nth 3 fs;
  mount_point = nth 4 fs;
  options = nth 5 fs;
  optional_fields = take (dash - 6) (drop 6 fs);
  fs_type = nth (dash + 1) fs;
  source = nth (dash + 2) fs;
  super_options = nth (dash + 3) fs;
}

unfoldable pub parse_mount : List Bytes → LineResult
parse_mount fs = if ltb (length fs) 10 then skipped else elim (index_dash fs) [
  | none ↦ skipped
  | some dash ↦
      if leb (length fs) (dash + 2)
      then skipped
      else if ltb dash 6
      then panicked
      else parsed (mount_entry fs dash)
]

-- The loop, with `none` for a panic.
unfoldable pub parse_mounts : List Bytes → Option (List MountEntry)
parse_mounts [] = some []
parse_mounts (line ∷ lines) =
    let rest = parse_mounts lines in
    elim (parse_mount (fields line)) [
      | skipped ↦ rest
      | panicked ↦ none
      | parsed m ↦ Option.map (◌∷◌ m) rest
    ]

unfoldable pub mounts : Bytes → Option (List MountEntry × Bool)
mounts text =
    let (lines, failed) = scan_lines (2 ^ 20) text in
    Option.map (λ ms. (ms, failed)) (parse_mounts lines)
