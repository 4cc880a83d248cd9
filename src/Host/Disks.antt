-- ===== src/Host/Disks.antt =====
-- internal/tools/mount.go.
use fleetmind.Processes.{name_matcher, matches}
use fleetmind.Common.Text.{Bytes, is_empty, equal}
use fleetmind.Procfs.Mounts.{MountEntry}
use fleetmind.Common.{
  Option, if◌then◌else◌, ℕ, Bool, ◌==◌, List, none, ◌*◌, some, ◌%◌, ◌^◌, ◌||◌, map, ◌+◌, keep, ◌&&◌,
  ◌-◌,
}

-- What statfs tells; all numbers are uint64.
pub record Statfs : Type 0 where
  pub bsize : ℕ
  pub blocks : ℕ
  pub bfree : ℕ
  pub bavail : ℕ
  pub files : ℕ
  pub ffree : ℕ

pub record MountOut : Type 0 where
  pub mount_point : Bytes
  pub source : Bytes
  pub fs_type : Bytes
  pub options : Bytes
  pub size_bytes : ℕ
  pub free_bytes : ℕ
  pub used_bytes : ℕ
  pub inodes_total : ℕ
  pub inodes_free : ℕ

pub record ListMountsIn : Type 0 where
  pub fstype : Bytes
  pub mount_point_regex : Bytes

abbrev pub bare_mount : MountEntry → MountOut
bare_mount e = record {
  mount_point = e.mount_point;
  source = e.source;
  fs_type = e.fs_type;
  options = e.options;
  size_bytes = 0;
  free_bytes = 0;
  used_bytes = 0;
  inodes_total = 0;
  inodes_free = 0;
}

unfoldable pub with_sizes : Statfs → MountOut → MountOut
with_sizes st m = if st.blocks == 0 then m else record m {
  size_bytes = st.blocks * st.bsize % 2 ^ 64;
  free_bytes = st.bavail * st.bsize % 2 ^ 64;
  used_bytes = (st.blocks + 2 ^ 64 - st.bfree) % 2 ^ 64 * st.bsize % 2 ^ 64;
  inodes_total = st.files;
  inodes_free = st.ffree;
}

abbrev pub is_listed : Option (Bytes → Bool) → Bytes → MountEntry → Bool
is_listed m fstype e = (is_empty fstype || equal e.fs_type fstype) && matches m e.mount_point

-- `statfs` is the system call, and `compiles` is `regexp.Compile`, with `none` for an error. The
-- mount table is that of process 1 in a snap and else the own one.
module _ (compiles : Bytes → Option (Bytes → Bool)) (statfs : Bytes → Option Statfs) where
  abbrev pub mount_out : MountEntry → MountOut
  mount_out e = elim (statfs e.mount_point) [
    | none ↦ bare_mount e
    | some st ↦ with_sizes st (bare_mount e)
  ]

  unfoldable pub list_mounts :
      Bool
      → Option (List MountEntry)
      → Option (List MountEntry)
      → ListMountsIn
      → Option (List MountOut)
  list_mounts in_snap host own i = elim (name_matcher compiles i.mount_point_regex) [
    | none ↦ none
    | some m ↦ elim (if in_snap then host else own) [
      | none ↦ none
      | some es ↦ some (map mount_out (keep (is_listed m i.fstype) es))
    ]
  ]
