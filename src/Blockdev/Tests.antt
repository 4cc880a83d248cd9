-- ===== src/Blockdev/Tests.antt =====
-- A disk with one partition, which the host mounts twice.
use fleetmind.Blockdev.Paths.{device_at}
use mathlib.Core.Option
use fleetmind.Blockdev.Projection.{project_device_lem}
use fleetmind.Blockdev.Hosts.{ShowsMounts, rewrite_device-ShowsMounts}
use fleetmind.Common.Int.{pos}
use fleetmind.Procfs.Mounts.{MountEntry}
use fleetmind.Processes.{name_matcher}
use fleetmind.Common.Number.{decimal_from, itoa}
use fleetmind.Common.Dict.{insert, lookup}
use fleetmind.Blockdev.Values.{Fields, field_of, set_field, Json, Items}
use fleetmind.Common.Text.{Bytes, equal, is_seen, codes}
use fleetmind.Common.{List, ℕ, none, some, ◌∷◌, ◌≡◌, [], true, refl}
use fleetmind.Blockdev.{
  add_entries, build_host_mount_index, filter_block_devices, host_fields, host_key, is_kept,
  keep_devices, list_block_devices, project_device, rewrite_device, rewrite_host_mounts, set_mounts,
  HostIndex,
}

abbrev entry : ℕ → Bytes → MountEntry
entry minor mount_point = record {
  mount_id = pos 29;
  parent_id = pos 1;
  dev_major = pos 8;
  dev_minor = pos minor;
  root = codes "/";
  mount_point = mount_point;
  options = [];
  optional_fields = [];
  fs_type = codes "ext4";
  source = codes "/dev/sda1";
  super_options = [];
}

abbrev table : List MountEntry
table = entry 1 (codes "/") ∷ entry 2 (codes "/boot") ∷ entry 1 (codes "/srv") ∷ []

abbrev partition : Fields
partition = Fields.field (codes "name") (Json.text (codes "sda1")) (
    Fields.field (codes "maj:min") (Json.text (codes "8:1"))
      (Fields.field (codes "mountpoint") (Json.text (codes "/snap")) Fields.end))

abbrev disk : Fields
disk = Fields.field (codes "size") (Json.num (codes "7")) (
    Fields.field (codes "children")
      (Json.array (Items.cons (Json.object partition) (Items.cons Json.null Items.nil))) Fields.end)

-- All that the tool computes with.
computed : HostIndex → Json → Json
unfolding rewrite_device host_fields set_mounts field_of set_field build_host_mount_index
    add_entries host_key itoa decimal_from equal lookup insert project_device is_kept is_seen
    filter_block_devices keep_devices list_block_devices name_matcher rewrite_host_mounts
computed = rewrite_device

abbrev narrow : Fields
narrow =
    Fields.field (codes "children")
      (Json.array (
        Items.cons (Json.object (Fields.field (codes "name") (Json.text (codes "sda1")) Fields.end))
          Items.nil))
      Fields.end

names_only : project_device (codes "name" ∷ []) disk ≡ narrow
unfolding computed
names_only = refl

abbrev report : Fields
report =
    Fields.field (codes "blockdevices") (Json.array (Items.cons (Json.object disk) Items.nil))
      Fields.end

-- No pattern compiles, and every output is the report.
narrowed :
    list_block_devices
      (λ s. none)
      (λ s. some report)
      true
      (record { name_regex = []; fields = codes "name" ∷ [] })
      (some [])
      (some table)
    ≡ some (
        Fields.field
          (codes "blockdevices")
          (Json.array (Items.cons (Json.object narrow) Items.nil))
          Fields.end)
unfolding computed
narrowed = refl

-- The partition is the first device under the disk.
rewrite_device-ShowsMounts_example :
    (top : Fields) × (out : Fields) × (rewrite_device
        (build_host_mount_index table)
        (Json.object disk)
      ≡ Json.object top)
    × (device_at (0 ∷ []) top ≡ some out)
    × ShowsMounts (entry 1 (codes "/") ∷ entry 1 (codes "/srv") ∷ []) out
unfolding computed
rewrite_device-ShowsMounts_example =
    rewrite_device-ShowsMounts table (codes "8:1") (0 ∷ []) disk partition refl refl

project_device_lem_example :
    (Option.map
        (field_of (codes "name"))
        (device_at (0 ∷ []) (project_device (codes "size" ∷ []) disk))
      ≡ some (some (Json.text (codes "sda1"))))
    × (project_device (codes "size" ∷ []) (project_device (codes "size" ∷ []) disk)
        ≡ project_device (codes "size" ∷ []) disk)
unfolding computed
project_device_lem_example =
    project_device_lem (codes "size" ∷ []) (codes "name") (0 ∷ []) disk refl
