-- ===== src/Blockdev.antt =====
-- internal/tools/block.go: the tool list_block_devices.
pub mod Values
pub mod Paths
pub mod Hosts
pub mod Projection
mod Tests
use fleetmind.Processes.{name_matcher, matches}
use fleetmind.Blockdev.Values.{Fields, Items, Json, field_of, set_field}
use fleetmind.Common.Number.{itoa}
use fleetmind.Procfs.Mounts.{MountEntry}
use fleetmind.Common.{
  List, Option, Bool, [], ◌∷◌, false, if◌then◌else◌, none, some, true, ◌++◌, ltb, length, map, ◌||◌,
}
use fleetmind.Common.Dict.{Dict, lookup, insert}
use fleetmind.Common.Text.{Bytes, equal, codes, is_seen}

-- `buildHostMountIndex` on the mount table of process 1.
abbrev pub HostIndex : Type 0
HostIndex = Dict (List MountEntry)

unfoldable pub host_key : MountEntry → Bytes
host_key e = itoa e.dev_major ++ (b':' ∷ itoa e.dev_minor)

-- `idx[key]`, with nil for a missing key.
abbrev pub or_nil : Option (List MountEntry) → List MountEntry
or_nil none = []
or_nil (some es) = es

abbrev pub entries_at : Bytes → HostIndex → List MountEntry
entries_at key idx = or_nil (lookup key idx)

unfoldable pub add_entries : List MountEntry → HostIndex → HostIndex
add_entries [] idx = idx
add_entries (e ∷ es) idx =
    add_entries es (insert (host_key e) (entries_at (host_key e) idx ++ (e ∷ [])) idx)

unfoldable pub build_host_mount_index : List MountEntry → HostIndex
build_host_mount_index es = add_entries es []

abbrev pub texts : List Bytes → Items
texts [] = Items.nil
texts (s ∷ ss) = Items.cons (Json.text s) (texts ss)

abbrev pub mount_point_of : MountEntry → Bytes
mount_point_of e = e.mount_point

abbrev pub root_of : MountEntry → Bytes
root_of e = e.root

-- The three assignments, at a device's entries.
unfoldable pub set_mounts : List MountEntry → Fields → Fields
set_mounts [] fs = set_field (codes "fsroots") (Json.array (Items.cons Json.null Items.nil)) (
    set_field (codes "mountpoints") (Json.array (Items.cons Json.null Items.nil))
      (set_field (codes "mountpoint") Json.null fs))
set_mounts (e ∷ es) fs = set_field (codes "fsroots") (Json.array (texts (map root_of (e ∷ es)))) (
    set_field (codes "mountpoints") (Json.array (texts (map mount_point_of (e ∷ es))))
      (set_field (codes "mountpoint") (Json.text e.mount_point) fs))

abbrev pub set_mounts_at : HostIndex → Option Json → Fields → Fields
set_mounts_at idx (some (Json.text mm)) fs = set_mounts (entries_at mm idx) fs
set_mounts_at idx _ fs = fs

-- What a device itself is given.
unfoldable pub host_fields : HostIndex → Fields → Fields
host_fields idx fs = set_mounts_at idx (field_of (codes "maj:min") fs) fs

abbrev pub is_children : Bytes → Bool
is_children k = equal k (codes "children")

-- `rewriteDeviceMounts`; what is not an object stays as it is. The children are rewritten before
-- the fields of the device, which are others.
unfoldable mutual
  pub rewrite_device : HostIndex → Json → Json
  rewrite_device idx (Json.object fs) = Json.object (host_fields idx (rewrite_children idx fs))
  rewrite_device idx v = v

  pub rewrite_children : HostIndex → Fields → Fields
  rewrite_children idx Fields.end = Fields.end
  rewrite_children idx (Fields.field k v fs) =
      let kids = rewrite_kids idx v in
      let rest = rewrite_children idx fs in Fields.field k (if is_children k then kids else v) rest

  pub rewrite_kids : HostIndex → Json → Json
  rewrite_kids idx (Json.array xs) = Json.array (rewrite_items idx xs)
  rewrite_kids idx v = v

  pub rewrite_items : HostIndex → Items → Items
  rewrite_items idx Items.nil = Items.nil
  rewrite_items idx (Items.cons v xs) = Items.cons (rewrite_device idx v) (rewrite_items idx xs)

unfoldable pub rewrite_host_mounts : HostIndex → Fields → Fields
rewrite_host_mounts idx parsed = elim (field_of (codes "blockdevices") parsed) [
  | none ↦ parsed
  | some devs ↦ set_field (codes "blockdevices") (rewrite_kids idx devs) parsed
]

-- The keys that are kept.
unfoldable pub is_kept : List Bytes → Bytes → Bool
is_kept [] k = true
is_kept (f ∷ fs) k = equal k (codes "name") || is_seen k (f ∷ fs)

-- What becomes of a field, at its array of children with the projection done, if it is one.
abbrev pub place : List Bytes → Bytes → Json → Option Json → Fields → Fields
place fields k v none rest = if is_kept fields k then Fields.field k v rest else rest
place fields k v (some kids) rest =
    if is_children k
    then Fields.field k kids rest
    else if is_kept fields k
    then Fields.field k v rest
    else rest

-- `projectDevice`; children that are no objects are dropped.
unfoldable mutual
  pub project_device : List Bytes → Fields → Fields
  project_device fields Fields.end = Fields.end
  project_device fields (Fields.field k v fs) =
      place fields k v (project_kids fields v) (project_device fields fs)

  pub project_kids : List Bytes → Json → Option Json
  project_kids fields (Json.array xs) = some (Json.array (project_items fields xs))
  project_kids fields v = none

  pub project_items : List Bytes → Items → Items
  project_items fields Items.nil = Items.nil
  project_items fields (Items.cons v xs) =
      let rest = project_items fields xs in
      elim (project_item fields v) [ none ↦ rest | some d ↦ Items.cons d rest ]

  pub project_item : List Bytes → Json → Option Json
  project_item fields (Json.object fs) = some (Json.object (project_device fields fs))
  project_item fields v = none

abbrev pub text_of : Option Json → Bytes
text_of (some (Json.text s)) = s
text_of _ = []

-- The devices that are kept, with their projection done. A slice that is nil and one that is empty
-- are the same here.
unfoldable pub keep_devices : Option (Bytes → Bool) → List Bytes → Items → Items
keep_devices m fields Items.nil = Items.nil
keep_devices m fields (Items.cons (Json.object fs) xs) =
    let rest = keep_devices m fields xs in
    if matches m (text_of (field_of (codes "name") fs))
    then Items.cons (Json.object (project_device fields fs)) rest
    else rest
keep_devices m fields (Items.cons v xs) = keep_devices m fields xs

abbrev pub filter_at : Option (Bytes → Bool) → List Bytes → Option Json → Fields → Fields
filter_at m fields (some (Json.array xs)) parsed =
    Fields.field (codes "blockdevices") (Json.array (keep_devices m fields xs)) Fields.end
filter_at m fields _ parsed = parsed

unfoldable pub filter_block_devices : Fields → Option (Bytes → Bool) → List Bytes → Fields
filter_block_devices parsed m fields =
    filter_at m fields (field_of (codes "blockdevices") parsed) parsed

pub record ListBlockIn : Type 0 where
  pub name_regex : Bytes
  pub fields : List Bytes

abbrev pub needs_filter : Option (Bytes → Bool) → List Bytes → Bool
needs_filter none [] = false
needs_filter _ _ = true

-- The tool, with `none` for an error. `compiles` is `regexp.Compile`, `stdout` what lsblk wrote,
-- `unmarshal` is `json.Unmarshal` into an object, `host` the mount table of process 1, each with
-- `none` for an error, and `in_snap` is `snapconf.InSnap`.
module _ (compiles : Bytes → Option (Bytes → Bool)) (unmarshal : Bytes → Option Fields)
    (in_snap : Bool) where
  abbrev pub host_view : Option (List MountEntry) → Fields → Fields
  host_view none parsed = parsed
  host_view (some es) parsed =
      if in_snap then rewrite_host_mounts (build_host_mount_index es) parsed else parsed

  abbrev pub filter_view : Option (Bytes → Bool) → List Bytes → Fields → Fields
  filter_view m fields parsed =
      if needs_filter m fields then filter_block_devices parsed m fields else parsed

  unfoldable pub list_block_devices :
      ListBlockIn → Option Bytes → Option (List MountEntry) → Option Fields
  list_block_devices i stdout host = elim (name_matcher compiles i.name_regex) [
    | none ↦ none
    | some m ↦ if ltb 32 (length i.fields) then none else elim stdout [
      | none ↦ none
      | some out ↦ elim (unmarshal out) [
        | none ↦ none
        | some parsed ↦ some (filter_view m i.fields (host_view host parsed))
      ]
    ]
  ]
