-- ===== src/Blockdev/Hosts.antt =====
-- internal/tools/block.go: what a device shows of the host's mount table.
use fleetmind.Blockdev.Paths.{
  device_at, kids_of, item_at, kids_of-set_field, mapped, device_at-mapped,
}
use fleetmind.Common.Dict.{insert, lookup-insert, lookup}
use fleetmind.Procfs.Mounts.{MountEntry}
use fleetmind.Blockdev.Values.{field_of, Json, Fields, Items, field_of-set_field, set_field}
use fleetmind.Common.Text.{Bytes, equal, codes, equal_iff}
use fleetmind.Common.{
  true, zero, suc, none, Bool, Option, ℕ, List, keep, ◌∷◌, [], ◌≡◌, false, if◌then◌else◌, some,
  ◌++◌, Bool-cases, arith, map, sym, append-nil, inl, inr, refl, ◌∙◌, ap, append_assoc,
}
use fleetmind.Blockdev.{
  add_entries, build_host_mount_index, rewrite_children, set_mounts, HostIndex, entries_at,
  host_key, is_children, texts, mount_point_of, root_of, host_fields, rewrite_device, or_nil,
  rewrite_items, set_mounts_at,
}

-- The entries of a table that a device has, by its numbers.
abbrev pub entries_of : Bytes → List MountEntry → List MountEntry
entries_of mm es = keep (λ e. equal (host_key e) mm) es

entries_at-insert :
    (key mm : Bytes) (v : List MountEntry) (idx : HostIndex)
    → entries_at mm (insert key v idx) ≡ (if equal key mm then v else entries_at mm idx)
entries_at-insert key mm v idx = ap or_nil (lookup-insert key mm v idx) ∙ ground arith

entries_at-add_one :
    (mm : Bytes) (e : MountEntry) (idx : HostIndex)
    → entries_at mm (insert (host_key e) (entries_at (host_key e) idx ++ (e ∷ [])) idx)
      ≡ entries_at mm idx ++ entries_of mm (e ∷ [])
entries_at-add_one mm e idx = elim (Bool-cases (equal (host_key e) mm)) [
  | inl h ↦
      rw (entries_at-insert (host_key e) mm (entries_at (host_key e) idx ++ (e ∷ [])) idx, h)
        (rw ((equal_iff (host_key e) mm).0 h) refl)
  | inr h ↦
      rw (entries_at-insert (host_key e) mm (entries_at (host_key e) idx ++ (e ∷ [])) idx, h)
        (sym (append-nil (entries_at mm idx)))
]

entries_of-cons :
    (mm : Bytes) (e : MountEntry) (es : List MountEntry)
    → entries_of mm (e ∷ []) ++ entries_of mm es ≡ entries_of mm (e ∷ es)
entries_of-cons mm e es = elim (Bool-cases (equal (host_key e) mm)) [
  | inl h ↦ rw h refl
  | inr h ↦ rw h refl
]

entries_at-add_entries :
    (mm : Bytes) (es : List MountEntry) (idx : HostIndex)
    → entries_at mm (add_entries es idx) ≡ entries_at mm idx ++ entries_of mm es
unfolding add_entries
entries_at-add_entries mm [] idx = sym (append-nil (entries_at mm idx))
entries_at-add_entries mm (e ∷ es) idx =
    entries_at-add_entries mm es (insert (host_key e) (entries_at (host_key e) idx ++ (e ∷ [])) idx)
    ∙ ap (λ i. i ++ entries_of mm es) (entries_at-add_one mm e idx)
    ∙ append_assoc (entries_at mm idx) (entries_of mm (e ∷ [])) (entries_of mm es)
    ∙ ap (λ i. entries_at mm idx ++ i) (entries_of-cons mm e es)

-- The index gives each device its entries in the order of the table.
entries_at-build :
    (mm : Bytes) (es : List MountEntry)
    → entries_at mm (build_host_mount_index es) ≡ entries_of mm es
unfolding build_host_mount_index lookup
entries_at-build mm es = entries_at-add_entries mm es []

field_of-rewrite_children :
    (key : Bytes) (idx : HostIndex) (fs : Fields)
    → is_children key ≡ false
    → field_of key (rewrite_children idx fs) ≡ field_of key fs
unfolding field_of rewrite_children
field_of-rewrite_children key idx Fields.end h = refl
field_of-rewrite_children key idx (Fields.field k v fs) h = ground (
  arith,
  equal_iff k key,
  equal_iff k (codes "children"),
  equal_iff key (codes "children"),
  field_of-rewrite_children key idx fs h,
)

-- What the lists of a device hold, and its single mount point.
abbrev pub listed : List Bytes → Json
listed [] = Json.array (Items.cons Json.null Items.nil)
listed (s ∷ ss) = Json.array (texts (s ∷ ss))

abbrev pub first_text : List Bytes → Json
first_text [] = Json.null
first_text (s ∷ ss) = Json.text s

-- The three fields of a device with the given entries.
pub record ShowsMounts (es : List MountEntry) (fs : Fields) : Type 0 where
  pub one : field_of (codes "mountpoint") fs ≡ some (first_text (map mount_point_of es))
  pub all : field_of (codes "mountpoints") fs ≡ some (listed (map mount_point_of es))
  pub roots : field_of (codes "fsroots") fs ≡ some (listed (map root_of es))

-- The fields that are set, one after the other.
module _ (a b c : Json) (fs : Fields) where
  abbrev with_one : Fields
  with_one = set_field (codes "mountpoint") a fs

  abbrev with_all : Fields
  with_all = set_field (codes "mountpoints") b with_one

  abbrev with_roots : Fields
  with_roots = set_field (codes "fsroots") c with_all

  get_one : field_of (codes "mountpoint") with_roots ≡ some a
  unfolding equal
  get_one =
      field_of-set_field (codes "fsroots") (codes "mountpoint") c with_all
      ∙ field_of-set_field (codes "mountpoints") (codes "mountpoint") b with_one
      ∙ field_of-set_field (codes "mountpoint") (codes "mountpoint") a fs

  get_all : field_of (codes "mountpoints") with_roots ≡ some b
  unfolding equal
  get_all =
      field_of-set_field (codes "fsroots") (codes "mountpoints") c with_all
      ∙ field_of-set_field (codes "mountpoints") (codes "mountpoints") b with_one

  get_roots : field_of (codes "fsroots") with_roots ≡ some c
  unfolding equal
  get_roots = field_of-set_field (codes "fsroots") (codes "fsroots") c with_all

set_mounts-ShowsMounts : (es : List MountEntry) (fs : Fields) → ShowsMounts es (set_mounts es fs)
unfolding set_mounts
set_mounts-ShowsMounts [] fs =
    let none_there = listed [] in
    record {
      one = get_one Json.null none_there none_there fs;
      all = get_all Json.null none_there none_there fs;
      roots = get_roots Json.null none_there none_there fs;
    }
set_mounts-ShowsMounts (e ∷ es) fs =
    let points = listed (map mount_point_of (e ∷ es)) in
    let roots = listed (map root_of (e ∷ es)) in
    record {
      one = get_one (Json.text e.mount_point) points roots fs;
      all = get_all (Json.text e.mount_point) points roots fs;
      roots = get_roots (Json.text e.mount_point) points roots fs;
    }

host_fields-ShowsMounts :
    (es : List MountEntry) (mm : Bytes) (fs : Fields)
    → field_of (codes "maj:min") fs ≡ some (Json.text mm)
    → ShowsMounts (entries_of mm es) (host_fields (build_host_mount_index es) fs)
unfolding host_fields
host_fields-ShowsMounts es mm fs h =
    rw (h, entries_at-build mm es) (set_mounts-ShowsMounts (entries_of mm es) fs)

numbers_kept :
    (idx : HostIndex) (fs : Fields)
    → field_of (codes "maj:min") (rewrite_children idx fs) ≡ field_of (codes "maj:min") fs
unfolding equal
numbers_kept idx fs = field_of-rewrite_children (codes "maj:min") idx fs refl

-- What a device becomes.
abbrev rewritten : HostIndex → Fields → Fields
rewritten idx fs = host_fields idx (rewrite_children idx fs)

kids_of-set_mounts : (es : List MountEntry) (fs : Fields) → kids_of (set_mounts es fs) ≡ kids_of fs
unfolding set_mounts equal
kids_of-set_mounts [] fs =
    kids_of-set_field (codes "fsroots") (listed []) _ refl
    ∙ kids_of-set_field (codes "mountpoints") (listed []) _ refl
    ∙ kids_of-set_field (codes "mountpoint") Json.null fs refl
kids_of-set_mounts (e ∷ es) fs =
    kids_of-set_field (codes "fsroots") (listed (map root_of (e ∷ es))) _ refl
    ∙ kids_of-set_field (codes "mountpoints") (listed (map mount_point_of (e ∷ es))) _ refl
    ∙ kids_of-set_field (codes "mountpoint") (Json.text e.mount_point) fs refl

kids_of-set_mounts_at :
    (idx : HostIndex) (numbers : Option Json) (fs : Fields)
    → kids_of (set_mounts_at idx numbers fs) ≡ kids_of fs
kids_of-set_mounts_at idx (some (Json.text mm)) fs = kids_of-set_mounts (entries_at mm idx) fs
kids_of-set_mounts_at idx none fs = refl
kids_of-set_mounts_at idx (some Json.null) fs = refl
kids_of-set_mounts_at idx (some (Json.flag b)) fs = refl
kids_of-set_mounts_at idx (some (Json.num n)) fs = refl
kids_of-set_mounts_at idx (some (Json.array xs)) fs = refl
kids_of-set_mounts_at idx (some (Json.object gs)) fs = refl

either_way : (b : Bool) (v : Json) → (if b then v else v) ≡ v
either_way true v = refl
either_way false v = refl

kids_of-rewrite_children :
    (idx : HostIndex) (fs : Fields)
    → kids_of (rewrite_children idx fs) ≡ rewrite_items idx (kids_of fs)
unfolding rewrite_children
kids_of-rewrite_children idx Fields.end = refl
kids_of-rewrite_children idx (Fields.field k (Json.array xs) fs) =
    elim (Bool-cases (is_children k)) [
      | inl h ↦ rw (h, h)
      | inr h ↦ rw (h, h) (kids_of-rewrite_children idx fs)
    ]
kids_of-rewrite_children idx (Fields.field k Json.null fs) =
    rw (either_way (is_children k) Json.null) (kids_of-rewrite_children idx fs)
kids_of-rewrite_children idx (Fields.field k (Json.flag b) fs) =
    rw (either_way (is_children k) (Json.flag b)) (kids_of-rewrite_children idx fs)
kids_of-rewrite_children idx (Fields.field k (Json.num n) fs) =
    rw (either_way (is_children k) (Json.num n)) (kids_of-rewrite_children idx fs)
kids_of-rewrite_children idx (Fields.field k (Json.text s) fs) =
    rw (either_way (is_children k) (Json.text s)) (kids_of-rewrite_children idx fs)
kids_of-rewrite_children idx (Fields.field k (Json.object gs) fs) =
    rw (either_way (is_children k) (Json.object gs)) (kids_of-rewrite_children idx fs)

item_at-rewrite_items :
    (idx : HostIndex) (n : ℕ) (xs : Items)
    → item_at (rewrite_items idx xs) n ≡ mapped (rewritten idx) (item_at xs n)
unfolding rewrite_items
item_at-rewrite_items idx n Items.nil = refl
item_at-rewrite_items idx zero (Items.cons (Json.object fs) xs) = refl
item_at-rewrite_items idx (suc n) (Items.cons (Json.object fs) xs) = item_at-rewrite_items idx n xs
item_at-rewrite_items idx n (Items.cons Json.null xs) = item_at-rewrite_items idx n xs
item_at-rewrite_items idx n (Items.cons (Json.flag b) xs) = item_at-rewrite_items idx n xs
item_at-rewrite_items idx n (Items.cons (Json.num m) xs) = item_at-rewrite_items idx n xs
item_at-rewrite_items idx n (Items.cons (Json.text s) xs) = item_at-rewrite_items idx n xs
item_at-rewrite_items idx n (Items.cons (Json.array ys) xs) = item_at-rewrite_items idx n xs

device_at-rewritten :
    (idx : HostIndex) (path : List ℕ) (fs : Fields)
    → device_at path (rewritten idx fs) ≡ mapped (rewritten idx) (device_at path fs)
unfolding host_fields
device_at-rewritten idx = device_at-mapped (rewritten idx) (λ n fs.
    ap (λ xs. item_at xs n)
      (kids_of-set_mounts_at idx (field_of (codes "maj:min") (rewrite_children idx fs))
          (rewrite_children idx fs)
        ∙ kids_of-rewrite_children idx fs)
    ∙ item_at-rewrite_items idx n (kids_of fs))

-- A device that lsblk reports with numbers, at whatever depth below the device that is rewritten, or
-- that device itself, is found again at its place, as a device that shows exactly the entries of
-- the host's mount table with these numbers, in the order of the table: all their mount points and
-- roots, and the first one as its single mount point. Without such an entry it shows null.
pub rewrite_device-ShowsMounts :
    (es : List MountEntry) (mm : Bytes) (path : List ℕ) (fs gs : Fields)
    → device_at path fs ≡ some gs
    → field_of (codes "maj:min") gs ≡ some (Json.text mm)
    → (top : Fields) × (out : Fields) × (rewrite_device (build_host_mount_index es) (Json.object fs)
        ≡ Json.object top)
      × (device_at path top ≡ some out)
      × ShowsMounts (entries_of mm es) out
unfolding rewrite_device
rewrite_device-ShowsMounts es mm path fs gs at h =
    let idx = build_host_mount_index es in
    (
      rewritten idx fs,
      rewritten idx gs,
      refl,
      device_at-rewritten idx path fs ∙ ap (mapped (rewritten idx)) at,
      host_fields-ShowsMounts es mm (rewrite_children idx gs) (numbers_kept idx gs ∙ h),
    )
