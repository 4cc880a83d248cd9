-- ===== src/Blockdev/Values.antt =====
-- JSON values as package encoding/json decodes them into `any`, as far as internal/tools/block.go
-- looks at them. An object is a map, no key of which stands twice.
use fleetmind.Common.{Bool, Option, if◌then◌else◌, ◌≡◌, none, some, arith, refl}
use fleetmind.Common.Text.{Bytes, equal, equal_iff}

mutual
  pub data Json : Type 0 where
    null : Json
    flag : Bool → Json
    num : Bytes → Json
    text : Bytes → Json
    array : Items → Json
    object : Fields → Json

  pub data Items : Type 0 where
    nil : Items
    cons : Json → Items → Items

  pub data Fields : Type 0 where
    end : Fields
    field : Bytes → Json → Fields → Fields

-- `m[key]`
unfoldable pub field_of : Bytes → Fields → Option Json
field_of key end = none
field_of key (field k v fs) = if equal k key then some v else field_of key fs

-- `m[key] = v`
unfoldable pub set_field : Bytes → Json → Fields → Fields
set_field key v end = field key v end
set_field key v (field k w fs) =
    if equal k key then field key v fs else field k w (set_field key v fs)

pub field_of-set_field :
    (key at : Bytes) (v : Json) (fs : Fields)
    → field_of at (set_field key v fs) ≡ (if equal key at then some v else field_of at fs)
unfolding field_of set_field
field_of-set_field key at v end = refl
field_of-set_field key at v (field k w fs) =
    ground
      (arith, equal_iff k key, equal_iff key at, equal_iff k at, field_of-set_field key at v fs)
