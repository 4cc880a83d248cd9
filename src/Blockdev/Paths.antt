-- ===== src/Blockdev/Paths.antt =====
-- The devices under a device, as a path of positions finds them.
use fleetmind.Common.Text.{Bytes, equal, equal_iff}
use fleetmind.Common.{
  false, ℕ, zero, suc, List, [], ◌∷◌, Option, none, some, ◌≡◌, ap, ◌∙◌, inl, inr, Option-cases,
  if◌then◌else◌, refl, sym, Bool-cases,
}
use fleetmind.Blockdev.Values.{Fields, Items, Json, set_field}
use fleetmind.Blockdev.{is_children}

-- The children of a device: the members of the array under that key.
abbrev pub kids_of : Fields → Items
kids_of Fields.end = Items.nil
kids_of (Fields.field k (Json.array xs) fs) =
    let rest = kids_of fs in if is_children k then xs else rest
kids_of (Fields.field k _ fs) = kids_of fs

-- The device at a position, where what is no object does not count.
abbrev pub item_at : Items → ℕ → Option Fields
item_at Items.nil n = none
item_at (Items.cons (Json.object fs) xs) zero = some fs
item_at (Items.cons (Json.object fs) xs) (suc n) = item_at xs n
item_at (Items.cons _ xs) n = item_at xs n

-- The device that is found by going from child to child.
abbrev pub device_at : List ℕ → Fields → Option Fields
device_at [] fs = some fs
device_at (n ∷ path) fs = elim (item_at (kids_of fs) n) [
  | none ↦ none
  | some gs ↦ device_at path gs
]

abbrev pub mapped : (Fields → Fields) → Option Fields → Option Fields
mapped f none = none
mapped f (some fs) = some (f fs)

none_below :
    (n : ℕ) (path : List ℕ) (fs : Fields)
    → item_at (kids_of fs) n ≡ none
    → device_at (n ∷ path) fs ≡ none
none_below n path fs e = rw (device_at, e)

some_below :
    (n : ℕ) (path : List ℕ) (fs gs : Fields)
    → item_at (kids_of fs) n ≡ some gs
    → device_at (n ∷ path) fs ≡ device_at path gs
some_below n path fs gs e = rw (device_at, e)

-- A function that does to the children of a device what it does to the device does so all the way
-- down.
pub device_at-mapped :
    (f : Fields → Fields)
    → ((n : ℕ) (fs : Fields) → item_at (kids_of (f fs)) n ≡ mapped f (item_at (kids_of fs) n))
    → (path : List ℕ) (fs : Fields) → device_at path (f fs) ≡ mapped f (device_at path fs)
device_at-mapped f h [] fs = refl
device_at-mapped f h (n ∷ path) fs = elim (Option-cases (item_at (kids_of fs) n)) [
  | inl e ↦
      none_below n path (f fs) (h n fs ∙ ap (mapped f) e)
      ∙ sym (ap (mapped f) (none_below n path fs e))
  | inr (gs, e) ↦
      some_below n path (f fs) (f gs) (h n fs ∙ ap (mapped f) e)
      ∙ device_at-mapped f h path gs
      ∙ sym (ap (mapped f) (some_below n path fs gs e))
]

pub kids_of-other :
    (k : Bytes) (v : Json) (fs : Fields)
    → is_children k ≡ false
    → kids_of (Fields.field k v fs) ≡ kids_of fs
kids_of-other k (Json.array xs) fs h = rw h
kids_of-other k Json.null fs h = refl
kids_of-other k (Json.flag b) fs h = refl
kids_of-other k (Json.num n) fs h = refl
kids_of-other k (Json.text s) fs h = refl
kids_of-other k (Json.object gs) fs h = refl

kids_of-behind :
    (k : Bytes) (v : Json) (fs gs : Fields)
    → kids_of fs ≡ kids_of gs
    → kids_of (Fields.field k v fs) ≡ kids_of (Fields.field k v gs)
kids_of-behind k (Json.array xs) fs gs h = rw h
kids_of-behind k Json.null fs gs h = h
kids_of-behind k (Json.flag b) fs gs h = h
kids_of-behind k (Json.num n) fs gs h = h
kids_of-behind k (Json.text s) fs gs h = h
kids_of-behind k (Json.object hs) fs gs h = h

-- Setting another field leaves the children alone.
pub kids_of-set_field :
    (k : Bytes) (v : Json) (fs : Fields)
    → is_children k ≡ false
    → kids_of (set_field k v fs) ≡ kids_of fs
unfolding set_field
kids_of-set_field k v Fields.end h = kids_of-other k v Fields.end h
kids_of-set_field k v (Fields.field j w fs) h = elim (Bool-cases (equal j k)) [
  | inl e ↦ rw e (
      kids_of-other k v fs h
      ∙ sym (kids_of-other j w fs (ap is_children ((equal_iff j k).0 e) ∙ h)))
  | inr e ↦ rw e (kids_of-behind j w (set_field k v fs) fs (kids_of-set_field k v fs h))
]
