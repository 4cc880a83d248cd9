-- ===== src/Blockdev/Projection.antt =====
-- internal/tools/block.go, `projectDevice`.
use fleetmind.Blockdev.Paths.{device_at, item_at, kids_of, mapped, device_at-mapped}
use mathlib.Core.Option
use fleetmind.Common.Text.{Bytes, equal, equal_iff, codes, is_seen}
use fleetmind.Blockdev.Values.{field_of, Fields, Json, Items}
use fleetmind.Blockdev.{project_device, is_children, project_kids, project_items, place, is_kept}
use fleetmind.Common.{
  true, zero, suc, none, ℕ, Bool, [], ◌∷◌, List, Option, ◌≡◌, false, some, ap, if◌then◌else◌,
  Bool-cases, arith, inl, ◌&&◌, ◌∙◌, inr, refl,
}

module _ (fields : List Bytes) where
  place-none :
      (k : Bytes) (v : Json) (rest : Fields)
      → project_kids fields v ≡ none
      → project_device fields rest ≡ rest
      → project_device fields (place fields k v none rest) ≡ place fields k v none rest
  unfolding project_device
  place-none k v rest h e = elim (Bool-cases (is_kept fields k)) [
    | inl w ↦ rw (w, project_device, h, w, e)
    | inr w ↦ rw w e
  ]

  place-some :
      (k : Bytes) (v kids : Json) (rest : Fields)
      → project_kids fields v ≡ some kids
      → project_kids fields kids ≡ some kids
      → project_device fields rest ≡ rest
      → project_device fields (place fields k v (some kids) rest)
        ≡ place fields k v (some kids) rest
  unfolding project_device
  place-some k v kids rest h i e = elim (Bool-cases (is_children k)) [
    | inl c ↦ rw (c, project_device, i, c, e)
    | inr c ↦ elim (Bool-cases (is_kept fields k)) [
      | inl w ↦ rw (c, w, project_device, h, c, w, e)
      | inr w ↦ rw (c, w) e
    ]
  ]

mutual
  unfolding project_device

  project_device_twice :
      (fields : List Bytes) (fs : Fields)
      → project_device fields (project_device fields fs) ≡ project_device fields fs
  project_device_twice fields Fields.end = refl
  project_device_twice fields (Fields.field k (Json.array xs) fs) =
      place-some fields k (Json.array xs) (Json.array (project_items fields xs))
        (project_device fields fs) refl
        (ap (λ i. some (Json.array i)) (project_items_twice fields xs))
        (project_device_twice fields fs)
  project_device_twice fields (Fields.field k Json.null fs) =
      place-none fields k Json.null (project_device fields fs) refl (project_device_twice fields fs)
  project_device_twice fields (Fields.field k (Json.flag b) fs) =
      place-none fields k (Json.flag b) (project_device fields fs) refl
        (project_device_twice fields fs)
  project_device_twice fields (Fields.field k (Json.num n) fs) =
      place-none fields k (Json.num n) (project_device fields fs) refl
        (project_device_twice fields fs)
  project_device_twice fields (Fields.field k (Json.text s) fs) =
      place-none fields k (Json.text s) (project_device fields fs) refl
        (project_device_twice fields fs)
  project_device_twice fields (Fields.field k (Json.object gs) fs) =
      place-none fields k (Json.object gs) (project_device fields fs) refl
        (project_device_twice fields fs)

  project_items_twice :
      (fields : List Bytes) (xs : Items)
      → project_items fields (project_items fields xs) ≡ project_items fields xs
  project_items_twice fields Items.nil = refl
  project_items_twice fields (Items.cons (Json.object fs) xs) =
      ap (λ i. Items.cons (Json.object i) (project_items fields (project_items fields xs)))
        (project_device_twice fields fs)
      ∙ ap (Items.cons (Json.object (project_device fields fs))) (project_items_twice fields xs)
  project_items_twice fields (Items.cons (Json.array ys) xs) = project_items_twice fields xs
  project_items_twice fields (Items.cons Json.null xs) = project_items_twice fields xs
  project_items_twice fields (Items.cons (Json.flag b) xs) = project_items_twice fields xs
  project_items_twice fields (Items.cons (Json.num n) xs) = project_items_twice fields xs
  project_items_twice fields (Items.cons (Json.text s) xs) = project_items_twice fields xs

field_of-place :
    (fields : List Bytes) (key k : Bytes) (v : Json) (o : Option Json) (rest : Fields)
    → is_children key ≡ false
    → field_of key (place fields k v o rest)
      ≡ (if is_kept fields k && equal k key then some v else field_of key rest)
unfolding field_of
field_of-place fields key k v none rest h = ground arith
field_of-place fields key k v (some kids) rest h =
    ground
      (arith, equal_iff k key, equal_iff k (codes "children"), equal_iff key (codes "children"))

-- What a projection holds under a key that is not that of the children.
field_of-project_device :
    (fields : List Bytes) (key : Bytes) (fs : Fields)
    → is_children key ≡ false
    → field_of key (project_device fields fs)
      ≡ (if is_kept fields key then field_of key fs else none)
unfolding project_device field_of
field_of-project_device fields key Fields.end h = ground arith
field_of-project_device fields key (Fields.field k v fs) h =
    field_of-place fields key k v (project_kids fields v) (project_device fields fs) h
    ∙ (rw (field_of-project_device fields key fs h) (ground (arith, equal_iff k key)))

-- The keys that a request asks for: all of them where it names none, else the name and those named.
abbrev is_listed : Bytes → List Bytes → Bool
is_listed k [] = false
is_listed k (f ∷ fs) = let later = is_listed k fs in if equal k f then true else later

abbrev pub is_asked_for : List Bytes → Bytes → Bool
is_asked_for [] k = true
is_asked_for (f ∷ fs) k = if equal k (codes "name") then true else is_listed k (f ∷ fs)

is_listed-is_seen : (k : Bytes) (fs : List Bytes) → is_seen k fs ≡ is_listed k fs
unfolding is_seen
is_listed-is_seen k [] = refl
is_listed-is_seen k (f ∷ fs) = ground (arith, is_listed-is_seen k fs, equal_iff k f, equal_iff f k)

is_asked_for-is_kept : (fields : List Bytes) (k : Bytes) → is_kept fields k ≡ is_asked_for fields k
unfolding is_kept
is_asked_for-is_kept [] k = refl
is_asked_for-is_kept (f ∷ fs) k = ground (arith, is_listed-is_seen k (f ∷ fs))

kids_of-place-none :
    (fields : List Bytes) (k : Bytes) (v : Json) (rest fs : Fields)
    → kids_of (Fields.field k v rest) ≡ kids_of rest
    → kids_of (place fields k v none rest) ≡ kids_of rest
kids_of-place-none fields k v rest fs h = elim (Bool-cases (is_kept fields k)) [
  | inl e ↦ rw e h
  | inr e ↦ rw e
]

kids_of-place-some :
    (fields : List Bytes) (k : Bytes) (xs ys : Items) (rest : Fields)
    → kids_of (place fields k (Json.array xs) (some (Json.array ys)) rest)
      ≡ (if is_children k then ys else kids_of rest)
kids_of-place-some fields k xs ys rest = elim (Bool-cases (is_children k)) [
  | inl c ↦ rw (c, c)
  | inr c ↦ elim (Bool-cases (is_kept fields k)) [ inl e ↦ rw (c, e, c) | inr e ↦ rw (c, e) ]
]

kids_of-project_device :
    (fields : List Bytes) (fs : Fields)
    → kids_of (project_device fields fs) ≡ project_items fields (kids_of fs)
unfolding project_device
kids_of-project_device fields Fields.end = refl
kids_of-project_device fields (Fields.field k (Json.array xs) fs) =
    kids_of-place-some fields k xs (project_items fields xs) (project_device fields fs)
    ∙ (elim (Bool-cases (is_children k)) [
      | inl c ↦ rw c
      | inr c ↦ rw c (kids_of-project_device fields fs)
    ])
kids_of-project_device fields (Fields.field k Json.null fs) =
    kids_of-place-none fields k Json.null (project_device fields fs) fs refl
    ∙ kids_of-project_device fields fs
kids_of-project_device fields (Fields.field k (Json.flag b) fs) =
    kids_of-place-none fields k (Json.flag b) (project_device fields fs) fs refl
    ∙ kids_of-project_device fields fs
kids_of-project_device fields (Fields.field k (Json.num n) fs) =
    kids_of-place-none fields k (Json.num n) (project_device fields fs) fs refl
    ∙ kids_of-project_device fields fs
kids_of-project_device fields (Fields.field k (Json.text s) fs) =
    kids_of-place-none fields k (Json.text s) (project_device fields fs) fs refl
    ∙ kids_of-project_device fields fs
kids_of-project_device fields (Fields.field k (Json.object gs) fs) =
    kids_of-place-none fields k (Json.object gs) (project_device fields fs) fs refl
    ∙ kids_of-project_device fields fs

item_at-project_items :
    (fields : List Bytes) (n : ℕ) (xs : Items)
    → item_at (project_items fields xs) n ≡ mapped (project_device fields) (item_at xs n)
unfolding project_items
item_at-project_items fields n Items.nil = refl
item_at-project_items fields zero (Items.cons (Json.object fs) xs) = refl
item_at-project_items fields (suc n) (Items.cons (Json.object fs) xs) =
    item_at-project_items fields n xs
item_at-project_items fields n (Items.cons Json.null xs) = item_at-project_items fields n xs
item_at-project_items fields n (Items.cons (Json.flag b) xs) = item_at-project_items fields n xs
item_at-project_items fields n (Items.cons (Json.num m) xs) = item_at-project_items fields n xs
item_at-project_items fields n (Items.cons (Json.text s) xs) = item_at-project_items fields n xs
item_at-project_items fields n (Items.cons (Json.array ys) xs) = item_at-project_items fields n xs

device_at-project_device :
    (fields : List Bytes) (path : List ℕ) (fs : Fields)
    → device_at path (project_device fields fs) ≡ mapped (project_device fields) (device_at path fs)
device_at-project_device fields = device_at-mapped (project_device fields) (λ n fs.
    ap (λ xs. item_at xs n) (kids_of-project_device fields fs)
    ∙ item_at-project_items fields n (kids_of fs))

under_key :
    (fields : List Bytes) (key : Bytes)
    → is_children key ≡ false
    → (o : Option Fields)
    → Option.map (field_of key) (mapped (project_device fields) o)
      ≡ Option.map (λ (gs : Fields). if is_asked_for fields key then field_of key gs else none) o
under_key fields key h none = refl
under_key fields key h (some gs) = ap some (
    field_of-project_device fields key gs h
    ∙ ap (λ b. if b then field_of key gs else none) (is_asked_for-is_kept fields key))

-- The projection of a device has a device, at whatever depth below it or itself, exactly where the
-- device has one. Under every key but `children` that device holds what it held if the key is the
-- name, is asked for or no key is asked for, and nothing otherwise. Projecting a device twice is the
-- same as projecting it once.
pub project_device_lem :
    (fields : List Bytes) (key : Bytes) (path : List ℕ) (fs : Fields)
    → is_children key ≡ false
    → (Option.map (field_of key) (device_at path (project_device fields fs))
        ≡ Option.map
            (λ (gs : Fields). if is_asked_for fields key then field_of key gs else none)
            (device_at path fs))
      × (project_device fields (project_device fields fs) ≡ project_device fields fs)
project_device_lem fields key path fs h = (
  ap (Option.map (field_of key)) (device_at-project_device fields path fs)
      ∙ under_key fields key h (device_at path fs),
  project_device_twice fields fs,
)
