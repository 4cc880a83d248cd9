-- ===== src/Procfs/Mounts/RoundTrip.antt =====
-- A mount table as the kernel prints it is read back.
use fleetmind.Common.Scanner.{IsScannable, unlines, scan_lines-unlines}
use fleetmind.Common.Cut.{cut-append, take-append}
use fleetmind.Common.Decimal.{atoi_value-itoa, itoa-digits, itoa-IsWord}
use fleetmind.Common.Number.{itoa, atoi_value, is_digit}
use fleetmind.Common.Space.{IsWord, unwords, is_graphic, fields-unwords}
use fleetmind.Common.Text.{Bytes, equal, codes, is_empty}
use fleetmind.Common.{
  List, All, ℕ, ◌≡◌, length, ◌∷◌, [], false, ◌++◌, ◌+◌, ◌<◌, some, ◌^◌, refl, ap, arith, true, ◌-◌,
  ◌==◌, ◌∙◌, suc, length-append, ltb, leb, map,
}
use fleetmind.Common.Int.{ℤ, pos}
use fleetmind.Procfs.Mounts.{
  MountEntry, index_dash, nth, dev_numbers, mount_entry, parse_mount, parsed, mounts, parse_mounts,
}

-- A line of mountinfo, field by field.
abbrev pub print_fields : MountEntry → List Bytes
print_fields m =
    itoa m.mount_id
    ∷ itoa m.parent_id
    ∷ (itoa m.dev_major ++ (b':' ∷ itoa m.dev_minor))
    ∷ m.root
    ∷ m.mount_point
    ∷ m.options
    ∷ (m.optional_fields ++ (codes "-" ∷ m.fs_type ∷ m.source ∷ m.super_options ∷ []))

abbrev pub print_mount : MountEntry → Bytes
print_mount m = unwords (print_fields m)

-- A number as the kernel prints it: an int that is not negative.
pub record IsNumber (z : ℤ) : Type 0 where
  pub value : ℕ
  pub is_pos : z ≡ pos value
  pub fits : value < 2 ^ 63

-- Fields are words, and none in front of the separator is a dash.
pub record IsMount (m : MountEntry) : Type 0 where
  pub mount_id : IsNumber m.mount_id
  pub parent_id : IsNumber m.parent_id
  pub dev_major : IsNumber m.dev_major
  pub dev_minor : IsNumber m.dev_minor
  pub names : All IsWord (m.root ∷ m.mount_point ∷ m.options ∷ [])
  pub no_dash : All (λ f. equal f (codes "-") ≡ false) (m.root ∷ m.mount_point ∷ m.options ∷ [])
  pub optional_fields : All IsWord m.optional_fields
  pub no_optional_dash : All (λ f. equal f (codes "-") ≡ false) m.optional_fields
  pub behind : All IsWord (m.fs_type ∷ m.source ∷ m.super_options ∷ [])

index_dash-append :
    (fs rest : List Bytes)
    → All (λ f. equal f (codes "-") ≡ false) fs
    → index_dash (fs ++ (codes "-" ∷ rest)) ≡ some (length fs)
unfolding index_dash equal
index_dash-append [] rest h = refl
index_dash-append (f ∷ fs) rest h = rw (h.0, index_dash-append fs rest h.1)

nth-append : (fs rest : List Bytes) (k : ℕ) → nth (length fs + k) (fs ++ rest) ≡ nth k rest
nth-append [] rest k = let e : 0 + k ≡ k = omega arith in ap (λ i. nth i rest) e
nth-append (f ∷ fs) rest k =
    let e : suc (length fs) + k ≡ suc (length fs + k) = omega arith in
    ap (λ i. nth i (f ∷ (fs ++ rest))) e ∙ nth-append fs rest k

digit-no_colon : (s : Bytes) → All (λ c. is_digit c ≡ true) s → All (λ c. (c == b':') ≡ false) s
unfolding is_digit
digit-no_colon [] h = tt
digit-no_colon (c ∷ s) h = (ground arith, digit-no_colon s h.1)

dev_numbers-print :
    (a b : ℕ)
    → a < 2 ^ 63
    → b < 2 ^ 63
    → dev_numbers (itoa (pos a) ++ (b':' ∷ itoa (pos b))) ≡ (pos a, pos b)
dev_numbers-print a b h k = rw (
  cut-append b':' (itoa (pos a)) (itoa (pos b)) (digit-no_colon (itoa (pos a)) (itoa-digits a)),
  atoi_value-itoa a h,
  atoi_value-itoa b k,
)

atoi_value-IsNumber : (z : ℤ) → IsNumber z → atoi_value (itoa z) ≡ z
atoi_value-IsNumber z h = rw (h.is_pos) (atoi_value-itoa h.value h.fits)

dev_numbers-IsNumber :
    (a b : ℤ) → IsNumber a → IsNumber b → dev_numbers (itoa a ++ (b':' ∷ itoa b)) ≡ (a, b)
dev_numbers-IsNumber a b h k =
    rw (h.is_pos, k.is_pos) (dev_numbers-print h.value k.value h.fits k.fits)

-- What stands in front of the separator.
abbrev front_fields : MountEntry → List Bytes
front_fields m =
    itoa m.mount_id
    ∷ itoa m.parent_id
    ∷ (itoa m.dev_major ++ (b':' ∷ itoa m.dev_minor))
    ∷ m.root
    ∷ m.mount_point
    ∷ m.options
    ∷ m.optional_fields

-- What stands behind it.
abbrev back_fields : MountEntry → List Bytes
back_fields m = m.fs_type ∷ m.source ∷ m.super_options ∷ []

optional_width : (m : MountEntry) → length (front_fields m) - 6 ≡ length m.optional_fields
optional_width m = omega arith

mount_entry-print :
    (m : MountEntry) → IsMount m → mount_entry (print_fields m) (length (front_fields m)) ≡ m
unfolding mount_entry
mount_entry-print m h = rw (
  atoi_value-IsNumber m.mount_id h.mount_id,
  atoi_value-IsNumber m.parent_id h.parent_id,
  dev_numbers-IsNumber m.dev_major m.dev_minor h.dev_major h.dev_minor,
  optional_width m,
  take-append m.optional_fields (codes "-" ∷ back_fields m),
  nth-append (front_fields m) (codes "-" ∷ back_fields m) 1,
  nth-append (front_fields m) (codes "-" ∷ back_fields m) 2,
  nth-append (front_fields m) (codes "-" ∷ back_fields m) 3,
)

digits-no_dash : (s : Bytes) → All (λ c. is_digit c ≡ true) s → equal s (codes "-") ≡ false
unfolding equal is_digit
digits-no_dash [] h = refl
digits-no_dash (c ∷ s) h = ground arith

-- A text with a colon in it is no dash.
colon-no_dash :
    (s rest : Bytes)
    → All (λ c. is_digit c ≡ true) s
    → equal (s ++ (b':' ∷ rest)) (codes "-") ≡ false
unfolding equal is_digit
colon-no_dash [] rest h = refl
colon-no_dash (c ∷ s) rest h = ground arith

device-no_dash :
    (m : MountEntry)
    → IsMount m
    → equal (itoa m.dev_major ++ (b':' ∷ itoa m.dev_minor)) (codes "-") ≡ false
device-no_dash m h = rw (h.dev_major.is_pos) (
    colon-no_dash (itoa (pos h.dev_major.value)) (itoa m.dev_minor) (itoa-digits h.dev_major.value))

words-no_dash : (z : ℤ) → IsNumber z → equal (itoa z) (codes "-") ≡ false
unfolding equal
words-no_dash z h = rw (h.is_pos) (digits-no_dash (itoa (pos h.value)) (itoa-digits h.value))

front_fields-no_dash :
    (m : MountEntry) → IsMount m → All (λ f. equal f (codes "-") ≡ false) (front_fields m)
front_fields-no_dash m h = (
  words-no_dash m.mount_id h.mount_id,
  (
    words-no_dash m.parent_id h.parent_id,
    (device-no_dash m h, (h.no_dash.0, (h.no_dash.1.0, (h.no_dash.1.1.0, h.no_optional_dash)))),
  ),
)

print_fields-length : (m : MountEntry) → length (print_fields m) ≡ length (front_fields m) + 4
print_fields-length m = omega (arith, length-append m.optional_fields (codes "-" ∷ back_fields m))

parse_mount-print : (m : MountEntry) → IsMount m → parse_mount (print_fields m) ≡ parsed m
unfolding parse_mount
parse_mount-print m h =
    let dash : index_dash (print_fields m) ≡ some (length (front_fields m)) =
      index_dash-append (front_fields m) (back_fields m) (front_fields-no_dash m h) in
    let long : ltb (length (print_fields m)) 10 ≡ false = ground (arith, print_fields-length m) in
    let behind : leb (length (print_fields m)) (length (front_fields m) + 2) ≡ false =
      ground (arith, print_fields-length m) in
    let late : ltb (length (front_fields m)) 6 ≡ false = ground arith in
    rw (long, dash, parse_mount, behind, late, mount_entry-print m h)

number-IsWord : (z : ℤ) → IsNumber z → IsWord (itoa z)
number-IsWord z h = rw (h.is_pos) (itoa-IsWord h.value)

graphic-append :
    (s t : Bytes)
    → All (λ c. is_graphic c ≡ true) s
    → All (λ c. is_graphic c ≡ true) t
    → All (λ c. is_graphic c ≡ true) (s ++ t)
graphic-append [] t h k = k
graphic-append (c ∷ s) t h k = (h.0, graphic-append s t h.1 k)

some_byte-append : (s t : Bytes) → is_empty s ≡ false → is_empty (s ++ t) ≡ false
some_byte-append [] t h = ground arith
some_byte-append (c ∷ s) t h = refl

device-IsWord : (s t : Bytes) → IsWord s → IsWord t → IsWord (s ++ (b':' ∷ t))
device-IsWord s t h k = record {
  some_byte = some_byte-append s (b':' ∷ t) h.some_byte;
  graphic = graphic-append s (b':' ∷ t) h.graphic (ground arith, k.graphic);
}

words-append : (xs ys : List Bytes) → All IsWord xs → All IsWord ys → All IsWord (xs ++ ys)
words-append [] ys h k = k
words-append (x ∷ xs) ys h k = (h.0, words-append xs ys h.1 k)

dash-IsWord : IsWord (codes "-")
dash-IsWord = record { some_byte = refl; graphic = ground arith }

print_fields-words : (m : MountEntry) → IsMount m → All IsWord (print_fields m)
print_fields-words m h = (
  number-IsWord m.mount_id h.mount_id,
  (
    number-IsWord m.parent_id h.parent_id,
    (
      device-IsWord (itoa m.dev_major) (itoa m.dev_minor) (number-IsWord m.dev_major h.dev_major)
          (number-IsWord m.dev_minor h.dev_minor),
      (
        h.names.0,
        (
          h.names.1.0,
          (
            h.names.1.1.0,
            words-append m.optional_fields (codes "-" ∷ back_fields m) h.optional_fields
                (dash-IsWord, h.behind),
          ),
        ),
      ),
    ),
  ),
)

parse_mounts-print :
    (ms : List MountEntry) → All IsMount ms → parse_mounts (map print_mount ms) ≡ some ms
unfolding parse_mounts
parse_mounts-print [] h = refl
parse_mounts-print (m ∷ ms) h = rw (
  fields-unwords (print_fields m) (print_fields-words m h.0),
  parse_mount-print m h.0,
  parse_mounts,
  parse_mounts-print ms h.1,
)

-- `MountsForPID` on a mount table as the kernel prints it, one line for each mount, returns those
-- mounts in order, without an error and without a panic. This is for entries whose numbers are not
-- negative and fit an int, whose other fields are words of printable ASCII, as the kernel escapes
-- them, with no lone dash in front of the separator, and whose lines fit the scanner.
pub mounts-print :
    (ms : List MountEntry)
    → All IsMount ms
    → All (IsScannable (2 ^ 20)) (map print_mount ms)
    → mounts (unlines (map print_mount ms)) ≡ some (ms, false)
unfolding mounts
mounts-print ms h k =
    rw (scan_lines-unlines (2 ^ 20) (map print_mount ms) k, parse_mounts-print ms h)
