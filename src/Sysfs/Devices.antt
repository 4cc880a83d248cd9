-- ===== src/Sysfs/Devices.antt =====
-- internal/sysfs/sysfs.go: the devices that are listed.
use fleetmind.Common.{
  Option, List, All, map, ◌≡◌, false, keep, not, ◌∷◌, Bool-cases, inl, inr, [], refl,
}
use fleetmind.Sysfs.{usb_entries, read_attribute, path_join}
use fleetmind.Common.Text.{Bytes, is_empty, codes}

module _ (read : Bytes → Option Bytes) where
  -- The names of the entries that have a vendor, in their order, are the paths of the USB devices.
  usb_entries-path :
      (dirs : Bytes) (names : List Bytes)
      → map (λ d. d.path) (usb_entries read dirs names)
        ≡ keep
            (λ name. not (is_empty (read_attribute read (path_join dirs name) (codes "idVendor"))))
            names
  unfolding usb_entries
  usb_entries-path dirs [] = refl
  usb_entries-path dirs (name ∷ names) =
      elim (Bool-cases (is_empty (read_attribute read (path_join dirs name) (codes "idVendor")))) [
        | inl h ↦ rw (h, usb_entries-path dirs names) refl
        | inr h ↦ rw (h, usb_entries-path dirs names) refl
      ]

  usb_entries-vendor :
      (dirs : Bytes) (names : List Bytes)
      → All (λ d. is_empty d.id_vendor ≡ false) (usb_entries read dirs names)
  unfolding usb_entries
  usb_entries-vendor dirs [] = tt
  usb_entries-vendor dirs (name ∷ names) =
      elim (Bool-cases (is_empty (read_attribute read (path_join dirs name) (codes "idVendor")))) [
        | inl h ↦ rw h (usb_entries-vendor dirs names)
        | inr h ↦ rw h (h, usb_entries-vendor dirs names)
      ]
