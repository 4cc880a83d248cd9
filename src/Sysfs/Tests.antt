-- ===== src/Sysfs/Tests.antt =====
-- Two entries, of which one is an interface.
use fleetmind.Common.Int.{pos}
use fleetmind.Common.{Option, List, if◌then◌else◌, some, ◌∷◌, [], none, ◌≡◌, refl}
use fleetmind.Common.Text.{Bytes, equal, codes}
use fleetmind.Common.Number.{atoi_value, is_digit, parse_uint, uint_from}
use fleetmind.Common.Space.{drop_spaces, space_width, space_width_back, trim_space}
use fleetmind.Sysfs.{read_attribute, usb_devices, usb_entries, Directory, entries, UsbDevice}

abbrev read : Bytes → Option Bytes
read path = if equal path (codes "/usb/1-1/idVendor") then some (codes "1d6b\n") else none

computed : Bytes → Directory → Option (List UsbDevice)
unfolding usb_devices usb_entries read_attribute equal trim_space drop_spaces space_width
    space_width_back atoi_value parse_uint uint_from is_digit
computed = usb_devices read

one_device :
    usb_devices read (codes "/usb") (entries (codes "1-1" ∷ codes "1-1:1.0" ∷ []))
    ≡ some (
        record {
          path = codes "1-1";
          id_vendor = codes "1d6b";
          id_product = [];
          manufacturer = [];
          product = [];
          serial = [];
          bus_num = pos 0;
          dev_num = pos 0;
          speed = [];
        }
        ∷ [])
unfolding computed
one_device = refl
