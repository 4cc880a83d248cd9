-- ===== src/Sysfs.antt =====
-- internal/sysfs/sysfs.go. `read` gives the content of a file and `readlink` the target of a link,
-- with `none` for an error; a directory is what `os.ReadDir` gives.
mod Devices
use fleetmind.Sysd.{base}
use fleetmind.Common.Number.{atoi_value}
use fleetmind.Common.Space.{trim_space}
use fleetmind.Common.Int.{ℤ}
use fleetmind.Common.Text.{Bytes, codes, is_empty, has_prefix, trim_suffix, has_suffix}
use fleetmind.Common.{List, [], Option, ◌++◌, none, some, ◌∷◌, if◌then◌else◌, map, ℕ}
mod Tests

pub data Directory : Type 0 where
  absent : Directory
  unreadable : Directory
  entries : List Bytes → Directory

-- `filepath.Join(dir, name)`, where neither has anything to clean.
abbrev pub path_join : Bytes → Bytes → Bytes
path_join dir name = dir ++ (b'/' ∷ name)

pub record NetIface : Type 0 where
  pub name : Bytes
  pub address : Bytes
  pub mtu : ℤ
  pub oper_state : Bytes
  pub speed : Bytes
  pub type : Bytes
  pub carrier : Bytes
  pub if_index : ℤ

pub record Dmi : Type 0 where
  pub sys_vendor : Bytes
  pub product_name : Bytes
  pub product_version : Bytes
  pub product_serial : Bytes
  pub product_uuid : Bytes
  pub board_vendor : Bytes
  pub board_name : Bytes
  pub board_version : Bytes
  pub bios_vendor : Bytes
  pub bios_version : Bytes
  pub bios_date : Bytes
  pub chassis_vendor : Bytes
  pub chassis_type : Bytes
  pub chassis_version : Bytes

pub record PciDevice : Type 0 where
  pub address : Bytes
  pub vendor : Bytes
  pub device : Bytes
  pub class : Bytes
  pub revision : Bytes
  pub driver : Bytes

pub record UsbDevice : Type 0 where
  pub path : Bytes
  pub id_vendor : Bytes
  pub id_product : Bytes
  pub manufacturer : Bytes
  pub product : Bytes
  pub serial : Bytes
  pub bus_num : ℤ
  pub dev_num : ℤ
  pub speed : Bytes

abbrev pub no_dmi : Dmi
no_dmi = record {
  sys_vendor = [];
  product_name = [];
  product_version = [];
  product_serial = [];
  product_uuid = [];
  board_vendor = [];
  board_name = [];
  board_version = [];
  bios_vendor = [];
  bios_version = [];
  bios_date = [];
  chassis_vendor = [];
  chassis_type = [];
  chassis_version = [];
}

module _ (read : Bytes → Option Bytes) where
  -- An attribute below a directory.
  unfoldable pub read_attribute : Bytes → Bytes → Bytes
  read_attribute dir name = elim (read (path_join dir name)) [ none ↦ [] | some b ↦ trim_space b ]

  unfoldable pub net_iface : Bytes → Bytes → NetIface
  net_iface base name =
      let dir = path_join base name in
      record {
        name = name;
        address = read_attribute dir (codes "address");
        mtu = atoi_value (read_attribute dir (codes "mtu"));
        oper_state = read_attribute dir (codes "operstate");
        speed = read_attribute dir (codes "speed");
        type = read_attribute dir (codes "type");
        carrier = read_attribute dir (codes "carrier");
        if_index = atoi_value (read_attribute dir (codes "ifindex"));
      }

  -- `none` stands for an error.
  unfoldable pub net_interfaces : Bytes → Directory → Option (List NetIface)
  net_interfaces base absent = none
  net_interfaces base unreadable = none
  net_interfaces base (entries names) = some (map (net_iface base) names)

  -- What `os.Stat` finds: the directory, its absence, or an error.
  unfoldable pub read_dmi : Bytes → Directory → Option Dmi
  read_dmi base absent = some no_dmi
  read_dmi base unreadable = none
  read_dmi base (entries names) = some (record {
    sys_vendor = read_attribute base (codes "sys_vendor");
    product_name = read_attribute base (codes "product_name");
    product_version = read_attribute base (codes "product_version");
    product_serial = read_attribute base (codes "product_serial");
    product_uuid = read_attribute base (codes "product_uuid");
    board_vendor = read_attribute base (codes "board_vendor");
    board_name = read_attribute base (codes "board_name");
    board_version = read_attribute base (codes "board_version");
    bios_vendor = read_attribute base (codes "bios_vendor");
    bios_version = read_attribute base (codes "bios_version");
    bios_date = read_attribute base (codes "bios_date");
    chassis_vendor = read_attribute base (codes "chassis_vendor");
    chassis_type = read_attribute base (codes "chassis_type");
    chassis_version = read_attribute base (codes "chassis_version");
  })

  unfoldable pub pci_device : (Bytes → Option Bytes) → Bytes → Bytes → PciDevice
  pci_device readlink dirs name =
      let dir = path_join dirs name in
      record {
        address = name;
        vendor = read_attribute dir (codes "vendor");
        device = read_attribute dir (codes "device");
        class = read_attribute dir (codes "class");
        revision = read_attribute dir (codes "revision");
        driver = elim (readlink (path_join dir (codes "driver"))) [
          | none ↦ []
          | some link ↦ base link
        ];
      }

  unfoldable pub pci_devices : (Bytes → Option Bytes) → Bytes → Directory → Option (List PciDevice)
  pci_devices readlink dirs absent = some []
  pci_devices readlink dirs unreadable = none
  pci_devices readlink dirs (entries names) = some (map (pci_device readlink dirs) names)

  abbrev pub usb_device : Bytes → Bytes → UsbDevice
  usb_device dirs name =
      let dir = path_join dirs name in
      record {
        path = name;
        id_vendor = read_attribute dir (codes "idVendor");
        id_product = read_attribute dir (codes "idProduct");
        manufacturer = read_attribute dir (codes "manufacturer");
        product = read_attribute dir (codes "product");
        serial = read_attribute dir (codes "serial");
        bus_num = atoi_value (read_attribute dir (codes "busnum"));
        dev_num = atoi_value (read_attribute dir (codes "devnum"));
        speed = read_attribute dir (codes "speed");
      }

  -- An entry without a vendor is an interface and left out.
  unfoldable pub usb_entries : Bytes → List Bytes → List UsbDevice
  usb_entries dirs [] = []
  usb_entries dirs (name ∷ names) =
      let rest = usb_entries dirs names in
      if is_empty (read_attribute (path_join dirs name) (codes "idVendor"))
      then rest
      else usb_device dirs name ∷ rest

  unfoldable pub usb_devices : Bytes → Directory → Option (List UsbDevice)
  usb_devices dirs absent = some []
  usb_devices dirs unreadable = none
  usb_devices dirs (entries names) = some (usb_entries dirs names)

-- `F` is float64, and `scale raw n` is `raw / n`.
pub record HwmonReading (F : Type 0) : Type 0 where
  pub chip : Bytes
  pub label : Bytes
  pub sensor : Bytes
  pub value : F
  pub unit : Bytes

-- The degree sign is two bytes.
unfoldable pub scale_hwmon : {F : Type 0} → (F → ℕ → F) → Bytes → F → F × Bytes
scale_hwmon scale sensor raw =
    if has_prefix sensor (codes "temp")
    then (scale raw 1000, 0xC2 ∷ 0xB0 ∷ b'C' ∷ [])
    else if has_prefix sensor (codes "in")
    then (scale raw 1000, codes "V")
    else if has_prefix sensor (codes "curr")
    then (scale raw 1000, codes "A")
    else if has_prefix sensor (codes "power")
    then (scale raw 1_000_000, codes "W")
    else if has_prefix sensor (codes "energy")
    then (scale raw 1_000_000, codes "J")
    else if has_prefix sensor (codes "fan")
    then (raw, codes "RPM")
    else (raw, [])

-- `parse_float` is `strconv.ParseFloat`, with `none` for an error.
module _ {F : Type 0} (read : Bytes → Option Bytes) (parse_float : Bytes → Option F)
    (scale : F → ℕ → F) where
  abbrev pub label_of : Bytes → Bytes → Bytes
  label_of dir sensor =
      let label = read_attribute read dir (sensor ++ codes "_label") in
      if is_empty label then sensor else label

  unfoldable pub hwmon_reading : Bytes → Bytes → Bytes → List (HwmonReading F)
  hwmon_reading dir chip name =
      let sensor = trim_suffix name (codes "_input") in
      if has_suffix name (codes "_input")
      then elim (parse_float (read_attribute read dir name)) [
        | none ↦ []
        | some n ↦
            (record {
              chip = chip;
              label = label_of dir sensor;
              sensor = sensor;
              value = (scale_hwmon scale sensor n).0;
              unit = (scale_hwmon scale sensor n).1;
            })
            ∷ []
      ]
      else []

  unfoldable pub hwmon_files : Bytes → Bytes → List Bytes → List (HwmonReading F)
  hwmon_files dir chip [] = []
  hwmon_files dir chip (name ∷ names) = hwmon_reading dir chip name ++ hwmon_files dir chip names

  -- `list` gives the files of a chip's directory; a chip that cannot be listed is left out.
  unfoldable pub hwmon_chips :
      (Bytes → Option (List Bytes)) → Bytes → List Bytes → List (HwmonReading F)
  hwmon_chips list chips [] = []
  hwmon_chips list chips (name ∷ names) =
      let dir = path_join chips name in
      elim (list dir) [
        | none ↦ hwmon_chips list chips names
        | some files ↦
            hwmon_files dir (read_attribute read dir (codes "name")) files
            ++ hwmon_chips list chips names
      ]

  unfoldable pub hwmon_readings :
      (Bytes → Option (List Bytes)) → Bytes → Directory → Option (List (HwmonReading F))
  hwmon_readings list chips absent = some []
  hwmon_readings list chips unreadable = none
  hwmon_readings list chips (entries names) = some (hwmon_chips list chips names)
