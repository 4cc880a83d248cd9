-- ===== src/Procfs/Mounts/Tests.antt =====
-- A mount table of two lines.
use fleetmind.Common.Number.{itoa, decimal_from, atoi_value, parse_uint, uint_from, is_digit}
use fleetmind.Common.Space.{fields, is_graphic, fields_from, IsWord, space_width}
use fleetmind.Common.Int.{pos}
use fleetmind.Common.{
  arith, map, ◌∷◌, ◌≡◌, [], false, none, some, All, true, Option, List, Bool, refl,
}
use fleetmind.Common.Scanner.{unlines, drop_cr, scan_from, scan_lines}
use fleetmind.Procfs.Mounts.RoundTrip.{IsMount, print_mount, mounts-print}
use fleetmind.Procfs.Mounts.{MountEntry, mounts, parse_mounts, parse_mount, mount_entry, index_dash}
use fleetmind.Common.Text.{
  Bytes, codes, is_empty, cut, equal, has_prefix, has_suffix, index_byte, trim_suffix,
}

abbrev root_mount : MountEntry
root_mount = record {
  mount_id = pos 29;
  parent_id = pos 1;
  dev_major = pos 253;
  dev_minor = pos 0;
  root = codes "/";
  mount_point = codes "/";
  options = codes "rw,relatime";
  optional_fields = codes "shared:1" ∷ [];
  fs_type = codes "ext4";
  source = codes "/dev/vda1";
  super_options = codes "rw";
}

-- All that reading a table computes with.
computed : Bytes → Option (List MountEntry × Bool)
unfolding mounts parse_mounts parse_mount mount_entry index_dash fields fields_from space_width itoa
    decimal_from atoi_value parse_uint uint_from is_digit cut index_byte equal scan_lines scan_from
    drop_cr trim_suffix has_suffix has_prefix
computed = mounts

one_mount :
    mounts (codes "29 1 253:0 / / rw,relatime shared:1 - ext4 /dev/vda1 rw\nshort line\n")
    ≡ some (root_mount ∷ [], false)
unfolding computed
one_mount = refl

-- A line that the kernel does not print.
early_dash : mounts (codes "1 2 3:4 - a b c d e f g\n") ≡ none
unfolding computed
early_dash = refl

word : (s : Bytes) → is_empty s ≡ false → All (λ c. is_graphic c ≡ true) s → IsWord s
word s h k = record { some_byte = h; graphic = k }

root_mount-IsMount : IsMount root_mount
unfolding computed
root_mount-IsMount = record {
  mount_id = record { value = 29; is_pos = refl; fits = omega arith };
  parent_id = record { value = 1; is_pos = refl; fits = omega arith };
  dev_major = record { value = 253; is_pos = refl; fits = omega arith };
  dev_minor = record { value = 0; is_pos = refl; fits = omega arith };
  names = (
    word (codes "/") refl (ground arith),
    (word (codes "/") refl (ground arith), (word (codes "rw,relatime") refl (ground arith), tt)),
  );
  no_dash = (refl, (refl, (refl, tt)));
  optional_fields = (word (codes "shared:1") refl (ground arith), tt);
  no_optional_dash = (refl, tt);
  behind = (
    word (codes "ext4") refl (ground arith),
    (word (codes "/dev/vda1") refl (ground arith), (word (codes "rw") refl (ground arith), tt)),
  );
}

mounts-print_example :
    mounts (unlines (map print_mount (root_mount ∷ []))) ≡ some (root_mount ∷ [], false)
unfolding computed
mounts-print_example =
    mounts-print (root_mount ∷ []) (root_mount-IsMount, tt)
      (record { one_line = ground arith; fits = omega arith; no_cr = refl }, tt)
