-- ===== src/Procfs/Meminfo/Tests.antt =====
-- A table of two sizes and two numbers.
use fleetmind.Common.{arith, map, ◌≡◌, ℕ, ◌∷◌, Bool, [], false, refl}
use fleetmind.Procfs.Meminfo.Sizes.{kb, bare, other, IsSize, Size, print_size, meminfo-print}
use fleetmind.Common.Space.{
  drop_spaces, fields, fields_from, space_width, space_width_back, trim_space,
}
use fleetmind.Procfs.Meminfo.{is_kb, meminfo, meminfo_line, meminfo_lines}
use fleetmind.Common.Text.{index_byte, Bytes, codes, equal}
use fleetmind.Common.Scanner.{drop_cr, scan_from, scan_lines, unlines}
use fleetmind.Common.Dict.{insert, lookup, Dict}
use fleetmind.Common.Number.{decimal_from, is_digit, itoa, parse_uint, uint_from}

abbrev total : Size
total = record { name = codes "MemTotal"; number = 16316412; suffix = kb; padding = 7 }

abbrev free : Size
free = record { name = codes "MemFree"; number = 931; suffix = kb; padding = 2 }

abbrev huge : Size
huge = record { name = codes "HugePages_Total"; number = 4; suffix = bare; padding = 7 }

abbrev pages : Size
pages = record { name = codes "Pages"; number = 5; suffix = other (codes "MB"); padding = 1 }

-- All that reading a table computes with.
computed : Bytes → Dict ℕ × Bool
unfolding meminfo meminfo_lines meminfo_line is_kb fields fields_from space_width space_width_back
    drop_spaces trim_space itoa decimal_from parse_uint uint_from is_digit index_byte scan_lines
    scan_from drop_cr insert lookup equal
computed = meminfo

free_only :
    meminfo (codes "MemFree: 3 kB\nHugePages_Total:  4\nbroken\nx: y\n")
    ≡ ((codes "MemFree", 3072) ∷ (codes "HugePages_Total", 4) ∷ [], false)
unfolding computed
free_only = refl

total-IsSize : IsSize total
unfolding computed
total-IsSize = record {
  trimmed = record { front = refl; back = refl };
  no_colon = ground arith;
  apart = tt;
  fits = omega arith;
}

free-IsSize : IsSize free
unfolding computed
free-IsSize = record {
  trimmed = record { front = refl; back = refl };
  no_colon = ground arith;
  apart = tt;
  fits = omega arith;
}

huge-IsSize : IsSize huge
unfolding computed
huge-IsSize = record {
  trimmed = record { front = refl; back = refl };
  no_colon = ground arith;
  apart = tt;
  fits = omega arith;
}

pages-IsSize : IsSize pages
unfolding computed
pages-IsSize = record {
  trimmed = record { front = refl; back = refl };
  no_colon = ground arith;
  apart = (record { some_byte = refl; graphic = ground arith }, refl, refl, refl, refl);
  fits = omega arith;
}

meminfo-print_example : meminfo (unlines (map print_size (total ∷ free ∷ huge ∷ pages ∷ []))) ≡ (
  (codes "MemTotal", 16708005888)
      ∷ (codes "MemFree", 953344)
      ∷ (codes "HugePages_Total", 4)
      ∷ (codes "Pages", 5)
      ∷ [],
  false,
)
unfolding computed
meminfo-print_example =
    meminfo-print (total ∷ free ∷ huge ∷ pages ∷ [])
      (total-IsSize, (free-IsSize, (huge-IsSize, (pages-IsSize, tt))))
      (
        record { one_line = ground arith; fits = omega arith; no_cr = refl },
        (
          record { one_line = ground arith; fits = omega arith; no_cr = refl },
          (
            record { one_line = ground arith; fits = omega arith; no_cr = refl },
            (record { one_line = ground arith; fits = omega arith; no_cr = refl }, tt),
          ),
        ),
      )
