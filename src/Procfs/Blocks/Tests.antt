-- ===== src/Procfs/Blocks/Tests.antt =====
-- What the parsers make of small files.
use fleetmind.Common.Int.{pos}
use fleetmind.Common.{length, List, ◌≡◌, none, some, Bool, ◌∷◌, [], refl, false}
use fleetmind.Common.Space.{
  drop_spaces, fields, fields_from, space_width, space_width_back, trim_space,
}
use fleetmind.Common.Scanner.{drop_cr, scan_from, scan_lines}
use fleetmind.Common.Dict.{insert, lookup}
use fleetmind.Common.Number.{atoi_value, is_digit, parse_uint, uint_from}
use fleetmind.Common.Text.{
  equal, has_prefix, has_suffix, index_byte, trim_left, trim_right, trim_suffix, Bytes, codes,
}
use fleetmind.Procfs.Blocks.{
  cpuinfo, cpuinfo_field, cpuinfo_lines, load_avg, load_fields, module_lines, modules, parse_module,
  split_at, uptime, uptime_fields, CpuInfoEntry,
}

computed : Bytes → List CpuInfoEntry × Bool
unfolding cpuinfo cpuinfo_lines cpuinfo_field parse_module module_lines modules split_at load_fields
    load_avg uptime uptime_fields fields fields_from space_width space_width_back drop_spaces
    trim_space trim_right trim_left atoi_value parse_uint uint_from is_digit index_byte scan_lines
    scan_from drop_cr insert lookup equal trim_suffix has_suffix has_prefix
computed = cpuinfo

two_processors : cpuinfo (codes "processor\t: 0\nbogus\n\n\nprocessor\t: 1\n") ≡ (
  record { processor = pos 0; values = (codes "processor", codes "0") ∷ [] }
      ∷ record { processor = pos 1; values = (codes "processor", codes "1") ∷ [] }
      ∷ [],
  false,
)
unfolding computed
two_processors = refl

one_module : modules (λ s. 7) (codes "nf_nat 49152 2 nft_nat,xt_nat, Live 0x7\n") ≡ (
  record {
    name = codes "nf_nat";
    size = 49152;
    used_by = pos 2;
    dependents = codes "nft_nat" ∷ codes "xt_nat" ∷ [];
    state = codes "Live";
    offset = 7;
  }
      ∷ [],
  false,
)
unfolding computed
one_module = refl

load :
    load_avg length (codes "0.1 0.25 1 2/345 678\n")
    ≡ some (record {
      one = 3;
      five = 4;
      fifteen = 1;
      running = pos 2;
      total = pos 345;
      last_pid = pos 678;
    })
unfolding computed
load = refl

short_uptime : uptime length (codes "12.5\n") ≡ none
unfolding computed
short_uptime = refl
