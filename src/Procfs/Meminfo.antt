-- ===== src/Procfs/Meminfo.antt =====
-- internal/procfs/procfs.go, `MemInfo` and `parseKBytes`, with internal/tools/memory.go.
pub mod Sizes
mod Tests
use fleetmind.Common.Number.{parse_uint}
use fleetmind.Common.Scanner.{scan_lines}
use fleetmind.Common.Space.{fields, trim_space}
use fleetmind.Common.Text.{Bytes, codes, index_byte}
use fleetmind.Common.Dict.{Dict, lookup, insert}
use fleetmind.Common.{
  List, Option, ℕ, Bool, some, ◌+◌, ◌∷◌, [], if◌then◌else◌, ◌==◌, ◌^◌, none, ◌*◌, ◌-◌, ◌||◌, ◌%◌,
  ◌&&◌, false, take, drop, suc,
}

-- `strings.EqualFold(s, "kB")`; the k folds with the Kelvin sign too.
unfoldable pub is_kb : Bytes → Bool
is_kb (k ∷ b ∷ []) = (k == b'k' || k == b'K') && (b == b'b' || b == b'B')
is_kb (k ∷ l ∷ m ∷ b ∷ []) = k == 0xE2 && l == 0x84 && m == 0xAA && (b == b'b' || b == b'B')
is_kb _ = false

-- `n *= 1024` on a uint64, if the second field is the unit.
abbrev pub scaled : ℕ → List Bytes → ℕ
scaled n [] = n
scaled n (unit ∷ more) = if is_kb unit then n * 1024 % 2 ^ 64 else n

-- What a line stores under its key.
abbrev pub store_fields : Bytes → List Bytes → Dict ℕ → Dict ℕ
store_fields key [] out = out
store_fields key (f ∷ fs) out =
    let (n, ok) = parse_uint f in if ok then insert key (scaled n fs) out else out

unfoldable pub meminfo_line : Bytes → Dict ℕ → Dict ℕ
meminfo_line line out = elim (index_byte b':' line) [
  | none ↦ out
  | some colon ↦
      store_fields (trim_space (take colon line)) (fields (trim_space (drop (suc colon) line))) out
]

unfoldable pub meminfo_lines : List Bytes → Dict ℕ → Dict ℕ
meminfo_lines [] out = out
meminfo_lines (line ∷ lines) out = meminfo_lines lines (meminfo_line line out)

unfoldable pub meminfo : Bytes → Dict ℕ × Bool
meminfo text = let (lines, failed) = scan_lines (2 ^ 16) text in (meminfo_lines lines [], failed)

unfoldable pub parse_kbytes : Bytes → ℕ
parse_kbytes s = elim (fields s) [ [] ↦ 0 | f ∷ fs ↦ scaled (parse_uint f).0 fs ]

-- `m[key]`, with 0 for a missing key.
unfoldable pub size_of : Bytes → Dict ℕ → ℕ
size_of key m = elim (lookup key m) [ none ↦ 0 | some n ↦ n ]

pub record MemoryInfo : Type 0 where
  pub total_bytes : ℕ
  pub free_bytes : ℕ
  pub available_bytes : ℕ
  pub buffers_bytes : ℕ
  pub cached_bytes : ℕ
  pub swap_total_bytes : ℕ
  pub swap_free_bytes : ℕ
  pub raw : Dict ℕ

unfoldable pub memory_out : Dict ℕ → MemoryInfo
memory_out m = record {
  total_bytes = size_of (codes "MemTotal") m;
  free_bytes = size_of (codes "MemFree") m;
  available_bytes = size_of (codes "MemAvailable") m;
  buffers_bytes = size_of (codes "Buffers") m;
  cached_bytes = size_of (codes "Cached") m;
  swap_total_bytes = size_of (codes "SwapTotal") m;
  swap_free_bytes = size_of (codes "SwapFree") m;
  raw = m;
}

-- `out.TotalBytes - out.AvailableBytes` on uint64, for the summary.
unfoldable pub used_bytes : MemoryInfo → ℕ
used_bytes out = (out.total_bytes + 2 ^ 64 - out.available_bytes) % 2 ^ 64

-- The memory_info tool, with `none` for an error.
unfoldable pub memory_info : Option Bytes → Option MemoryInfo
memory_info none = none
memory_info (some text) =
    let (m, failed) = meminfo text in if failed then none else some (memory_out m)
