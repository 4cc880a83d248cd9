-- ===== src/Host/System.antt =====
-- internal/tools/system.go.
mod Tests
use fleetmind.Common.Scanner.{scan_lines}
use fleetmind.Common.Dict.{Dict, insert}
use fleetmind.Common.{
  true, false, Bool, List, Option, ℕ, ◌==◌, ◌∷◌, [], if◌then◌else◌, none, some, ◌++◌, ◌^◌,
}
use fleetmind.Common.Text.{Bytes, codes, trim_right, cut, trim_left, is_empty}

-- `utsString`: the bytes up to the first zero; the cast of an int8 to a byte keeps its bits.
unfoldable pub uts_string : Bytes → Bytes
uts_string [] = []
uts_string (c ∷ s) = if c == 0 then [] else c ∷ uts_string s

abbrev pub is_quote : ℕ → Bool
is_quote c = c == 34

-- `strings.Trim(v, "\"")`
unfoldable pub trim_quotes : Bytes → Bytes
trim_quotes v = trim_right is_quote (trim_left is_quote v)

unfoldable pub os_release_line : Bytes → Dict Bytes → Dict Bytes
os_release_line line out =
    let (k, v, ok) = cut b'=' line in if ok then insert k (trim_quotes v) out else out

unfoldable pub os_release_lines : List Bytes → Dict Bytes → Dict Bytes
os_release_lines [] out = out
os_release_lines (line ∷ lines) out = os_release_lines lines (os_release_line line out)

abbrev pub release_paths : Bool → List Bytes
release_paths false = codes "/etc/os-release" ∷ codes "/usr/lib/os-release" ∷ []
release_paths true =
    codes "/var/lib/snapd/hostfs/etc/os-release"
    ∷ codes "/var/lib/snapd/hostfs/usr/lib/os-release"
    ∷ codes "/etc/os-release"
    ∷ codes "/usr/lib/os-release"
    ∷ []

-- `open_file` gives the content of a file, with `none` for an error of opening it. What the scanner
-- reads before an error is kept.
module _ (open_file : Bytes → Option Bytes) where
  unfoldable pub first_release : List Bytes → Dict Bytes
  first_release [] = []
  first_release (p ∷ ps) = elim (open_file p) [
    | none ↦ first_release ps
    | some text ↦ os_release_lines (scan_lines (2 ^ 16) text).0 []
  ]

  unfoldable pub read_os_release : Bool → Dict Bytes
  read_os_release in_snap = first_release (release_paths in_snap)

pub record Utsname : Type 0 where
  pub sysname : Bytes
  pub nodename : Bytes
  pub release : Bytes
  pub machine : Bytes

pub record SystemInfo (F : Type 0) : Type 0 where
  pub hostname : Bytes
  pub kernel : Bytes
  pub kernel_release : Bytes
  pub architecture : Bytes
  pub os_release : Dict Bytes
  pub uptime_sec : F

module _ {F : Type 0} (zero_sec : F) where
  -- `Uname` and `os.Hostname` may fail.
  unfoldable pub system_info :
      Option Utsname → Option Bytes → Dict Bytes → Option (F × F) → SystemInfo F
  system_info u host release up =
      let name : Bytes = elim u [ none ↦ [] | some n ↦ uts_string n.nodename ] in
      record {
        hostname = if is_empty name then elim host [ none ↦ name | some h ↦ h ] else name;
        kernel = elim u [
          | none ↦ []
          | some n ↦ uts_string n.sysname ++ (b' ' ∷ uts_string n.release)
        ];
        kernel_release = elim u [ none ↦ [] | some n ↦ uts_string n.release ];
        architecture = elim u [ none ↦ [] | some n ↦ uts_string n.machine ];
        os_release = release;
        uptime_sec = elim up [ none ↦ zero_sec | some t ↦ t.0 ];
      }
