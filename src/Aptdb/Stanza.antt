-- ===== src/Aptdb/Stanza.antt =====
-- internal/aptdb/aptdb.go, `readStanzas` and `InstalledPackages`.
pub mod RoundTrip
mod Tests
use fleetmind.Common.{
  ℕ, suc, ◌*◌, ◌^◌, Bool, true, false, not, ◌&&◌, ◌||◌, List, [], ◌∷◌, ◌++◌, Option, none, some,
  ◌==◌, if◌then◌else◌, take, drop,
}
use fleetmind.Common.Dict.{Dict, lookup, insert}
use fleetmind.Common.Scanner.{scan_lines}
use fleetmind.Common.Space.{trim_space}
use fleetmind.Common.Text.{Bytes, codes, is_empty, index_byte, has_prefix, contains}
use fleetmind.Aptdb.Upgrade.{Package}

abbrev pub Stanza : Type 0
Stanza = Dict Bytes

-- `s[k]`, with the zero value for a missing key.
unfoldable pub field : Bytes → Stanza → Bytes
field k s = elim (lookup k s) [ none ↦ [] | some v ↦ v ]

-- The loop's variables.
pub record StanzaReader : Type 0 where
  pub cur : Stanza
  pub last_key : Bytes

abbrev pub no_stanza : StanzaReader
no_stanza = record { cur = []; last_key = [] }

-- `if len(cur) > 0 { emit(cur) }`
abbrev pub emit : Stanza → List Stanza
emit [] = []
emit (e ∷ s) = (e ∷ s) ∷ []

abbrev pub after_emit : StanzaReader → StanzaReader
after_emit r = elim r.cur [ [] ↦ r | e ∷ s ↦ no_stanza ]

-- A line that begins with white space.
unfoldable pub continue_field : StanzaReader → Bytes → StanzaReader
continue_field r line = if is_empty r.last_key then r else record r {
  cur = insert r.last_key (field r.last_key r.cur ++ (10 ∷ trim_space line)) r.cur;
}

-- A line that is not empty and begins with something else.
unfoldable pub read_field : StanzaReader → Bytes → StanzaReader
read_field r line = elim (index_byte b':' line) [
  | none ↦ r
  | some colon ↦ record {
    cur = insert (take colon line) (trim_space (drop (suc colon) line)) r.cur;
    last_key = take colon line;
  }
]

unfoldable pub read_stanza_line : StanzaReader → Bytes → StanzaReader × List Stanza
read_stanza_line r [] = (after_emit r, emit r.cur)
read_stanza_line r (c ∷ line) =
    if c == b' ' || c == 9 then (continue_field r (c ∷ line), []) else (read_field r (c ∷ line), [])

-- What is emitted, in order.
unfoldable pub read_lines : StanzaReader → List Bytes → List Stanza
read_lines r [] = emit r.cur
read_lines r (line ∷ lines) = let (r', out) = read_stanza_line r line in out ++ read_lines r' lines

-- The stanzas of a file, and whether the scanner ended with an error.
unfoldable pub read_stanzas : Bytes → List Stanza × Bool
read_stanzas text =
    let (lines, failed) = scan_lines (4 * 2 ^ 20) text in (read_lines no_stanza lines, failed)

abbrev pub package_of : Stanza → Package
package_of s = record {
  name = field (codes "Package") s;
  version = field (codes "Version") s;
  architecture = field (codes "Architecture") s;
  status = field (codes "Status") s;
  source = field (codes "Source") s;
  section = field (codes "Section") s;
  priority = field (codes "Priority") s;
}

unfoldable pub is_installed : Stanza → Bool
is_installed s =
    let status = field (codes "Status") s in
    contains status (codes "installed") && not (has_prefix status (codes "deinstall"))

unfoldable pub installed_of : List Stanza → List Package
installed_of [] = []
installed_of (s ∷ ss) =
    let rest = installed_of ss in if is_installed s then package_of s ∷ rest else rest

-- `InstalledPackages` on what /var/lib/dpkg/status holds, with `none` for an error.
unfoldable pub installed_packages : Bytes → Option (List Package)
installed_packages text =
    let (stanzas, failed) = read_stanzas text in
    if failed then none else some (installed_of stanzas)
