-- ===== src/Aptdb/Index.antt =====
-- internal/aptdb/aptdb.go: /var/lib/apt/lists, its Packages indexes and their Release files.
pub mod Release
mod Tests
use fleetmind.Common.{
  ℕ, suc, ◌*◌, ◌^◌, Bool, true, false, not, ◌&&◌, ◌||◌, List, [], ◌∷◌, ◌++◌, Option, none, some,
  if◌then◌else◌, take, drop,
}
use fleetmind.Common.Dict.{Dict, lookup, insert}
use fleetmind.Common.Scanner.{scan_lines}
use fleetmind.Common.Space.{trim_space}
use fleetmind.Common.Text.{
  Bytes, codes, equal, is_empty, has_prefix, has_suffix, trim_suffix, cut, last_index,
  last_index_byte,
}
use fleetmind.Aptdb.Stanza.{Stanza, field, read_stanzas, installed_packages}
use fleetmind.Aptdb.Upgrade.{AvailableEntry, UpgradeInfo, upgradable_packages}

unfoldable pub is_packages_index : Bytes → Bool
is_packages_index name =
    has_suffix name (codes "_Packages") || has_suffix name (codes "_Packages.gz")

pub record ReleaseInfo : Type 0 where
  pub origin : Bytes
  pub suite : Bytes

abbrev pub no_info : ReleaseInfo
no_info = record { origin = []; suite = [] }

abbrev pub begin_pgp : Bytes
begin_pgp = codes "-----BEGIN PGP"

abbrev pub begin_signature : Bytes
begin_signature = codes "-----BEGIN PGP SIGNATURE-----"

-- The switch on the key, at the trimmed value.
unfoldable pub set_info : Bytes → Bytes → ReleaseInfo → ReleaseInfo
set_info k v out =
    if equal k (codes "Origin")
    then record out { origin = v }
    else if equal k (codes "Suite")
    then record out { suite = v }
    else if equal k (codes "Codename")
    then (if is_empty out.suite then record out { suite = v } else out)
    else out

unfoldable pub read_info : Bytes → ReleaseInfo → ReleaseInfo
read_info line out =
    let (k, v, ok) = cut b':' line in if ok then set_info k (trim_space v) out else out

-- The loop, at `inEnvelope` and `pastEnvelopeHeader`: the info, and whether the loop ended by a
-- break, behind which the scanner has no error.
unfoldable pub release_lines : Bool → Bool → ReleaseInfo → List Bytes → ReleaseInfo × Bool
release_lines in_envelope past_header out [] = (out, false)
release_lines in_envelope past_header out (line ∷ lines) =
    let enter = release_lines true past_header out lines in
    let header = release_lines in_envelope (is_empty line) out lines in
    let next = release_lines in_envelope past_header (read_info line out) lines in
    if not in_envelope && not past_header && has_prefix line begin_pgp
    then enter
    else if in_envelope && not past_header
    then header
    else if is_empty line
    then (out, true)
    else if has_prefix line begin_signature
    then (out, true)
    else next

-- `none` stands for an error.
unfoldable pub parse_release : Bytes → Option ReleaseInfo
parse_release text =
    let (lines, failed) = scan_lines (4 * 2 ^ 20) text in
    let (out, broke) = release_lines false false no_info lines in
    if failed && not broke then none else some out

-- An entry of the directory, with what reading its file gives.
pub record DirEntry : Type 0 where
  pub name : Bytes
  pub is_dir : Bool
  pub content : Option Bytes

-- The part of a Release file's name in front of its suffix.
unfoldable pub release_prefix : Bytes → Option Bytes
release_prefix name =
    if has_suffix name (codes "_InRelease")
    then some (trim_suffix name (codes "_InRelease"))
    else if has_suffix name (codes "_Release")
    then some (trim_suffix name (codes "_Release"))
    else none

abbrev add_release : Bytes → Option ReleaseInfo → Dict ReleaseInfo → Dict ReleaseInfo
add_release prefix none out = out
add_release prefix (some info) out = elim (lookup prefix out) [
  | none ↦ insert prefix info out
  | some recorded ↦ out
]

abbrev parse_content : Option Bytes → Option ReleaseInfo
parse_content none = none
parse_content (some text) = parse_release text

-- One turn of the loop.
unfoldable pub load_release : DirEntry → Dict ReleaseInfo → Dict ReleaseInfo
load_release e out = if e.is_dir then out else elim (release_prefix e.name) [
  | none ↦ out
  | some prefix ↦ add_release prefix (parse_content e.content) out
]

unfoldable pub load_release_files : List DirEntry → Dict ReleaseInfo → Dict ReleaseInfo
load_release_files [] out = out
load_release_files (e ∷ entries) out = load_release_files entries (load_release e out)

-- Origin, suite and component of an index.
unfoldable pub lookup_release : Bytes → Dict ReleaseInfo → Bytes × Bytes × Bytes
lookup_release packages_file releases =
    let trimmed = trim_suffix (trim_suffix packages_file (codes ".gz")) (codes "_Packages") in
    elim (last_index trimmed (codes "_binary-")) [
      | none ↦ ([], [], [])
      | some b ↦ elim (last_index_byte b'_' (take b trimmed)) [
        | none ↦ ([], [], [])
        | some c ↦
            let component = drop (suc c) (take b trimmed) in
            elim (lookup (take c (take b trimmed)) releases) [
              | none ↦ ([], [], component)
              | some info ↦ (info.origin, info.suite, component)
            ]
      ]
    ]

abbrev pub Available : Type 0
Available = Dict (List AvailableEntry)

-- `out[name]`, with nil for a missing key.
unfoldable pub candidates : Bytes → Available → List AvailableEntry
candidates name out = elim (lookup name out) [ none ↦ [] | some cands ↦ cands ]

-- What is done with each stanza of an index.
unfoldable pub add_stanza : Bytes × Bytes × Bytes → Bytes → Stanza → Available → Available
add_stanza (origin, suite, component) filename s out =
    let name = field (codes "Package") s in
    let e : AvailableEntry = record {
      version = field (codes "Version") s;
      architecture = field (codes "Architecture") s;
      origin = origin;
      suite = suite;
      component = component;
      filename = filename;
    } in
    if is_empty name then out else insert name (candidates name out ++ (e ∷ [])) out

unfoldable pub add_stanzas : Bytes × Bytes × Bytes → Bytes → List Stanza → Available → Available
add_stanzas release filename [] out = out
add_stanzas release filename (s ∷ ss) out =
    add_stanzas release filename ss (add_stanza release filename s out)

-- `gunzip` is package compress/gzip, with `none` for an error.
module _ (gunzip : Bytes → Option Bytes) where
  abbrev read_index : DirEntry → Option Bytes
  read_index e = elim e.content [
    | none ↦ none
    | some text ↦ if has_suffix e.name (codes ".gz") then gunzip text else some text
  ]

  unfoldable pub parse_packages_index :
      DirEntry → Bytes × Bytes × Bytes → Available → Option Available
  parse_packages_index e release out = elim (read_index e) [
    | none ↦ none
    | some text ↦
        let (stanzas, failed) = read_stanzas text in
        if failed then none else some (add_stanzas release e.name stanzas out)
  ]

  -- The loop over the directory, behind its Release files.
  unfoldable pub index_entries : Dict ReleaseInfo → List DirEntry → Available → Option Available
  index_entries releases [] out = some out
  index_entries releases (e ∷ entries) out =
      let skip = index_entries releases entries out in
      if e.is_dir || not (is_packages_index e.name)
      then skip
      else elim (parse_packages_index e (lookup_release e.name releases) out) [
        | none ↦ none
        | some out' ↦ index_entries releases entries out'
      ]

  unfoldable pub available_packages : List DirEntry → Option Available
  available_packages entries = index_entries (load_release_files entries []) entries []

  -- `UpgradablePackages` behind its two readers; the status file is `none` if it cannot be read.
  unfoldable pub list_upgrades : Option Bytes → List DirEntry → Option (List UpgradeInfo)
  list_upgrades none entries = none
  list_upgrades (some status) entries = elim (installed_packages status) [
    | none ↦ none
    | some installed ↦ elim (available_packages entries) [
      | none ↦ none
      | some available ↦ some (upgradable_packages available installed)
    ]
  ]
