-- ===== src/Aptdb/Stanza/Tests.antt =====
-- A status file of two stanzas, one of them removed with its configuration left.
use fleetmind.Common.{
  ℕ, false, ◌||◌, ◌==◌, List, [], ◌∷◌, map, reverse, Option, some, ◌≡◌, ◌<◌, refl, ◌*◌, ◌^◌, All,
  arith, length,
}
use fleetmind.Common.Dict.{lookup, insert}
use fleetmind.Common.Scanner.{unlines, IsScannable, drop_cr, scan_lines, scan_from}
use fleetmind.Common.Space.{IsTrimmed, trim_space, space_width, space_width_back, drop_spaces}
use fleetmind.Common.Text.{
  Bytes, codes, equal, index_byte, has_prefix, has_suffix, contains, trim_suffix,
}
use fleetmind.Aptdb.Upgrade.{Package}
use fleetmind.Aptdb.Stanza.{
  field, read_stanza_line, read_lines, read_field, continue_field, read_stanzas, is_installed,
  installed_of, installed_packages, package_of,
}
use fleetmind.Aptdb.Stanza.RoundTrip.{
  Field, field_key, IsField, IsStanza, entry, file_lines, read_stanzas-file,
}

abbrev plain : ℕ → Bytes → Bytes → Field
plain c key_rest value = record { initial = c; key_rest = key_rest; value = value; more = [] }

abbrev name_field : Field
name_field = plain b'P' (codes "ackage") (codes "bash")

abbrev status_field : Field
status_field = plain b'S' (codes "tatus") (codes "install ok installed")

abbrev removed_field : Field
removed_field = plain b'S' (codes "tatus") (codes "deinstall ok config-files installed")

abbrev text_field : Field
text_field = record {
  initial = b'D';
  key_rest = codes "escription";
  value = codes "a shell";
  more = codes "of GNU" ∷ codes "." ∷ [];
}

abbrev status_file : List (List Field)
status_file = (name_field ∷ status_field ∷ text_field ∷ []) ∷ (name_field ∷ removed_field ∷ []) ∷ []

scannable :
    (line : Bytes)
    → All (λ c. (c == 10) ≡ false) line
    → length line < 4 * 2 ^ 20
    → drop_cr line ≡ line
    → IsScannable (4 * 2 ^ 20) line
scannable line h k e = record { one_line = h; fits = k; no_cr = e }

valid :
    (f : Field)
    → (f.initial == b' ' || f.initial == 9) ≡ false
    → All (λ c. (c == b':') ≡ false) (field_key f)
    → IsTrimmed f.value
    → All IsTrimmed f.more
    → IsField f
valid f h k t u = record { starts = h; no_colon = k; trimmed = t; more_trimmed = u }

-- All that reading computes with.
computed : Bytes → Option (List Package)
unfolding installed_packages installed_of is_installed read_stanzas read_lines read_stanza_line
    read_field continue_field field lookup insert scan_lines scan_from drop_cr trim_suffix
    has_suffix has_prefix contains equal index_byte trim_space drop_spaces space_width
    space_width_back
computed = installed_packages

one_installed :
    installed_packages (unlines (file_lines status_file))
    ≡ some (package_of (map entry (name_field ∷ status_field ∷ text_field ∷ [])) ∷ [])
unfolding computed
one_installed = refl

trimmed : (s : Bytes) → space_width s ≡ 0 → space_width_back (reverse s) ≡ 0 → IsTrimmed s
trimmed s h k = record { front = h; back = k }

name_field-IsField : IsField name_field
unfolding computed
name_field-IsField = valid name_field refl (ground arith) (trimmed (codes "bash") refl refl) tt

status_field-IsField : IsField status_field
unfolding computed
status_field-IsField =
    valid status_field refl (ground arith) (trimmed (codes "install ok installed") refl refl) tt

removed_field-IsField : IsField removed_field
unfolding computed
removed_field-IsField =
    valid removed_field refl (ground arith)
      (trimmed (codes "deinstall ok config-files installed") refl refl) tt

text_field-IsField : IsField text_field
unfolding computed
text_field-IsField =
    valid text_field refl (ground arith) (trimmed (codes "a shell") refl refl)
      (trimmed (codes "of GNU") refl refl, (trimmed (codes ".") refl refl, tt))

status_file-IsStanza : All IsStanza status_file
unfolding computed
status_file-IsStanza = (
  record {
    some_field = λ e. ground arith;
    fields = (name_field-IsField, (status_field-IsField, (text_field-IsField, tt)));
    keys = (refl, (refl, (refl, tt)));
  },
  (
    record {
      some_field = λ e. ground arith;
      fields = (name_field-IsField, (removed_field-IsField, tt));
      keys = (refl, (refl, tt));
    },
    tt,
  ),
)

status_file-IsScannable : All (IsScannable (4 * 2 ^ 20)) (file_lines status_file)
unfolding computed
status_file-IsScannable = (
  scannable (codes "Package: bash") (ground arith) (omega arith) refl,
  (
    scannable (codes "Status: install ok installed") (ground arith) (omega arith) refl,
    (
      scannable (codes "Description: a shell") (ground arith) (omega arith) refl,
      (
        scannable (codes " of GNU") (ground arith) (omega arith) refl,
        (
          scannable (codes " .") (ground arith) (omega arith) refl,
          (
            scannable [] tt (omega arith) refl,
            (
              scannable (codes "Package: bash") (ground arith) (omega arith) refl,
              (
                scannable (codes "Status: deinstall ok config-files installed") (ground arith)
                    (omega arith) refl,
                (scannable [] tt (omega arith) refl, tt),
              ),
            ),
          ),
        ),
      ),
    ),
  ),
)

read_stanzas-file_example :
    read_stanzas (unlines (file_lines status_file)) ≡ (map (map entry) status_file, false)
read_stanzas-file_example =
    read_stanzas-file status_file status_file-IsStanza status_file-IsScannable
