-- ===== src/Aptdb/Reboot.antt =====
-- internal/aptdb/aptdb.go, `RebootRequired`: the packages that ask for a reboot.
pub mod Listed
mod Tests
use fleetmind.Common.{ℕ, Bool, true, false, ◌||◌, List, [], ◌∷◌, ◌++◌, ◌==◌, if◌then◌else◌}
use fleetmind.Common.Keyed.{by_key, self_key}
use fleetmind.Common.Sort.{sort_by}
use fleetmind.Common.Space.{trim_space}
use fleetmind.Common.Text.{Bytes, equal, is_empty, is_seen}

-- `strings.Split(s, "\n")`, behind what `line` has of the first part.
unfoldable pub split_from : Bytes → Bytes → List Bytes
split_from line [] = line ∷ []
split_from line (c ∷ s) =
    let next = split_from [] s in
    let more = split_from (line ++ (c ∷ [])) s in if c == 10 then line ∷ next else more

-- The loop; what was seen is what is in `pkgs`.
unfoldable pub collect : List Bytes → List Bytes → List Bytes
collect pkgs [] = pkgs
collect pkgs (line ∷ lines) =
    let name = trim_space line in
    let skip = collect pkgs lines in
    let add = collect (pkgs ++ (name ∷ [])) lines in
    if is_empty name || is_seen name pkgs then skip else add

-- What is returned for the content of /var/run/reboot-required.pkgs.
unfoldable pub reboot_packages : Bytes → List Bytes
reboot_packages text = sort_by (by_key self_key) (collect [] (split_from [] text))

-- What looking for a file, or reading it, gives.
pub data FileResult : Type 0 where
  missing : FileResult
  failed : FileResult
  content : Bytes → FileResult

-- The three results, with `true` in the last for an error; the first file is only looked for.
unfoldable pub reboot_required : FileResult → FileResult → Bool × List Bytes × Bool
reboot_required missing pkgs = (false, [], false)
reboot_required failed pkgs = (false, [], true)
reboot_required (content b) missing = (true, [], false)
reboot_required (content b) failed = (true, [], true)
reboot_required (content b) (content text) = (true, reboot_packages text, false)
