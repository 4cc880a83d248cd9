-- ===== src/Aptdb/Reboot/Tests.antt =====
-- A marker file that names a package twice.
use fleetmind.Common.{List, [], ◌∷◌, ◌≡◌, refl}
use fleetmind.Common.Sort.{sort_by}
use fleetmind.Common.Space.{trim_space, space_width, space_width_back, drop_spaces}
use fleetmind.Common.Text.{Bytes, codes, equal, before, is_seen}
use fleetmind.Aptdb.Reboot.{split_from, collect, reboot_packages}

abbrev marker : Bytes
marker = codes "linux-base\nlibc6\n linux-base\n\n"

-- All that the result is computed with.
computed : Bytes → List Bytes
unfolding reboot_packages split_from collect is_seen sort_by trim_space space_width space_width_back
    drop_spaces equal before
computed = reboot_packages

two_names : reboot_packages marker ≡ codes "libc6" ∷ codes "linux-base" ∷ []
unfolding computed
two_names = refl
