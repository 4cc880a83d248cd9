-- ===== src/Host/System/Tests.antt =====
-- Only the host's file is there.
use fleetmind.Common.{Bool, true, ◌∷◌, Option, [], ◌≡◌, if◌then◌else◌, refl, some}
use fleetmind.Common.Dict.{insert, Dict}
use fleetmind.Common.Scanner.{drop_cr, scan_from, scan_lines}
use fleetmind.Host.System.{
  first_release, os_release_line, os_release_lines, read_os_release, trim_quotes, uts_string,
}
use fleetmind.Common.Text.{cut, equal, index_byte, trim_left, trim_right, Bytes, codes}

abbrev open_file : Bytes → Option Bytes
open_file path =
    if equal path (codes "/var/lib/snapd/hostfs/etc/os-release")
    then some (codes "NAME=\"Ubuntu\"\nbroken\nID=ubuntu\n")
    else some (codes "NAME=\"Ubuntu Core\"\n")

computed : Bool → Dict Bytes
unfolding read_os_release first_release os_release_lines os_release_line trim_quotes trim_right
    trim_left cut index_byte insert equal scan_lines scan_from drop_cr uts_string
computed = read_os_release open_file

host_release :
    read_os_release open_file true
    ≡ (codes "NAME", codes "Ubuntu") ∷ (codes "ID", codes "ubuntu") ∷ []
unfolding computed
host_release = refl

up_to_zero : uts_string (b'a' ∷ 0 ∷ b'b' ∷ []) ≡ codes "a"
unfolding computed
up_to_zero = refl
