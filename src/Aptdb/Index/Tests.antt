-- ===== src/Aptdb/Index/Tests.antt =====
-- An InRelease file, and the name of one of its indexes.
use fleetmind.Common.{Bool, false, List, [], ◌∷◌, ◌++◌, ◌≡◌, refl, arith}
use fleetmind.Common.Dict.{lookup}
use fleetmind.Common.Space.{trim_space, space_width, space_width_back, drop_spaces}
use fleetmind.Common.Text.{
  Bytes, codes, equal, index_byte, last_index, last_index_byte, has_prefix, has_suffix, trim_suffix,
  cut,
}
use fleetmind.Aptdb.Index.{
  ReleaseInfo, no_info, release_lines, read_info, set_info, lookup_release, is_packages_index,
}
use fleetmind.Aptdb.Index.Release.{release_lines_signed}

abbrev ubuntu : ReleaseInfo
ubuntu = record { origin = codes "Ubuntu"; suite = codes "jammy-security" }

abbrev body : List Bytes
body = codes "Origin: Ubuntu" ∷ codes "Codename: jammy" ∷ codes "Suite: jammy-security" ∷ []

abbrev armor : Bytes
armor = codes "-----BEGIN PGP SIGNED MESSAGE-----"

abbrev signature : Bytes
signature = codes "-----BEGIN PGP SIGNATURE-----"

-- All that the two functions compute with.
computed : List Bytes → ReleaseInfo × Bool
unfolding release_lines read_info set_info lookup_release is_packages_index lookup trim_space
    space_width space_width_back drop_spaces equal index_byte last_index last_index_byte has_prefix
    has_suffix trim_suffix cut
computed = release_lines false false no_info

plain_release : release_lines false false no_info body ≡ (ubuntu, false)
unfolding computed
plain_release = refl

release_lines_signed_example :
    (release_lines false false no_info
      (armor ∷ ((codes "Hash: SHA512" ∷ []) ++ ([] ∷ (body ++ (signature ∷ [])))))).0
    ≡ (release_lines false false no_info body).0
unfolding computed
release_lines_signed_example =
    release_lines_signed armor (codes "Hash: SHA512" ∷ []) body signature [] refl (ground arith)
      (ground arith) refl

security_index :
    lookup_release
      (codes "archive.ubuntu.com_ubuntu_dists_jammy-security_main_binary-amd64_Packages.gz")
      ((codes "archive.ubuntu.com_ubuntu_dists_jammy-security", ubuntu) ∷ [])
    ≡ (codes "Ubuntu", codes "jammy-security", codes "main")
unfolding computed
security_index = refl
