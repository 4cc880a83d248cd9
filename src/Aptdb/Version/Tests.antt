-- ===== src/Aptdb/Version/Tests.antt =====
-- Versions at concrete inputs; the first are cases of internal/aptdb/version_test.go.
use fleetmind.Common.{Ordering, ◌≡◌, refl, arith}
use fleetmind.Common.Number.{atoi}
use fleetmind.Common.Text.{Bytes, codes, before, index_byte, last_index_byte}
use fleetmind.Aptdb.Version.{
  weight, or_else, compare_versions, compare_upstream, compare_round, after_round,
}
use fleetmind.Aptdb.Version.Chain.{flip}
use fleetmind.Aptdb.Version.Order.{
  compare_versions-flip, compare_versions_trans, compare_upstream-Ends, Ends,
}

-- All that a comparison computes with.
compared : Bytes → Bytes → Ordering
unfolding compare_versions before index_byte last_index_byte compare_round after_round weight atoi
compared = compare_versions

tilde : compare_versions (codes "1.0~rc1") (codes "1.0") ≡ Ordering.lt
unfolding compared
tilde = refl

epoch : compare_versions (codes "1:0.9") (codes "2.0") ≡ Ordering.gt
unfolding compared
epoch = refl

revision : compare_versions (codes "1.0-1ubuntu1") (codes "1.0-1ubuntu10") ≡ Ordering.lt
unfolding compared
revision = refl

zeros : compare_versions (codes "1.007") (codes "1.7") ≡ Ordering.eq
unfolding compared
zeros = refl

compare_versions-flip_example :
    compare_versions (codes "1.0") (codes "1.0~rc1")
    ≡ flip (compare_versions (codes "1.0~rc1") (codes "1.0"))
compare_versions-flip_example = compare_versions-flip (codes "1.0~rc1") (codes "1.0")

compare_versions_trans_example :
    compare_versions (codes "1.0~rc1") (codes "1.1")
    ≡ or_else
        (compare_versions (codes "1.0~rc1") (codes "1.0"))
        (compare_versions (codes "1.0") (codes "1.1"))
unfolding compared
compare_versions_trans_example =
    compare_versions_trans (codes "1.0~rc1") (codes "1.0") (codes "1.1") (ground arith)
      (ground arith)

compare_upstream-Ends_example :
    Ends (codes "a1b") (codes "a1c") (compare_upstream (codes "a1b") (codes "a1c"))
compare_upstream-Ends_example = compare_upstream-Ends (codes "a1b") (codes "a1c")
