-- ===== src/Exec/Tests.antt =====
-- Two writes, the second of which does not fit.
use fleetmind.Common.{[], ◌∷◌, ◌≡◌, refl, ltb, take, length}
use fleetmind.Common.Text.{codes}
use fleetmind.Exec.{limited, write, write_all}
use fleetmind.Exec.Bounded.{joined, write_all-limited}

first_five : (write_all (codes "abc" ∷ codes "defg" ∷ []) (limited 5)).w ≡ codes "abcde"
unfolding write_all write
first_five = refl

write_all-limited_example :
    ((write_all (codes "abc" ∷ codes "defg" ∷ []) (limited 5)).w
      ≡ take 5 (joined (codes "abc" ∷ codes "defg" ∷ [])))
    × ((write_all (codes "abc" ∷ codes "defg" ∷ []) (limited 5)).hit
        ≡ ltb 5 (length (joined (codes "abc" ∷ codes "defg" ∷ []))))
write_all-limited_example = write_all-limited 5 (codes "abc" ∷ codes "defg" ∷ [])
