-- ===== src/Auth/Tests.antt =====
-- A header with the right token, and one that stops early.
use fleetmind.Common.{◌≡◌, ◌↔◌, ◌++◌, refl}
use fleetmind.Common.Text.{codes, equal}
use fleetmind.Auth.{unauthorized, served, bearer_auth}
use fleetmind.Auth.Exact.{bearer_auth-served}

right_token : bearer_auth (codes "s3cret") (codes "Bearer s3cret") ≡ served
unfolding bearer_auth equal
right_token = refl

prefix_only :
    bearer_auth (codes "s3cret") (codes "Bearer s3c")
    ≡ unauthorized (codes "Bearer realm=\"fleetmind\"")
unfolding bearer_auth equal
prefix_only = refl

bearer_auth-served_example :
    (bearer_auth (codes "s3cret") (codes "Bearer s3cret") ≡ served)
    ↔ (codes "Bearer s3cret" ≡ codes "Bearer " ++ codes "s3cret")
bearer_auth-served_example = bearer_auth-served (codes "s3cret") (codes "Bearer s3cret")
