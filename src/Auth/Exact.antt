-- ===== src/Auth/Exact.antt =====
-- internal/mcpserver/auth.go: which requests are passed on.
use fleetmind.Common.{true, ◌++◌, ◌==◌, length, ◌≡◌, ◌↔◌, sym, subst, arith}
use fleetmind.Common.Text.{Bytes, codes, equal_iff, equal_refl}
use fleetmind.Auth.{served, bearer_auth}

length_refl : (s : Bytes) → (length s == length s) ≡ true
length_refl s = ground arith

is_served_only :
    (token header : Bytes) → bearer_auth token header ≡ served → header ≡ codes "Bearer " ++ token
unfolding bearer_auth
is_served_only token header h = ground (arith, equal_iff header (codes "Bearer " ++ token))

serves : (token : Bytes) → bearer_auth token (codes "Bearer " ++ token) ≡ served
unfolding bearer_auth
serves token = rw (equal_refl (codes "Bearer " ++ token), length_refl (codes "Bearer " ++ token))

-- A request is passed on exactly if its Authorization header is `Bearer ` and the token, no more
-- and no less.
pub bearer_auth-served :
    (token header : Bytes)
    → (bearer_auth token header ≡ served) ↔ (header ≡ codes "Bearer " ++ token)
bearer_auth-served token header = (
  is_served_only token header,
  λ e. subst (λ s. bearer_auth token s ≡ served) (sym e) (serves token),
)
