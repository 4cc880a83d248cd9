-- ===== src/Auth.antt =====
-- internal/mcpserver/auth.go: the check of the bearer token in front of every request.
pub mod Exact
mod Tests
use fleetmind.Common.{ℕ, Bool, true, false, not, ◌||◌, ◌++◌, ◌==◌, if◌then◌else◌, length}
use fleetmind.Common.Text.{Bytes, codes, equal}

-- What becomes of a request: it is refused with a challenge, or passed on.
pub data Outcome : Type 0 where
  unauthorized : Bytes → Outcome
  served : Outcome

-- `header` is the Authorization header of the request, empty if there is none.
-- `subtle.ConstantTimeCompare` gives 1 for equal contents and 0 otherwise.
unfoldable pub bearer_auth : Bytes → Bytes → Outcome
bearer_auth token header =
    let want = codes "Bearer " ++ token in
    if not (length header == length want) || not (equal header want)
    then unauthorized (codes "Bearer realm=\"fleetmind\"")
    else served
