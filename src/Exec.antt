-- ===== src/Exec.antt =====
-- internal/exectool/exectool.go: the writer that bounds what a command's output may take. Running
-- the command is package os/exec. The writer behind it is a buffer, whose writes do not fail, and
-- the limit is not negative.
pub mod Bounded
mod Tests
use fleetmind.Common.{
  ℕ, ◌-◌, Bool, true, false, List, [], ◌∷◌, ◌++◌, ltb, if◌then◌else◌, length, take,
}
use fleetmind.Common.Text.{Bytes}

pub record LimitedWriter : Type 0 where
  pub w : Bytes
  pub n : ℕ
  pub hit : Bool

abbrev pub limited : ℕ → LimitedWriter
limited max_output = record { w = []; n = max_output; hit = false }

-- The writer, the count that is returned, and whether `ErrOutputTooLarge` is.
unfoldable pub write : Bytes → LimitedWriter → LimitedWriter × ℕ × Bool
write p l =
    if l.hit
    then (l, 0, true)
    else if ltb l.n (length p)
    then (record { w = l.w ++ take l.n p; n = 0; hit = true }, length p, true)
    else (record { w = l.w ++ p; n = l.n - length p; hit = false }, length p, false)

-- The writes of a command, one after the other.
unfoldable pub write_all : List Bytes → LimitedWriter → LimitedWriter
write_all [] l = l
write_all (p ∷ ps) l = write_all ps (write p l).0
