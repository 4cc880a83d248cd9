-- ===== src/Sysd/Tests.antt =====
-- The last part of a path.
use fleetmind.Common.{◌≡◌, refl}
use fleetmind.Sysd.{base}
use fleetmind.Common.Text.{last_index_byte, trim_left, trim_right, Bytes, codes}

computed : Bytes → Bytes
unfolding base trim_right trim_left last_index_byte
computed = base

graphical : base (codes "/usr/lib/systemd/system/graphical.target//") ≡ codes "graphical.target"
unfolding computed
graphical = refl

root : base (codes "//") ≡ codes "/"
unfolding computed
root = refl
