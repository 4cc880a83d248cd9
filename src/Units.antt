-- ===== src/Units.antt =====
-- internal/tools/systemd.go: the tools on units and timers. An error is `none`; opening the bus is
-- package dbus.
pub mod Listed
use fleetmind.Common.Keyed.{by_key}
use fleetmind.Logs.{is_unit}
use fleetmind.Common.Number.{itoa}
use fleetmind.Common.Sort.{sort_by}
use fleetmind.Common.Listing.{capped}
use fleetmind.Common.Dict.{Dict}
use fleetmind.Common.{
  List, Option, Bool, if◌then◌else◌, none, ℕ, [], not, some, ◌||◌, ◌∷◌, ◌&&◌, map, keep,
}
use fleetmind.Common.Text.{Bytes, codes, has_suffix, is_empty, equal, is_seen}
use fleetmind.Sysd.{Bus, UnitInfo, TimerInfo, triggers_unit, timer_properties, unit_iface}
use fleetmind.Common.Int.{ℤ, ltb_ℤ, pos, pos_part}
mod Tests

pub record ListUnitsIn : Type 0 where
  pub state : Bytes
  pub type : Bytes
  pub limit : ℤ

pub record SystemdUnit : Type 0 where
  pub unit : Bytes
  pub load : Bytes
  pub active : Bytes
  pub sub : Bytes
  pub description : Bytes

abbrev pub unit_states : List Bytes
unit_states =
    codes "active"
    ∷ codes "inactive"
    ∷ codes "failed"
    ∷ codes "activating"
    ∷ codes "deactivating"
    ∷ codes "reloading"
    ∷ []

abbrev pub unit_types : List Bytes
unit_types =
    codes "service"
    ∷ codes "timer"
    ∷ codes "socket"
    ∷ codes "mount"
    ∷ codes "target"
    ∷ codes "path"
    ∷ codes "swap"
    ∷ codes "slice"
    ∷ codes "scope"
    ∷ codes "device"
    ∷ codes "automount"
    ∷ []

-- The checks of the two filters.
abbrev pub is_refused : Bytes → List Bytes → Bool
is_refused s allowed = not (is_empty s) && not (is_seen s allowed)

unfoldable pub unit_matches : ListUnitsIn → Bytes → Bytes → Bool
unit_matches i name active =
    (is_empty i.state || equal active i.state)
    && (is_empty i.type || has_suffix name (b'.' ∷ i.type))

abbrev pub systemd_unit : UnitInfo → SystemdUnit
systemd_unit u = record {
  unit = u.name;
  load = u.load_state;
  active = u.active_state;
  sub = u.sub_state;
  description = u.description;
}

abbrev pub unit_name : SystemdUnit → Bytes
unit_name u = u.unit

-- A limit that is absent, or else too large.
unfoldable pub unit_limit : ℤ → ℕ → ℕ → Option ℕ
unit_limit requested def max =
    let limit = if ltb_ℤ requested (pos 1) then pos def else requested in
    if ltb_ℤ (pos max) limit then none else some (pos_part limit)

unfoldable pub list_systemd_units : Bus → ListUnitsIn → Option (List SystemdUnit)
list_systemd_units bus i =
    if is_refused i.state unit_states || is_refused i.type unit_types
    then none
    else elim (unit_limit i.limit 500 2000) [
      | none ↦ none
      | some limit ↦ elim bus.list_units [
        | none ↦ none
        | some raw ↦ some (
            capped limit (
              sort_by (by_key unit_name)
                (map systemd_unit (keep (λ u. unit_matches i u.name u.active_state) raw))))
      ]
    ]

pub record UnitStatusIn : Type 0 where
  pub unit : Bytes
  pub journal_lines : ℤ

pub record UnitStatus : Type 0 where
  pub unit : Bytes
  pub properties : Dict Bytes
  pub journal : Bytes

-- `run` is `Runner.Run` on journalctl, if there is a runner.
unfoldable pub journal_of : Option (List Bytes → Option Bytes) → Bytes → ℕ → Bytes
journal_of none unit n = []
journal_of (some run) unit n =
    elim (run (
      codes "--no-pager"
      ∷ codes "-o"
      ∷ codes "short-iso"
      ∷ codes "-n"
      ∷ itoa (pos n)
      ∷ codes "--unit"
      ∷ unit
      ∷ [])) [ none ↦ [] | some out ↦ out ]

unfoldable pub unit_status :
    Bus → Option (List Bytes → Option Bytes) → UnitStatusIn → Option UnitStatus
unit_status bus run i =
    if not (is_unit i.unit) then none else elim (unit_limit i.journal_lines 30 500) [
      | none ↦ none
      | some n ↦ elim (bus.load_unit i.unit) [
        | none ↦ none
        | some path ↦ elim (bus.get_all path unit_iface) [
          | none ↦ none
          | some props ↦
              some (record { unit = i.unit; properties = props; journal = journal_of run i.unit n })
        ]
      ]
    ]

pub record SystemdTimer : Type 0 where
  pub unit : Bytes
  pub activates : Bytes
  pub info : TimerInfo

abbrev pub is_timer : UnitInfo → Bool
is_timer u = has_suffix u.name (codes ".timer")

abbrev pub timer_of : Bus → UnitInfo → SystemdTimer
timer_of bus u = record {
  unit = u.name;
  activates = elim (triggers_unit bus u.path) [ none ↦ [] | some a ↦ a ];
  info = timer_properties bus u.path;
}

abbrev pub timer_name : SystemdTimer → Bytes
timer_name t = t.unit

unfoldable pub list_timers : Bus → Option (List SystemdTimer)
list_timers bus = elim bus.list_units [
  | none ↦ none
  | some raw ↦ some (sort_by (by_key timer_name) (map (timer_of bus) (keep is_timer raw)))
]
