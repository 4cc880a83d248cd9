-- ===== src/Sysd.antt =====
-- internal/sysd/manager.go. What the bus answers is a parameter, with `none` for an error; an
-- object path is a text.
mod Tests
use fleetmind.Common.Keyed.{by_key, self_key}
use fleetmind.Common.Sort.{sort_by}
use fleetmind.Common.Dict.{Dict}
use mathlib.Core.Option
use fleetmind.Common.Text.{Bytes, codes, trim_right, last_index_byte}
use fleetmind.Common.{
  List, Option, ℕ, Bool, if◌then◌else◌, some, none, ◌==◌, ◌∷◌, [], ◌||◌, leb, drop, ◌-◌, suc,
}

pub record UnitInfo : Type 0 where
  pub name : Bytes
  pub description : Bytes
  pub load_state : Bytes
  pub active_state : Bytes
  pub sub_state : Bytes
  pub follower : Bytes
  pub path : Bytes
  pub job_id : ℕ
  pub job_type : Bytes
  pub job_path : Bytes

-- The answers of systemd's manager: `Get` of a number and of a list of names, `GetAll` with its
-- values as texts, `GetUnit`, `LoadUnit` and `ListUnits`.
pub record Bus : Type 0 where
  pub get_uint : Bytes → Bytes → Bytes → Option ℕ
  pub get_names : Bytes → Bytes → Bytes → Option (List Bytes)
  pub get_all : Bytes → Bytes → Option (Dict Bytes)
  pub get_unit : Bytes → Option Bytes
  pub load_unit : Bytes → Option Bytes
  pub list_units : Option (List UnitInfo)

abbrev pub manager_path : Bytes
manager_path = codes "/org/freedesktop/systemd1"

abbrev pub manager_iface : Bytes
manager_iface = codes "org.freedesktop.systemd1.Manager"

abbrev pub unit_iface : Bytes
unit_iface = codes "org.freedesktop.systemd1.Unit"

abbrev pub timer_iface : Bytes
timer_iface = codes "org.freedesktop.systemd1.Timer"

pub record BootTimes : Type 0 where
  pub firmware : ℕ
  pub loader : ℕ
  pub initrd : ℕ
  pub userspace : ℕ
  pub finish : ℕ

pub record UnitTimings : Type 0 where
  pub name : Bytes
  pub inactive_exit : ℕ
  pub active_enter : ℕ

unfoldable pub startup_usec : UnitTimings → ℕ
startup_usec t =
    if t.active_enter == 0 || t.inactive_exit == 0
    then 0
    else if leb t.active_enter t.inactive_exit
    then 0
    else t.active_enter - t.inactive_exit

pub record TimerInfo : Type 0 where
  pub next_elapse_monotonic : ℕ
  pub next_elapse_realtime : ℕ
  pub last_trigger : ℕ
  pub last_trigger_monotonic : ℕ

module _ (bus : Bus) where
  unfoldable pub boot_times : Option BootTimes
  boot_times = elim (bus.get_uint manager_path manager_iface (codes "FirmwareTimestampMonotonic")) [
    | none ↦ none
    | some f ↦ elim (bus.get_uint manager_path manager_iface (codes "LoaderTimestampMonotonic")) [
      | none ↦ none
      | some l ↦ elim (bus.get_uint manager_path manager_iface (codes "InitRDTimestampMonotonic")) [
        | none ↦ none
        | some i ↦
            elim (bus.get_uint manager_path manager_iface (codes "UserspaceTimestampMonotonic")) [
              | none ↦ none
              | some u ↦
                  elim (bus.get_uint manager_path manager_iface
                    (codes "FinishTimestampMonotonic")) [
                      | none ↦ none
                      | some d ↦ some (record {
                        firmware = f;
                        loader = l;
                        initrd = i;
                        userspace = u;
                        finish = d;
                      })
                    ]
            ]
      ]
    ]
  ]

  unfoldable pub unit_timings : Bytes → Bytes → Option UnitTimings
  unit_timings path name =
      elim (bus.get_uint path unit_iface (codes "InactiveExitTimestampMonotonic")) [
        | none ↦ none
        | some exit ↦ elim (bus.get_uint path unit_iface (codes "ActiveEnterTimestampMonotonic")) [
          | none ↦ none
          | some enter ↦ some (record { name = name; inactive_exit = exit; active_enter = enter })
        ]
      ]

  -- `sort.Strings`
  unfoldable pub unit_after : Bytes → Option (List Bytes)
  unit_after path =
      Option.map (sort_by (by_key self_key)) (bus.get_names path unit_iface (codes "After"))

  -- A property that cannot be read stays 0.
  abbrev pub best_effort : Option ℕ → ℕ
  best_effort none = 0
  best_effort (some n) = n

  unfoldable pub timer_properties : Bytes → TimerInfo
  timer_properties path = record {
    next_elapse_monotonic =
        best_effort (bus.get_uint path timer_iface (codes "NextElapseUSecMonotonic"));
    next_elapse_realtime =
        best_effort (bus.get_uint path timer_iface (codes "NextElapseUSecRealtime"));
    last_trigger = best_effort (bus.get_uint path timer_iface (codes "LastTriggerUSec"));
    last_trigger_monotonic =
        best_effort (bus.get_uint path timer_iface (codes "LastTriggerUSecMonotonic"));
  }

  unfoldable pub triggers_unit : Bytes → Option Bytes
  triggers_unit path = elim (bus.get_names path unit_iface (codes "Triggers")) [
    | none ↦ none
    | some triggers ↦ elim triggers [ [] ↦ some [] | t ∷ more ↦ some t ]
  ]

-- `filepath.Base`: slashes at the end are taken off, then all up to the last slash.
abbrev pub is_slash : ℕ → Bool
is_slash c = c == b'/'

unfoldable pub base : Bytes → Bytes
base [] = codes "."
base (c ∷ s) = elim (trim_right is_slash (c ∷ s)) [
  | [] ↦ codes "/"
  | d ∷ t ↦ elim (last_index_byte b'/' (d ∷ t)) [ none ↦ d ∷ t | some i ↦ drop (suc i) (d ∷ t) ]
]

abbrev pub target_links : List Bytes
target_links =
    codes "/etc/systemd/system/default.target"
    ∷ codes "/usr/lib/systemd/system/default.target"
    ∷ codes "/lib/systemd/system/default.target"
    ∷ []

-- `readlink` is `os.Readlink`, with `none` for an error.
module _ (readlink : Bytes → Option Bytes) where
  unfoldable pub first_link : List Bytes → Bytes
  first_link [] = codes "default.target"
  first_link (p ∷ ps) =
      let rest = first_link ps in elim (readlink p) [ none ↦ rest | some dst ↦ base dst ]

  unfoldable pub default_target : Bytes
  default_target = first_link target_links
