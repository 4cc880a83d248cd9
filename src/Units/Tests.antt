-- ===== src/Units/Tests.antt =====
-- A bus with two units.
use fleetmind.Common.Int.{pos}
use fleetmind.Units.Listed.{is_asked_for, list_systemd_units-IsListing}
use fleetmind.Common.Sort.{insert_by, sort_by}
use fleetmind.Units.{
  SystemdUnit, journal_of, list_systemd_units, list_timers, unit_limit, unit_matches, unit_status,
  ListUnitsIn, systemd_unit, unit_name,
}
use fleetmind.Common.Text.{Bytes, before, equal, has_prefix, has_suffix, is_seen, codes}
use fleetmind.Common.Number.{decimal_from, itoa}
use fleetmind.Logs.{every, is_unit}
use fleetmind.Common.Listing.{IsListing, capped}
use fleetmind.Sysd.{Bus, timer_properties, triggers_unit, UnitInfo}
use fleetmind.Common.{List, some, ◌≡◌, Option, [], none, ◌∷◌, map, refl, ◌≤◌}

abbrev unit : Bytes → Bytes → UnitInfo
unit name active = record {
  name = name;
  description = [];
  load_state = codes "loaded";
  active_state = active;
  sub_state = [];
  follower = [];
  path = b'/' ∷ name;
  job_id = 0;
  job_type = [];
  job_path = codes "/";
}

abbrev raw : List UnitInfo
raw = unit (codes "ssh.service") (codes "active") ∷ unit (codes "apt.timer") (codes "failed") ∷ []

abbrev two_units : Bus
two_units = record {
  get_uint = λ path iface key. some 7;
  get_names = λ path iface key. some (codes "apt.service" ∷ []);
  get_all = λ path iface. some ((codes "ActiveState", codes "active") ∷ []);
  get_unit = λ name. none;
  load_unit = λ name. some name;
  list_units = some raw;
}

abbrev request : Bytes → ListUnitsIn
request type = record { state = []; type = type; limit = pos 0 }

-- All that the tools compute with.
computed : ListUnitsIn → Option (List SystemdUnit)
unfolding list_systemd_units unit_matches unit_limit capped sort_by insert_by before has_suffix
    has_prefix is_seen equal unit_status journal_of is_unit every itoa decimal_from list_timers
    timer_properties triggers_unit
computed = list_systemd_units two_units

no_such_type : list_systemd_units two_units (request (codes "unit")) ≡ none
unfolding computed
no_such_type = refl

-- The runner always answers the same.
ssh_status :
    unit_status two_units
      (some (λ args. some (codes "log")))
      (record { unit = codes "ssh.service"; journal_lines = pos 5 })
    ≡ some (record {
      unit = codes "ssh.service";
      properties = (codes "ActiveState", codes "active") ∷ [];
      journal = codes "log";
    })
unfolding computed
ssh_status = refl

one_timer :
    list_timers two_units
    ≡ some (
        record {
          unit = codes "apt.timer";
          activates = codes "apt.service";
          info = record {
            next_elapse_monotonic = 7;
            next_elapse_realtime = 7;
            last_trigger = 7;
            last_trigger_monotonic = 7;
          };
        }
        ∷ [])
unfolding computed
one_timer = refl

abbrev ssh : SystemdUnit
ssh = systemd_unit (unit (codes "ssh.service") (codes "active"))

list_systemd_units-IsListing_example :
    IsListing unit_name
      (is_asked_for (request (codes "service")))
      500
      (map systemd_unit raw)
      (ssh ∷ [])
    × (500 ≤ 2000)
unfolding computed
list_systemd_units-IsListing_example =
    list_systemd_units-IsListing two_units (request (codes "service")) 500 raw (ssh ∷ []) refl refl
      refl
