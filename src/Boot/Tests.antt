-- ===== src/Boot/Tests.antt =====
-- A bus with three units, of which one waits for the other two.
use fleetmind.Boot.Chain.{StartsAt, walk_critical_chain-IsChainFrom}
use fleetmind.Common.Keyed.{by_key, self_key, AreDistinct}
use fleetmind.Common.Sort.{insert_by, sort_by}
use fleetmind.Sysd.{Bus, startup_usec, unit_after, unit_timings}
use fleetmind.Common.{
  List, length, Option, none, ◌≤◌, Bool, if◌then◌else◌, some, ℕ, ◌∷◌, ◌≡◌, [], false, All, refl,
  true, false,
}
use fleetmind.Common.Text.{Bytes, before, equal, is_empty, is_seen, codes}
use fleetmind.Boot.{active_enter_of, latest, next_unit, walk_chain, walk_critical_chain, ChainEntry}

abbrev get_names : Bytes → Bytes → Bytes → Option (List Bytes)
get_names path iface key =
    if equal path (codes "/t") then some (codes "b" ∷ codes "a" ∷ []) else some []

abbrev get_uint : Bytes → Bytes → Bytes → Option ℕ
get_uint path iface key = elim (equal key (codes "ActiveEnterTimestampMonotonic")) [
  | false ↦ some 3
  | true ↦ some (if equal path (codes "/a") then 9 else if equal path (codes "/b") then 5 else 12)
]

abbrev three_units : Bus
three_units = record {
  get_uint = get_uint;
  get_names = get_names;
  get_all = λ path iface. none;
  get_unit = λ name. some (b'/' ∷ name);
  load_unit = λ name. none;
  list_units = none;
}

computed : Bytes → List ChainEntry × Bool
unfolding walk_critical_chain walk_chain next_unit latest active_enter_of unit_after unit_timings
    startup_usec is_seen is_empty equal sort_by insert_by by_key self_key before
computed = walk_critical_chain three_units

abbrev chain : List ChainEntry
chain =
    record { unit = codes "t"; active_at = 12; startup = 9 }
    ∷ record { unit = codes "a"; active_at = 9; startup = 6 }
    ∷ []

found : walk_critical_chain three_units (codes "t") ≡ (chain, false)
unfolding computed
found = refl

walk_critical_chain-IsChainFrom_example :
    (length chain ≤ 32)
    × AreDistinct (λ e. e.unit) chain
    × StartsAt three_units (codes "t") chain
    × All (λ e. active_enter_of three_units e.unit ≡ some e.active_at) chain
unfolding computed
walk_critical_chain-IsChainFrom_example = walk_critical_chain-IsChainFrom three_units (codes "t")
