-- ===== src/FleetTools/Tests.antt =====
-- A fleet of two nodes, of which the second one cannot be reached.
use fleetmind.FleetTools.Members.{list_fleet_lem}
use fleetmind.Fleet.Sample.{knows_b, knows_b-Inv}
use fleetmind.Common.Int.{pos_part}
use fleetmind.Fleet.Registry.{roster, sorted_peers, Registry}
use fleetmind.Common.Text.{Bytes, before, equal, codes}
use fleetmind.Common.Sort.{insert_by, sort_by}
use fleetmind.FleetTools.Order.{is_in, fleet_query-roster}
use fleetmind.Common.{
  List, ℕ, Option, some, ◌<◌, if◌then◌else◌, ◌∷◌, [], true, ◌≡◌, false, length, map, none, refl,
  suc, arith, keep, zero,
}
use fleetmind.FleetTools.{
  finish, finish_all, first_content, fleet_query, get_at, join_lines, list_fleet, node_result,
  set_at, text_parts, CallResult, NodeResult, answered, call_error,
}

abbrev call : Bytes → CallResult ℕ
call url =
    if equal url (codes "http://a")
    then answered (some (codes "up") ∷ none ∷ some (codes "1") ∷ []) (some 3)
    else call_error (codes "refused")

-- All that the tools compute with.
computed : Option Registry → Bytes → List ℕ → List (NodeResult ℕ)
unfolding fleet_query finish_all finish node_result get_at set_at first_content text_parts
    join_lines roster sorted_peers sort_by insert_by before equal list_fleet is_in
computed = fleet_query call

abbrev answers : List (NodeResult ℕ)
answers =
    record {
      node_id = codes "a";
      advertise_url = codes "http://a";
      is_self = true;
      text = codes "up\n1";
      result = some 3;
      error = [];
    }
    ∷ record {
      node_id = codes "b";
      advertise_url = codes "http://b";
      is_self = false;
      text = [];
      result = none;
      error = codes "refused";
    }
    ∷ []

last_first : fleet_query call (some knows_b) (codes "load_info") (1 ∷ 0 ∷ []) ≡ answers
unfolding computed
last_first = refl

both : (j : ℕ) → j < 2 → is_in j (1 ∷ 0 ∷ []) ≡ true
unfolding computed
both zero h = refl
both (suc zero) h = refl
both (suc (suc j)) h = ground arith

fleet_query-roster_example :
    fleet_query call (some knows_b) (codes "load_info") (1 ∷ 0 ∷ [])
    ≡ map (node_result call (codes "a")) (roster knows_b)
unfolding computed
fleet_query-roster_example =
    fleet_query-roster call knows_b (codes "load_info") (1 ∷ 0 ∷ []) refl both

list_fleet_lem_example :
    ((list_fleet 0 pos_part (some knows_b)).count ≡ 2)
    × (length (list_fleet 0 pos_part (some knows_b)).members
        ≡ (list_fleet 0 pos_part (some knows_b)).count)
    × (length (keep (λ m. m.is_self) (list_fleet 0 pos_part (some knows_b)).members) ≡ 1)
list_fleet_lem_example = list_fleet_lem 0 pos_part knows_b knows_b-Inv
