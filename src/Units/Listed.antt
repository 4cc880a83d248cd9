-- ===== src/Units/Listed.antt =====
-- internal/tools/systemd.go: what list_systemd_units and list_timers list.
use fleetmind.Common.Text.{Bytes, equal, has_suffix}
use fleetmind.Common.Keyed.{by_key}
use fleetmind.Common.Sort.{sort_by}
use fleetmind.Common.Listing.{IsListing, capped, map-IsListing}
use fleetmind.Common.Int.{ℤ, pos, negsuc}
use fleetmind.Common.{
  true, false, inl, inr, [], ◌∷◌, ℕ, Bool, List, ◌≡◌, some, ◌≤◌, arith, map, keep, sym, List-cases,
  subst, true, fun_ext, inl, ◌∷◌, [],
}
use fleetmind.Units.{
  ListUnitsIn, list_systemd_units, unit_limit, SystemdUnit, unit_matches, unit_name, systemd_unit,
}
use fleetmind.Sysd.{Bus, UnitInfo}

abbrev is_of_type : Bytes → Bytes → Bool
is_of_type [] name = true
is_of_type (c ∷ cs) name = has_suffix name (b'.' ∷ c ∷ cs)

abbrev is_in_state : Bytes → Bytes → Bool
is_in_state [] active = true
is_in_state (c ∷ cs) active = equal active (c ∷ cs)

-- The units that a request asks for, by the type that their name ends in and by their active state.
abbrev pub is_asked_for : ListUnitsIn → SystemdUnit → Bool
is_asked_for i u = elim (is_in_state i.state u.active) [
  | true ↦ is_of_type i.type u.unit
  | false ↦ false
]

unit_matches-is_asked_for :
    (i : ListUnitsIn) (u : SystemdUnit) → unit_matches i u.unit u.active ≡ is_asked_for i u
unfolding unit_matches
unit_matches-is_asked_for i u = elim (List-cases i.state) [
  | inl h ↦ elim (List-cases i.type) [ inl k ↦ rw (h, k) | inr (c, cs, k) ↦ rw (h, k) ]
  | inr (c, cs, h) ↦ elim (List-cases i.type) [
    | inl k ↦ rw (h, k) (ground arith)
    | inr (d, ds, k) ↦ rw (h, k) (ground arith)
  ]
]

unit_limit-max : (requested : ℤ) (def max n : ℕ) → unit_limit requested def max ≡ some n → n ≤ max
unfolding unit_limit
unit_limit-max (pos m) def max n k = ground arith
unit_limit-max (negsuc m) def max n k = ground arith

list_systemd_units_lem :
    (bus : Bus) (i : ListUnitsIn) (limit : ℕ) (raw : List UnitInfo) (out : List SystemdUnit)
    → bus.list_units ≡ some raw
    → unit_limit i.limit 500 2000 ≡ some limit
    → list_systemd_units bus i ≡ some out
    → capped limit (
        sort_by
          (by_key unit_name)
          (map systemd_unit (keep (λ u. unit_matches i u.name u.active_state) raw)))
      ≡ out
unfolding list_systemd_units
list_systemd_units_lem bus i limit raw out r h k = ground arith

-- Where list_systemd_units succeeds, it lists, by rising name and up to the limit, the units that are
-- asked for: those whose active state is the state of the request, if it has one, and whose name ends
-- in a dot and the type of the request, if it has one. What it leaves out stands behind them in that
-- order, and it leaves something out only where the limit is reached. The limit is at most 2000.
pub list_systemd_units-IsListing :
    (bus : Bus) (i : ListUnitsIn) (limit : ℕ) (raw : List UnitInfo) (out : List SystemdUnit)
    → bus.list_units ≡ some raw
    → unit_limit i.limit 500 2000 ≡ some limit
    → list_systemd_units bus i ≡ some out
    → IsListing unit_name (is_asked_for i) limit (map systemd_unit raw) out × (limit ≤ 2000)
list_systemd_units-IsListing bus i limit raw out r h k = (
  subst (λ w. IsListing unit_name w limit (map systemd_unit raw) out)
      (fun_ext (unit_matches-is_asked_for i))
      (rw (sym (list_systemd_units_lem bus i limit raw out r h k))
        (map-IsListing systemd_unit unit_name (λ u. unit_matches i u.unit u.active) limit raw)),
  unit_limit-max i.limit 500 2000 limit h,
)
