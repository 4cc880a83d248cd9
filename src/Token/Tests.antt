-- ===== src/Token/Tests.antt =====
-- A snap whose configuration is one value for each key.
use fleetmind.Token.Kept.{ensure_token_again}
use mathlib.Core.Option
use fleetmind.Common.{
  Option, if◌then◌else◌, some, ◌++◌, ◌≡◌, arith, true, ◌∷◌, [], refl, ◌||◌, false, subst, ap,
}
use fleetmind.Token.{ensure_token, generate, persist, Outcome, found}
use fleetmind.Common.Text.{Bytes, equal, codes, is_empty}
use fleetmind.Common.Dict.{Dict, insert, lookup, lookup-insert_self}
use fleetmind.Common.Space.{drop_spaces, space_width, space_width_back, trim_space, IsTrimmed}
use fleetmind.Snapconf.{env_key, get_config, in_snap, set_config}

abbrev getenv : Bytes → Bytes
getenv name =
    if equal name (codes "SNAP_COMMON")
      || equal name (codes "SNAP")
      || equal name (codes "SNAP_NAME")
    then codes "x"
    else []

abbrev get : Dict Bytes → Bytes → Option Bytes
get s key = Option.map (λ v. v ++ (10 ∷ [])) (lookup key s)

abbrev set : Dict Bytes → Bytes → Bytes → Option (Dict Bytes)
set s key value = some (insert key value s)

abbrev join : Bytes → Bytes → Bytes
join dir name = dir ++ (b'/' ∷ name)

inside : in_snap getenv ≡ true
unfolding in_snap equal
inside = refl

some_dict : {a b : Dict Bytes} → some a ≡ some b → a ≡ b
some_dict h = ground arith

some_bytes : {a b : Bytes} → some a ≡ some b → a ≡ b
some_bytes h = ground arith

abc-IsTrimmed : IsTrimmed (codes "abc")
unfolding space_width space_width_back
abc-IsTrimmed = record { front = refl; back = refl }

get-set :
    (s t : Dict Bytes) (key value : Bytes)
    → set s key value ≡ some t
    → get t key ≡ some (value ++ (10 ∷ []))
get-set s t key value h =
    subst (λ (m : Dict Bytes). get m key ≡ some (value ++ (10 ∷ []))) (some_dict h)
      (ap (Option.map (λ v. v ++ (10 ∷ []))) (lookup-insert_self key value s))

-- All that resolving a token computes with.
computed : Option Bytes → Dict Bytes → Outcome (Dict Bytes)
unfolding ensure_token generate persist get_config set_config in_snap env_key equal lookup insert
    trim_space drop_spaces space_width space_width_back
computed = ensure_token getenv get set join

first_start : ensure_token getenv get set join (some (codes "abc")) [] ≡ record {
  token = some (codes "abc");
  state = (codes "token", codes "abc") ∷ [];
  mirrored = some (codes "x/token", codes "abc\n");
}
unfolding computed
first_start = refl

is_token : (new : Bytes) → some (codes "abc") ≡ some new → IsTrimmed new × (is_empty new ≡ false)
is_token new h =
    subst (λ (t : Bytes). IsTrimmed t × (is_empty t ≡ false)) (some_bytes h) (abc-IsTrimmed, refl)

ensure_token_again_example :
    ensure_token getenv get set join (some (codes "other")) ((codes "token", codes "abc") ∷ [])
    ≡ found (codes "abc") ((codes "token", codes "abc") ∷ [])
unfolding computed
ensure_token_again_example =
    ensure_token_again getenv get set join inside get-set (some (codes "abc"))
      (some (codes "other")) [] (codes "abc") is_token refl
