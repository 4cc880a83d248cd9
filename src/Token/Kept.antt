-- ===== src/Token/Kept.antt =====
-- internal/mcpserver/token.go: a token stays the same from one start to the next.
use fleetmind.Common.Newline.{trim_space-newline}
use fleetmind.Common.Space.{IsTrimmed}
use fleetmind.Common.{
  Option, some, ◌≡◌, none, true, ◌++◌, ◌∷◌, [], arith, false, Option-cases, ◌∙◌, ap, inl, inr, refl,
  subst, sym,
}
use fleetmind.Common.Text.{Bytes, codes, is_empty}
use fleetmind.Token.{ensure_token, generate, persist, some_text, found, Outcome, broken, mirror_of}
use fleetmind.Snapconf.{get_config, set_config, in_snap}

some_injective : {a b : Bytes} → some a ≡ some b → a ≡ b
some_injective h = ground arith

module _ {S : Type 0} (getenv : Bytes → Bytes) (get : S → Bytes → Option Bytes)
    (set : S → Bytes → Bytes → Option S) (join : Bytes → Bytes → Bytes) where
  abbrev configured : S → Option Bytes
  configured s = some_text (get_config getenv get s (codes "token"))

  abbrev pinned : Option Bytes
  pinned = some_text (some (getenv (codes "FLEETMIND_TOKEN")))

  ensure_token-configured :
      (fresh : Option Bytes) (s : S) (tok : Bytes)
      → some_text (get_config getenv get s (codes "token")) ≡ some tok
      → ensure_token getenv get set join fresh s ≡ found tok s
  unfolding ensure_token
  ensure_token-configured fresh s tok h = rw (h, ensure_token)

  ensure_token-pinned :
      (fresh : Option Bytes) (s : S) (tok : Bytes)
      → some_text (get_config getenv get s (codes "token")) ≡ none
      → some_text (some (getenv (codes "FLEETMIND_TOKEN"))) ≡ some tok
      → ensure_token getenv get set join fresh s ≡ found tok s
  unfolding ensure_token
  ensure_token-pinned fresh s tok h k = rw (h, k, ensure_token)

  ensure_token-generated :
      (fresh : Option Bytes) (s : S)
      → some_text (get_config getenv get s (codes "token")) ≡ none
      → some_text (some (getenv (codes "FLEETMIND_TOKEN"))) ≡ none
      → ensure_token getenv get set join fresh s ≡ generate getenv get set join fresh s
  unfolding ensure_token
  ensure_token-generated fresh s h k = rw (h, k, ensure_token)

  module _ (inside : in_snap getenv ≡ true)
      (get-set : (s t : S) (key value : Bytes)
        → set s key value ≡ some t
        → get t key ≡ some (value ++ (10 ∷ []))) where
    stored_text :
        (s t : S) (tok : Bytes)
        → IsTrimmed tok
        → is_empty tok ≡ false
        → set s (codes "token") tok ≡ some t
        → some_text (get_config getenv get t (codes "token")) ≡ some tok
    unfolding get_config
    stored_text s t [] w e h = ground arith
    stored_text s t (c ∷ tok) w e h = rw (
      inside,
      get_config,
      get-set s t (codes "token") (c ∷ tok) h,
      trim_space-newline (c ∷ tok) w e,
    )

    set_config_inside :
        (s : S) (key value : Bytes) → set_config getenv set s key value ≡ set s key value
    unfolding set_config
    set_config_inside s key value = rw (inside, set_config)

    abbrev stored : Bytes → S → Outcome S
    stored tok t = record {
      token = some tok;
      state = t;
      mirrored = mirror_of getenv get set join tok;
    }

    persist-stored :
        (s t : S) (tok : Bytes)
        → set s (codes "token") tok ≡ some t
        → persist getenv get set join tok s ≡ stored tok t
    unfolding persist
    persist-stored s t tok h = rw (inside, persist, set_config_inside s (codes "token") tok, h)

    persist-broken :
        (s : S) (tok : Bytes)
        → set s (codes "token") tok ≡ none
        → persist getenv get set join tok s ≡ broken s
    unfolding persist
    persist-broken s tok h = rw (inside, persist, set_config_inside s (codes "token") tok, h)

    -- Starting again after `o`, if that has the token.
    abbrev IsKept : Option Bytes → Bytes → Outcome S → Type 0
    IsKept next tok o =
        o.token ≡ some tok → ensure_token getenv get set join next o.state ≡ found tok o.state

    stored-IsKept :
        (next : Option Bytes) (tok new : Bytes) (s t : S)
        → IsTrimmed new
        → is_empty new ≡ false
        → set s (codes "token") new ≡ some t
        → IsKept next tok (stored new t)
    stored-IsKept next tok new s t w e h k =
        ensure_token-configured next t new (stored_text s t new w e h)
        ∙ ap (λ i. found i t) (some_injective k)

    persist-IsKept :
        (next : Option Bytes) (tok new : Bytes) (s : S)
        → IsTrimmed new
        → is_empty new ≡ false
        → IsKept next tok (persist getenv get set join new s)
    persist-IsKept next tok new s w e = elim (Option-cases (set s (codes "token") new)) [
      | inl h ↦ subst (IsKept next tok) (sym (persist-broken s new h)) (λ k. ground arith)
      | inr (t, h) ↦
          subst (IsKept next tok) (sym (persist-stored s t new h))
            (stored-IsKept next tok new s t w e h)
    ]

    generate-IsKept :
        (fresh next : Option Bytes) (tok : Bytes) (s : S)
        → ((new : Bytes) → fresh ≡ some new → IsTrimmed new × (is_empty new ≡ false))
        → IsKept next tok (generate getenv get set join fresh s)
    unfolding generate
    generate-IsKept none next tok s f = λ k. ground arith
    generate-IsKept (some new) next tok s f =
        persist-IsKept next tok new s (f new refl).0 (f new refl).1

    -- In a snap, whatever gave the token gives the same token at the next start, whatever would be
    -- generated then, and nothing more is stored. This is for a snapctl that prints what was stored
    -- last under a key with a newline behind it, and a generator whose tokens have a byte and no
    -- white space at their ends.
    pub ensure_token_again :
        (fresh next : Option Bytes) (s : S) (tok : Bytes)
        → ((new : Bytes) → fresh ≡ some new → IsTrimmed new × (is_empty new ≡ false))
        → (ensure_token getenv get set join fresh s).token ≡ some tok
        → ensure_token getenv get set join next (ensure_token getenv get set join fresh s).state
          ≡ found tok (ensure_token getenv get set join fresh s).state
    ensure_token_again fresh next s tok f = elim (Option-cases (configured s)) [
      | inr (old, c) ↦
          subst (IsKept next tok) (sym (ensure_token-configured fresh s old c))
            (λ k. ensure_token-configured next s old c ∙ ap (λ i. found i s) (some_injective k))
      | inl c ↦ elim (Option-cases pinned) [
        | inr (old, p) ↦
            subst (IsKept next tok) (sym (ensure_token-pinned fresh s old c p))
              (λ k. ensure_token-pinned next s old c p ∙ ap (λ i. found i s) (some_injective k))
        | inl p ↦
            subst (IsKept next tok) (sym (ensure_token-generated fresh s c p))
              (generate-IsKept fresh next tok s f)
      ]
    ]
