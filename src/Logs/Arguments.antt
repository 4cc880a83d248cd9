-- ===== src/Logs/Arguments.antt =====
-- internal/tools/logs.go: what `journalArgs` lets through.
use fleetmind.Common.{
  ℕ, zero, suc, Bool, true, false, List, [], ◌∷◌, ◌++◌, Option, none, some, ◌≡◌, refl, subst, All,
  arith, ◌%◌, ◌/◌, ◌+◌, if◌then◌else◌,
}
use fleetmind.Common.Number.{decimal_from, itoa}
use fleetmind.Common.Int.{ℤ, pos, negsuc}
use fleetmind.Common.Text.{Bytes, codes, equal, equal_iff}
use fleetmind.Logs.{
  is_printable, is_unit_char, is_since_char, JournalIn, is_unit, is_since, is_match, is_priority,
  every, option_args, append_args, lines_args, boot_args, journal_args,
}

abbrev pub IsPrintable : Bytes → Type 0
IsPrintable s = every is_printable s ≡ true

every_weaken :
    (t u : ℕ → Bool) (s : Bytes)
    → ((c : ℕ) → t c ≡ true → u c ≡ true)
    → every t s ≡ true
    → every u s ≡ true
unfolding every
every_weaken t u [] h k = refl
every_weaken t u (c ∷ s) h k = ground (arith, h c, every_weaken t u s h)

is_unit_char-is_printable : (c : ℕ) → is_unit_char c ≡ true → is_printable c ≡ true
is_unit_char-is_printable c h = ground arith

is_since_char-is_printable : (c : ℕ) → is_since_char c ≡ true → is_printable c ≡ true
is_since_char-is_printable c h = ground arith

unit-IsPrintable : (s : Bytes) → is_unit s ≡ true → IsPrintable s
unfolding is_unit
unit-IsPrintable s h =
    every_weaken is_unit_char is_printable s is_unit_char-is_printable (ground arith)

since-IsPrintable : (s : Bytes) → is_since s ≡ true → IsPrintable s
unfolding is_since
since-IsPrintable s h =
    every_weaken is_since_char is_printable s is_since_char-is_printable (ground arith)

match-IsPrintable : (s : Bytes) → is_match s ≡ true → IsPrintable s
unfolding is_match
match-IsPrintable s h = ground arith

level-IsPrintable : (s t : Bytes) → every is_printable t ≡ true → equal s t ≡ true → IsPrintable s
level-IsPrintable s t h e = rw ((equal_iff s t).0 e) h

priority-IsPrintable : (s : Bytes) → is_priority s ≡ true → IsPrintable s
unfolding is_priority every
priority-IsPrintable s h = ground (
  arith,
  level-IsPrintable s (codes "emerg") refl,
  level-IsPrintable s (codes "alert") refl,
  level-IsPrintable s (codes "crit") refl,
  level-IsPrintable s (codes "err") refl,
  level-IsPrintable s (codes "warning") refl,
  level-IsPrintable s (codes "notice") refl,
  level-IsPrintable s (codes "info") refl,
  level-IsPrintable s (codes "debug") refl,
)

decimal_from-IsPrintable :
    (fuel n : ℕ) (acc : Bytes) → IsPrintable acc → IsPrintable (decimal_from fuel n acc)
unfolding decimal_from every
decimal_from-IsPrintable zero n acc h = h
decimal_from-IsPrintable (suc fuel) n acc h =
    ground (arith, decimal_from-IsPrintable fuel (n / 10) ((n % 10 + b'0') ∷ acc))

itoa-IsPrintable : (n : ℤ) → IsPrintable (itoa n)
unfolding itoa every
itoa-IsPrintable (pos n) = decimal_from-IsPrintable (suc n) n [] refl
itoa-IsPrintable (negsuc n) = decimal_from-IsPrintable (suc (suc n)) (suc n) [] refl

-- The arguments, where there is no error.
abbrev ArePrintable : Option (List Bytes) → Type 0
ArePrintable none = Unit
ArePrintable (some args) = All IsPrintable args

append-All : (a b : List Bytes) → All IsPrintable a → All IsPrintable b → All IsPrintable (a ++ b)
append-All [] b h k = k
append-All (x ∷ a) b h k = (h.0, append-All a b h.1 k)

append_args-ArePrintable :
    (a b : Option (List Bytes)) → ArePrintable a → ArePrintable b → ArePrintable (append_args a b)
append_args-ArePrintable none b h k = tt
append_args-ArePrintable (some a) none h k = tt
append_args-ArePrintable (some a) (some b) h k = append-All a b h k

option_args-ArePrintable :
    (flag value : Bytes) (valid : Bool)
    → IsPrintable flag
    → (valid ≡ true → IsPrintable value)
    → ArePrintable (option_args flag value valid)
option_args-ArePrintable flag [] valid f v = tt
option_args-ArePrintable flag (c ∷ s) true f v = (f, (v refl, tt))
option_args-ArePrintable flag (c ∷ s) false f v = tt

guarded-ArePrintable :
    (t : Bool) (args : List Bytes)
    → All IsPrintable args
    → ArePrintable (if t then none else some args)
guarded-ArePrintable true args h = tt
guarded-ArePrintable false args h = h

lines_args-ArePrintable : (n : ℤ) → ArePrintable (lines_args n)
unfolding lines_args every
lines_args-ArePrintable n =
    guarded-ArePrintable _ _ (refl, (refl, (refl, (refl, (itoa-IsPrintable _, tt)))))

boot_args-ArePrintable : (n : ℤ) → ArePrintable (boot_args n)
unfolding boot_args every
boot_args-ArePrintable (pos zero) = tt
boot_args-ArePrintable (pos (suc n)) = tt
boot_args-ArePrintable (negsuc n) =
    guarded-ArePrintable _ _ (refl, (itoa-IsPrintable (negsuc n), tt))

module _ (compiles : Bytes → Bool) where
  -- Every argument that `journalArgs` hands to journalctl consists of printable ASCII characters,
  -- whatever the caller asked for.
  pub journal_args-IsPrintable :
      (i : JournalIn) (args : List Bytes)
      → journal_args compiles i ≡ some args
      → All IsPrintable args
  unfolding journal_args every
  journal_args-IsPrintable i args h = subst ArePrintable h (
      append_args-ArePrintable (lines_args i.lines) _ (lines_args-ArePrintable i.lines) (
        append_args-ArePrintable _ _
          (option_args-ArePrintable (codes "--unit") i.unit (is_unit i.unit) refl
            (unit-IsPrintable i.unit))
          (append_args-ArePrintable _ _
            (option_args-ArePrintable (codes "-p") i.priority (is_priority i.priority) refl
              (priority-IsPrintable i.priority))
            (append_args-ArePrintable _ _
              (option_args-ArePrintable (codes "--since") i.since (is_since i.since) refl
                (since-IsPrintable i.since))
              (append_args-ArePrintable (boot_args i.boot) _ (boot_args-ArePrintable i.boot) (
                option_args-ArePrintable (codes "--grep") i.match _ refl
                  (λ k. match-IsPrintable i.match (ground arith))))))))
