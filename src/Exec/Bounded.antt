-- ===== src/Exec/Bounded.antt =====
-- internal/exectool/exectool.go: what is captured of an output.
use fleetmind.Common.{
  ℕ, zero, suc, ◌-◌, ◌≤◌, Bool, true, false, List, [], ◌∷◌, ◌++◌, ◌≡◌, refl, sym, subst, ap, ◌∙◌,
  arith, ltb, Bool-cases, inl, inr, length, take, length-append, append-nil, append_assoc,
}
use fleetmind.Common.Text.{Bytes}
use fleetmind.Exec.{LimitedWriter, limited, write, write_all}

-- A command's output, in whatever pieces it is written.
abbrev pub joined : List Bytes → Bytes
joined [] = []
joined (p ∷ ps) = p ++ joined ps

take-append_less : (n : ℕ) (p q : Bytes) → n ≤ length p → take n (p ++ q) ≡ take n p
take-append_less zero p q h = refl
take-append_less (suc n) [] q h = ground arith
take-append_less (suc n) (c ∷ p) q h = rw (take-append_less n p q (omega arith))

minus_zero : (n : ℕ) → n - 0 ≡ n
minus_zero n = omega arith

suc_minus-suc : (n m : ℕ) → suc n - suc m ≡ n - m
suc_minus-suc n m = omega arith

take-nil : (n : ℕ) → take {A = ℕ} n [] ≡ []
take-nil zero = refl
take-nil (suc n) = refl

take-append_more :
    (n : ℕ) (p q : Bytes) → length p ≤ n → take n (p ++ q) ≡ p ++ take (n - length p) q
take-append_more n [] q h = rw (minus_zero n)
take-append_more zero (c ∷ p) q h = ground arith
take-append_more (suc n) (c ∷ p) q h =
    rw (suc_minus-suc n (length p), take-append_more n p q (omega arith))

abbrev writer : Bytes → ℕ → Bool → LimitedWriter
writer w n hit = record { w = w; n = n; hit = hit }

write_over :
    (p w : Bytes) (n : ℕ)
    → ltb n (length p) ≡ true
    → (write p (writer w n false)).0 ≡ writer (w ++ take n p) 0 true
unfolding write
write_over p w n h = rw h

write_fits :
    (p w : Bytes) (n : ℕ)
    → ltb n (length p) ≡ false
    → (write p (writer w n false)).0 ≡ writer (w ++ p) (n - length p) false
unfolding write
write_fits p w n h = rw h

write_all_hit :
    (ps : List Bytes) (w : Bytes) (n : ℕ) → write_all ps (writer w n true) ≡ writer w n true
unfolding write_all write
write_all_hit [] w n = refl
write_all_hit (p ∷ ps) w n = write_all_hit ps w n

-- What a writer that has room for `n` more bytes has in the end.
abbrev Captures : Bytes → ℕ → Bytes → LimitedWriter → Type 0
Captures w n output l = (l.w ≡ w ++ take n output) × (l.hit ≡ ltb n (length output))

Captures-over :
    (p q w : Bytes) (n : ℕ)
    → ltb n (length p) ≡ true
    → Captures w n (p ++ q) (writer (w ++ take n p) 0 true)
Captures-over p q w n h =
    (ap (◌++◌ w) (sym (take-append_less n p q (ground arith))), ground (arith, length-append p q))

Captures-fits :
    (p q w : Bytes) (n : ℕ) (l : LimitedWriter)
    → ltb n (length p) ≡ false
    → Captures (w ++ p) (n - length p) q l
    → Captures w n (p ++ q) l
Captures-fits p q w n l h k = (
  k.0
      ∙ append_assoc w p (take (n - length p) q)
      ∙ ap (◌++◌ w) (sym (take-append_more n p q (ground arith))),
  ground (arith, length-append p q, k.1),
)

write_all_next :
    (p : Bytes) (ps : List Bytes) (l l' : LimitedWriter)
    → (write p l).0 ≡ l'
    → write_all (p ∷ ps) l ≡ write_all ps l'
unfolding write_all
write_all_next p ps l l' h = ap (write_all ps) h

write_all-Captures :
    (ps : List Bytes) (w : Bytes) (n : ℕ)
    → Captures w n (joined ps) (write_all ps (writer w n false))
unfolding write_all
write_all-Captures [] w n = (rw (take-nil n) (sym (append-nil w)), ground arith)
write_all-Captures (p ∷ ps) w n = elim (Bool-cases (ltb n (length p))) [
  | inl h ↦
      subst (Captures w n (p ++ joined ps))
        (sym (write_all_next p ps _ _ (write_over p w n h) ∙ write_all_hit ps (w ++ take n p) 0))
        (Captures-over p (joined ps) w n h)
  | inr h ↦
      subst (Captures w n (p ++ joined ps)) (sym (write_all_next p ps _ _ (write_fits p w n h))) (
        Captures-fits p (joined ps) w n (write_all ps (writer (w ++ p) (n - length p) false)) h
          (write_all-Captures ps (w ++ p) (n - length p)))
]

-- Of an output, in whatever pieces it is written, the first `max_output` bytes are captured and no
-- more, and the overflow is recorded exactly if the output has more bytes than that.
pub write_all-limited :
    (max_output : ℕ) (ps : List Bytes)
    → ((write_all ps (limited max_output)).w ≡ take max_output (joined ps))
      × ((write_all ps (limited max_output)).hit ≡ ltb max_output (length (joined ps)))
write_all-limited max_output ps = write_all-Captures ps [] max_output
