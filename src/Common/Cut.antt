-- ===== src/Common/Cut.antt =====
-- Texts that are cut at the first separator.
use fleetmind.Common.Text.{cut, index_byte, Bytes}
use fleetmind.Common.{
  List, drop, take, ℕ, length, suc, All, ◌++◌, ◌==◌, ◌∷◌, ◌≡◌, [], false, refl, some, true, arith,
}

pub index_byte-append :
    (c : ℕ) (k v : Bytes)
    → All (λ x. (x == c) ≡ false) k
    → index_byte c (k ++ (c ∷ v)) ≡ some (length k)
unfolding index_byte
index_byte-append c [] v h = ground arith
index_byte-append c (x ∷ k) v h = rw (h.0, index_byte-append c k v h.1)

module _ {A : Type 0} where
  pub take-append : (k v : List A) → take (length k) (k ++ v) ≡ k
  take-append [] v = refl
  take-append (c ∷ k) v = rw (take-append k v)

  pub drop-suc-append : (k v : List A) (c : A) → drop (suc (length k)) (k ++ (c ∷ v)) ≡ v
  drop-suc-append [] v c = refl
  drop-suc-append (x ∷ k) v c = drop-suc-append k v c

pub cut-append :
    (c : ℕ) (s rest : Bytes)
    → All (λ x. (x == c) ≡ false) s
    → cut c (s ++ (c ∷ rest)) ≡ (s, rest, true)
unfolding cut
cut-append c s rest h =
    rw (index_byte-append c s rest h, cut, take-append s (c ∷ rest), drop-suc-append s rest c)
