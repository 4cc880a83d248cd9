-- ===== src/Fleet/Bootstrap/Mutual.antt =====
-- A join, seen from both ends.
use fleetmind.Common.{
  ℕ, Bool, List, [], ◌∷◌, Option, some, ◌≡◌, ◌⊎◌, refl, sym, subst, ◌∙◌, All, Bool-cases, inl, inr,
}
use fleetmind.Common.Dict.{lookup, values}
use fleetmind.Common.Keyed.{by_key}
use fleetmind.Common.Sort.{insert_by, sort_by}
use fleetmind.Common.Text.{Bytes, codes, equal_refl}
use fleetmind.Fleet.Bootstrap.{bootstrap}
use fleetmind.Fleet.Bootstrap.Joined.{Knows, IsOther, bootstrap-All}
use fleetmind.Fleet.Handlers.{ok, with_times, join_handler, undisturbed}
use fleetmind.Fleet.Handlers.Join.{IsAdmissible, join_handler-admits}
use fleetmind.Fleet.Manager.{alone, Manager}
use fleetmind.Fleet.Peer.{Time, Peer}
use fleetmind.Fleet.Registry.{Registry, node_id_of, sorted_peers, roster, upsert}
use fleetmind.Fleet.Registry.Invariant.{Inv}

All-insert_by :
    (P : Peer → Type 0) (less : Peer → Peer → Bool) (x : Peer) (xs : List Peer)
    → All P (insert_by less x xs)
    → P x × All P xs
unfolding insert_by
All-insert_by P less x [] h = h
All-insert_by P less x (y ∷ ys) h = elim (Bool-cases (less y x)) [
  | inl e ↦
      let (this, rest) = rw e at h in
      let (found, others) = All-insert_by P less x ys rest in (found, (this, others))
  | inr e ↦ rw e at h
]

-- What holds of a sorted list's members holds of the members that were sorted.
All-sort_by :
    (P : Peer → Type 0) (less : Peer → Peer → Bool) (xs : List Peer)
    → All P (sort_by less xs)
    → All P xs
unfolding sort_by
All-sort_by P less [] h = tt
All-sort_by P less (x ∷ xs) h =
    let (this, rest) = All-insert_by P less x (sort_by less xs) h in
    (this, All-sort_by P less xs rest)

ok_injective : (ps qs : List Peer) → ok ps ≡ ok qs → ps ≡ qs
ok_injective ps qs h = cc

-- A node that is not the other one, with an id and a URL, posts itself to another node's join
-- endpoint, and bootstraps from the roster in the response, with no call of another goroutine in
-- between. Then the other node has it in its registry; and it has in its registry, each with a
-- stream registered under its id, the other node and every peer that the other node has, itself and
-- blank ids aside.
pub bootstrap_mutual :
    (decode : Bytes → Option Peer) (same_base_url : Bytes → Bytes → Bool) (ctx : ℕ)
    (clock : Peer → Time) (now : Time) (body : Bytes) (m : Manager) (r : Registry) (ps : List Peer)
    → Inv m.registry
    → decode body ≡ some m.registry.self
    → IsAdmissible m.registry.self r
    → (join_handler decode undisturbed now (codes "POST") body r).1 ≡ ok ps
    → ((q : Peer) × (lookup m.registry.self.node_id
            (join_handler decode undisturbed now (codes "POST") body r).0.peers
          ≡ some q))
      × All
          (λ p.
            IsOther m.registry.self.node_id p
            ⊎ Knows p.node_id (bootstrap same_base_url alone ctx clock (some ps) m).0)
          ((join_handler decode undisturbed now (codes "POST") body r).0.self
            ∷ values (join_handler decode undisturbed now (codes "POST") body r).0.peers)
unfolding roster sorted_peers
bootstrap_mutual decode same_base_url ctx clock now body m r ps v d a e =
    let me = m.registry.self in
    let posted = join_handler decode undisturbed now (codes "POST") body r in
    let P : Peer → Type 0 = λ p.
      IsOther me.node_id p
      ⊎ Knows p.node_id (bootstrap same_base_url alone ctx clock (some ps) m).0 in
    let admitted = join_handler-admits decode now (codes "POST") body r me me.node_id refl d a in
    let listed : All P ps = bootstrap-All same_base_url ctx clock ps m v in
    (
      ((upsert now (with_times now me) r).1, admitted.0 ∙ (rw (equal_refl me.node_id))),
      All-sort_by P (by_key node_id_of) (posted.0.self ∷ values posted.0.peers)
          (subst (All P) (ok_injective ps (roster posted.0) (sym e ∙ admitted.1)) listed),
    )
