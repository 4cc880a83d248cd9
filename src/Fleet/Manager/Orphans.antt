-- ===== src/Fleet/Manager/Orphans.antt =====
-- A stream that was started from inside another node's stream ends with it, and stays registered.
use fleetmind.Common.{
  ℕ, true, false, List, ◌∷◌, none, some, ◌≡◌, ◌∙◌, ap, arith, inl, inr, Bool-cases,
}
use fleetmind.Common.Dict.{lookup, insert, lookup-insert, lookup-insert_self, lookup-delete}
use fleetmind.Common.Text.{Bytes, equal, equal_iff}
use fleetmind.Fleet.Peer.{Peer}
use fleetmind.Fleet.Manager.{
  Manager, Context, is_done, cancel_context, ensure_stream, cancel_stream,
}
use fleetmind.Fleet.Manager.Streams.{
  IsTree, has_context, has_context_lt, is_done-cancel_context, ensure_stream_known,
  ensure_stream_new, cancel_stream_known,
}

-- The stream of a node is registered and its context is done.
abbrev pub IsOrphan : Bytes → Manager → Type 0
IsOrphan k m = (d : ℕ) × (lookup k m.streams ≡ some d) × (is_done d m.contexts ≡ true)

-- A child that was made in context `c` is done when `c` is cancelled.
child_done :
    (c n : ℕ) (xs : List Context)
    → IsTree n xs
    → has_context c xs ≡ true
    → is_done n (cancel_context c (record { id = n; parent = c; cancelled = false } ∷ xs)) ≡ true
unfolding is_done cancel_context
child_done c n xs t h = ground (arith, has_context_lt c n xs t h, is_done-cancel_context c xs h)

module _ (m : Manager) (a : Bytes) (c : ℕ) (p : Peer) (tree : IsTree m.next_context m.contexts)
    (known : has_context c m.contexts ≡ true) (streamed : lookup a m.streams ≡ some c)
    (fresh : lookup p.node_id m.streams ≡ none) where
  a_not_p : equal p.node_id a ≡ false
  a_not_p = elim (Bool-cases (equal p.node_id a)) [
    | inl e ↦ cc (ap (λ k. lookup k m.streams) ((equal_iff p.node_id a).0 e), streamed, fresh)
    | inr e ↦ e
  ]

  pub cancel_stream-IsOrphan : IsOrphan p.node_id (cancel_stream a (ensure_stream c p m))
  cancel_stream-IsOrphan =
      let n = m.next_context in
      let started = ensure_stream_new c p m fresh in
      let kept : lookup a (ensure_stream c p m).streams ≡ some c =
        rw started (lookup-insert p.node_id a n m.streams ∙ (rw a_not_p streamed)) in
      let apart : equal a p.node_id ≡ false =
        ground (arith, a_not_p, equal_iff p.node_id a, equal_iff a p.node_id) in
      rw (cancel_stream_known a (ensure_stream c p m) c kept, started)
        (
          n,
          lookup-delete a p.node_id (insert p.node_id n m.streams)
              ∙ (rw apart (lookup-insert_self p.node_id n m.streams)),
          child_done c n m.contexts tree known,
        )

-- An orphan stays one: whoever asks for a stream of that node, from whatever context, gets none.
pub ensure_stream-IsOrphan :
    (parent : ℕ) (p : Peer) (m : Manager)
    → IsOrphan p.node_id m
    → (ensure_stream parent p m ≡ m) × IsOrphan p.node_id (ensure_stream parent p m)
ensure_stream-IsOrphan parent p m (d, h, done) =
    let same = ensure_stream_known parent p m h in (same, rw same (d, h, done))
