-- ===== src/Fleet/Manager/Streams.antt =====
-- Streams and the contexts they run in.
use fleetmind.Common.{
  ℕ, ◌+◌, ◌≤◌, ◌<◌, Bool, true, false, ◌||◌, List, [], ◌∷◌, none, some, ◌≡◌, refl, ◌∙◌, ◌==◌,
  if◌then◌else◌, arith, inl, inr, Option-cases, Option, subst, ◌⊎◌, sym, ap,
}
use fleetmind.Common.Dict.{lookup, insert, delete, lookup-insert, lookup-insert_self, lookup-delete}
use fleetmind.Common.Text.{Bytes, equal}
use fleetmind.Fleet.Peer.{Peer}
use fleetmind.Fleet.Manager.{
  Manager, Context, is_done, cancel_context, start_stream, ensure_stream, stop_stream,
  cancel_stream,
}

-- Context ids fall along the list, each under `next`, and no parent is younger than its child.
abbrev pub IsTree : ℕ → List Context → Type 0
IsTree next [] = Unit
IsTree next (x ∷ xs) = (x.id < next) × (x.parent ≤ x.id) × IsTree x.id xs

abbrev pub has_context : ℕ → List Context → Bool
has_context c [] = false
has_context c (x ∷ xs) = x.id == c || has_context c xs

pub has_context_lt : (c n : ℕ) (xs : List Context) → IsTree n xs → has_context c xs ≡ true → c < n
has_context_lt c n [] t h = cc
has_context_lt c n (x ∷ xs) t h = ground (arith, has_context_lt c x.id xs t.2)

-- A context whose cancel function was called is done.
pub is_done-cancel_context :
    (c : ℕ) (xs : List Context) → has_context c xs ≡ true → is_done c (cancel_context c xs) ≡ true
unfolding is_done cancel_context
is_done-cancel_context c [] h = cc
is_done-cancel_context c (x ∷ xs) h = ground (arith, is_done-cancel_context c xs)

-- Once done, always done: no call of a cancel function undoes another.
pub cancel_context_mono :
    (c d : ℕ) (xs : List Context) → is_done d xs ≡ true → is_done d (cancel_context c xs) ≡ true
unfolding is_done cancel_context
cancel_context_mono c d [] h = h
cancel_context_mono c d (x ∷ xs) h =
    ground (arith, cancel_context_mono c d xs, cancel_context_mono c x.parent xs)

-- What `ensureStream` does with a node that has a stream: nothing, whatever became of that stream.
pub ensure_stream_known :
    (parent : ℕ) (p : Peer) (m : Manager) {c : ℕ}
    → lookup p.node_id m.streams ≡ some c
    → ensure_stream parent p m ≡ m
unfolding ensure_stream start_stream
ensure_stream_known parent p m h = rw (h, start_stream)

pub ensure_stream_new :
    (parent : ℕ) (p : Peer) (m : Manager)
    → lookup p.node_id m.streams ≡ none
    → ensure_stream parent p m ≡ record m {
      contexts = record { id = m.next_context; parent = parent; cancelled = false } ∷ m.contexts;
      next_context = m.next_context + 1;
      streams = insert p.node_id m.next_context m.streams;
    }
unfolding ensure_stream start_stream
ensure_stream_new parent p m h = rw (h, start_stream)

-- After `ensureStream` the node has a stream; the other nodes' streams and the registry are as
-- they were.
pub ensure_stream-lookup :
    (parent : ℕ) (p : Peer) (m : Manager)
    → ((c : ℕ) × (lookup p.node_id (ensure_stream parent p m).streams ≡ some c))
      × ((k : Bytes)
          → equal p.node_id k ≡ false
          → lookup k (ensure_stream parent p m).streams ≡ lookup k m.streams)
      × ((ensure_stream parent p m).registry ≡ m.registry)
ensure_stream-lookup parent p m = elim (Option-cases (lookup p.node_id m.streams)) [
  | inl h ↦ rw (ensure_stream_new parent p m h) (
    (m.next_context, lookup-insert_self p.node_id m.next_context m.streams),
    (λ k ne. lookup-insert p.node_id k m.next_context m.streams ∙ (rw ne)),
    refl,
  )
  | inr (c, h) ↦ rw (ensure_stream_known parent p m h) ((c, h), (λ k ne. refl), refl)
]

-- After `cancelStream` the node has no stream, and the other nodes' streams are registered as they
-- were.
pub cancel_stream-lookup :
    (k j : Bytes) (m : Manager)
    → (lookup j (cancel_stream k m).streams ≡ (if equal k j then none else lookup j m.streams))
      × ((cancel_stream k m).registry ≡ m.registry)
unfolding cancel_stream stop_stream
cancel_stream-lookup k j m = elim (Option-cases (lookup k m.streams)) [
  | inl h ↦ rw (h, stop_stream) (lookup-delete k j m.streams, refl)
  | inr (c, h) ↦ rw (h, stop_stream) (lookup-delete k j m.streams, refl)
]

pub cancel_stream_known :
    (k : Bytes) (m : Manager) (c : ℕ)
    → lookup k m.streams ≡ some c
    → cancel_stream k m
      ≡ record m { streams = delete k m.streams; contexts = cancel_context c m.contexts }
unfolding cancel_stream stop_stream
cancel_stream_known k m c h = rw (h, stop_stream)

-- The stream of a node after a call for it: the one that was registered, or else a new one, which
-- has ended only if the context that it is called for has.
pub record IsStreamed (ctx : ℕ) (k : Bytes) (m m' : Manager) : Type 0 where
  pub stream : ℕ
  pub registered : lookup k m'.streams ≡ some stream
  pub origin :
      (lookup k m.streams ≡ some stream)
      ⊎ ((lookup k m.streams ≡ none) × (is_done stream m'.contexts ≡ is_done ctx m.contexts))

new_context :
    (n ctx : ℕ) (xs : List Context)
    → is_done n (record { id = n; parent = ctx; cancelled = false } ∷ xs) ≡ is_done ctx xs
unfolding is_done
new_context n ctx xs = ground arith

pub ensure_stream-IsStreamed :
    (ctx : ℕ) (p : Peer) (m : Manager) → IsStreamed ctx p.node_id m (ensure_stream ctx p m)
ensure_stream-IsStreamed ctx p m = elim (Option-cases (lookup p.node_id m.streams)) [
  | inl h ↦ rw (ensure_stream_new ctx p m h) (record {
    stream = m.next_context;
    registered = lookup-insert_self p.node_id m.next_context m.streams;
    origin = inr (h, new_context m.next_context ctx m.contexts);
  })
  | inr (c, h) ↦
      rw (ensure_stream_known ctx p m h) (record { stream = c; registered = h; origin = inl h })
]

-- A stream, if there is one, runs in a context of the list; it has ended.
abbrev pub IsMade : Option ℕ → List Context → Type 0
IsMade none xs = Unit
IsMade (some c) xs = has_context c xs ≡ true

abbrev pub IsEnded : Option ℕ → List Context → Type 0
IsEnded none xs = Unit
IsEnded (some c) xs = is_done c xs ≡ true

has_context-cancel_context :
    (c d : ℕ) (xs : List Context)
    → has_context d xs ≡ true
    → has_context d (cancel_context c xs) ≡ true
unfolding cancel_context
has_context-cancel_context c d [] h = h
has_context-cancel_context c d (x ∷ xs) h = ground (arith, has_context-cancel_context c d xs)

cancel_stream-none :
    (k : Bytes) (m : Manager)
    → lookup k m.streams ≡ none
    → (cancel_stream k m).contexts ≡ m.contexts
unfolding cancel_stream stop_stream
cancel_stream-none k m h = rw (h, stop_stream)

-- The contexts behind a call of `cancelStream`.
pub cancel_stream-contexts :
    (P : List Context → Type 0) (k : Bytes) (m : Manager)
    → P m.contexts
    → ((c : ℕ) → P (cancel_context c m.contexts))
    → P (cancel_stream k m).contexts
cancel_stream-contexts P k m h f = elim (Option-cases (lookup k m.streams)) [
  | inl e ↦ subst P (sym (cancel_stream-none k m e)) h
  | inr (c, e) ↦
      subst P (sym (ap (λ (n : Manager). n.contexts) (cancel_stream_known k m c e))) (f c)
]

pub cancel_stream-IsMade :
    (o : Option ℕ) (k : Bytes) (m : Manager)
    → IsMade o m.contexts
    → IsMade o (cancel_stream k m).contexts
cancel_stream-IsMade none k m h = tt
cancel_stream-IsMade (some d) k m h =
    cancel_stream-contexts (λ xs. has_context d xs ≡ true) k m h
      (λ c. has_context-cancel_context c d m.contexts h)

pub cancel_stream_mono :
    (o : Option ℕ) (k : Bytes) (m : Manager)
    → IsEnded o m.contexts
    → IsEnded o (cancel_stream k m).contexts
cancel_stream_mono none k m h = tt
cancel_stream_mono (some d) k m h =
    cancel_stream-contexts (λ xs. is_done d xs ≡ true) k m h
      (λ c. cancel_context_mono c d m.contexts h)

-- The stream that a node had has ended when it was cancelled.
pub cancel_stream-IsEnded :
    (k : Bytes) (m : Manager)
    → IsMade (lookup k m.streams) m.contexts
    → IsEnded (lookup k m.streams) (cancel_stream k m).contexts
cancel_stream-IsEnded k m h = elim (Option-cases (lookup k m.streams)) [
  | inl e ↦ rw e tt
  | inr (c, e) ↦
      let known : has_context c m.contexts ≡ true = subst (λ o. IsMade o m.contexts) e h in
      rw (cancel_stream_known k m c e, e) (is_done-cancel_context c m.contexts known)
]
