-- ===== src/Fleet/Registry/Subscribers.antt =====
-- `Subscribe`, its cancel function, `Broadcast`, and the reader's side of a channel.
use native.Mathlib.Numerals.{sub-one}
use fleetmind.Common.{
  ℕ, zero, suc, ◌∙◌, ◌-◌, append-nil, append_assoc, length-append, ◌≤◌, ◌<◌, List, [], ◌∷◌, ◌++◌,
  ◌≡◌, refl, Option, none, some, length, take, if◌then◌else◌, ltb, ◌==◌, Bool-cases, inl, inr, ap,
  arith,
}
use fleetmind.Common.Int.{ℤ, pos, pos_part, ltb_ℤ}
use fleetmind.Fleet.Peer.{Event}
use fleetmind.Fleet.Registry.{
  Registry, Channel, subscribe, drop_subscriber, cancel, offer, offer_all, broadcast,
}
use fleetmind.Fleet.Registry.Invariant.{Inv, IsBuffered}

-- The channel of a subscriber.
abbrev pub channel : ℕ → List (ℕ × Channel) → Option Channel
channel id [] = none
channel id ((j, ch) ∷ s) = if j == id then some ch else channel id s

-- What a subscriber can still read.
abbrev pub offered : Event → Option Channel → Option Channel
offered e none = none
offered e (some ch) = some (offer e ch)

offer_all-channel :
    (e : Event) (id : ℕ) (s : List (ℕ × Channel))
    → channel id (offer_all e s) ≡ offered e (channel id s)
unfolding offer_all
offer_all-channel e id [] = refl
offer_all-channel e id ((j, ch) ∷ s) = ground (arith, offer_all-channel e id s)

-- `Broadcast` puts the event behind what each subscriber has still to read, and drops it for the
-- subscribers whose buffer is full; for these nothing changes. It blocks on nobody, and adds and
-- drops no subscriber.
pub broadcast-channel :
    (e : Event) (r : Registry) (id : ℕ)
    → channel id (broadcast e r).subscribers ≡ elim (channel id r.subscribers) [
      | none ↦ none
      | some ch ↦ some (
          if ltb (length ch.buffered) ch.capacity
          then record ch { buffered = ch.buffered ++ (e ∷ []) }
          else ch)
    ]
unfolding broadcast offer
broadcast-channel e r id = ground (arith, offer_all-channel e id r.subscribers)

-- The events of a run of broadcasts.
abbrev pub broadcasts : List Event → Registry → Registry
broadcasts [] r = r
broadcasts (e ∷ es) r = broadcasts es (broadcast e r)

channel_above : (id n : ℕ) (s : List (ℕ × Channel)) → IsBuffered n s → n ≤ id → channel id s ≡ none
channel_above id n [] b h = refl
channel_above id n ((j, ch) ∷ s) b h = ground (arith, channel_above id j s b.3)

drop_subscriber-channel :
    (id k : ℕ) (s : List (ℕ × Channel))
    → channel k (drop_subscriber id s) ≡ (if id == k then none else channel k s)
unfolding drop_subscriber
drop_subscriber-channel id k [] = ground arith
drop_subscriber-channel id k ((j, ch) ∷ s) = ground (arith, drop_subscriber-channel id k s)

-- One broadcast, at a subscriber that is there.
offer_cases :
    (e : Event) (r : Registry) (id : ℕ) (ch : Channel)
    → channel id r.subscribers ≡ some ch
    → channel id (broadcast e r).subscribers ≡ some (offer e ch)
unfolding broadcast
offer_cases e r id ch h = offer_all-channel e id r.subscribers ∙ (rw h)

take_none : (es : List Event) (n : ℕ) → n ≡ 0 → take n es ≡ []
take_none es zero h = refl
take_none es (suc n) h = absurd (omega arith)

take_more : (e : Event) (es : List Event) (n : ℕ) → 0 < n → take n (e ∷ es) ≡ e ∷ take (n - 1) es
take_more e es zero h = absurd (omega arith)
take_more e es (suc n) h = rw sub-one

take-nil : (n : ℕ) → take {A = Event} n [] ≡ []
take-nil zero = refl
take-nil (suc n) = refl

-- What one offer leaves room for.
offer_then :
    (e : Event) (es : List Event) (ch : Channel)
    → record (offer e ch) {
      buffered =
          (offer e ch).buffered ++ take ((offer e ch).capacity - length (offer e ch).buffered) es;
    }
      ≡ record ch { buffered = ch.buffered ++ take (ch.capacity - length ch.buffered) (e ∷ es) }
unfolding offer
offer_then e es ch = elim (Bool-cases (ltb (length ch.buffered) ch.capacity)) [
  | inl room ↦
      let n = ch.capacity - length ch.buffered in
      let left : ch.capacity - length (ch.buffered ++ (e ∷ [])) ≡ n - 1 =
        ground (arith, length-append ch.buffered (e ∷ [])) in
      rw (room, left, take_more e es n (ground arith), append_assoc)
  | inr full ↦
      let n = ch.capacity - length ch.buffered in
      let empty : n ≡ 0 = ground arith in
      rw (full, take_none es n empty, take_none (e ∷ es) n empty)
]

-- A subscriber that reads nothing while events are broadcast finds, behind what was waiting for it,
-- the first of them in the order of the broadcasts, as many as its buffer had room for; the later
-- ones are dropped.
pub broadcasts-channel :
    (es : List Event) (r : Registry) (id : ℕ) (ch : Channel)
    → channel id r.subscribers ≡ some ch
    → channel id (broadcasts es r).subscribers
      ≡ some (record ch { buffered = ch.buffered ++ take (ch.capacity - length ch.buffered) es })
broadcasts-channel [] r id ch h = rw (take-nil (ch.capacity - length ch.buffered), append-nil) h
broadcasts-channel (e ∷ es) r id ch h =
    broadcasts-channel es (broadcast e r) id (offer e ch) (offer_cases e r id ch h)
    ∙ ap some (offer_then e es ch)

-- `Subscribe` gives a new id, under which an empty channel stands with the asked capacity, or 16
-- where less than 1 was asked, and leaves the other subscribers alone.
pub subscribe-channel :
    (b : ℤ) (r : Registry) (k : ℕ)
    → Inv r
    → (channel (subscribe b r).1 r.subscribers ≡ none)
      × (channel k (subscribe b r).0.subscribers ≡ (
          if (subscribe b r).1 == k
          then some
              (record { buffered = []; capacity = if ltb_ℤ b (pos 1) then 16 else pos_part b })
          else channel k r.subscribers))
unfolding subscribe
subscribe-channel b r k v = (channel_above _ _ r.subscribers v.buffered (omega arith), refl)

drop_subscriber_twice :
    (id : ℕ) (s : List (ℕ × Channel))
    → drop_subscriber id (drop_subscriber id s) ≡ drop_subscriber id s
unfolding drop_subscriber
drop_subscriber_twice id [] = refl
drop_subscriber_twice id ((j, ch) ∷ s) = ground (arith, drop_subscriber_twice id s)

-- Calling the cancel function takes that subscriber out and no other, and calling it again does
-- nothing.
pub cancel-channel :
    (id k : ℕ) (r : Registry)
    → (channel k (cancel id r).subscribers ≡ (if id == k then none else channel k r.subscribers))
      × (cancel id (cancel id r) ≡ cancel id r)
unfolding cancel
cancel-channel id k r = (
  drop_subscriber-channel id k r.subscribers,
  ap (λ (s : List (ℕ × Channel)). record r { subscribers = s })
      (drop_subscriber_twice id r.subscribers),
)
