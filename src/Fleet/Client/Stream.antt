-- ===== src/Fleet/Client/Stream.antt =====
-- The reader of the event stream takes back what the handler's writer wrote.
use fleetmind.Common.{
  ℕ, Bool, false, List, [], ◌∷◌, ◌++◌, Option, some, ◌≡◌, refl, sym, ap, ◌∙◌, arith, All,
  All-append, All-reverse, append-nil, append_assoc, reverse, reverse-append, reverse-reverse,
}
use fleetmind.Common.Space.{trim_space, drop_spaces, space_width, space_width_back}
use fleetmind.Common.Text.{Bytes, codes, equal, has_prefix, trim_prefix, trim_left, trim_right}
use fleetmind.Fleet.Client.{
  Reader, start, is_line_end, parse_type, print_type, read_data, dispatch, read_line, read_stream,
  stream_events,
}
use fleetmind.Fleet.Handlers.{write_sse, write_events, events_body, replay}
use fleetmind.Fleet.Peer.{Peer, Event, EventType, heartbeat, peer_added, peer_removed, unknown}
use fleetmind.Fleet.Registry.{Registry, roster}

-- A text with no line end in it.
abbrev pub IsLine : Bytes → Type 0
IsLine = All (λ c. is_line_end c ≡ false)

trim_left_keep : (t : ℕ → Bool) (s : Bytes) → All (λ c. t c ≡ false) s → trim_left t s ≡ s
unfolding trim_left
trim_left_keep t [] h = refl
trim_left_keep t (c ∷ s) h = rw (h.0)

-- A line and its newline, trimmed.
trim_right-line : (s : Bytes) → IsLine s → trim_right is_line_end (s ++ (10 ∷ [])) ≡ s
unfolding trim_right trim_left
trim_right-line s h = rw (reverse-append s (10 ∷ [])) (
    unfold trim_left in
    ap reverse (trim_left_keep is_line_end (reverse s) (All-reverse _ s h)) ∙ reverse-reverse s)

-- The types that the code gives to the events it sends.
abbrev pub IsKnown : EventType → Type 0
IsKnown (unknown s) = ⊥
IsKnown heartbeat = Unit
IsKnown peer_added = Unit
IsKnown peer_removed = Unit

module _ (unmarshal : Bytes → Option Peer) where
  read_stream_next :
      (r : Reader) (line s : Bytes)
      → read_stream unmarshal r line (10 ∷ s)
        ≡ (read_line unmarshal r (trim_right is_line_end (line ++ (10 ∷ [])))).1
          ++ read_stream unmarshal
              (read_line unmarshal r (trim_right is_line_end (line ++ (10 ∷ [])))).0
              []
              s
  unfolding read_stream
  read_stream_next r line s = refl

  read_stream_more :
      (r : Reader) (line : Bytes) (c : ℕ) (s : Bytes)
      → is_line_end c ≡ false
      → read_stream unmarshal r line (c ∷ s) ≡ read_stream unmarshal r (line ++ (c ∷ [])) s
  unfolding read_stream
  read_stream_more r line c s h = ground arith

  read_stream-append :
      (r : Reader) (line l s : Bytes)
      → IsLine l
      → read_stream unmarshal r line (l ++ s) ≡ read_stream unmarshal r (line ++ l) s
  read_stream-append r line [] s h = rw (append-nil line)
  read_stream-append r line (c ∷ l) s h =
      read_stream_more r line c (l ++ s) h.0
      ∙ read_stream-append r (line ++ (c ∷ [])) l s h.1
      ∙ (rw (append_assoc line (c ∷ []) l))

  -- A whole line is read at once.
  read_stream-line :
      (r : Reader) (l s : Bytes)
      → IsLine l
      → read_stream unmarshal r [] (l ++ (10 ∷ s))
        ≡ (read_line unmarshal r l).1 ++ read_stream unmarshal (read_line unmarshal r l).0 [] s
  read_stream-line r l s h =
      read_stream-append r [] l (10 ∷ s) h ∙ read_stream_next r l s ∙ (rw (trim_right-line l h))

  read_line-type :
      (t : EventType) (r : Reader)
      → IsKnown t
      → read_line unmarshal r (codes "event: " ++ print_type t)
        ≡ (record r { evt_type = print_type t }, [])
  unfolding read_line print_type has_prefix trim_prefix trim_space drop_spaces space_width
      space_width_back
  read_line-type heartbeat r k = refl
  read_line-type peer_added r k = refl
  read_line-type peer_removed r k = refl
  read_line-type (unknown s) r k = absurd k

  read_line-data :
      (r : Reader) (payload : Bytes)
      → r.data_buf ≡ []
      → read_line unmarshal r (codes "data: " ++ payload) ≡ (record r { data_buf = payload }, [])
  unfolding read_line read_data has_prefix trim_prefix
  read_line-data r payload h = rw h

  read_line_blank :
      (r : Reader) (c : ℕ) (payload : Bytes)
      → r.data_buf ≡ c ∷ payload
      → read_line unmarshal r [] ≡ (start, dispatch unmarshal r)
  unfolding read_line
  read_line_blank r c payload h = rw h

dispatch_lem :
    (unmarshal : Bytes → Option Peer) (r : Reader) (p : Peer)
    → unmarshal r.data_buf ≡ some p
    → dispatch unmarshal r ≡ (record { type = parse_type r.evt_type; peer = p }) ∷ []
unfolding dispatch
dispatch_lem unmarshal r p h = rw (h, dispatch)

parse_type-print_type : (t : EventType) → IsKnown t → parse_type (print_type t) ≡ t
unfolding parse_type print_type equal
parse_type-print_type heartbeat k = refl
parse_type-print_type peer_added k = refl
parse_type-print_type peer_removed k = refl
parse_type-print_type (unknown s) k = absurd k

-- What is asked of JSON for one peer: it has a text, of one line and not empty, which is read back
-- as that peer. (`json.Marshal` writes an object, and escapes control characters.)
pub record IsSendable (marshal : Peer → Option Bytes) (unmarshal : Bytes → Option Peer) (p : Peer)
    : Type 0 where
  pub first : ℕ
  pub rest : Bytes
  pub marshals : marshal p ≡ some (first ∷ rest)
  pub unmarshals : unmarshal (first ∷ rest) ≡ some p
  pub one_line : IsLine (first ∷ rest)

IsLine-type : (t : EventType) → IsKnown t → IsLine (codes "event: " ++ print_type t)
unfolding print_type
IsLine-type heartbeat k = ground arith
IsLine-type peer_added k = ground arith
IsLine-type peer_removed k = ground arith
IsLine-type (unknown s) k = absurd k

-- The text of one event, as its three lines.
text_lines :
    (t payload s : Bytes)
    → (codes "event: " ++ (t ++ (codes "\ndata: " ++ (payload ++ codes "\n\n")))) ++ s
      ≡ (codes "event: " ++ t) ++ (10 ∷ ((codes "data: " ++ payload) ++ (10 ∷ ([] ++ (10 ∷ s)))))
text_lines t payload s = simp append_assoc

module _ (marshal : Peer → Option Bytes) (unmarshal : Bytes → Option Peer) where
  -- The events of a list have known types, and peers that JSON carries.
  abbrev pub AreSendable : List Event → Type 0
  AreSendable = All (λ e. IsKnown e.type × IsSendable marshal unmarshal e.peer)

  read_stream-event :
      (e : Event) (s : Bytes) (k : IsKnown e.type) (j : IsSendable marshal unmarshal e.peer)
      → read_stream unmarshal start [] (
          (codes "event: "
            ++ (print_type e.type ++ (codes "\ndata: " ++ ((j.first ∷ j.rest) ++ codes "\n\n"))))
          ++ s)
        ≡ e ∷ read_stream unmarshal start [] s
  read_stream-event e s k j =
      let payload = j.first ∷ j.rest in
      let data_line = codes "data: " ++ payload in
      let typed : Reader = record { evt_type = print_type e.type; data_buf = [] } in
      let filled : Reader = record { evt_type = print_type e.type; data_buf = payload } in
      rw (text_lines (print_type e.type) payload s) (
        read_stream-line unmarshal start (codes "event: " ++ print_type e.type) _
          (IsLine-type e.type k)
        ∙ (rw (read_line-type unmarshal e.type start k) (
            read_stream-line unmarshal typed data_line _
              (All-append _ (codes "data: ") payload (ground arith) j.one_line)
            ∙ (rw (read_line-data unmarshal typed payload refl) (
                read_stream-line unmarshal filled [] s tt
                ∙ (rw (read_line_blank unmarshal filled j.first j.rest refl) (
                    rw (
                      dispatch_lem unmarshal filled e.peer j.unmarshals,
                      parse_type-print_type e.type k,
                    ))))))))

  write_sse_lem :
      (e : Event) (j : IsSendable marshal unmarshal e.peer)
      → write_sse marshal e
        ≡ some (
            codes "event: "
            ++ (print_type e.type ++ (codes "\ndata: " ++ ((j.first ∷ j.rest) ++ codes "\n\n"))))
  unfolding write_sse
  write_sse_lem e j = rw (j.marshals, write_sse)

  read_stream-write_events :
      (es : List Event) (s : Bytes)
      → AreSendable es
      → read_stream unmarshal start [] (write_events marshal es ++ s)
        ≡ es ++ read_stream unmarshal start [] s
  unfolding write_events
  read_stream-write_events [] s h = refl
  read_stream-write_events (e ∷ es) s h =
      rw (write_sse_lem e h.0.1, write_events)
        (rw (append_assoc _ (write_events marshal es) s) (
          read_stream-event e (write_events marshal es ++ s) h.0.0 h.0.1
          ∙ ap (◌∷◌ e) (read_stream-write_events es s h.1)))

  -- A client that reads the stream of a node, to its end, is handed that node's roster, a peer-added
  -- event for each member by rising node id, and then the events that the node's handler received
  -- from its channel, in that order and no others. This is for events of the three types that the
  -- code sends, about peers that JSON carries.
  pub stream_events-events_body :
      (r : Registry) (received : List Event)
      → AreSendable (replay (roster r) ++ received)
      → stream_events unmarshal (events_body marshal r received) ≡ replay (roster r) ++ received
  unfolding stream_events events_body read_stream
  stream_events-events_body r received h =
      let es = replay (roster r) ++ received in
      rw (sym (append-nil (write_events marshal es)))
        (read_stream-write_events es [] h ∙ append-nil es)
