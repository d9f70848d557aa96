-- ===== src/Events/Streams.antt =====
-- What a subscriber is sent, over runs in which emits, the tailer and other processes alternate.
--
-- An emit is taken whole here, from its INSERT to its fan-out, and so is the tailer's mark and fan-out of
-- one event. No lock makes them so: these are the runs in which they happen not to alternate. Events/Steps
-- has all the others.
use aurium.Base.{
  ℕ, ◌+◌, ◌<◌, ◌≤◌, ◌≡◌, refl, sym, ap, ◌∙◌, Bool, true, false, not, ◌&&◌, List, [], ◌∷◌, ◌++◌,
  append_assoc, Text, is_empty, select, map, take, length, length-append, All, All-append, All-take,
  leb, ◌==◌, arith, if◌then◌else◌, Bool-cases, ◌⊎◌, inl, inr,
}
use aurium.Db.{Faults, ◌>>=◌, statement}
use aurium.Events.{
  Event, Filter, Subscriber, Bus, matches, has_room, subscriber_buffer, offered, is_stalled, fanout,
  subscribe, remove, mark_published, insert_event, publish, publish_row, emit, page, no_filter,
  wants_row, wants_type, deliver, max_id,
}
use aurium.Events.Replay.{IsRising, All-select}

-- What a reader takes from its channel.
abbrev pub take_next : Subscriber → List Event → Subscriber
take_next s [] = s
take_next s (e ∷ es) = record s { waiting = es; taken = s.taken ++ e ∷ [] }

abbrev pub receive : ℕ → Bus → Bus
receive key b =
    let turn : Subscriber → Subscriber = λ s. if s.key == key then take_next s s.waiting else s in
    record b { subs = map turn b.subs; closed = map turn b.closed }

-- The bus, and what the tailer has read and not yet delivered.
abbrev pub World : Type 0
World = Bus × List Event

pub data Action : Type 0 where
  emits : Text → Event → Faults → Action
  others_emit : Event → Action
  tail_starts tail_reads tail_delivers : Action
  subscribes : ℕ → Filter → Action
  leaves receives : ℕ → Action

unfoldable pub act : Action → World → World
act (emits now e fs) (b, q) = ((emit now e b fs).1, q)
act (others_emit e) (b, q) = ((insert_event e b).1, q)
act tail_starts (b, q) = ((mark_published (max_id b.rows) b).1, q)
act tail_reads (b, q) = (b, page b.published no_filter 500 b.rows)
act tail_delivers (b, []) = (b, [])
act tail_delivers (b, e ∷ q) = (deliver e b, q)
act (subscribes key f) (b, q) = (subscribe key f b, q)
act (leaves key) (b, q) = (remove key b, q)
act (receives key) (b, q) = (receive key b, q)

unfoldable pub run : List Action → World → World
run [] w = w
run (a ∷ actions) w = run actions (act a w)

abbrev pub fresh_bus : World
fresh_bus = (record { rows = []; sequence = 0; subs = []; closed = []; published = 0 }, [])

-- All that a subscriber was sent.
abbrev pub sent : Subscriber → List Event
sent s = s.taken ++ s.waiting

module _ (n : ℕ) where
  abbrev pub Within : List Event → Type 0
  Within = All (λ (e : Event). e.id ≤ n)

-- The ids rise, none is past `p`, every event is one the filter asks for, and the buffer is kept.
abbrev pub IsStream : ℕ → Subscriber → Type 0
IsStream p s =
    IsRising (sent s)
    × Within p (sent s)
    × All (λ e. matches s.filter e ≡ true) (sent s)
    × (length s.waiting ≤ subscriber_buffer)

abbrev pub IsGood : World → Type 0
IsGood (b, q) =
    Within b.sequence b.rows
    × Within b.sequence q
    × (b.published ≤ b.sequence)
    × All (IsStream b.published) b.subs
    × All (IsStream b.published) b.closed

Within-mono : (m n : ℕ) (es : List Event) → m ≤ n → Within m es → Within n es
Within-mono m n [] h w = tt
Within-mono m n (e ∷ es) h w = (omega (arith, w.0), Within-mono m n es h w.1)

append-IsRising :
    (p : ℕ) (e : Event) (es : List Event)
    → IsRising es
    → Within p es
    → p < e.id
    → IsRising (es ++ e ∷ [])
append-IsRising p e [] r w h = (tt, tt)
append-IsRising p e (x ∷ es) r w h = (
  All-append (λ (y : Event). x.id < y.id) es (e ∷ []) r.0 (omega (arith, w.0), tt),
  append-IsRising p e es r.1 w.1 h,
)

IsStream-mono : (p p' : ℕ) (s : Subscriber) → p ≤ p' → IsStream p s → IsStream p' s
IsStream-mono p p' s h (r, w, m, l) = (r, Within-mono p p' (sent s) h w, m, l)

streams_mono :
    (p p' : ℕ) (subs : List Subscriber) → p ≤ p' → All (IsStream p) subs → All (IsStream p') subs
streams_mono p p' [] h hs = tt
streams_mono p p' (s ∷ subs) h hs = (IsStream-mono p p' s h hs.0, streams_mono p p' subs h hs.1)

room_lt : (s : Subscriber) → has_room s ≡ true → length s.waiting < 256
room_lt s h = ground arith

-- A higher event behind what a subscriber was sent.
pushed-IsStream :
    (p : ℕ) (e : Event) (s : Subscriber)
    → p < e.id
    → matches s.filter e ≡ true
    → has_room s ≡ true
    → IsStream p s
    → IsStream e.id (record s { waiting = s.waiting ++ e ∷ [] })
pushed-IsStream p e s h m room (r, w, ms, l) = rw (← append_assoc s.taken s.waiting (e ∷ [])) (
  append-IsRising p e (sent s) r w h,
  All-append (λ (x : Event). x.id ≤ e.id) (sent s) (e ∷ [])
      (Within-mono p e.id (sent s) (omega arith) w) (omega arith, tt),
  All-append (λ x. matches s.filter x ≡ true) (sent s) (e ∷ []) ms (m, tt),
  omega (arith, length-append s.waiting (e ∷ []), room_lt s room),
)

offered-IsStream :
    (p : ℕ) (e : Event) (s : Subscriber) → p < e.id → IsStream p s → IsStream e.id (offered e s)
offered-IsStream p e s h hs = go (matches s.filter e && has_room s) refl
  where
    go :
        (b : Bool)
        → (matches s.filter e && has_room s) ≡ b
        → IsStream e.id (if b then record s { waiting = s.waiting ++ e ∷ [] } else s)
    go true k = pushed-IsStream p e s h (ground arith) (ground arith) hs
    go false k = IsStream-mono p e.id s (omega arith) hs

module _ (p : ℕ) where
  kept-streams :
      (b : Bool) (s : Subscriber) (subs : List Subscriber)
      → IsStream p s
      → All (IsStream p) subs
      → All (IsStream p) (if b then s ∷ subs else subs)
  kept-streams true s subs h hs = (h, hs)
  kept-streams false s subs h hs = hs

  select-streams :
      (test : Subscriber → Bool) (subs : List Subscriber)
      → All (IsStream p) subs
      → All (IsStream p) (select test subs)
  select-streams test [] hs = tt
  select-streams test (s ∷ subs) hs =
      kept-streams (test s) s (select test subs) hs.0 (select-streams test subs hs.1)

  offered-streams :
      (e : Event) (subs : List Subscriber)
      → p < e.id
      → All (IsStream p) subs
      → All (IsStream e.id) (map (offered e) subs)
  offered-streams e [] h hs = tt
  offered-streams e (s ∷ subs) h hs = (offered-IsStream p e s h hs.0, offered-streams e subs h hs.1)

  take_next-IsStream :
      (s : Subscriber) (es : List Event)
      → s.waiting ≡ es
      → IsStream p s
      → IsStream p (take_next s es)
  take_next-IsStream s [] k h = h
  take_next-IsStream s (e ∷ es) k (r, w, m, l) =
      let room : length es ≤ 256 = omega (arith, l, ap length k) in
      let same = append_assoc s.taken (e ∷ []) es ∙ ap (λ w. s.taken ++ w) (sym k) in
      rw same (r, w, m, room)

  turn-IsStream :
      (b : Bool) (s : Subscriber)
      → IsStream p s
      → IsStream p (if b then take_next s s.waiting else s)
  turn-IsStream true s h = take_next-IsStream s s.waiting refl h
  turn-IsStream false s h = h

  receive-streams :
      (key : ℕ) (subs : List Subscriber)
      → All (IsStream p) subs
      → All
          (IsStream p)
          (map (λ (s : Subscriber). if s.key == key then take_next s s.waiting else s) subs)
  receive-streams key [] h = tt
  receive-streams key (s ∷ subs) h =
      (turn-IsStream (s.key == key) s h.0, receive-streams key subs h.1)

mark_published_new :
    (id : ℕ) (b : Bus)
    → b.published < id
    → mark_published id b ≡ (true, record b { published = id })
unfolding mark_published
mark_published_new id b h = let new : leb id b.published ≡ false = ground arith in rw new refl

mark_published_old : (id : ℕ) (b : Bus) → id ≤ b.published → mark_published id b ≡ (false, b)
unfolding mark_published
mark_published_old id b h = let old : leb id b.published ≡ true = ground arith in rw old refl

-- The world after an event with a new id is marked and fanned out.
fanout-IsGood :
    (e : Event) (b : Bus) (q : List Event)
    → b.published < e.id
    → e.id ≤ b.sequence
    → IsGood (b, q)
    → IsGood (fanout e (record b { published = e.id }), q)
unfolding fanout
fanout-IsGood e b q h k (rows, queue, mark, subs, closed) = (
  rows,
  queue,
  k,
  offered-streams b.published e (select (λ s. not (is_stalled e s)) b.subs) h
      (select-streams b.published (λ s. not (is_stalled e s)) b.subs subs),
  All-append (IsStream e.id) b.closed (select (is_stalled e) b.subs)
      (streams_mono b.published e.id b.closed (omega arith) closed)
      (streams_mono b.published e.id (select (is_stalled e) b.subs) (omega arith)
        (select-streams b.published (is_stalled e) b.subs subs)),
)

split_le : (m n : ℕ) → (m ≤ n) ⊎ (n < m)
split_le m n = ground arith

deliver-IsGood :
    (e : Event) (b : Bus) (q : List Event)
    → e.id ≤ b.sequence
    → IsGood (b, q)
    → IsGood (deliver e b, q)
unfolding deliver
deliver-IsGood e b q h g = elim (split_le e.id b.published) [
  | inl old ↦ rw (mark_published_old e.id b old) g
  | inr new ↦ rw (mark_published_new e.id b new) (fanout-IsGood e b q new h g)
]

publish-IsGood :
    (e : Event) (b : Bus) (q : List Event)
    → b.published < e.id
    → e.id ≤ b.sequence
    → IsGood (b, q)
    → IsGood (publish e b, q)
unfolding publish
publish-IsGood e b q h k g = rw (mark_published_new e.id b h) (fanout-IsGood e b q h k g)

insert-IsGood :
    (e : Event) (b : Bus) (q : List Event) → IsGood (b, q) → IsGood ((insert_event e b).1, q)
insert-IsGood e b q (rows, queue, mark, subs, closed) = (
  All-append (λ (x : Event). x.id ≤ b.sequence + 1) b.rows (record e { id = b.sequence + 1 } ∷ [])
      (Within-mono b.sequence (b.sequence + 1) b.rows (omega arith) rows) (omega arith, tt),
  Within-mono b.sequence (b.sequence + 1) q (omega arith) queue,
  omega arith,
  subs,
  closed,
)

emitted-IsGood :
    (e : Event) (b : Bus) (q : List Event)
    → IsGood (b, q)
    → IsGood (publish (record e { id = b.sequence + 1 }) (insert_event e b).1, q)
emitted-IsGood e b q g =
    let mark : b.published < b.sequence + 1 = omega (arith, g.2) in
    publish-IsGood (record e { id = b.sequence + 1 }) (insert_event e b).1 q mark (omega arith)
      (insert-IsGood e b q g)

written-IsGood :
    (e : Event) (b : Bus) (q : List Event) (fs : Faults)
    → IsGood (b, q)
    → IsGood (((statement (insert_event e) >>= publish_row) b fs).1, q)
unfolding statement
written-IsGood e b q [] g = emitted-IsGood e b q g
written-IsGood e b q (false ∷ fs) g = emitted-IsGood e b q g
written-IsGood e b q (true ∷ fs) g = g

emit-IsGood :
    (now : Text) (e : Event) (b : Bus) (q : List Event) (fs : Faults)
    → IsGood (b, q)
    → IsGood ((emit now e b fs).1, q)
unfolding emit
emit-IsGood now e b q fs g = elim (Bool-cases (is_empty e.type_)) [
  | inl none ↦ rw none g
  | inr typed ↦ elim (Bool-cases (is_empty e.actor)) [
    | inl none ↦ rw (typed, none) g
    | inr acted ↦ rw (typed, acted) (written-IsGood (record e { ts = now }) b q fs g)
  ]
]

page-Within :
    (n since : ℕ) (rows : List Event) → Within n rows → Within n (page since no_filter 500 rows)
unfolding page
page-Within n since rows h =
    All-select (λ e. e.id ≤ n) (wants_type no_filter)
      (take 500 (select (wants_row since no_filter) rows))
      (All-take (λ e. e.id ≤ n) 500 (select (wants_row since no_filter) rows)
        (All-select (λ e. e.id ≤ n) (wants_row since no_filter) rows h))

max_id-Within : (n : ℕ) (rows : List Event) → Within n rows → max_id rows ≤ n
unfolding max_id
max_id-Within n [] h = omega arith
max_id-Within n (e ∷ rows) h = let rest = max_id-Within n rows h.1 in ground arith

start-IsGood :
    (b : Bus) (q : List Event) → IsGood (b, q) → IsGood ((mark_published (max_id b.rows) b).1, q)
start-IsGood b q g = elim (split_le (max_id b.rows) b.published) [
  | inl old ↦ rw (mark_published_old (max_id b.rows) b old) g
  | inr new ↦ rw (mark_published_new (max_id b.rows) b new) (
    g.0,
    g.1,
    max_id-Within b.sequence b.rows g.0,
    streams_mono b.published (max_id b.rows) b.subs (omega arith) g.3,
    streams_mono b.published (max_id b.rows) b.closed (omega arith) g.4,
  )
]

act-IsGood : (a : Action) (w : World) → IsGood w → IsGood (act a w)
unfolding act subscribe remove
act-IsGood (emits now e fs) (b, q) g = emit-IsGood now e b q fs g
act-IsGood (others_emit e) (b, q) g = insert-IsGood e b q g
act-IsGood tail_starts (b, q) g = start-IsGood b q g
act-IsGood tail_reads (b, q) (rows, queue, mark, subs, closed) =
    (rows, page-Within b.sequence b.published b.rows rows, mark, subs, closed)
act-IsGood tail_delivers (b, []) g = g
act-IsGood tail_delivers (b, e ∷ q) (rows, queue, mark, subs, closed) =
    deliver-IsGood e b q queue.0 (rows, queue.1, mark, subs, closed)
act-IsGood (subscribes key f) (b, q) (rows, queue, mark, subs, closed) = (
  rows,
  queue,
  mark,
  All-append (IsStream b.published) b.subs
      (record { key = key; filter = f; waiting = []; taken = [] } ∷ []) subs
      ((tt, tt, tt, omega arith), tt),
  closed,
)
act-IsGood (leaves key) (b, q) (rows, queue, mark, subs, closed) = (
  rows,
  queue,
  mark,
  select-streams b.published (λ s. not (s.key == key)) b.subs subs,
  All-append (IsStream b.published) b.closed (select (λ s. s.key == key) b.subs) closed
      (select-streams b.published (λ s. s.key == key) b.subs subs),
)
act-IsGood (receives key) (b, q) (rows, queue, mark, subs, closed) = (
  rows,
  queue,
  mark,
  receive-streams b.published key b.subs subs,
  receive-streams b.published key b.closed closed,
)

-- In every run in which an emit is whole from its INSERT to its fan-out, and the tailer's delivery of one
-- event is whole too, of emits, of inserts by other processes, of the tailer's start, reads and deliveries,
-- and of readers that subscribe, leave and receive, in any order, this is kept: what a subscriber was
-- sent has rising ids, so that nothing was sent to it twice, is what its filter asks for, and waits in
-- a buffer of at most 256; and no id is in the log, read by the tailer or marked as published that the
-- log has not given out. Where the steps of two of them alternate, neither the order nor the once holds.
pub run-IsGood : (actions : List Action) (w : World) → IsGood w → IsGood (run actions w)
unfolding run
run-IsGood [] w g = g
run-IsGood (a ∷ actions) w g = run-IsGood actions (act a w) (act-IsGood a w g)
