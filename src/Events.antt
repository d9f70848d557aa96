-- ===== src/Events.antt =====
-- internal/events: the log of events, its live subscribers, and the tailer (bus.go and tail.go).
--
-- The payload of an event is a text: a payload that cannot be marshalled or decoded is left out.
-- The functions here are the steps that a mutex or SQLite makes atomic, but for `emit`, `deliver` and
-- `drain_external`, which put steps of one goroutine end to end; Events/Steps lets the steps of several
-- alternate. A fan-out is one step: its offers to different channels are independent.
mod Tests
pub mod Replay
pub mod Streams
pub mod Steps
use aurium.Base.{
  ℕ, ◌+◌, Bool, true, false, not, ◌&&◌, ◌||◌, Option, none, some, List, [], ◌∷◌, ◌++◌, zero, suc,
  Text, codes, text_eq, is_empty, any, select, length, take, map, ltb, leb, ◌==◌, if◌then◌else◌,
}
use aurium.Db.{Result, ok, failed, err, Faults, Sql, pure, raise, ◌>>=◌, ◌>>◌, query, statement}

-- `Event`; a row of `events`. A column that is empty is NULL.
pub record Event : Type 0 where
  pub id : ℕ
  pub ts : Text
  pub type_ : Text
  pub actor : Text
  pub project_id : Text
  pub container_id : Text
  pub agent_id : Text
  pub task_id : Text
  pub payload : Text

-- `Filter`
pub record Filter : Type 0 where
  pub types : List Text
  pub project_id : Text
  pub container_id : Text
  pub agent_id : Text
  pub task_id : Text

-- `slices.Contains`, of an empty list of types every type.
abbrev pub among : List Text → Text → Bool
among [] t = true
among (u ∷ types) t = any (text_eq t) (u ∷ types)

abbrev pub wants_type : Filter → Event → Bool
wants_type f e = among f.types e.type_

-- A field of a filter: an empty one asks nothing.
abbrev pub wants_field : Text → Text → Bool
wants_field want has = is_empty want || text_eq want has

-- `Filter.matches`
unfoldable pub matches : Filter → Event → Bool
matches f e =
    wants_type f e
    && (wants_field f.project_id e.project_id
        && (wants_field f.container_id e.container_id
            && (wants_field f.agent_id e.agent_id && wants_field f.task_id e.task_id)))

-- `subscriberBuffer`
abbrev pub subscriber_buffer : ℕ
subscriber_buffer = 256

-- `subscriber`: its place in memory, its filter, what waits in its channel, and what its reader
-- has taken from it.
pub record Subscriber : Type 0 where
  pub key : ℕ
  pub filter : Filter
  pub waiting : List Event
  pub taken : List Event

-- `Bus` and the table behind it. The subscribers whose channels were closed are kept in `closed`,
-- since their readers may still hold them. `sequence` is the last id that SQLite gave out
-- (AUTOINCREMENT).
pub record Bus : Type 0 where
  pub rows : List Event
  pub sequence : ℕ
  pub subs : List Subscriber
  pub closed : List Subscriber
  pub published : ℕ

-- An offer to a channel, which is refused when the buffer is full.
abbrev pub has_room : Subscriber → Bool
has_room s = ltb (length s.waiting) subscriber_buffer

abbrev pub offered : Event → Subscriber → Subscriber
offered e s =
    if matches s.filter e && has_room s then record s { waiting = s.waiting ++ e ∷ [] } else s

abbrev pub is_stalled : Event → Subscriber → Bool
is_stalled e s = matches s.filter e && not (has_room s)

-- `fanout`: every subscriber that wants the event is offered it, and those that are full are removed.
unfoldable pub fanout : Event → Bus → Bus
fanout e b = record b {
  subs = map (offered e) (select (λ s. not (is_stalled e s)) b.subs);
  closed = b.closed ++ select (is_stalled e) b.subs;
}

-- `Subscribe`, with the place of the new subscriber.
unfoldable pub subscribe : ℕ → Filter → Bus → Bus
subscribe key f b = record b {
  subs = b.subs ++ record { key = key; filter = f; waiting = []; taken = [] } ∷ [];
}

-- `remove`
unfoldable pub remove : ℕ → Bus → Bus
remove key b = record b {
  subs = select (λ (s : Subscriber). not (s.key == key)) b.subs;
  closed = b.closed ++ select (λ (s : Subscriber). s.key == key) b.subs;
}

-- `markPublished`
unfoldable pub mark_published : ℕ → Bus → Bool × Bus
mark_published id b = if leb id b.published then (false, b) else (true, record b { published = id })

-- The two ways in which an event is refused before it is written.
pub data EventError : Type 0 where
  no_type no_actor : EventError

-- The INSERT of `EmitReturning`; the row has the id that is next.
abbrev pub insert_event : Event → Bus → Result EventError Event × Bus
insert_event e b =
    let row : Event = record e { id = b.sequence + 1 } in
    (ok row, record b { rows = b.rows ++ row ∷ []; sequence = b.sequence + 1 })

-- What `EmitReturning` does after the INSERT.
unfoldable pub publish : Event → Bus → Bus
unfolding mark_published fanout
publish e b = fanout e (mark_published e.id b).1

abbrev pub publish_row : Event → Sql EventError Bus Event
publish_row e b fs = (ok e, publish e b, fs)

-- `EmitReturning` up to its INSERT, with the clock.
unfoldable pub persist : Text → Event → Sql EventError Bus Event
persist now e =
    if is_empty e.type_
    then raise no_type
    else if is_empty e.actor
    then raise no_actor
    else statement (insert_event (record e { ts = now }))

-- `EmitReturning`, when nothing comes between its steps.
unfoldable pub emit : Text → Event → Sql EventError Bus Event
unfolding persist publish
emit now e = persist now e >>= publish_row

-- The WHERE clause of `Replay`.
abbrev pub wants_row : ℕ → Filter → Event → Bool
wants_row since f e =
    ltb since e.id
    && (wants_field f.project_id e.project_id
        && (wants_field f.container_id e.container_id
            && (wants_field f.agent_id e.agent_id && wants_field f.task_id e.task_id)))

-- The limit of `Replay`: 0, and what is below it, stands for 500.
unfoldable pub or_500 : ℕ → ℕ
or_500 zero = 500
or_500 (suc n) = suc n

-- `Replay`, with the rows in the order of their ids; the types are tested behind the limit.
unfoldable pub page : ℕ → Filter → ℕ → List Event → List Event
unfolding or_500
page since f limit rows =
    select (wants_type f) (take (or_500 limit) (select (wants_row since f) rows))

abbrev pub replay : ℕ → Filter → ℕ → Sql EventError Bus (List Event)
replay since f limit = query (λ (b : Bus). page since f limit b.rows)

-- `Latest`: the highest id, of an empty log 0.
unfoldable pub max_id : List Event → ℕ
max_id [] = 0
max_id (e ∷ rows) = let m = max_id rows in if ltb m e.id then e.id else m

abbrev pub latest : Sql EventError Bus ℕ
latest = query (λ (b : Bus). max_id b.rows)

abbrev pub no_filter : Filter
no_filter = record { types = []; project_id = []; container_id = []; agent_id = []; task_id = [] }

-- One event of `drainExternal`.
unfoldable pub deliver : Event → Bus → Bus
unfolding mark_published fanout
deliver e b =
    let (fresh, marked) = mark_published e.id b in if fresh then fanout e marked else marked

unfoldable pub deliver_all : List Event → Bus → Bus
unfolding deliver
deliver_all [] b = b
deliver_all (e ∷ es) b = deliver_all es (deliver e b)

abbrev pub delivered : List Event → Sql EventError Bus (Unit {0})
delivered es b fs = (ok tt, deliver_all es b, fs)

-- `drainExternal`, when nothing comes between its read and its deliveries.
unfoldable pub drain_external : Sql EventError Bus (Unit {0})
unfolding deliver_all page
drain_external b fs = (replay b.published no_filter 500 >>= delivered) b fs
