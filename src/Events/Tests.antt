-- ===== src/Events/Tests.antt =====
-- The bus on concrete events.
use aurium.Base.{ℕ, ◌≡◌, refl, List, [], ◌∷◌, ◌++◌, Text, codes, text_eq, map, arith}
use aurium.Db.{statement}
use aurium.Events.{
  Event, no_filter, matches, page, persist, emit, deliver, subscribe, mark_published, fanout,
}
use aurium.Events.Steps
use aurium.Events.Steps.Logged.{IsLogged, steps-IsLogged}
use aurium.Events.Replay.{cursor, page-resumes}
use aurium.Events.Streams.{
  Action, emits, others_emit, tail_reads, tail_delivers, subscribes, receives, act, run, fresh_bus,
  IsGood, sent, run-IsGood,
}

abbrev event : ℕ → Text → Event
event id t = record {
  id = id;
  ts = codes "t";
  type_ = t;
  actor = codes "human";
  project_id = [];
  container_id = [];
  agent_id = [];
  task_id = [];
  payload = codes "{}";
}

abbrev log : List Event
log = event 1 (codes "a") ∷ event 2 (codes "b") ∷ event 4 (codes "a") ∷ []

page-resumes_example :
    page 0 no_filter 2 log ++ page (cursor 0 (page 0 no_filter 2 log)) no_filter 3 log
    ≡ page 0 no_filter 5 log
page-resumes_example =
    page-resumes 0 2 3 no_filter log
      ((omega arith, (omega arith, tt)), ((omega arith, tt), (tt, tt))) refl (omega arith)
      (omega arith)

-- A page that is full of other types is empty, though an event of the type stands behind it.
page_of_types : page 0 (record no_filter { types = codes "b" ∷ [] }) 1 log ≡ []
unfolding page text_eq
page_of_types = refl

abbrev actions : List Action
actions =
    subscribes 7 no_filter
    ∷ others_emit (event 0 (codes "x"))
    ∷ tail_reads
    ∷ emits (codes "t") (event 0 (codes "y")) []
    ∷ tail_delivers
    ∷ receives 7
    ∷ []

-- The other process's event, 1, is marked as published when event 2 is emitted here, and is lost.
run_loses :
    map sent (run actions fresh_bus).0.subs
    ≡ (record (event 2 (codes "y")) { ts = codes "t" } ∷ []) ∷ []
unfolding run act emit deliver subscribe statement page matches
run_loses = refl

run-IsGood_example : IsGood (run actions fresh_bus)
run-IsGood_example = run-IsGood actions fresh_bus (tt, tt, omega arith, tt, tt)

abbrev quiet : Steps.World
quiet = record { bus = fresh_bus.0; inserted = []; marked = []; read = [] }

-- The tailer reads, marks and fans out an event between its INSERT and its mark.
abbrev between : List Steps.Step
between =
    Steps.subscribes 7 no_filter
    ∷ Steps.inserts (codes "t") (event 0 (codes "y")) []
    ∷ Steps.tail_reads
    ∷ Steps.tail_marks
    ∷ Steps.fans_out
    ∷ Steps.marks
    ∷ Steps.fans_out
    ∷ []

-- The subscriber is sent it twice.
steps_twice :
    map (λ s. map (λ (e : Event). e.id) (sent s)) (Steps.steps between quiet).bus.subs
    ≡ (1 ∷ 1 ∷ []) ∷ []
unfolding Steps.steps Steps.step persist statement mark_published fanout subscribe page matches
steps_twice = refl

-- Two emits whose fan-outs change places: the ids fall.
steps_fall :
    map
      (λ s. map (λ (e : Event). e.id) (sent s))
      (Steps.steps
        (Steps.subscribes 7 no_filter
          ∷ Steps.inserts (codes "t") (event 0 (codes "y")) []
          ∷ Steps.inserts (codes "t") (event 0 (codes "z")) []
          ∷ Steps.marks
          ∷ Steps.marks
          ∷ Steps.fan_out_waits
          ∷ Steps.fans_out
          ∷ Steps.fans_out
          ∷ [])
        quiet).bus.subs
    ≡ (2 ∷ 1 ∷ []) ∷ []
unfolding Steps.steps Steps.step persist statement mark_published fanout subscribe page matches
steps_fall = refl

steps-IsLogged_example : IsLogged (Steps.steps between quiet)
steps-IsLogged_example =
    steps-IsLogged between quiet
      (record { inserted = tt; marked = tt; read = tt; subs = tt; closed = tt })
