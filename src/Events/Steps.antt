-- ===== src/Events/Steps.antt =====
-- The steps of any number of emits, of the tailer and of readers (bus.go and tail.go), which alternate: no
-- lock spans the INSERT, the mark and the fan-out of an event.
pub mod Sound
pub mod Logged
use aurium.Base.{ℕ, Bool, true, false, List, [], ◌∷◌, ◌++◌, Text, if◌then◌else◌}
use aurium.Db.{Result, ok, failed, err, Faults}
use aurium.Events.{
  Event, Filter, Bus, EventError, fanout, subscribe, remove, mark_published, insert_event, persist,
  page, no_filter, max_id,
}
use aurium.Events.Streams.{receive}

-- The bus, and the events that goroutines hold: those whose INSERT is done, those that are marked as
-- published and still to be fanned out, and those that the tailer has read.
pub record World : Type 0 where
  pub bus : Bus
  pub inserted : List Event
  pub marked : List Event
  pub read : List Event

-- A step of a goroutine. A step takes the first of the events that are held at its place, and `waits`
-- puts that one last, so that the events go on in any order.
pub data Step : Type 0 where
  inserts : Text → Event → Faults → Step
  others_insert : Event → Step
  marks fans_out mark_waits fan_out_waits : Step
  tail_starts tail_reads tail_marks : Step
  subscribes : ℕ → Filter → Step
  leaves receives : ℕ → Step

abbrev pub last_of_all : List Event → List Event
last_of_all [] = []
last_of_all (e ∷ es) = es ++ e ∷ []

abbrev pub after_insert : World → Result EventError Event × Bus × Faults → World
after_insert w (ok e, b, fs) = record w { bus = b; inserted = w.inserted ++ e ∷ [] }
after_insert w (failed, b, fs) = record w { bus = b }
after_insert w (err x, b, fs) = record w { bus = b }

-- Emit fans out whatever its mark says, the tailer only what its mark took as new.
abbrev pub mark_first : List Event → World → World
mark_first [] w = w
mark_first (e ∷ es) w = record w {
  bus = (mark_published e.id w.bus).1;
  inserted = es;
  marked = w.marked ++ e ∷ [];
}

abbrev pub fan_out_first : List Event → World → World
fan_out_first [] w = w
fan_out_first (e ∷ es) w = record w { bus = fanout e w.bus; marked = es }

abbrev pub tail_first : List Event → World → World
tail_first [] w = w
tail_first (e ∷ es) w =
    let (fresh, b) = mark_published e.id w.bus in
    record w { bus = b; read = es; marked = if fresh then w.marked ++ e ∷ [] else w.marked }

unfoldable pub step : Step → World → World
unfolding persist fanout subscribe remove
step (inserts now e fs) w = after_insert w (persist now e w.bus fs)
step (others_insert e) w = record w { bus = (insert_event e w.bus).1 }
step marks w = mark_first w.inserted w
step fans_out w = fan_out_first w.marked w
step mark_waits w = record w { inserted = last_of_all w.inserted }
step fan_out_waits w = record w { marked = last_of_all w.marked }
step tail_starts w = record w { bus = (mark_published (max_id w.bus.rows) w.bus).1 }
step tail_reads w = record w { read = page w.bus.published no_filter 500 w.bus.rows }
step tail_marks w = tail_first w.read w
step (subscribes key f) w = record w { bus = subscribe key f w.bus }
step (leaves key) w = record w { bus = remove key w.bus }
step (receives key) w = record w { bus = receive key w.bus }

unfoldable pub steps : List Step → World → World
steps [] w = w
steps (a ∷ more) w = steps more (step a w)
