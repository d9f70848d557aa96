-- ===== src/Events/Steps/Logged.antt =====
-- What a subscriber is sent, in every order of the steps.
use aurium.Base.{
  ℕ, ◌+◌, Bool, true, false, List, [], ◌∷◌, ◌++◌, Text, select, All, All-append, arith, leb,
  is_empty, Bool-cases, not, inl, inr, if◌then◌else◌, ◌==◌,
}
use mathlib.Core.List.{Mem, mem-cons_self, mem-append_right}
use aurium.Db.{Faults, statement}
use aurium.Events.{Event, Bus, is_stalled, fanout, mark_published, insert_event, persist, max_id}
use aurium.Events.Steps.{
  World, Step, inserts, others_insert, marks, fans_out, mark_waits, fan_out_waits, tail_starts,
  tail_reads, tail_marks, subscribes, leaves, receives, after_insert, mark_first, fan_out_first,
  tail_first, step, steps,
}
use aurium.Events.Steps.Sound.{
  Logged, IsSound, grown, streams_grown, page-Logged, last_of_all-Logged, offered-streams,
  select-streams, receive-streams,
}

pub record IsLogged (w : World) : Type 0 where
  pub inserted : Logged w.bus.rows w.inserted
  pub marked : Logged w.bus.rows w.marked
  pub read : Logged w.bus.rows w.read
  pub subs : All (IsSound w.bus.rows) w.bus.subs
  pub closed : All (IsSound w.bus.rows) w.bus.closed

insert-IsLogged :
    (e : Event) (w : World) → IsLogged w → IsLogged (record w { bus = (insert_event e w.bus).1 })
insert-IsLogged e w h =
    let row : Event = record e { id = w.bus.sequence + 1 } in
    record {
      inserted = grown w.bus.rows (row ∷ []) w.inserted h.inserted;
      marked = grown w.bus.rows (row ∷ []) w.marked h.marked;
      read = grown w.bus.rows (row ∷ []) w.read h.read;
      subs = streams_grown w.bus.rows (row ∷ []) w.bus.subs h.subs;
      closed = streams_grown w.bus.rows (row ∷ []) w.bus.closed h.closed;
    }

inserted-IsLogged :
    (e : Event) (w : World)
    → IsLogged w
    → IsLogged (record w {
      bus = (insert_event e w.bus).1;
      inserted = w.inserted ++ record e { id = w.bus.sequence + 1 } ∷ [];
    })
inserted-IsLogged e w h =
    let k = insert-IsLogged e w h in
    let row : Event = record e { id = w.bus.sequence + 1 } in
    record {
      inserted =
          All-append (λ x. Mem x (w.bus.rows ++ row ∷ [])) w.inserted (row ∷ []) k.inserted
            (mem-append_right w.bus.rows mem-cons_self, tt);
      marked = k.marked;
      read = k.read;
      subs = k.subs;
      closed = k.closed;
    }

statement-IsLogged :
    (e : Event) (w : World) (fs : Faults)
    → IsLogged w
    → IsLogged (after_insert w (statement (insert_event e) w.bus fs))
unfolding statement
statement-IsLogged e w [] h = inserted-IsLogged e w h
statement-IsLogged e w (false ∷ fs) h = inserted-IsLogged e w h
statement-IsLogged e w (true ∷ fs) h = h

persist-IsLogged :
    (now : Text) (e : Event) (w : World) (fs : Faults)
    → IsLogged w
    → IsLogged (after_insert w (persist now e w.bus fs))
unfolding persist
persist-IsLogged now e w fs h = elim (Bool-cases (is_empty e.type_)) [
  | inl none ↦ rw none h
  | inr typed ↦ elim (Bool-cases (is_empty e.actor)) [
    | inl none ↦ rw (typed, none) h
    | inr acted ↦ rw (typed, acted) (statement-IsLogged (record e { ts = now }) w fs h)
  ]
]

abbrev mark_if : Bool → ℕ → Bus → Bool × Bus
mark_if old id b = if old then (false, b) else (true, record b { published = id })

-- A mark changes nothing but the mark.
started-IsLogged :
    (id : ℕ) (w : World) → IsLogged w → IsLogged (record w { bus = (mark_published id w.bus).1 })
unfolding mark_published
started-IsLogged id w h = go (leb id w.bus.published)
  where
    go : (b : Bool) → IsLogged (record w { bus = (mark_if b id w.bus).1 })
    go true = h
    go false = record {
      inserted = h.inserted;
      marked = h.marked;
      read = h.read;
      subs = h.subs;
      closed = h.closed;
    }

module _ (w : World) (h : IsLogged w) where
  mark_first-IsLogged : (es : List Event) → Logged w.bus.rows es → IsLogged (mark_first es w)
  unfolding mark_published
  mark_first-IsLogged [] l = h
  mark_first-IsLogged (e ∷ es) l = go (leb e.id w.bus.published)
    where
      go :
          (b : Bool)
          → IsLogged (record w {
            bus = (mark_if b e.id w.bus).1;
            inserted = es;
            marked = w.marked ++ e ∷ [];
          })
      go true = record {
        inserted = l.1;
        marked = All-append (λ x. Mem x w.bus.rows) w.marked (e ∷ []) h.marked (l.0, tt);
        read = h.read;
        subs = h.subs;
        closed = h.closed;
      }
      go false = record {
        inserted = l.1;
        marked = All-append (λ x. Mem x w.bus.rows) w.marked (e ∷ []) h.marked (l.0, tt);
        read = h.read;
        subs = h.subs;
        closed = h.closed;
      }

  tail_first-IsLogged : (es : List Event) → Logged w.bus.rows es → IsLogged (tail_first es w)
  unfolding mark_published
  tail_first-IsLogged [] l = h
  tail_first-IsLogged (e ∷ es) l = go (leb e.id w.bus.published)
    where
      go :
          (b : Bool)
          → let (fresh, t) = mark_if b e.id w.bus in
            IsLogged (record w {
              bus = t;
              read = es;
              marked = if fresh then w.marked ++ e ∷ [] else w.marked;
            })
      go true = record {
        inserted = h.inserted;
        marked = h.marked;
        read = l.1;
        subs = h.subs;
        closed = h.closed;
      }
      go false = record {
        inserted = h.inserted;
        marked = All-append (λ x. Mem x w.bus.rows) w.marked (e ∷ []) h.marked (l.0, tt);
        read = l.1;
        subs = h.subs;
        closed = h.closed;
      }

  fan_out_first-IsLogged : (es : List Event) → Logged w.bus.rows es → IsLogged (fan_out_first es w)
  unfolding fanout
  fan_out_first-IsLogged [] l = h
  fan_out_first-IsLogged (e ∷ es) l = record {
    inserted = h.inserted;
    marked = l.1;
    read = h.read;
    subs =
        offered-streams w.bus.rows e (select (λ s. not (is_stalled e s)) w.bus.subs) l.0
          (select-streams w.bus.rows (λ s. not (is_stalled e s)) w.bus.subs h.subs);
    closed =
        All-append (IsSound w.bus.rows) w.bus.closed (select (is_stalled e) w.bus.subs) h.closed
          (select-streams w.bus.rows (is_stalled e) w.bus.subs h.subs);
  }

step-IsLogged : (a : Step) (w : World) → IsLogged w → IsLogged (step a w)
unfolding step
step-IsLogged (inserts now e fs) w h = persist-IsLogged now e w fs h
step-IsLogged (others_insert e) w h = insert-IsLogged e w h
step-IsLogged marks w h = mark_first-IsLogged w h w.inserted h.inserted
step-IsLogged fans_out w h = fan_out_first-IsLogged w h w.marked h.marked
step-IsLogged mark_waits w h = record {
  inserted = last_of_all-Logged w.bus.rows w.inserted h.inserted;
  marked = h.marked;
  read = h.read;
  subs = h.subs;
  closed = h.closed;
}
step-IsLogged fan_out_waits w h = record {
  inserted = h.inserted;
  marked = last_of_all-Logged w.bus.rows w.marked h.marked;
  read = h.read;
  subs = h.subs;
  closed = h.closed;
}
step-IsLogged tail_starts w h = started-IsLogged (max_id w.bus.rows) w h
step-IsLogged tail_reads w h = record {
  inserted = h.inserted;
  marked = h.marked;
  read = page-Logged w.bus.published w.bus.rows;
  subs = h.subs;
  closed = h.closed;
}
step-IsLogged tail_marks w h = tail_first-IsLogged w h w.read h.read
step-IsLogged (subscribes key f) w h = record {
  inserted = h.inserted;
  marked = h.marked;
  read = h.read;
  subs =
      All-append (IsSound w.bus.rows) w.bus.subs
        (record { key = key; filter = f; waiting = []; taken = [] } ∷ []) h.subs
        ((tt, tt, omega arith), tt);
  closed = h.closed;
}
step-IsLogged (leaves key) w h = record {
  inserted = h.inserted;
  marked = h.marked;
  read = h.read;
  subs = select-streams w.bus.rows (λ s. not (s.key == key)) w.bus.subs h.subs;
  closed =
      All-append (IsSound w.bus.rows) w.bus.closed (select (λ s. s.key == key) w.bus.subs) h.closed
        (select-streams w.bus.rows (λ s. s.key == key) w.bus.subs h.subs);
}
step-IsLogged (receives key) w h = record {
  inserted = h.inserted;
  marked = h.marked;
  read = h.read;
  subs = receive-streams w.bus.rows key w.bus.subs h.subs;
  closed = receive-streams w.bus.rows key w.bus.closed h.closed;
}

-- In whatever order the INSERTs, marks and fan-outs of emits, the inserts of other processes, the tailer's
-- start, reads and marks, and the readers' steps come, this is kept: an event is held by an emit or
-- by the tailer, or is sent to a subscriber, only when it is a row of the log; and what a subscriber was
-- sent is what its filter asks for, and waits in a buffer of at most 256.
pub steps-IsLogged : (more : List Step) (w : World) → IsLogged w → IsLogged (steps more w)
unfolding steps
steps-IsLogged [] w h = h
steps-IsLogged (a ∷ more) w h = steps-IsLogged more (step a w) (step-IsLogged a w h)
