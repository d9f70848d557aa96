-- ===== src/Events/Steps/Sound.antt =====
-- Subscribers that were sent rows of the log only.
use aurium.Base.{
  ℕ, ◌<◌, ◌≤◌, ◌≡◌, refl, sym, ◌∙◌, ap, Bool, true, false, ◌&&◌, List, [], ◌∷◌, ◌++◌, append_assoc,
  select, map, take, length, length-append, All, All-append, All-map, All-take, arith,
  if◌then◌else◌, ◌==◌,
}
use mathlib.Core.List.{Mem, mem-cons_self, mem-cons_of_mem, mem-append_left}
use aurium.Events.{
  Event, Subscriber, matches, has_room, subscriber_buffer, offered, page, no_filter, wants_row,
  wants_type,
}
use aurium.Events.Replay.{All-select}
use aurium.Events.Streams.{take_next, sent}
use aurium.Events.Steps.{last_of_all}

-- Every event is a row of the log.
abbrev pub Logged : List Event → List Event → Type 0
Logged rows = All (λ (e : Event). Mem e rows)

-- What a subscriber was sent is in the log and is what its filter asks for, and the buffer is kept.
abbrev pub IsSound : List Event → Subscriber → Type 0
IsSound rows s =
    Logged rows (sent s)
    × All (λ e. matches s.filter e ≡ true) (sent s)
    × (length s.waiting ≤ subscriber_buffer)

-- A log that has grown.
module _ (rows more : List Event) where
  pub grown : (es : List Event) → Logged rows es → Logged (rows ++ more) es
  grown = All-map (λ e. Mem e rows) (λ e. Mem e (rows ++ more)) (λ e m. mem-append_left more m)

  grown-IsSound : (s : Subscriber) → IsSound rows s → IsSound (rows ++ more) s
  grown-IsSound s h = (grown (sent s) h.0, h.1, h.2)

  pub streams_grown :
      (subs : List Subscriber) → All (IsSound rows) subs → All (IsSound (rows ++ more)) subs
  streams_grown [] h = tt
  streams_grown (s ∷ subs) h = (grown-IsSound s h.0, streams_grown subs h.1)

self-Logged : (rows : List Event) → Logged rows rows
self-Logged [] = tt
self-Logged (e ∷ es) = (
  mem-cons_self,
  All-map (λ x. Mem x es) (λ x. Mem x (e ∷ es)) (λ x m. mem-cons_of_mem e m) es (self-Logged es),
)

pub page-Logged : (since : ℕ) (rows : List Event) → Logged rows (page since no_filter 500 rows)
unfolding page
page-Logged since rows =
    All-select (λ e. Mem e rows) (wants_type no_filter)
      (take 500 (select (wants_row since no_filter) rows))
      (All-take (λ e. Mem e rows) 500 (select (wants_row since no_filter) rows)
        (All-select (λ e. Mem e rows) (wants_row since no_filter) rows (self-Logged rows)))

pub last_of_all-Logged : (rows es : List Event) → Logged rows es → Logged rows (last_of_all es)
last_of_all-Logged rows [] h = tt
last_of_all-Logged rows (e ∷ es) h = All-append (λ x. Mem x rows) es (e ∷ []) h.1 (h.0, tt)

room_lt : (s : Subscriber) → has_room s ≡ true → length s.waiting < 256
room_lt s h = ground arith

module _ (rows : List Event) where
  offered-IsSound :
      (e : Event) (s : Subscriber) → Mem e rows → IsSound rows s → IsSound rows (offered e s)
  offered-IsSound e s m (l, ms, k) = go (matches s.filter e && has_room s) refl
    where
      go :
          (b : Bool)
          → (matches s.filter e && has_room s) ≡ b
          → IsSound rows (if b then record s { waiting = s.waiting ++ e ∷ [] } else s)
      go true h =
          let asked : matches s.filter e ≡ true = ground arith in
          let room : has_room s ≡ true = ground arith in
          rw (← append_assoc s.taken s.waiting (e ∷ [])) (
            All-append (λ x. Mem x rows) (sent s) (e ∷ []) l (m, tt),
            All-append (λ x. matches s.filter x ≡ true) (sent s) (e ∷ []) ms (asked, tt),
            omega (arith, length-append s.waiting (e ∷ []), room_lt s room),
          )
      go false h = (l, ms, k)

  pub offered-streams :
      (e : Event) (subs : List Subscriber)
      → Mem e rows
      → All (IsSound rows) subs
      → All (IsSound rows) (map (offered e) subs)
  offered-streams e [] m h = tt
  offered-streams e (s ∷ subs) m h = (offered-IsSound e s m h.0, offered-streams e subs m h.1)

  kept-streams :
      (b : Bool) (s : Subscriber) (subs : List Subscriber)
      → IsSound rows s
      → All (IsSound rows) subs
      → All (IsSound rows) (if b then s ∷ subs else subs)
  kept-streams true s subs h hs = (h, hs)
  kept-streams false s subs h hs = hs

  pub select-streams :
      (test : Subscriber → Bool) (subs : List Subscriber)
      → All (IsSound rows) subs
      → All (IsSound rows) (select test subs)
  select-streams test [] h = tt
  select-streams test (s ∷ subs) h =
      kept-streams (test s) s (select test subs) h.0 (select-streams test subs h.1)

  take_next-IsSound :
      (s : Subscriber) (es : List Event)
      → s.waiting ≡ es
      → IsSound rows s
      → IsSound rows (take_next s es)
  take_next-IsSound s [] k h = h
  take_next-IsSound s (e ∷ es) k (l, ms, n) =
      let room : length es ≤ 256 = omega (arith, n, ap length k) in
      let same = append_assoc s.taken (e ∷ []) es ∙ ap (λ w. s.taken ++ w) (sym k) in
      rw same (l, ms, room)

  turn-IsSound :
      (b : Bool) (s : Subscriber)
      → IsSound rows s
      → IsSound rows (if b then take_next s s.waiting else s)
  turn-IsSound true s h = take_next-IsSound s s.waiting refl h
  turn-IsSound false s h = h

  pub receive-streams :
      (key : ℕ) (subs : List Subscriber)
      → All (IsSound rows) subs
      → All
          (IsSound rows)
          (map (λ (s : Subscriber). if s.key == key then take_next s s.waiting else s) subs)
  receive-streams key [] h = tt
  receive-streams key (s ∷ subs) h =
      (turn-IsSound (s.key == key) s h.0, receive-streams key subs h.1)
