-- ===== src/Ipc/Delivery/Outstanding.antt =====
-- The calls of the bus one after another, and a message that none of them acknowledges.
use aurium.Base.{
  ◌≡◌, ℕ, ◌+◌, Bool, true, false, not, List, [], ◌∷◌, Text, text_eq, any, select, length, arith,
  All, text_eq_refl, text_eq_sound, or_false, not-true,
}
use aurium.Db.{Result, Faults, pure, ◌>>=◌, ◌>>◌, query}
use aurium.Db.Keeps.{
  Always_state, Keeps, bind-Keeps, query-Keeps, modify-Keeps, statement-Keeps, if-Keeps,
}
use aurium.Ipc.Table.{
  queued, delivered, status_eq, Addr, Message, message_delivered, message_acked, Desk, IpcError,
  Action, note, update, nudge_row, hand_over,
}
use aurium.Ipc.Send.{send, has_recipient}
use aurium.Ipc.Send.Posted.{send-Keeps}
use aurium.Ipc.Delivery.{
  inbox, inbox_rows, deliver_row, hand_one, hand_each, ack, ack_row, ack_one, note_ack, tally,
  renudge_stale, remind_each, is_overdue, notify_each, notify_context_change, consumers,
  change_message,
}
use aurium.Ipc.Letters.{
  letter, is_unacked, Holds, update-Holds, note-Holds, nudged-Holds, hand_over-Holds,
}

-- The calls that write: `Send`, `Inbox`, `Ack`, `RenudgeStale` and `NotifyContextChange`.
pub data Request : Type 0 where
  sends : (new art now : Text) → Message → Request
  reads : (now : Text) → Addr → ℕ → Request
  acknowledges : (now : Text) → List Text → Request
  reminds : (now cutoff : Text) → Request
  tells : (fresh : ℕ → Text) → (now project key version : Text) → Request

-- What is left of a run: the tables and the database's faults.
abbrev pub left : {A : Type 0} → Result IpcError A × Desk × Faults → Desk × Faults
left (_, d, fs) = (d, fs)

unfoldable pub serve : Request → Desk → Faults → Desk × Faults
unfolding send inbox ack renudge_stale notify_context_change
serve (sends new art now m) d fs = left (send new art now m d fs)
serve (reads now a limit) d fs = left (inbox now a limit d fs)
serve (acknowledges now ids) d fs = left (ack now ids d fs)
serve (reminds now cutoff) d fs = left (renudge_stale now cutoff d fs)
serve (tells fresh now project key version) d fs =
    left (notify_context_change fresh now project key version d fs)

unfoldable pub run_all : List Request → Desk → Faults → Desk
unfolding serve
run_all [] d fs = d
run_all (r ∷ rs) d fs = let (t, gs) = serve r d fs in run_all rs t gs

-- A call that acknowledges other messages only.
abbrev pub spares : Text → Request → Bool
spares id (acknowledges now ids) = not (any (text_eq id) ids)
spares id _ = true

module _ (id : Text) (l : Message) where
  abbrev Kept : {A : Type 0} → Action A → Type 0
  Kept = Keeps IpcError (Holds id l)

  seq :
      {A B : Type 0} (x : Action A) (f : A → Action B)
      → Kept x
      → ((a : A) → Kept (f a))
      → Kept (x >>= f)
  seq x f = bind-Keeps IpcError (Holds id l) x f

  deliver_row-letter : (i now : Text) (m : Message) → letter (deliver_row i now m) ≡ letter m
  deliver_row-letter i now m = ground arith

  deliver_row-open :
      (i now : Text) (m : Message) → is_unacked m ≡ true → is_unacked (deliver_row i now m) ≡ true
  unfolding status_eq
  deliver_row-open i now m h = ground arith

  abbrev handed : Text → Message → Message
  handed now m = record m { status = delivered; delivered_at = now }

  hand_one-Holds : (now : Text) (m : Message) → Kept (hand_one now m)
  hand_one-Holds now m =
      if-Keeps IpcError (Holds id l) (status_eq m.status queued) _ (pure m)
        (seq (update (deliver_row m.id now))
          (λ _. note (message_delivered m.id) >> pure (handed now m))
          (modify-Keeps IpcError (Holds id l) _ (
            update-Holds id l (deliver_row m.id now) (deliver_row-letter m.id now)
              (λ x _ h. deliver_row-open m.id now x h)))
          (λ _.
            seq (note (message_delivered m.id)) (λ _. pure (handed now m))
              (note-Holds id l (message_delivered m.id)) (λ _ d fs h. h)))
        (λ d fs h. h)

  hand_each-Holds : (now : Text) (ms : List Message) → Kept (hand_each now ms)
  unfolding hand_each
  hand_each-Holds now [] = λ d fs h. h
  hand_each-Holds now (m ∷ ms) =
      seq (hand_one now m) (λ x. hand_each now ms >>= λ xs. pure (x ∷ xs)) (hand_one-Holds now m)
        (λ x. seq (hand_each now ms) (λ xs. pure (x ∷ xs)) (hand_each-Holds now ms) (λ _ d fs h. h))

  inbox-Holds : (now : Text) (a : Addr) (limit : ℕ) → Kept (inbox now a limit)
  unfolding inbox
  inbox-Holds now a limit =
      if-Keeps IpcError (Holds id l) (has_recipient a) _ _
        (seq (query (inbox_rows a limit)) (hand_each now)
          (query-Keeps IpcError (Holds id l) (inbox_rows a limit)) (hand_each-Holds now))
        (λ d fs h. h)

  ack_row-letter : (i now : Text) (m : Message) → letter (ack_row i now m) ≡ letter m
  ack_row-letter i now m = ground arith

  text_eq_join : (x y z : Text) → text_eq x z ≡ true → text_eq y z ≡ true → text_eq x y ≡ true
  text_eq_join x y z p q =
      let e : x ≡ z = text_eq_sound x z p in
      let f : y ≡ z = text_eq_sound y z q in simp (e, f, text_eq_refl z)

  ack_row-open :
      (i now : Text) (m : Message)
      → text_eq id i ≡ false
      → text_eq id m.id ≡ true
      → is_unacked m ≡ true
      → is_unacked (ack_row i now m) ≡ true
  ack_row-open i now m n e h = ground (arith, text_eq_join id i m.id)

  note_ack-Holds : (i : Text) (hit : Bool) → Kept (note_ack i hit)
  note_ack-Holds i true = note-Holds id l (message_acked i)
  note_ack-Holds i false = λ d fs h. h

  ack-Holds : (now : Text) (ids : List Text) → any (text_eq id) ids ≡ false → Kept (ack now ids)
  unfolding ack
  ack-Holds now [] n = λ d fs h. h
  ack-Holds now (i ∷ ids) n =
      let (n1, n2) = or_false (text_eq id i) _ n in
      seq (ack_one now i) (λ hit. note_ack i hit >> (ack now ids >>= λ k. pure (tally hit k)))
        (statement-Keeps IpcError (Holds id l) _
          (update-Holds id l (ack_row i now) (ack_row-letter i now) (λ m. ack_row-open i now m n1)))
        (λ hit.
          seq (note_ack i hit) (λ _. ack now ids >>= λ k. pure (tally hit k)) (note_ack-Holds i hit)
            (λ _.
              seq (ack now ids) (λ k. pure (tally hit k)) (ack-Holds now ids n2) (λ _ d fs h. h)))

  remind_each-Holds : (now : Text) (ms : List Message) → Kept (remind_each now ms)
  unfolding remind_each
  remind_each-Holds now [] = λ d fs h. h
  remind_each-Holds now (m ∷ ms) =
      seq (hand_over m.to.container_id _) (λ _. update (nudge_row m.id now) >> remind_each now ms)
        (hand_over-Holds id l m.to.container_id _)
        (λ _.
          seq (update (nudge_row m.id now)) (λ _. remind_each now ms) (nudged-Holds id l m.id now)
            (λ _. remind_each-Holds now ms))

  renudge_stale-Holds : (now cutoff : Text) → Kept (renudge_stale now cutoff)
  unfolding renudge_stale
  renudge_stale-Holds now cutoff =
      seq (query (λ d. select (is_overdue cutoff) d.messages))
        (λ todo. remind_each now todo >> pure (length todo))
        (query-Keeps IpcError (Holds id l) (λ d. select (is_overdue cutoff) d.messages))
        (λ todo.
          seq (remind_each now todo) (λ _. pure (length todo)) (remind_each-Holds now todo)
            (λ _ d fs h. h))

  notify_each-Holds :
      (fresh : ℕ → Text) (now : Text) (message : Text → Message) (n : ℕ) (agents : List Text)
      → Kept (notify_each fresh now message n agents)
  unfolding notify_each
  notify_each-Holds fresh now message n [] = λ d fs h. h
  notify_each-Holds fresh now message n (a ∷ agents) =
      seq (send (fresh n) [] now (message a)) (λ _. notify_each fresh now message (n + 1) agents)
        (send-Keeps id l (fresh n) [] now (message a))
        (λ _. notify_each-Holds fresh now message (n + 1) agents)

  notify_context_change-Holds :
      (fresh : ℕ → Text) (now project key version : Text)
      → Kept (notify_context_change fresh now project key version)
  unfolding notify_context_change
  notify_context_change-Holds fresh now project key version =
      let message = change_message project key version in
      seq (query (λ d. consumers key d.dependencies))
        (λ agents. notify_each fresh now message 0 agents >> pure (length agents))
        (query-Keeps IpcError (Holds id l) (λ d. consumers key d.dependencies))
        (λ agents.
          seq (notify_each fresh now message 0 agents) (λ _. pure (length agents))
            (notify_each-Holds fresh now message 0 agents) (λ _ d fs h. h))

  abbrev held :
      {A : Type 0} (x : Action A)
      → Kept x
      → (d : Desk) (fs : Faults) → Holds id l d
      → Holds id l (x d fs).1
  held x k d fs h = Always_state IpcError (Holds id l) (x d fs) (k d fs h)

  serve-Holds :
      (r : Request) (d : Desk) (fs : Faults)
      → spares id r ≡ true
      → Holds id l d
      → Holds id l (serve r d fs).0
  unfolding serve
  serve-Holds (sends new art now m) d fs p h =
      held (send new art now m) (send-Keeps id l new art now m) d fs h
  serve-Holds (reads now a limit) d fs p h =
      held (inbox now a limit) (inbox-Holds now a limit) d fs h
  serve-Holds (acknowledges now ids) d fs p h =
      held (ack now ids) (ack-Holds now ids (not-true (any (text_eq id) ids) p)) d fs h
  serve-Holds (reminds now cutoff) d fs p h =
      held (renudge_stale now cutoff) (renudge_stale-Holds now cutoff) d fs h
  serve-Holds (tells fresh now project key version) d fs p h =
      held (notify_context_change fresh now project key version)
        (notify_context_change-Holds fresh now project key version) d fs h

  -- Once a message is in the table and not acknowledged, it stays there, not acknowledged and with the
  -- same id, sender, recipient, type, priority, content and references, through any calls of Send,
  -- Inbox, Ack, RenudgeStale and NotifyContextChange one after another, whatever statements the
  -- database refuses, as long as no Ack among them names its id.
  pub run_all-Holds :
      (rs : List Request) (d : Desk) (fs : Faults)
      → All (λ r. spares id r ≡ true) rs
      → Holds id l d
      → Holds id l (run_all rs d fs)
  unfolding run_all
  run_all-Holds [] d fs p h = h
  run_all-Holds (r ∷ rs) d fs p h =
      let (t, gs) = serve r d fs in run_all-Holds rs t gs p.1 (serve-Holds r d fs p.0 h)
