-- ===== src/Gateway/Tasks/Told.antt =====
-- What an agent is told when it says that it is blocked.
use aurium.Base.{
  ◌≡◌, refl, Bool, true, false, not, ◌&&◌, ◌⊎◌, inl, inr, List, Text, codes, text_eq, is_empty, any,
  if◌then◌else◌,
}
use aurium.Db.{Result, ok, failed, err, Faults, pure, ◌>>=◌, ◌>>◌}
use aurium.Db.Rules.{Post, bind_rule}
use aurium.Ipc.Table.{Message, Desk, IpcError}
use aurium.Ipc.Send.{send}
use aurium.Ipc.Send.Posted.{accepted, Sent, send_lem}
use aurium.Ipc.Letters.{Holds, letter}
use aurium.Gateway.Native.{Args, arg_str, arg_strings}
use aurium.Gateway.Powers
use aurium.Gateway.Tasks.{
  Box, Board, Wiring, tell_human, TaskAnswer, not_a_status, blocked_told, handed_over, recorded,
  Step, statuses, get_box, move_own, move_agent, note_move, blocked_message, ready_message, on_desk,
  after_blocked, parent_of, hand_to, hand_over, finish, after_move, whole, after_box, task_status,
}

-- A message for a human, from this agent and container, in the table.
abbrev pub Heard : Text → Powers.Caller → Desk → Type 0
Heard id c d =
    (m : Message) × (Holds id m d × ((m.to.is_human ≡ true) × (m.sender.agent_id ≡ c.agent_id)))

-- What the answer promises, where there is a bus.
abbrev pub Promise : Wiring → Text → Powers.Caller → TaskAnswer → Board → Type 0
Promise w id c blocked_told t = (w.has_bus ≡ false) ⊎ Heard id c t.desk
Promise w id c _ t = Unit {0}

abbrev pub Honest :
    Wiring → Text → Powers.Caller → Result IpcError TaskAnswer × Board × Faults → Type 0
Honest w id c = Post (Promise w id c) (λ _ _. Unit {0}) (λ _. Unit {0})

any_Post :
    {A : Type 0} (o : Result IpcError A × Board × Faults)
    → Post (λ _ _. Unit {0}) (λ _ _. Unit {0}) (λ _. Unit {0}) o
any_Post (ok a, t, fs) = tt
any_Post (failed, t, fs) = tt
any_Post (err e, t, fs) = tt

module _ (w : Wiring) (id art now : Text) (c : Powers.Caller) where
  abbrev Fair : Step TaskAnswer → Type 0
  Fair x = (s : Board) (fs : Faults) → Honest w id c (x s fs)

  after :
      {A : Type 0} (x : Step A) (f : A → Step TaskAnswer) → ((a : A) → Fair (f a)) → Fair (x >>= f)
  after x f h s fs =
      bind_rule (Promise w id c) (λ _ _. Unit {0}) (λ _. Unit {0}) (λ _ _. Unit {0}) x f s fs
        (any_Post (x s fs)) (λ a t gs _. h a t gs)

  if_Fair : (b : Bool) (x y : Step TaskAnswer) → Fair x → Fair y → Fair (if b then x else y)
  if_Fair true x y h k s fs = h s fs
  if_Fair false x y h k s fs = k s fs

  Sent-Honest :
      (b : Box) (text : Text) (options : List Text) (s : Board)
      (o : Result IpcError Message × Desk × Faults)
      → Sent id now (blocked_message c b text options) s.desk o
      → Honest w id c (after_blocked o.0 (record s { desk = o.1 }) o.2)
  unfolding blocked_message
  Sent-Honest b text options s (ok m, t, fs) h =
      inr (letter (accepted id now (blocked_message c b text options)), (h.1, (refl, refl)))
  Sent-Honest b text options s (failed, t, fs) h = tt
  Sent-Honest b text options s (err e, t, fs) h = tt

  blocked-Fair :
      (b : Box) (text : Text) (options : List Text)
      → Fair (on_desk (send id art now (blocked_message c b text options)) >>= after_blocked)
  blocked-Fair b text options s fs =
      let m = blocked_message c b text options in
      Sent-Honest b text options s (send id art now m s.desk fs) (send_lem id art now m s.desk fs)

  tell_human-Fair :
      (b : Box) (text : Text) (options : List Text)
      → Fair (tell_human w id art now c b text options)
  tell_human-Fair b text options = wired_or w.has_bus refl
    where
      wired_or :
          (on : Bool)
          → w.has_bus ≡ on
          → Fair (
              if on
              then (on_desk (send id art now (blocked_message c b text options)) >>= after_blocked)
              else pure blocked_told)
      wired_or true e s fs = blocked-Fair b text options s fs
      wired_or false e s fs = inl e

  hand_to-Fair : (b : Box) (text parent : Text) → Fair (hand_to w id art now c b text parent)
  hand_to-Fair b text parent =
      if_Fair (is_empty parent) (pure (recorded (codes "review"))) _ (λ s fs. tt)
        (after (on_desk (send id art now (ready_message c b text parent)))
          (λ _. pure (handed_over b.branch)) (λ _ s fs. tt))

  hand_over-Fair : (b : Box) (text : Text) → Fair (hand_over w id art now c b text)
  hand_over-Fair b text =
      if_Fair (text_eq c.role (codes "worker") && w.has_bus) _ (pure (recorded (codes "review")))
        (after (parent_of c.agent_id) (hand_to w id art now c b text) (λ p. hand_to-Fair b text p))
        (λ s fs. tt)

  finish-Fair :
      (b : Box) (status text : Text) (options : List Text)
      → Fair (finish w id art now c b status text options)
  finish-Fair b status text options =
      if_Fair (text_eq status (codes "blocked")) _ _ (tell_human-Fair b text options) (
        if_Fair (text_eq status (codes "review")) _ (pure (recorded status)) (hand_over-Fair b text)
          (λ s fs. tt))

  after_move-Fair :
      (b : Box) (status text : Text) (options : List Text) (r : Result IpcError (Unit {0}))
      → Fair (after_move w id art now c b status text options r)
  after_move-Fair b status text options (ok _) =
      after (move_agent c.agent_id status)
        (λ _.
          note_move w.has_events b.task_id status >> finish w id art now c b status text options)
        (λ _.
          after (note_move w.has_events b.task_id status)
            (λ _. finish w id art now c b status text options)
            (λ _. finish-Fair b status text options))
  after_move-Fair b status text options failed = λ s fs. tt
  after_move-Fair b status text options (err e) = λ s fs. tt

  after_box-Fair :
      (status text : Text) (options : List Text) (r : Result IpcError Box)
      → Fair (after_box w id art now c status text options r)
  after_box-Fair status text options (ok b) =
      after (whole w id art now c (move_own b.task_id status))
        (after_move w id art now c b status text options)
        (λ r. after_move-Fair b status text options r)
  after_box-Fair status text options failed = λ s fs. tt
  after_box-Fair status text options (err e) = λ s fs. tt

  -- With a bus, an agent that aurium_task_status tells that a human has been notified of its block is
  -- told the truth, whatever statements the database refused: a message from this agent, addressed to a human,
  -- is in the table under the new id and not acknowledged.
  pub task_status-Honest :
      (lower : Text → Text) (args : Args)
      → (s : Board) (fs : Faults) → Honest w id c (task_status w id art now c lower args s fs)
  unfolding task_status
  task_status-Honest lower args =
      let status = lower (arg_str args (codes "status")) in
      if_Fair (not (any (text_eq status) statuses)) (pure (not_a_status status)) _ (λ s fs. tt)
        (after (whole w id art now c (get_box c.container_id)) (after_box w id art now c status _ _)
          (λ r.
            after_box-Fair status (arg_str args (codes "note")) (arg_strings args (codes "options"))
              r))
