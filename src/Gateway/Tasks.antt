-- ===== src/Gateway/Tasks.antt =====
-- internal/gateway/task.go: what an agent says of its task.
--
-- `strings.ToLower` is a parameter; the new ids and the clock are arguments. The bus and the events
-- are there or not (`Wiring`), and an event that cannot be written is dropped.
pub mod Told
use aurium.Base.{
  ℕ, ◌+◌, Bool, true, false, not, ◌&&◌, Option, none, some, List, [], ◌∷◌, ◌++◌, Text, codes,
  text_eq, is_empty, any, find, map, if◌then◌else◌,
}
use aurium.Db.{
  Result, ok, failed, err, Faults, Sql, pure, raise, ◌>>=◌, ◌>>◌, query, statement, modify, ignored,
  answered,
}
use aurium.Ipc.Table.{
  MessageType, blocked, artifact, queued, high, Addr, Message, Desk, IpcError, not_found,
}
use aurium.Ipc.Send.{send, set_status}
use aurium.Gateway.Native.{Args, arg_str, arg_strings}
use aurium.Gateway.Powers

-- `store.Container`, as far as this file reads it.
pub record Box : Type 0 where
  pub id : Text
  pub project_id : Text
  pub task_id : Text
  pub branch : Text

-- The tables: `parents` are agents and their parents, `moves` the events of tasks.
pub record Board : Type 0 where
  pub desk : Desk
  pub boxes : List Box
  pub parents : List (Text × Text)
  pub moves : List (Text × Text)

-- Whether `g.IPC` and `g.Events` are there.
pub record Wiring : Type 0 where
  pub has_bus : Bool
  pub has_events : Bool

pub data TaskAnswer : Type 0 where
  not_a_status : Text → TaskAnswer
  task_error : TaskAnswer
  blocked_told : TaskAnswer
  blocked_untold : TaskAnswer
  handed_over : Text → TaskAnswer
  recorded : Text → TaskAnswer

abbrev pub Step : Type 0 → Type 0
Step A = Sql IpcError Board A

-- `valid`
abbrev pub statuses : List Text
statuses =
    codes "planning"
    ∷ codes "running"
    ∷ codes "blocked"
    ∷ codes "review"
    ∷ codes "pr_ready"
    ∷ codes "completed"
    ∷ []

-- `GetContainer`
abbrev pub found_box : Option Box → Step Box
found_box none = raise not_found
found_box (some b) = pure b

abbrev pub get_box : Text → Step Box
get_box id = query (λ (s : Board). find (λ (b : Box). text_eq id b.id) s.boxes) >>= found_box

-- `TransitionTask`: an UPDATE that meets no row is an error.
abbrev pub move_task : Text → Text → Board → Result IpcError (Unit {0}) × Board
move_task id status s =
    if any (λ (t : Text × Text). text_eq id t.0) s.desk.tasks
    then (
      ok tt,
      record s { desk = record s.desk { tasks = map (set_status id status) s.desk.tasks } },
    )
    else (err not_found, s)

abbrev pub move_own : Text → Text → Step (Unit {0})
move_own id status = if is_empty id then pure tt else statement (move_task id status)

-- `UpdateAgentStatus`, whose error is dropped.
abbrev pub agent_status : Text → Text
agent_status status = if text_eq status (codes "blocked") then codes "blocked" else codes "running"

abbrev pub move_agent : Text → Text → Step (Unit {0})
move_agent id status =
    if is_empty id
    then pure tt
    else ignored (
        modify (λ (s : Board). record s {
          desk = record s.desk { agents = map (set_status id (agent_status status)) s.desk.agents };
        }))

abbrev pub note_move : Bool → Text → Text → Step (Unit {0})
note_move has_events id status =
    if has_events
    then ignored (modify (λ (s : Board). record s { moves = s.moves ++ (id, status) ∷ [] }))
    else pure tt

-- The choices, each under its letter, from the code of the first on.
unfoldable pub choices : ℕ → List Text → Text
choices letter [] = []
choices letter (o ∷ os) =
    codes "  " ++ letter ∷ codes ") " ++ o ++ codes "\n" ++ choices (letter + 1) os

abbrev pub with_choices : List Text → Text
with_choices [] = []
with_choices (o ∷ os) =
    codes "\nOptions:\n"
    ++ choices b'A' (o ∷ os)
    ++ codes "Answer with `aurium approve --choose <letter>` or reply."

abbrev pub message : Text → Addr → Addr → MessageType → Text → (branch task : Text) → Message
message project sender to type content branch task = record {
  id = [];
  ts = [];
  project_id = project;
  sender = sender;
  to = to;
  type_ = type;
  priority = high;
  content = content;
  refs = record { task = task; artifact = []; context_key = []; branch = branch; files = [] };
  in_reply_to = [];
  status = queued;
  delivered_at = [];
  acked_at = [];
  nudged_at = [];
}

abbrev pub own_addr : Powers.Caller → Box → Addr
own_addr c b = record { agent_id = c.agent_id; container_id = b.id; is_human = false }

unfoldable pub blocked_message : Powers.Caller → Box → Text → List Text → Message
unfolding choices
blocked_message c b text options =
    message b.project_id (own_addr c b)
      (record { agent_id = []; container_id = []; is_human = true }) blocked
      (codes "Blocked: " ++ text ++ with_choices options) [] b.task_id

unfoldable pub ready_message : Powers.Caller → Box → Text → Text → Message
ready_message c b text parent =
    message b.project_id (own_addr c b)
      (record { agent_id = parent; container_id = []; is_human = false }) artifact
      (codes "Work ready on branch " ++ b.branch ++ codes ". " ++ text) b.branch b.task_id

abbrev pub on_desk : {A : Type 0} → Sql IpcError Desk A → Step (Result IpcError A)
on_desk = answered (λ (s : Board). s.desk) (λ d s. record s { desk = d })

abbrev pub after_blocked : Result IpcError Message → Step TaskAnswer
after_blocked (ok m) = pure blocked_told
after_blocked failed = pure blocked_untold
after_blocked (err e) = pure blocked_untold

abbrev pub parent_in : Text → List (Text × Text) → Option Text
parent_in id [] = none
parent_in id ((a, p) ∷ rest) = if text_eq id a then some p else parent_in id rest

abbrev pub parent_of : Text → Step Text
parent_of id s fs = lenient (query (λ (s : Board). parent_in id s.parents) s fs)
  where
    lenient : Result IpcError (Option Text) × Board × Faults → Result IpcError Text × Board × Faults
    lenient (ok (some p), t, gs) = (ok p, t, gs)
    lenient (ok none, t, gs) = (ok [], t, gs)
    lenient (failed, t, gs) = (ok [], t, gs)
    lenient (err e, t, gs) = (ok [], t, gs)

module _ (w : Wiring) (id art now : Text) (c : Powers.Caller) where
  -- A worker's branch goes to the agent that it works for; GetAgent's error is as no such agent.
  abbrev pub hand_to : Box → Text → Text → Step TaskAnswer
  hand_to b text parent =
      if is_empty parent
      then pure (recorded (codes "review"))
      else (on_desk (send id art now (ready_message c b text parent))
          >> pure (handed_over b.branch))

  abbrev pub hand_over : Box → Text → Step TaskAnswer
  hand_over b text =
      if text_eq c.role (codes "worker") && w.has_bus
      then (parent_of c.agent_id >>= hand_to b text)
      else pure (recorded (codes "review"))

  -- Without a bus nobody is told, and the answer is the same.
  abbrev pub tell_human : Box → Text → List Text → Step TaskAnswer
  tell_human b text options =
      if w.has_bus
      then (on_desk (send id art now (blocked_message c b text options)) >>= after_blocked)
      else pure blocked_told

  abbrev pub finish : Box → Text → Text → List Text → Step TaskAnswer
  finish b status text options =
      if text_eq status (codes "blocked")
      then tell_human b text options
      else if text_eq status (codes "review")
      then hand_over b text
      else pure (recorded status)

  abbrev pub carry_on : Box → Text → Text → List Text → Step TaskAnswer
  carry_on b status text options = do
    move_agent c.agent_id status
    note_move w.has_events b.task_id status
    finish b status text options

  abbrev pub after_move :
      Box → Text → Text → List Text → Result IpcError (Unit {0}) → Step TaskAnswer
  after_move b status text options (ok _) = carry_on b status text options
  after_move b status text options _ = pure task_error

  abbrev pub whole : {A : Type 0} → Step A → Step (Result IpcError A)
  whole = answered (λ (s : Board). s) (λ t s. t)

  abbrev pub after_box : Text → Text → List Text → Result IpcError Box → Step TaskAnswer
  after_box status text options (ok b) =
      whole (move_own b.task_id status) >>= after_move b status text options
  after_box status text options _ = pure task_error

  -- `taskStatus`
  unfoldable pub task_status : (Text → Text) → Args → Step TaskAnswer
  unfolding send blocked_message ready_message
  task_status lower args =
      let status = lower (arg_str args (codes "status")) in
      if not (any (text_eq status) statuses)
      then pure (not_a_status status)
      else (whole (get_box c.container_id)
          >>= after_box status (arg_str args (codes "note")) (arg_strings args (codes "options")))
