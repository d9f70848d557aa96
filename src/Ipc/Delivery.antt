-- ===== src/Ipc/Delivery.antt =====
-- internal/ipc/ipc.go: inboxes, acknowledgements, transcripts and reminders.
--
-- A limit that is not positive is 0 here. Rows that the ORDER BY does not tell apart stay in the
-- order of the table.
pub mod Outstanding
pub mod Handed
use aurium.Base.{
  ℕ, zero, suc, ◌+◌, Bool, true, false, not, ◌&&◌, ◌||◌, Option, none, some, List, [], ◌∷◌, ◌++◌,
  Text, codes, text_eq, is_empty, find, any, select, map, take, length, sort_by, ltb, if◌then◌else◌,
}
use mathlib.Core.List.{reverse}
use aurium.Ids.Order.{text_lt}
use aurium.Db.{
  Result, ok, failed, err, Faults, Sql, pure, raise, ◌>>=◌, ◌>>◌, ignored, query, modify, statement,
}
use aurium.Ipc.Table.{
  MessageType, information, Status, queued, delivered, acked, status_eq, Priority, unset, normal,
  high, other_priority, Addr, Message, Dependency, message_delivered, message_acked, Desk, IpcError,
  no_recipient, not_found, Action, message_at, note, update, nudge_row, hand_over,
}
use aurium.Ipc.Send.{send, has_recipient, type_text}

-- The WHERE clause of `Inbox`.
abbrev pub is_for : Addr → Message → Bool
is_for a m =
    (not (is_empty a.agent_id) && text_eq m.to.agent_id a.agent_id)
    || ((not (is_empty a.container_id) && text_eq m.to.container_id a.container_id)
        || (a.is_human && m.to.is_human))

abbrev pub is_open : Message → Bool
is_open m = not (status_eq m.status acked)

abbrev pub is_high : Priority → Bool
is_high high = true
is_high _ = false

-- The ORDER BY clause of `Inbox`.
abbrev pub is_before : Message → Message → Bool
is_before x y =
    (is_high x.priority && not (is_high y.priority))
    || (not (not (is_high x.priority) && is_high y.priority) && text_lt x.ts y.ts)

unfoldable pub or_20 : ℕ → ℕ
or_20 zero = 20
or_20 (suc n) = suc n

-- `UPDATE messages SET status = 'delivered', … WHERE id = ? AND status = 'queued'`
abbrev pub deliver_row : Text → Text → Message → Message
deliver_row id now m =
    if text_eq id m.id && status_eq m.status queued
    then record m { status = delivered; delivered_at = now }
    else m

abbrev pub hand_one : Text → Message → Action Message
hand_one now m =
    if status_eq m.status queued
    then (update (deliver_row m.id now)
        >> (note (message_delivered m.id)
            >> pure (record m { status = delivered; delivered_at = now })))
    else pure m

unfoldable pub hand_each : Text → List Message → Action (List Message)
hand_each now [] = pure []
hand_each now (m ∷ ms) = do x ← hand_one now m; xs ← hand_each now ms; pure (x ∷ xs)

abbrev pub inbox_rows : Addr → ℕ → Desk → List Message
inbox_rows a limit d =
    take (or_20 limit) (sort_by is_before (select (λ m. is_for a m && is_open m) d.messages))

-- `Inbox`, with the clock.
unfoldable pub inbox : Text → Addr → ℕ → Action (List Message)
unfolding hand_each or_20 text_lt
inbox now a limit =
    if has_recipient a then (query (inbox_rows a limit) >>= hand_each now) else raise no_recipient

-- `UPDATE messages SET status = 'acked', … WHERE id = ? AND status != 'acked'`
abbrev pub ack_row : Text → Text → Message → Message
ack_row id now m =
    if text_eq id m.id && is_open m then record m { status = acked; acked_at = now } else m

abbrev pub acks : Text → Message → Bool
acks id m = text_eq id m.id && is_open m

-- The UPDATE, and whether it met a row.
abbrev pub ack_one : Text → Text → Action Bool
ack_one now id = statement (λ (d : Desk).
    (ok (any (acks id) d.messages), record d { messages = map (ack_row id now) d.messages }))

abbrev pub note_ack : Text → Bool → Action (Unit {0})
note_ack id true = note (message_acked id)
note_ack id false = pure tt

abbrev pub tally : Bool → ℕ → ℕ
tally hit n = if hit then n + 1 else n

-- `Ack`, with the clock.
unfoldable pub ack : Text → List Text → Action ℕ
ack now [] = pure 0
ack now (id ∷ ids) = do hit ← ack_one now id; note_ack id hit; n ← ack now ids; pure (tally hit n)

abbrev pub or_200 : ℕ → ℕ
or_200 zero = 200
or_200 (suc n) = if ltb 500 (suc n) then 200 else suc n

abbrev pub is_newer : Message → Message → Bool
is_newer x y = text_lt y.ts x.ts || (text_eq x.ts y.ts && text_lt y.id x.id)

abbrev pub is_of : Text → Message → Bool
is_of agent m = text_eq m.sender.agent_id agent || text_eq m.to.agent_id agent

-- `History`
unfoldable pub history : Text → ℕ → Action (List Message)
unfolding text_lt
history agent limit =
    if is_empty agent
    then raise no_recipient
    else query (λ (d : Desk).
      reverse (take (or_200 limit) (sort_by is_newer (select (is_of agent) d.messages))))

abbrev pub found : Option Message → Action Message
found none = raise not_found
found (some m) = pure m

-- `Get`
unfoldable pub get : Text → Action Message
get id = query (λ (d : Desk). message_at id d.messages) >>= found

abbrev pub last_told : Message → Text
last_told m = if is_empty m.nudged_at then m.ts else m.nudged_at

-- The WHERE clause of `RenudgeStale`.
abbrev pub is_overdue : Text → Message → Bool
is_overdue cutoff m =
    status_eq m.status queued
    && (is_high m.priority && (not (is_empty m.to.container_id) && text_lt (last_told m) cutoff))

unfoldable pub remind_each : Text → List Message → Action (Unit {0})
remind_each now [] = pure tt
remind_each now (m ∷ ms) = do
  hand_over m.to.container_id (
      codes "still waiting: "
      ++ type_text m.type_
      ++ codes " ("
      ++ m.id
      ++ codes ") — call aurium_ipc_inbox")
  update (nudge_row m.id now)
  remind_each now ms

-- `RenudgeStale`, with the clock and the clock five minutes before.
unfoldable pub renudge_stale : Text → Text → Action ℕ
unfolding remind_each text_lt
renudge_stale now cutoff = do
  todo ← query (λ (d : Desk). select (is_overdue cutoff) d.messages)
  remind_each now todo
  pure (length todo)

-- `SELECT DISTINCT to_agent_id FROM dependencies WHERE subject = ?`
abbrev pub add_new : Text → List Text → List Text
add_new x xs = if any (text_eq x) xs then xs else x ∷ xs

abbrev pub consumers : Text → List Dependency → List Text
consumers key [] = []
consumers key (r ∷ rows) =
    let rest = consumers key rows in if text_eq r.subject key then add_new r.to_agent rest else rest

abbrev pub nobody : Addr
nobody = record { agent_id = []; container_id = []; is_human = false }

-- The message of `NotifyContextChange`; the version is its decimal text.
abbrev pub change_message : Text → Text → Text → Text → Message
change_message project key version agent = record {
  id = [];
  ts = [];
  project_id = project;
  sender = nobody;
  to = record nobody { agent_id = agent };
  type_ = information;
  priority = unset;
  content =
      key
      ++ codes " changed (now version "
      ++ version
      ++ codes "). Re-read it before relying on it.";
  refs = record { task = []; artifact = []; context_key = key; branch = []; files = [] };
  in_reply_to = [];
  status = queued;
  delivered_at = [];
  acked_at = [];
  nudged_at = [];
}

unfoldable pub notify_each :
    (ℕ → Text) → Text → (Text → Message) → ℕ → List Text → Action (Unit {0})
unfolding send
notify_each fresh now message n [] = pure tt
notify_each fresh now message n (agent ∷ agents) =
    send (fresh n) [] now (message agent) >> notify_each fresh now message (n + 1) agents

-- `NotifyContextChange`; `fresh` gives the id of each message.
unfoldable pub notify_context_change : (ℕ → Text) → Text → Text → Text → Text → Action ℕ
unfolding notify_each
notify_context_change fresh now project key version = do
  agents ← query (λ (d : Desk). consumers key d.dependencies)
  notify_each fresh now (change_message project key version) 0 agents
  pure (length agents)
