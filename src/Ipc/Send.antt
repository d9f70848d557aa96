-- ===== src/Ipc/Send.antt =====
-- internal/ipc/ipc.go: `Send` and what it does besides, by the type of the message.
--
-- The nudger is taken as connected. The new ids and the clock are arguments: one clock for a call. A
-- constraint of the tables of artifacts and dependencies counts as a refused statement.
pub mod Posted
use aurium.Base.{
  ℕ, Bool, true, false, not, ◌&&◌, ◌||◌, Option, none, some, List, [], ◌∷◌, ◌++◌, Text, codes,
  text_eq, is_empty, find, any, map, leb, ◌==◌, if◌then◌else◌,
}
use aurium.Db.{
  Result, ok, failed, err, Faults, Sql, pure, raise, ◌>>=◌, ◌>>◌, ignored, modify, statement,
}
use aurium.Ipc.Table.{
  MessageType, request, response, information, warning, blocked, approval_required, artifact,
  dependency, conflict, other_type, Status, queued, Priority, unset, normal, high, other_priority,
  Addr, Refs, Message, Artifact, Dependency, message_sent, Desk, IpcError, no_type, no_content,
  no_recipient, no_priority, Action, message_at, note, update, nudge_row, hand_over,
}

-- `validTypes`
abbrev pub is_type : MessageType → Bool
is_type (other_type _) = false
is_type _ = true

-- The white space of Unicode that `strings.TrimSpace` takes off.
unfoldable pub is_space : ℕ → Bool
is_space c =
    (leb 9 c && leb c 13)
    || ((c == 32)
        || ((c == 133)
            || ((c == 160)
                || ((c == 5760)
                    || ((leb 8192 c && leb c 8202)
                        || ((c == 8232)
                            || ((c == 8233) || ((c == 8239) || ((c == 8287) || (c == 12288))))))))))

-- Whether nothing is left of a text without its white space.
unfoldable pub is_blank : Text → Bool
unfolding is_space
is_blank [] = true
is_blank (c ∷ s) = is_space c && is_blank s

abbrev pub has_recipient : Addr → Bool
has_recipient to = not (is_empty to.agent_id) || (not (is_empty to.container_id) || to.is_human)

-- The types that always reach a human.
abbrev pub for_human : MessageType → Bool
for_human approval_required = true
for_human blocked = true
for_human _ = false

abbrev pub or_normal : Priority → Priority
or_normal unset = normal
or_normal p = p

abbrev pub is_priority : Priority → Bool
is_priority normal = true
is_priority high = true
is_priority _ = false

-- The message as it is stored.
abbrev pub posted : Text → Text → Message → Message
posted id now m = record m {
  id = id;
  ts = now;
  to = record m.to { is_human = m.to.is_human || for_human m.type_ };
  priority = or_normal m.priority;
  status = queued;
  delivered_at = [];
  acked_at = [];
  nudged_at = [];
}

-- The INSERT: the id is the primary key, the project exists, and so does what is replied to.
abbrev pub insert_message : Message → Desk → Result IpcError (Unit {0}) × Desk
insert_message m d =
    if any (λ (x : Message). text_eq m.id x.id) d.messages
      || (not (any (text_eq m.project_id) d.projects)
          || (not (is_empty m.in_reply_to)
              && not (any (λ (x : Message). text_eq m.in_reply_to x.id) d.messages)))
    then (failed, d)
    else (ok tt, record d { messages = d.messages ++ m ∷ [] })

-- A status of an agent or a task.
abbrev pub set_status : Text → Text → Text × Text → Text × Text
set_status id status row = if text_eq id row.0 then (id, status) else row

-- UpdateAgentStatus and TransitionTask of internal/store, whose errors are dropped.
abbrev pub block_agent : Text → Action (Unit {0})
block_agent id =
    if is_empty id
    then pure tt
    else ignored (
        modify (λ (d : Desk). record d { agents = map (set_status id (codes "blocked")) d.agents }))

abbrev pub block_task : Text → Action (Unit {0})
block_task id =
    if is_empty id
    then pure tt
    else ignored
        (modify (λ (d : Desk). record d { tasks = map (set_status id (codes "blocked")) d.tasks }))

abbrev pub artifact_of : Text → Message → Artifact
artifact_of id m = record {
  id = id;
  container_id = m.sender.container_id;
  task_id = m.refs.task;
  kind = if is_empty m.refs.artifact then codes "report" else codes "file";
  ref = if is_empty m.refs.artifact then m.refs.branch else m.refs.artifact;
  meta = m.content;
}

abbrev pub record_artifact : Text → Message → Action (Unit {0})
record_artifact id m =
    if is_empty m.refs.artifact && is_empty m.refs.branch
    then pure tt
    else modify (λ (d : Desk). record d { artifacts = d.artifacts ++ artifact_of id m ∷ [] })

-- The recipient is what the sender depends on.
abbrev pub dependency_of : Message → Dependency
dependency_of m = record {
  from_agent = m.to.agent_id;
  to_agent = m.sender.agent_id;
  subject = m.refs.context_key;
}

abbrev pub same_dependency : Dependency → Dependency → Bool
same_dependency x y =
    text_eq x.from_agent y.from_agent
    && (text_eq x.to_agent y.to_agent && text_eq x.subject y.subject)

-- `INSERT OR IGNORE`
abbrev pub insert_dependency : Dependency → List Dependency → List Dependency
insert_dependency x rows = if any (same_dependency x) rows then rows else rows ++ x ∷ []

abbrev pub record_dependency : Message → Action (Unit {0})
record_dependency m =
    if is_empty m.sender.agent_id || (is_empty m.to.agent_id || is_empty m.refs.context_key)
    then pure tt
    else modify (λ (d : Desk). record d {
      dependencies = insert_dependency (dependency_of m) d.dependencies;
    })

-- `applySideEffects`
abbrev pub side_effects : Text → MessageType → Message → Action (Unit {0})
side_effects art blocked m = do block_agent m.sender.agent_id; block_task m.refs.task
side_effects art artifact m = record_artifact art m
side_effects art dependency m = record_dependency m
side_effects art _ m = pure tt

-- `describeFrom`
abbrev pub describe_from : Addr → Text
describe_from a =
    if not (is_empty a.agent_id)
    then a.agent_id
    else if not (is_empty a.container_id)
    then a.container_id
    else codes "aurium"

abbrev pub type_text : MessageType → Text
type_text request = codes "REQUEST"
type_text response = codes "RESPONSE"
type_text information = codes "INFORMATION"
type_text warning = codes "WARNING"
type_text blocked = codes "BLOCKED"
type_text approval_required = codes "APPROVAL_REQUIRED"
type_text artifact = codes "ARTIFACT"
type_text dependency = codes "DEPENDENCY"
type_text conflict = codes "CONFLICT"
type_text (other_type t) = t

-- `nudge`
abbrev pub nudge : Text → Message → Action (Unit {0})
nudge now m =
    if is_empty m.to.container_id
    then pure tt
    else (hand_over m.to.container_id (
          codes "1 new "
          ++ type_text m.type_
          ++ codes " from "
          ++ describe_from m.sender
          ++ codes " ("
          ++ m.id
          ++ codes ") — call aurium_ipc_inbox")
        >> ignored (update (nudge_row m.id now)))

-- What `Send` does with a message that is in order.
unfoldable pub store_message : Text → Text → Message → Action Message
store_message art now m = do
  statement (insert_message m)
  side_effects art m.type_ m
  note (message_sent m.id)
  nudge now m
  pure m

-- `Send`
unfoldable pub send : Text → Text → Text → Message → Action Message
unfolding store_message is_blank
send id art now m =
    if not (is_type m.type_)
    then raise no_type
    else if is_blank m.content
    then raise no_content
    else if not (has_recipient m.to)
    then raise no_recipient
    else if not (is_priority (or_normal m.priority))
    then raise no_priority
    else store_message art now (posted id now m)
