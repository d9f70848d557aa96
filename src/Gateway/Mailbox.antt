-- ===== src/Gateway/Mailbox.antt =====
-- internal/gateway/native.go: the native tools that send, read and acknowledge messages.
--
-- `strings.ToUpper` and the reading of a number are parameters; the new ids and the clock are
-- arguments.
use aurium.Base.{ℕ, Bool, false, not, Option, List, [], ◌∷◌, Text, codes, text_eq, if◌then◌else◌}
use aurium.Db.{Result, ok, Sql, pure, ◌>>=◌, answered}
use aurium.Ipc.Table.{
  MessageType, request, response, information, warning, blocked, approval_required, artifact,
  dependency, conflict, other_type, queued, Priority, unset, normal, high, other_priority, Message,
  Desk, IpcError,
}
use aurium.Ipc.Send.{send}
use aurium.Ipc.Delivery.{inbox, ack}
use aurium.Gateway.Native.{Args, arg_str, arg_int, arg_bool, arg_strings}
use aurium.Gateway.Powers.{may}
use aurium.Gateway.Powers

-- The results of the tools; an empty inbox and a list are both `inbox_of`.
pub data MailAnswer : Type 0 where
  lacks_scope : Text → MailAnswer
  mail_error : MailAnswer
  sent : Text → Bool → MailAnswer
  inbox_of : List Message → MailAnswer
  acknowledged : ℕ → MailAnswer

abbrev pub Tool : Type 0
Tool = Sql IpcError Desk MailAnswer

-- A text as a type and as a priority.
abbrev pub type_named : Text → MessageType
type_named t =
    if text_eq t (codes "REQUEST")
    then request
    else if text_eq t (codes "RESPONSE")
    then response
    else if text_eq t (codes "INFORMATION")
    then information
    else if text_eq t (codes "WARNING")
    then warning
    else if text_eq t (codes "BLOCKED")
    then blocked
    else if text_eq t (codes "APPROVAL_REQUIRED")
    then approval_required
    else if text_eq t (codes "ARTIFACT")
    then artifact
    else if text_eq t (codes "DEPENDENCY")
    then dependency
    else if text_eq t (codes "CONFLICT")
    then conflict
    else other_type t

abbrev pub priority_named : Text → Priority
priority_named [] = unset
priority_named (c ∷ s) =
    if text_eq (c ∷ s) (codes "normal")
    then normal
    else if text_eq (c ∷ s) (codes "high")
    then high
    else other_priority (c ∷ s)

-- The message that aurium_ipc_send sends.
abbrev pub message_of : (Text → Text) → Text → Powers.Caller → Args → Message
message_of upper project c args = record {
  id = [];
  ts = [];
  project_id = project;
  sender = record { agent_id = c.agent_id; container_id = c.container_id; is_human = false };
  to = record {
    agent_id = arg_str args (codes "to_agent");
    container_id = arg_str args (codes "to_container");
    is_human = arg_bool args (codes "to_human");
  };
  type_ = type_named (upper (arg_str args (codes "type")));
  priority = priority_named (arg_str args (codes "priority"));
  content = arg_str args (codes "content");
  refs = record {
    task = arg_str args (codes "task");
    artifact = [];
    context_key = arg_str args (codes "context_key");
    branch = arg_str args (codes "branch");
    files = [];
  };
  in_reply_to = [];
  status = queued;
  delivered_at = [];
  acked_at = [];
  nudged_at = [];
}

abbrev pub same : Desk → Desk
same d = d

-- A call of the bus.
abbrev pub asked : {A : Type 0} → Sql IpcError Desk A → Sql IpcError Desk (Result IpcError A)
asked = answered same (λ t d. t)

abbrev pub after_send : Result IpcError Message → Tool
after_send (ok m) = pure (sent m.id m.to.is_human)
after_send _ = pure mail_error

-- aurium_ipc_send
unfoldable pub ipc_send : (Text → Text) → (id art now project : Text) → Powers.Caller → Args → Tool
unfolding send
ipc_send upper id art now project c args =
    if not (may c (codes "ipc:send"))
    then pure (lacks_scope (codes "ipc:send"))
    else (asked (send id art now (message_of upper project c args)) >>= after_send)

abbrev pub after_inbox : Result IpcError (List Message) → Tool
after_inbox (ok ms) = pure (inbox_of ms)
after_inbox _ = pure mail_error

-- aurium_ipc_inbox
unfoldable pub ipc_inbox : (Text → Option ℕ) → Text → Powers.Caller → Args → Tool
unfolding inbox
ipc_inbox scan now c args =
    asked (
      inbox now (record { agent_id = c.agent_id; container_id = c.container_id; is_human = false })
        (arg_int scan args (codes "limit") 20))
    >>= after_inbox

abbrev pub after_ack : Result IpcError ℕ → Tool
after_ack (ok n) = pure (acknowledged n)
after_ack _ = pure mail_error

-- aurium_ipc_ack, which does not read who calls.
unfoldable pub ipc_ack : Text → Args → Tool
unfolding ack
ipc_ack now args = asked (ack now (arg_strings args (codes "ids"))) >>= after_ack
