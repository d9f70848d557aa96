-- ===== src/Ipc/Table.antt =====
-- internal/ipc/ipc.go: messages, and the tables that they touch.
use aurium.Base.{
  Bool, true, false, Option, List, [], ◌∷◌, ◌++◌, Text, text_eq, find, map, if◌then◌else◌,
}
use aurium.Db.{ok, Sql, ignored, modify}

-- Message types; `other_type` is a text that is none.
pub data MessageType : Type 0 where
  request response information warning blocked approval_required artifact dependency conflict :
      MessageType
  other_type : Text → MessageType

-- Message statuses.
pub data Status : Type 0 where
  queued delivered acked : Status

unfoldable pub status_eq : Status → Status → Bool
status_eq queued queued = true
status_eq delivered delivered = true
status_eq acked acked = true
status_eq _ _ = false

-- Priorities; `unset` is the empty text.
pub data Priority : Type 0 where
  unset normal high : Priority
  other_priority : Text → Priority

-- `Addr`
pub record Addr : Type 0 where
  pub agent_id : Text
  pub container_id : Text
  pub is_human : Bool

-- `Refs`
pub record Refs : Type 0 where
  pub task : Text
  pub artifact : Text
  pub context_key : Text
  pub branch : Text
  pub files : List Text

-- `Message`, and the column `nudged_at` that only its row has.
pub record Message : Type 0 where
  pub id : Text
  pub ts : Text
  pub project_id : Text
  pub sender : Addr
  pub to : Addr
  pub type_ : MessageType
  pub priority : Priority
  pub content : Text
  pub refs : Refs
  pub in_reply_to : Text
  pub status : Status
  pub delivered_at : Text
  pub acked_at : Text
  pub nudged_at : Text

-- A row of `artifacts`.
pub record Artifact : Type 0 where
  pub id : Text
  pub container_id : Text
  pub task_id : Text
  pub kind : Text
  pub ref : Text
  pub meta : Text

-- A row of `dependencies`.
pub record Dependency : Type 0 where
  pub from_agent : Text
  pub to_agent : Text
  pub subject : Text

-- The events that the bus writes.
pub data Note : Type 0 where
  message_sent message_delivered message_acked : Text → Note

-- The tables, the events, and the nudges that were handed to the nudger. `agents` and `tasks` are ids
-- with a status; the bus sets none but "blocked".
pub record Desk : Type 0 where
  pub projects : List Text
  pub messages : List Message
  pub agents : List (Text × Text)
  pub tasks : List (Text × Text)
  pub artifacts : List Artifact
  pub dependencies : List Dependency
  pub notes : List Note
  pub nudges : List (Text × Text)

-- The errors of `Send`, `Inbox`, `History` and `Get`.
pub data IpcError : Type 0 where
  no_type no_content no_recipient no_priority not_found : IpcError

abbrev pub Action : Type 0 → Type 0
Action = Sql IpcError Desk

abbrev pub message_at : Text → List Message → Option Message
message_at id = find (λ (m : Message). text_eq id m.id)

-- An event that cannot be written is dropped.
abbrev pub note : Note → Action (Unit {0})
note n = ignored (modify (λ (d : Desk). record d { notes = d.notes ++ n ∷ [] }))

-- An UPDATE of the messages, row by row.
abbrev pub update : (Message → Message) → Action (Unit {0})
update f = modify (λ (d : Desk). record d { messages = map f d.messages })

-- `UPDATE messages SET nudged_at = ? WHERE id = ?`
abbrev pub nudge_row : Text → Text → Message → Message
nudge_row id now m = if text_eq id m.id then record m { nudged_at = now } else m

-- `Nudge`, whose error is dropped.
abbrev pub hand_over : Text → Text → Action (Unit {0})
hand_over container text d fs =
    (ok tt, record d { nudges = d.nudges ++ (container, text) ∷ [] }, fs)
