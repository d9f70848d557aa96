-- ===== src/Gateway/Approvals.antt =====
-- internal/gateway/approvals.go: calls that are held for a human.
--
-- The upstreams and the mail are outside this file. `call` is CallTool of an upstream, its state
-- `W`, with whether it succeeds and the text of its result or of its error; `send` is IPC.Send, its state `M`. Both, the bus and the database are taken as connected.
-- Events are kept in `notes`: an event that cannot be written is left out, as `_ =` does.
-- ListApprovals is not modelled. `decide` is a run with nothing of another Decide in between: the
-- source has no transaction there.
pub mod Once
use aurium.Base.{
  ℕ, Bool, true, false, not, ◌&&◌, Option, none, some, List, [], ◌∷◌, ◌++◌, Text, codes, text_eq,
  is_empty, any, select, find, map, length, ◌==◌, if◌then◌else◌,
}
use aurium.Db.{
  ignored, Result, ok, failed, err, Faults, Sql, pure, raise, ◌>>=◌, ◌>>◌, query, statement, modify,
}
use aurium.Ids.Order.{text_lt}

-- Approval statuses.
pub data Status : Type 0 where
  pending approved rejected expired : Status

unfoldable pub status_eq : Status → Status → Bool
status_eq pending pending = true
status_eq approved approved = true
status_eq rejected rejected = true
status_eq expired expired = true
status_eq _ _ = false

-- `Approval`; a row of `approvals`, which has no project.
pub record Approval : Type 0 where
  pub id : Text
  pub project_id : Text
  pub container_id : Text
  pub agent_id : Text
  pub integration_id : Text
  pub capability : Text
  pub args_json : Text
  pub reason : Text
  pub status : Status
  pub decided_by : Text
  pub created_at : Text
  pub decided_at : Text
  pub expires_at : Text

-- `Caller`, as far as a request reads it.
pub record Caller : Type 0 where
  pub project_id : Text
  pub container_id : Text
  pub agent_id : Text
  pub is_human : Bool

-- `ipc.Message`, as far as this file fills it.
pub record Message : Type 0 where
  pub project_id : Text
  pub from_human : Bool
  pub from_agent : Text
  pub from_container : Text
  pub to_human : Bool
  pub to_agent : Text
  pub to_container : Text
  pub is_request : Bool
  pub is_urgent : Bool
  pub content : Text

pub data NoteType : Type 0 where
  approval_requested approval_decided approval_expired integration_call : NoteType

-- What the approvals work on. `containers` are ids and their projects.
pub record Gate (W M : Type 0) : Type 0 where
  pub approvals : List Approval
  pub containers : List (Text × Text)
  pub upstreams : List Text
  pub notes : List (NoteType × Text)
  pub world : W
  pub mail : M

pub data ApprovalError : Type 0 where
  not_found no_action not_a_decision : ApprovalError
  already : Status → ApprovalError
  not_told : Text → ApprovalError

abbrev pub underscore : ℕ
underscore = b'_'

-- `cut`, at "_", as far as `executeApproved` reads it: what stands behind the first one.
unfoldable pub after_underscore : Text → Text
after_underscore [] = []
after_underscore (c ∷ s) = let rest = after_underscore s in if c == underscore then s else rest

-- `describeCaller`
unfoldable pub describe_caller : Caller → Text
describe_caller c =
    if not (is_empty c.agent_id)
    then codes "Agent " ++ c.agent_id
    else if not (is_empty c.container_id)
    then codes "Container " ++ c.container_id
    else codes "An agent"

abbrev pub approval_at : Text → List Approval → Option Approval
approval_at id = find (λ (a : Approval). text_eq id a.id)

abbrev pub project_in : Text → List (Text × Text) → Text
project_in id [] = []
project_in id ((c, p) ∷ cs) = if text_eq id c then p else project_in id cs

-- The UPDATE of `Decide`, and that of `ExpireStale`.
abbrev pub settle_row : Text → Status → Text → Text → Approval → Approval
settle_row id d by now a =
    if text_eq id a.id then record a { status = d; decided_by = by; decided_at = now } else a

abbrev pub expire_row : Text → Approval → Approval
expire_row id a = if text_eq id a.id then record a { status = expired } else a

abbrev pub request_message : Caller → Text → Message
request_message c content = record {
  project_id = c.project_id;
  from_human = false;
  from_agent = c.agent_id;
  from_container = c.container_id;
  to_human = true;
  to_agent = [];
  to_container = [];
  is_request = true;
  is_urgent = true;
  content = content;
}

abbrev pub verb : Status → Text
verb approved = codes " was approved by "
verb _ = codes " was rejected by "

abbrev pub is_overdue : Text → Approval → Bool
is_overdue now a = status_eq a.status pending && text_lt a.expires_at now

-- What `RequestApproval` tells the human, and the row that it makes.
unfoldable pub held_content : Text → Caller → Text → Text → Text
unfolding describe_caller
held_content id c name capability =
    describe_caller c
    ++ codes " wants to call "
    ++ name
    ++ codes "_"
    ++ capability
    ++ codes ". Approve with `aurium approve "
    ++ id
    ++ codes "`."

abbrev pub held_call :
    (id now expires : Text) → Caller → (integration name capability args : Text) → Approval
held_call id now expires c integration name capability args = record {
  id = id;
  project_id = c.project_id;
  container_id = c.container_id;
  agent_id = c.agent_id;
  integration_id = integration;
  capability = name ++ codes "_" ++ capability;
  args_json = args;
  reason = [];
  status = pending;
  decided_by = [];
  created_at = now;
  decided_at = [];
  expires_at = expires;
}

module _ {W M : Type 0} where
  -- `insertApproval`; an id is a primary key. The row has no project.
  abbrev pub insert_row : Approval → Gate W M → Result ApprovalError (Unit {0}) × Gate W M
  insert_row a g =
      if any (λ (b : Approval). text_eq a.id b.id) g.approvals
      then (failed, g)
      else (ok tt, record g { approvals = g.approvals ++ record a { project_id = [] } ∷ [] })

  abbrev pub insert_approval : Approval → Sql ApprovalError (Gate W M) (Unit {0})
  insert_approval a = statement (insert_row a)

  -- An event about an approval.
  abbrev pub note : NoteType → Text → Sql ApprovalError (Gate W M) (Unit {0})
  note t id = ignored (modify (λ (g : Gate W M). record g { notes = g.notes ++ (t, id) ∷ [] }))

  abbrev pub found_row : Option Approval → Sql ApprovalError (Gate W M) Approval
  found_row none = raise not_found
  found_row (some a) = pure a

  -- `GetApproval`
  abbrev pub get_approval : Text → Sql ApprovalError (Gate W M) Approval
  get_approval id = query (λ (g : Gate W M). approval_at id g.approvals) >>= found_row

  -- The lookup of `projectOf`: any error of GetContainer leaves the project empty.
  abbrev pub or_none :
      Result ApprovalError Text × Gate W M × Faults → Result ApprovalError Text × Gate W M × Faults
  or_none (ok p, g, fs) = (ok p, g, fs)
  or_none (failed, g, fs) = (ok [], g, fs)
  or_none (err e, g, fs) = (ok [], g, fs)

  abbrev pub look_up_project : Text → Sql ApprovalError (Gate W M) Text
  look_up_project id g fs = or_none (query (λ (g : Gate W M). project_in id g.containers) g fs)

  -- `projectOf`
  unfoldable pub project_of : Approval → Sql ApprovalError (Gate W M) Text
  project_of a =
      if not (is_empty a.project_id)
      then pure a.project_id
      else if not (is_empty a.container_id)
      then look_up_project a.container_id
      else pure []

  abbrev pub update_row : Text → Status → Text → Text → Sql ApprovalError (Gate W M) (Unit {0})
  update_row id d by now =
      modify (λ (g : Gate W M). record g { approvals = map (settle_row id d by now) g.approvals })

  module _ (call : Text → Text → Text → W → (Bool × Text) × W)
      (send : Message → M → Option Text × M) where
    -- IPC.Send; the text is that of its error.
    abbrev pub sends : Message → Gate W M → Option Text × Gate W M
    sends m g = let (r, mail) = send m g.mail in (r, record g { mail = mail })

    abbrev pub told :
        {A : Type 0}
        → A
        → Text
        → Option Text × Gate W M
        → Faults
        → Result ApprovalError A × Gate W M × Faults
    told a id (none, g) fs = (ok a, g, fs)
    told a id (some e, g) fs = (err (not_told id), g, fs)

    abbrev pub tell : {A : Type 0} → A → Text → Message → Sql ApprovalError (Gate W M) A
    tell a id m g fs = told a id (sends m g) fs

    -- What `RequestApproval` and `RequestManualApproval` do with the row they have made.
    abbrev pub hold_row : Caller → Text → Approval → Sql ApprovalError (Gate W M) Approval
    hold_row c content a = do
      insert_approval a
      note approval_requested a.id
      tell a a.id (request_message c content)

    -- `RequestApproval`, with the new id, the clock, and the clock half an hour on.
    unfoldable pub request_approval :
        Text
        → Text
        → Text
        → Caller
        → Text
        → Text
        → Text
        → Text
        → Sql ApprovalError (Gate W M) Approval
    unfolding held_content
    request_approval id now expires c integration name capability args =
        hold_row c (held_content id c name capability)
          (held_call id now expires c integration name capability args)

    -- `RequestManualApproval`
    unfoldable pub request_manual_approval :
        Text → Text → Text → Caller → Text → Text → Sql ApprovalError (Gate W M) Approval
    unfolding describe_caller
    request_manual_approval id now expires c action reason =
        if is_empty action
        then raise no_action
        else hold_row c
            (describe_caller c
              ++ codes " asks to: "
              ++ action
              ++ codes "\nWhy: "
              ++ reason
              ++ codes "\nApprove with `aurium approve "
              ++ id
              ++ codes "`.")
            (record {
              id = id;
              project_id = c.project_id;
              container_id = c.container_id;
              agent_id = c.agent_id;
              integration_id = [];
              capability = codes "manual:" ++ action;
              args_json = codes "{}";
              reason = reason;
              status = pending;
              decided_by = [];
              created_at = now;
              decided_at = [];
              expires_at = expires;
            })

    abbrev pub calls : Text → Text → Text → Gate W M → (Bool × Text) × Gate W M
    calls integration capability args g =
        let (r, world) = call integration capability args g.world in (r, record g { world = world })

    -- What becomes of the message when the call has been made: `Result:` or its failure.
    abbrev pub after_call :
        Text → (Bool × Text) × Gate W M → Faults → Result ApprovalError Text × Gate W M × Faults
    after_call id ((false, e), g) fs = (ok (codes "\nThe call then failed: " ++ e), g, fs)
    after_call id ((true, r), g) fs =
        (note integration_call id >> pure (codes "\nResult:\n" ++ r)) g fs

    -- `executeApproved`, and what `Decide` adds to its message.
    unfoldable pub execute_approved : Approval → Sql ApprovalError (Gate W M) Text
    unfolding after_underscore
    execute_approved a g fs =
        if any (text_eq a.integration_id) g.upstreams
        then after_call a.id (calls a.integration_id (after_underscore a.capability) a.args_json g)
            fs
        else (ok (codes "\nThe call then failed: integration is no longer connected"), g, fs)

    abbrev pub execution : Status → Approval → Sql ApprovalError (Gate W M) Text
    execution approved a = if is_empty a.integration_id then pure [] else execute_approved a
    execution _ a = pure []

    -- `notify`: the end of `Decide`, where the agent is told.
    abbrev pub notify : Approval → Text → Sql ApprovalError (Gate W M) Approval
    notify a outcome =
        if is_empty a.agent_id
        then pure a
        else (project_of a >>= λ project. tell a a.id (record {
          project_id = project;
          from_human = true;
          from_agent = [];
          from_container = [];
          to_human = false;
          to_agent = a.agent_id;
          to_container = a.container_id;
          is_request = false;
          is_urgent = true;
          content = outcome;
        }))

    -- What `Decide` does with a held call and a decision that it knows.
    abbrev pub carry_out : Text → Status → Text → Approval → Sql ApprovalError (Gate W M) Approval
    carry_out now d by a = do
      update_row a.id d by now
      let ap : Approval = record a { status = d; decided_by = by; decided_at = now }
      note approval_decided ap.id
      result ← execution d ap
      notify ap (
          codes "Your request "
          ++ ap.id
          ++ codes " ("
          ++ ap.capability
          ++ codes ")"
          ++ verb d
          ++ by
          ++ codes "."
          ++ result)

    abbrev pub by_decision : Text → Text → Text → Approval → Sql ApprovalError (Gate W M) Approval
    by_decision now decision by a =
        if text_eq decision (codes "approved")
        then carry_out now approved by a
        else if text_eq decision (codes "rejected")
        then carry_out now rejected by a
        else raise not_a_decision

    abbrev pub check_pending : Text → Text → Text → Approval → Sql ApprovalError (Gate W M) Approval
    check_pending now decision by a =
        if status_eq a.status pending
        then by_decision now decision by a
        else raise (already a.status)

    -- `Decide`, with the clock.
    unfoldable pub decide : Text → Text → Text → Text → Sql ApprovalError (Gate W M) Approval
    unfolding execute_approved project_of
    decide now id decision by = get_approval id >>= check_pending now decision by

    -- What `ExpireStale` tells the agent.
    abbrev pub notify_expired : Approval → Sql ApprovalError (Gate W M) (Unit {0})
    notify_expired a =
        if is_empty a.agent_id
        then pure tt
        else (project_of (record a { project_id = [] }) >>= λ project. ignored (
            tell tt a.id (record {
              project_id = project;
              from_human = false;
              from_agent = [];
              from_container = [];
              to_human = false;
              to_agent = a.agent_id;
              to_container = a.container_id;
              is_request = false;
              is_urgent = false;
              content =
                  codes "Your request "
                  ++ a.id
                  ++ codes " ("
                  ++ a.capability
                  ++ codes ") expired without a decision. Ask again if you still need it.";
            })))

    unfoldable pub expire_each : List Approval → Sql ApprovalError (Gate W M) (Unit {0})
    unfolding project_of
    expire_each [] = pure tt
    expire_each (a ∷ todo) = do
      modify (λ (g : Gate W M). record g { approvals = map (expire_row a.id) g.approvals })
      note approval_expired a.id
      notify_expired a
      expire_each todo

    -- `ExpireStale`, with the clock: how many were overdue.
    unfoldable pub expire_stale : Text → Sql ApprovalError (Gate W M) ℕ
    unfolding expire_each text_lt
    expire_stale now = do
      todo ← query (λ (g : Gate W M). select (is_overdue now) g.approvals)
      expire_each todo
      pure (length todo)
