-- ===== src/Gateway/Calls.antt =====
-- internal/gateway/gateway.go: the calls that go through the gateway.
--
-- An upstream, the mail, the digest of the arguments and the native tools are parameters. An
-- audit event that cannot be written is dropped.
pub mod Verdicts
pub mod Hidden
pub mod Names
use aurium.Base.{
  ℕ, Bool, true, false, not, ◌&&◌, ◌||◌, Option, none, some, List, [], ◌∷◌, ◌++◌, Text, codes,
  text_eq, is_empty, any, find, select, map, sort_by, ◌==◌, if◌then◌else◌,
}
use aurium.Ids.Order.{text_lt}
use aurium.Db.{
  Result, ok, failed, err, Faults, Sql, pure, ◌>>=◌, ◌>>◌, query, modify, statement, ignored,
  inside, or_failed, value,
}
use aurium.Gateway.Grants.{Mode, allow, deny, approve, Subject, Grants, resolve}
use aurium.Gateway.Approvals.{Gate, Approval, Message, underscore, request_approval}
use aurium.Gateway.Registry.{
  Integration, Capability, Tool, Registry, integrations_of, capabilities_of, list_integrations,
  list_capabilities, named,
}
use aurium.Gateway.Hub.{Caller, Audit, Hub, Step, on_registry, on_grants}

-- `mcp.ToolResult` and `mcp.Error`. The two errors are CodeMethodNotFound and CodeInternalError; a
-- result is a text, an error result a text too.
pub data Answer : Type 0 where
  unknown_tool : Text → Answer
  internal_error : Answer
  pending_approval : (id expires : Text) → Answer
  not_connected : Text → Answer
  tool_failed : (capability reason : Text) → Answer
  tool_result : Text → Answer
  native_result : Text → Answer

-- `strings.Cut` at "_".
unfoldable pub cut : Text → Option (Text × Text)
cut [] = none
cut (c ∷ s) =
    let rest = cut s in
    if c == underscore
    then some ([], s)
    else elim rest [ none ↦ none | some p ↦ some (c ∷ p.0, p.1) ]

-- `strings.HasPrefix`
unfoldable pub has_prefix : Text → Text → Bool
has_prefix [] s = true
has_prefix (c ∷ p) [] = false
has_prefix (c ∷ p) (d ∷ s) = (c == d) && has_prefix p s

-- `hashArgs`, over the digest.
abbrev pub hash_args : (Text → Text) → Text → Text
hash_args digest args = if is_empty args then [] else digest args

abbrev pub approvals_caller : Caller → aurium.Gateway.Approvals.Caller
approvals_caller c = record {
  project_id = c.subject.project_id;
  container_id = c.subject.container_id;
  agent_id = c.subject.agent_id;
  is_human = c.is_human;
}

module _ {W M : Type 0} where
  module _ (call : Text → Text → Text → W → (Bool × Text) × W)
      (send : Message → M → Option Text × M) (digest : Text → Text)
      (native : Caller → Text → Text → Step W M Answer) where
    abbrev pub on_gate : {E A : Type 0} → Sql E (Gate W M) A → Step W M (Option A)
    on_gate = inside (λ (h : Hub W M). h.gate) (λ g h. record h { gate = g })

    abbrev pub answer_of : Text → Bool × Text → Answer
    answer_of capability (true, text) = tool_result text
    answer_of capability (false, reason) = tool_failed capability reason

    -- CallTool of the upstream, the event, and the answer.
    abbrev pub run_call : Caller → Integration → Text → Text → Step W M Answer
    run_call c i capability args h fs =
        let (r, w) = call i.id capability args h.gate.world in
        let audit : Audit = record {
          actor = c;
          integration = i.name;
          capability = capability;
          args_hash = hash_args digest args;
          is_ok = r.0;
        } in
        (ignored (modify (λ (h : Hub W M). record h { audits = h.audits ++ audit ∷ [] }))
            >> pure (answer_of capability r))
          (record h { gate = record h.gate { world = w } }) fs

    -- `execute`
    abbrev pub execute : Caller → Integration → Text → Text → Step W M Answer
    execute c i capability args h fs =
        if any (text_eq i.id) h.gate.upstreams
        then run_call c i capability args h fs
        else (ok (not_connected i.name), h, fs)

    abbrev pub held : Option Approval → Step W M Answer
    held none = pure internal_error
    held (some a) = pure (pending_approval a.id a.expires_at)

    abbrev pub by_mode :
        (id now expires : Text)
        → Caller
        → Text
        → Integration
        → Text
        → Text
        → Option Mode
        → Step W M Answer
    by_mode id now expires c name i capability args none = pure internal_error
    by_mode id now expires c name i capability args (some deny) = pure (unknown_tool name)
    by_mode id now expires c name i capability args (some approve) =
        on_gate (
          request_approval call send id now expires (approvals_caller c) i.id i.name capability
            args)
        >>= held
    by_mode id now expires c name i capability args (some allow) = execute c i capability args

    -- An integration that cannot be read is as one that is not there.
    abbrev pub by_integration :
        (id now expires : Text)
        → Caller
        → Text
        → Text
        → Text
        → Option (Option Integration)
        → Step W M Answer
    by_integration id now expires c name capability args none = pure (unknown_tool name)
    by_integration id now expires c name capability args (some none) = pure (unknown_tool name)
    by_integration id now expires c name capability args (some (some i)) =
        on_grants (resolve c.subject i.id capability)
        >>= by_mode id now expires c name i capability args

    abbrev pub by_parts :
        (id now expires : Text) → Caller → Text → Text → Option (Text × Text) → Step W M Answer
    by_parts id now expires c name args none = pure (unknown_tool name)
    by_parts id now expires c name args (some (i, capability)) =
        on_registry (query (named c.subject.project_id i))
        >>= by_integration id now expires c name capability args

    -- `CallTool`, with what `RequestApproval` draws: the new id, the clock, and the clock half an hour on.
    unfoldable pub call_tool : (id now expires : Text) → Caller → Text → Text → Step W M Answer
    unfolding cut has_prefix request_approval resolve
    call_tool id now expires c name args =
        if has_prefix (codes "aurium_") name
        then native c name args
        else by_parts id now expires c name args (cut name)
