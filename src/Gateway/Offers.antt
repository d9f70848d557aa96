-- ===== src/Gateway/Offers.antt =====
-- internal/gateway/gateway.go: the tools that a caller sees.
--
-- The native tools are a parameter. Tools of one name keep the order of the list.
pub mod Listed
use aurium.Base.{
  ℕ, Bool, true, false, not, ◌&&◌, ◌||◌, Option, none, some, List, [], ◌∷◌, ◌++◌, Text, codes,
  text_eq, is_empty, any, find, select, map, sort_by, ◌==◌, if◌then◌else◌,
}
use aurium.Ids.Order.{text_lt}
use aurium.Db.{
  Result, ok, failed, err, Faults, Sql, pure, ◌>>=◌, ◌>>◌, query, modify, statement, ignored,
  inside, or_failed, value,
}
use aurium.Gateway.Grants.{Mode, allow, deny, approve, Subject, Grants, resolve}
use aurium.Gateway.Approvals.{Gate, Approval, Message, underscore, request_approval}
use aurium.Gateway.Registry.{
  Integration, Capability, Tool, Registry, integrations_of, capabilities_of, list_integrations,
  list_capabilities, named,
}
use aurium.Gateway.Hub.{Caller, Audit, Hub, Step, on_registry, on_grants}

abbrev pub tool_name : Integration → Capability → Text
tool_name i c = i.name ++ underscore ∷ c.name

abbrev pub described : Mode → Text → Text
described approve d =
    d
    ++ codes
        "\n\n(This action requires human approval. The call returns immediately with a pending status; the result arrives later as a message.)"
described _ d = d

abbrev pub tool_of : Integration → Capability → Mode → Tool
tool_of i c m = record {
  name = tool_name i c;
  description = described m c.description;
  input_schema = c.input_schema;
}

-- A denied tool is left out.
abbrev pub offer : Integration → Capability → Mode → List Tool → List Tool
offer i c deny ts = ts
offer i c m ts = tool_of i c m ∷ ts

abbrev pub is_earlier : Tool → Tool → Bool
is_earlier x y = text_lt x.name y.name

module _ {W M : Type 0} where
  -- The loop of `ToolsFor` over the capabilities of an integration.
  unfoldable pub offers : Subject → Integration → List Capability → Step W M (List Tool)
  unfolding resolve
  offers s i [] = pure []
  offers s i (c ∷ cs) =
      let later = offers s i cs in
      if c.removed
      then later
      else (on_grants (resolve s i.id c.name) >>= or_failed)
        >>= (λ m. later >>= λ ts. pure (offer i c m ts))

  -- The loop of `ToolsFor` over the integrations.
  unfoldable pub offers_all : Subject → List Integration → Step W M (List Tool)
  unfolding offers capabilities_of
  offers_all s [] = pure []
  offers_all s (i ∷ is) = do
    caps ← on_registry (list_capabilities i.id) >>= or_failed
    ts ← offers s i caps
    rest ← offers_all s is
    pure (ts ++ rest)

  -- `ToolsFor`
  unfoldable pub tools_for : (Caller → List Tool) → Caller → Step W M (List Tool)
  unfolding offers_all integrations_of text_lt
  tools_for native c = do
    is ← on_registry (list_integrations c.subject.project_id) >>= or_failed
    ts ← offers_all c.subject is
    pure (sort_by is_earlier (native c ++ ts))
