-- ===== src/Gateway/Registry.antt =====
-- internal/gateway/gateway.go: the integrations of a project and their capabilities.
--
-- The tables of the schema are lists in the order of their keys' insertion; an UPDATE keeps the
-- order. A description and a schema are texts.
pub mod Upserts
use aurium.Base.{
  ℕ, Bool, true, false, not, ◌&&◌, ◌||◌, Option, none, some, List, [], ◌∷◌, ◌++◌, Text, codes,
  text_eq, any, find, select, map, sort_by, if◌then◌else◌,
}
use aurium.Ids.Order.{text_lt}
use aurium.Db.{Result, ok, failed, err, Faults, Sql, pure, ◌>>=◌, ◌>>◌, query, modify, statement}
use aurium.Gateway.Risk.{Risk, low, medium, high, classify_risk}

-- `integration`, a row of `integrations`; it keeps its project.
pub record Integration : Type 0 where
  pub id : Text
  pub project_id : Text
  pub name : Text
  pub kind : Text
  pub status : Text

-- `Capability`, a row of `capabilities`.
pub record Capability : Type 0 where
  pub integration_id : Text
  pub name : Text
  pub description : Text
  pub input_schema : Text
  pub risk : Risk
  pub removed : Bool

-- `mcp.Tool`
pub record Tool : Type 0 where
  pub name : Text
  pub description : Text
  pub input_schema : Text

pub record Registry : Type 0 where
  pub integrations : List Integration
  pub capabilities : List Capability

abbrev pub Action : Type 0 → Type 0
Action = Sql Text Registry

-- The key of `capabilities`.
abbrev pub is_key : Text → Text → Capability → Bool
is_key integration name c = text_eq c.integration_id integration && text_eq c.name name

-- The texts that the table's CHECK allows as a risk.
unfoldable pub risk_named : Text → Option Risk
risk_named t =
    if text_eq t (codes "low")
    then some low
    else if text_eq t (codes "medium")
    then some medium
    else if text_eq t (codes "high")
    then some high
    else none

abbrev pub override_of : Text → List (Text × Text) → Option Text
override_of name [] = none
override_of name ((n, r) ∷ rest) = if text_eq name n then some r else override_of name rest

-- An override, or the risk that the name suggests.
abbrev pub risk_from : Option Text → Text → Option Risk
risk_from none name = some (classify_risk name)
risk_from (some r) name = risk_named r

abbrev pub risk_for : List (Text × Text) → Text → Option Risk
risk_for overrides name = risk_from (override_of name overrides) name

abbrev pub capability_of : Text → Tool → Risk → Capability
capability_of integration t r = record {
  integration_id = integration;
  name = t.name;
  description = t.description;
  input_schema = t.input_schema;
  risk = r;
  removed = false;
}

-- `INSERT … ON CONFLICT(integration_id, name) DO UPDATE`
unfoldable pub upsert : Capability → List Capability → List Capability
upsert c [] = c ∷ []
upsert c (x ∷ xs) =
    let rest = upsert c xs in if is_key c.integration_id c.name x then c ∷ xs else x ∷ rest

-- The statement; a risk that the CHECK refuses is none, and an integration is a row.
abbrev pub insert_capability :
    Text → Tool → Option Risk → Registry → Result Text Capability × Registry
insert_capability integration t none d = (failed, d)
insert_capability integration t (some r) d =
    let c = capability_of integration t r in
    if any (λ (i : Integration). text_eq integration i.id) d.integrations
    then (ok c, record d { capabilities = upsert c d.capabilities })
    else (failed, d)

abbrev pub mark_removed : Text → Capability → Capability
mark_removed integration c =
    if text_eq c.integration_id integration then record c { removed = true } else c

unfoldable pub register_each : Text → List (Text × Text) → List Tool → Action (List Capability)
unfolding upsert risk_named
register_each integration overrides [] = pure []
register_each integration overrides (t ∷ ts) = do
  c ← statement (insert_capability integration t (risk_for overrides t.name))
  cs ← register_each integration overrides ts
  pure (c ∷ cs)

-- `RegisterCapabilities`
unfoldable pub register_capabilities :
    Text → List Tool → List (Text × Text) → Action (List Capability)
unfolding register_each
register_capabilities integration tools overrides =
    modify
      (λ (d : Registry). record d { capabilities = map (mark_removed integration) d.capabilities })
    >> register_each integration overrides tools

-- The rows of `ListCapabilities`.
abbrev pub is_of : Text → Capability → Bool
is_of integration c = text_eq c.integration_id integration

unfoldable pub capabilities_of : Text → Registry → List Capability
unfolding text_lt
capabilities_of integration d =
    sort_by (λ (x : Capability) y. text_lt x.name y.name)
      (select (is_of integration) d.capabilities)

-- `ListCapabilities`
abbrev pub list_capabilities : Text → Action (List Capability)
list_capabilities integration = query (capabilities_of integration)

-- The rows of `listIntegrations`.
unfoldable pub integrations_of : Text → Registry → List Integration
unfolding text_lt
integrations_of project d =
    sort_by (λ (x : Integration) y. text_lt x.name y.name)
      (select (λ (i : Integration). text_eq i.project_id project) d.integrations)

-- `listIntegrations`
abbrev pub list_integrations : Text → Action (List Integration)
list_integrations project = query (integrations_of project)

-- The row of `integrationByName`; a name is unique in a project.
abbrev pub named : Text → Text → Registry → Option Integration
named project name d =
    find (λ (i : Integration). text_eq i.project_id project && text_eq i.name name) d.integrations
