-- ===== src/Gateway/Grants.antt =====
-- internal/gateway/grants.go: which mode a subject has for a capability.
pub mod Strictest
use aurium.Base.{
  ℕ, ◌+◌, map, Bool, true, false, not, ◌&&◌, ◌||◌, Option, none, some, List, [], ◌∷◌, ◌++◌, Text,
  codes, text_eq, is_empty, any, select, if◌then◌else◌,
}
use aurium.Db.{Result, ok, failed, Faults, Sql, pure, raise, ◌>>=◌, ◌>>◌, query, statement}
use aurium.Glob.{path_match, is_match}
use aurium.Gateway.Risk.{Risk, low, medium, high}

-- `Mode`; the table's CHECK allows no other.
pub data Mode : Type 0 where
  allow deny approve : Mode

-- The types of subject that the table's CHECK allows.
pub data Level : Type 0 where
  agent role container project : Level

unfoldable pub level_eq : Level → Level → Bool
level_eq agent agent = true
level_eq role role = true
level_eq container container = true
level_eq project project = true
level_eq _ _ = false

-- `Subject`
pub record Subject : Type 0 where
  pub agent_id : Text
  pub role : Text
  pub container_id : Text
  pub project_id : Text

-- `Grant`, a row of `grants`. Rows stand in the order of their ids.
pub record Grant : Type 0 where
  pub id : Text
  pub integration_id : Text
  pub capability_glob : Text
  pub subject_type : Level
  pub subject_id : Text
  pub mode : Mode
  pub created_by : Text
  pub created_at : Text

-- `Capability`, as far as seeding reads it.
pub record Capability : Type 0 where
  pub name : Text
  pub risk : Risk

abbrev pub Grants : Type 0
Grants = List Grant

-- `AddGrant`: fields that are left empty are filled in, and the row is inserted, with its id new.
-- The id that `ids.New` would give and the clock are arguments; a mode is one of the three.
abbrev pub or_default : Text → Text → Text
or_default [] d = d
or_default (c ∷ s) d = c ∷ s

abbrev pub insert_grant : Grant → Grants → Result Text (Unit {0}) × Grants
insert_grant g gs = if any (λ h. text_eq g.id h.id) gs then (failed, gs) else (ok tt, gs ++ g ∷ [])

unfoldable pub add_grant : Text → Text → Grant → Sql Text Grants Grant
add_grant fresh now g = do
  let row : Grant = record g {
    id = or_default g.id fresh;
    created_at = or_default g.created_at now;
    created_by = or_default g.created_by (codes "human");
  }
  statement (insert_grant row)
  pure row

-- `matchCapability`
unfoldable pub match_capability : Text → Text → Bool
unfolding path_match
match_capability glob capability =
    if text_eq glob (codes "*") || text_eq glob (codes "**")
    then true
    else is_match (path_match glob capability)

-- The SQL of `matchAtLevel`.
abbrev pub at_level : Text → Level → Text → Grant → Bool
at_level integration level subject g =
    text_eq g.integration_id integration
    && (level_eq g.subject_type level && text_eq g.subject_id subject)

-- An approve beside what was found: it takes the place of an allow.
abbrev pub stricter : Option (Mode × Text) → Text → Option (Mode × Text)
stricter none glob = some (approve, glob)
stricter (some (allow, _)) glob = some (approve, glob)
stricter (some (approve, g)) glob = some (approve, g)
stricter (some (deny, g)) glob = some (deny, g)

abbrev pub keep : Option (Mode × Text) → Text → Option (Mode × Text)
keep none glob = some (allow, glob)
keep (some b) glob = some b

-- The loop of `matchAtLevel`: the mode and the glob so far. A deny ends it.
unfoldable pub match_from : Text → Option (Mode × Text) → List Grant → Option (Mode × Text)
unfolding match_capability
match_from capability best [] = best
match_from capability best (g ∷ gs) = elim (match_capability g.capability_glob capability) [
  | false ↦ match_from capability best gs
  | true ↦ elim g.mode [
    | deny ↦ some (deny, g.capability_glob)
    | approve ↦ match_from capability (stricter best g.capability_glob) gs
    | allow ↦ match_from capability (keep best g.capability_glob) gs
  ]
]

abbrev pub found_or : Option (Mode × Text) → Sql Text Grants Mode → Sql Text Grants Mode
found_or none next = next
found_or (some (m, _)) next = pure m

-- `Resolve`: the first level that has a match decides; no match is a deny.
unfoldable pub resolve_levels : Text → Text → List (Level × Text) → Sql Text Grants Mode
unfolding match_from
resolve_levels integration capability [] = pure deny
resolve_levels integration capability ((level, subject) ∷ rest) =
    if is_empty subject then resolve_levels integration capability rest else do
      rows ← query (λ (gs : Grants). select (at_level integration level subject) gs)
      found_or (match_from capability none rows) (resolve_levels integration capability rest)

abbrev pub levels : Subject → List (Level × Text)
levels s =
    (agent, s.agent_id)
    ∷ (role, s.role)
    ∷ (container, s.container_id)
    ∷ (project, s.project_id)
    ∷ []

unfoldable pub resolve : Subject → Text → Text → Sql Text Grants Mode
unfolding resolve_levels
resolve s integration capability = resolve_levels integration capability (levels s)

-- The row that `RevokeForContainer` adds.
unfoldable pub revoke_for_container : Text → Text → Text → Text → Text → Sql Text Grants Grant
unfolding add_grant
revoke_for_container fresh now integration id by = add_grant fresh now (record {
  id = [];
  integration_id = integration;
  capability_glob = codes "*";
  subject_type = container;
  subject_id = id;
  mode = deny;
  created_by = by;
  created_at = [];
})

abbrev pub risk_eq : Risk → Risk → Bool
risk_eq low low = true
risk_eq medium medium = true
risk_eq high high = true
risk_eq _ _ = false

abbrev pub seed : Text → Level → Text → Mode → Capability → Grant
seed integration level subject m c = record {
  id = [];
  integration_id = integration;
  capability_glob = c.name;
  subject_type = level;
  subject_id = subject;
  mode = m;
  created_by = codes "aurium (default)";
  created_at = [];
}

abbrev pub project_mode : Capability → Mode
project_mode c = if risk_eq c.risk high then approve else allow

-- The rows that `SeedGrants` adds, in their order; "worker" is store.RoleWorker.
unfoldable pub seeds : Text → Text → List Capability → List Grant
seeds integration id cs =
    map (λ c. seed integration project id (project_mode c) c) cs
    ++ (map (seed integration role (codes "worker") approve)
          (select (λ (c : Capability). risk_eq c.risk medium) cs)
        ++ map (seed integration role (codes "worker") deny)
            (select (λ (c : Capability). risk_eq c.risk high) cs))

-- Rows added one by one, up to an error; `fresh` gives the id of each.
unfoldable pub add_all : (ℕ → Text) → Text → ℕ → List Grant → Sql Text Grants (Unit {0})
unfolding add_grant
add_all fresh now n [] = pure tt
add_all fresh now n (g ∷ gs) = add_grant (fresh n) now g >> add_all fresh now (n + 1) gs

-- `SeedGrants`
unfoldable pub seed_grants :
    (ℕ → Text) → Text → Text → Text → List Capability → Sql Text Grants (Unit {0})
unfolding add_all seeds
seed_grants fresh now integration id cs = add_all fresh now 0 (seeds integration id cs)
