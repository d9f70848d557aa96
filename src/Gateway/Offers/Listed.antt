-- ===== src/Gateway/Offers/Listed.antt =====
-- The list of tools against a description with no loop and no database.
use aurium.Base.{
  ◌≡◌, ap, Bool, not, ◌&&◌, List, [], ◌∷◌, ◌++◌, Text, text_eq, codes, map, select, sort_by,
}
use aurium.Db.{Result, ok, failed, err, Faults, ◌>>=◌, or_failed, value}
use aurium.Db.Rules.{Post}
use aurium.Gateway.Grants.{Mode, allow, deny, approve, Subject, Grants, levels, resolve}
use aurium.Gateway.Grants.Strictest.{is_mode, verdict, Resolved, resolve-verdict}
use aurium.Gateway.Registry.{Integration, Capability, Tool, Registry}
use aurium.Gateway.Hub.{Hub, on_grants}
use aurium.Ids.Order.{text_lt}

abbrev pub mode_for : Grants → Subject → Integration → Capability → Mode
mode_for gs s i c = verdict i.id c.name gs (levels s)

-- A capability that is still there and not denied.
abbrev pub is_shown : Grants → Subject → Integration → Capability → Bool
is_shown gs s i c = not c.removed && not (is_mode deny (mode_for gs s i c))

-- What an agent reads of a tool: a call that a human has to approve says so.
abbrev pub shown_text : Mode → Text → Text
shown_text allow d = d
shown_text deny d = d
shown_text approve d =
    d
    ++ codes
        "\n\n(This action requires human approval. The call returns immediately with a pending status; the result arrives later as a message.)"

abbrev pub shown_tool : Integration → Capability → Mode → Tool
shown_tool i c m = record {
  name = i.name ++ (codes "_" ++ c.name);
  description = shown_text m c.description;
  input_schema = c.input_schema;
}

abbrev pub shown : Grants → Subject → Integration → List Capability → List Tool
shown gs s i cs = map (λ c. shown_tool i c (mode_for gs s i c)) (select (is_shown gs s i) cs)

-- The integrations of a project and the capabilities of an integration, each in the order of names.
abbrev pub of_project : Text → Registry → List Integration
of_project project d =
    sort_by (λ (x : Integration) y. text_lt x.name y.name)
      (select (λ (i : Integration). text_eq i.project_id project) d.integrations)

abbrev pub of_integration : Text → Registry → List Capability
of_integration integration d =
    sort_by (λ (x : Capability) y. text_lt x.name y.name)
      (select (λ (c : Capability). text_eq c.integration_id integration) d.capabilities)

abbrev pub shown_all : Grants → Subject → Registry → List Integration → List Tool
shown_all gs s d [] = []
shown_all gs s d (i ∷ is) = shown gs s i (of_integration i.id d) ++ shown_all gs s d is

module _ {W M : Type 0} (h : Hub W M) where
  -- A run that gives this, and leaves everything alone; or that fails, and leaves everything alone.
  abbrev pub Gives : {A : Type 0} → A → Result Text A × Hub W M × Faults → Type 0
  Gives a = Post (λ b t. (b ≡ a) × (t ≡ h)) (λ _ _. ⊥) (λ t. t ≡ h)

  mode_of-Gives :
      (m : Mode) (o : Result Text Mode × Grants × Faults)
      → Resolved m h.grants o
      → Gives m (or_failed (value o.0) (record h { grants = o.1 }) o.2)
  mode_of-Gives m (ok x, g, fs) r = (r.0, ap (λ gs. record h { grants = gs }) r.1)
  mode_of-Gives m (failed, g, fs) r = ap (λ gs. record h { grants = gs }) r
  mode_of-Gives m (err e, g, fs) r = elim r [ ]

  pub resolve-Gives :
      (s : Subject) (i c : Text) (fs : Faults)
      → Gives (verdict i c h.grants (levels s)) ((on_grants (resolve s i c) >>= or_failed) h fs)
  resolve-Gives s i c fs =
      mode_of-Gives (verdict i c h.grants (levels s)) (resolve s i c h.grants fs)
        (resolve-verdict s i c h.grants fs)
