-- ===== src/Context/Tests.antt =====
-- The context engine on concrete items.
use aurium.Base.{All, ◌≡◌, refl, true, false, some, [], ◌∷◌, codes, text_eq}
use aurium.Db.{ok, statement, tx}
use aurium.Db.Rules.{Post}
use aurium.Context.Store.{
  project, container, Ref, ref_eq, scope_eq, Item, markdown, Proposal, open_, Store, read, item_at,
  item_with,
}
use aurium.Context.Engine.{revision, write_item, append_item}
use aurium.Context.Engine.Cas.{
  holds, current, compare_and_set, extended, Sets, Refuses, write_item_rule, append_item_rule,
}
use aurium.Context.Engine.Rows.{IsUnique}
use aurium.Context.Engine.Total.{write_item_total}
use aurium.Context.Proposals.{accept, outcome, proposal_at, decide, list_proposals}
use aurium.Context.Proposals.Once.{Carries, Effect, decide_rule}
use aurium.Context.Proposals.Listing.{IsCurrent, Shows, list_proposals-IsCurrent}
use aurium.Context.Grants.{Subject, Access, resolve_perm}
use aurium.Context.Grants.Justified.{IsJustified, Answers, resolve_perm-IsJustified}

abbrev place : Ref
place = record { scope = project; scope_id = codes "p_1"; key = codes "decisions/jwt" }

abbrev stored : Item
stored = record {
  id = codes "ctx_1";
  ref = place;
  version = 3;
  content = codes "old";
  mime = markdown;
  updated_by = codes "human";
  updated_at = codes "t0";
}

abbrev proposal : Proposal
proposal = record {
  id = codes "prop_1";
  item_id = codes "ctx_1";
  base_version = 3;
  content = codes "new";
  author = codes "agent";
  reason = codes "why";
  status = open_;
  decided_by = [];
  created_at = codes "t1";
  decided_at = [];
}

abbrev shelf : Store
shelf = record { items = stored ∷ []; versions = []; proposals = proposal ∷ []; emitted = [] }

at_place : item_at place shelf.items ≡ some stored
unfolding ref_eq text_eq
at_place = refl

with_id : item_with (codes "ctx_1") shelf.items ≡ some stored
unfolding text_eq
with_id = refl

with_proposal : proposal_at (codes "prop_1") shelf.proposals ≡ some proposal
unfolding text_eq
with_proposal = refl

shelf_unique : IsUnique shelf.items
shelf_unique = (refl, refl, tt)

write_item_rule_example :
    Post
      (λ it t.
        (compare_and_set (holds place shelf) 3 (codes "new") ≡ some (some (it.version, it.content)))
        × Sets place
            (some (it.version, it.content))
            (revision place (codes "a") (codes "ctx_2") (codes "t2") it (codes "why"))
            shelf
            t)
      (λ e t.
        Refuses place (codes "a") (codes "ctx_2") (codes "t2") shelf shelf_unique 3 e × (t ≡ shelf))
      (λ t. t ≡ shelf)
      (write_item place
        (codes "a")
        (codes "ctx_2")
        (codes "t2")
        3
        (codes "new")
        (codes "why")
        shelf
        (false ∷ true ∷ []))
write_item_rule_example =
    write_item_rule place (codes "a") (codes "ctx_2") (codes "t2") shelf shelf_unique 3
      (codes "new") (codes "why") (false ∷ true ∷ [])

append_item_rule_example :
    Post
      (λ it t.
        (extended (holds place shelf) (codes "more") ≡ some (it.version, it.content))
        × Sets place
            (some (it.version, it.content))
            (revision place (codes "a") (codes "ctx_2") (codes "t2") it (codes "append"))
            shelf
            t)
      (λ _ _. ⊥)
      (λ t. t ≡ shelf)
      (append_item place (codes "a") (codes "ctx_2") (codes "t2") (codes "more") shelf [])
append_item_rule_example =
    append_item_rule place (codes "a") (codes "ctx_2") (codes "t2") shelf shelf_unique
      (codes "more") []

write_item_total_example :
    (it : Item) × ((write_item place
        (codes "a")
        (codes "ctx_2")
        (codes "t2")
        (current (holds place shelf))
        (codes "new")
        (codes "why")
        shelf
        []).0
      ≡ ok it)
unfolding ref_eq text_eq
write_item_total_example =
    write_item_total place (codes "a") (codes "ctx_2") (codes "t2") shelf (codes "new")
      (codes "why") refl

decide_rule_example :
    Post
      (λ q u.
        Carries
          (codes "prop_1")
          (codes "human")
          (codes "ctx_2")
          (codes "t2")
          shelf
          shelf_unique
          proposal
          stored
          with_proposal
          with_id
          accept
          u
        × (q.status ≡ outcome accept))
      (λ _ u.
        Effect
          (codes "prop_1")
          (codes "human")
          (codes "ctx_2")
          (codes "t2")
          shelf
          shelf_unique
          proposal
          stored
          with_proposal
          with_id
          u)
      (Effect
        (codes "prop_1")
        (codes "human")
        (codes "ctx_2")
        (codes "t2")
        shelf
        shelf_unique
        proposal
        stored
        with_proposal
        with_id)
      (decide (codes "prop_1") accept (codes "human") (codes "ctx_2") (codes "t2") shelf [])
decide_rule_example =
    decide_rule (codes "prop_1") (codes "human") (codes "ctx_2") (codes "t2") shelf shelf_unique
      proposal stored with_proposal with_id accept []

-- An open proposal on the current version is accepted.
decide_accepts :
    (decide (codes "prop_1") accept (codes "human") (codes "ctx_2") (codes "t2") shelf []).1.items
    ≡ record stored {
      version = 4;
      content = codes "new";
      updated_by = codes "agent";
      updated_at = codes "t2";
    }
      ∷ []
unfolding decide statement text_eq ref_eq write_item tx
decide_accepts = refl

abbrev worker : Subject
worker = record {
  agent_id = codes "a_1";
  role = codes "worker";
  container_id = codes "c_2";
  project_id = codes "p_1";
  is_human = false;
}

-- c_2 stands on c_1; no grant is stored.
abbrev stacked : Access
stacked = record { grants = []; containers = (codes "c_1", []) ∷ (codes "c_2", codes "c_1") ∷ [] }

abbrev of_parent : Ref
of_parent = record { scope = container; scope_id = codes "c_1"; key = codes "decisions/jwt" }

resolve_perm_inherits : (resolve_perm worker of_parent stacked []).0 ≡ ok read
unfolding resolve_perm statement text_eq scope_eq
resolve_perm_inherits = refl

resolve_perm-IsJustified_example :
    Answers stacked
      (IsJustified stacked worker of_parent)
      (resolve_perm worker of_parent stacked (false ∷ true ∷ []))
resolve_perm-IsJustified_example =
    resolve_perm-IsJustified stacked worker of_parent (false ∷ true ∷ [])

list_proposals-IsCurrent_example :
    Shows shelf.items
      (All (IsCurrent shelf.items))
      (list_proposals (some open_) shelf (false ∷ true ∷ []))
list_proposals-IsCurrent_example = list_proposals-IsCurrent (some open_) shelf (false ∷ true ∷ [])
