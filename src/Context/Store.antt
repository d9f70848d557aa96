-- ===== src/Context/Store.antt =====
-- The data of internal/contextengine and the tables it lies in (migrations/0001_init.sql).
--
-- Ids and times are texts. A scope is one of the three that the tables' CHECK allows. What the
-- engine hands to the event bus is recorded in `emitted`.
use aurium.Base.{
  ℕ, ◌≡◌, refl, ◌↔◌, Bool, true, false, ◌&&◌, Option, none, some, List, ◌∷◌, Text, codes, text_eq,
  text_eq_iff, text_eq_refl, find, any, ◌==◌, if◌then◌else◌, arith,
}
use aurium.Db.{Result, ok, failed, Sql}

pub data Scope : Type 0 where
  project container agent : Scope

unfoldable pub scope_eq : Scope → Scope → Bool
scope_eq project project = true
scope_eq container container = true
scope_eq agent agent = true
scope_eq _ _ = false

-- `Ref`
pub record Ref : Type 0 where
  pub scope : Scope
  pub scope_id : Text
  pub key : Text

unfoldable pub ref_eq : Ref → Ref → Bool
unfolding scope_eq
ref_eq r q = scope_eq r.scope q.scope && (text_eq r.scope_id q.scope_id && text_eq r.key q.key)

pub ref_eq_refl : (r : Ref) → ref_eq r r ≡ true
unfolding ref_eq
ref_eq_refl r = rw (scope r.scope, text_eq_refl r.scope_id, text_eq_refl r.key)
  where
    scope : (x : Scope) → scope_eq x x ≡ true
    scope project = refl
    scope container = refl
    scope agent = refl

pub ref_eq_sound : (r q : Ref) → ref_eq r q ≡ true → r ≡ q
unfolding ref_eq
ref_eq_sound r q h = ground (arith, text_eq_iff r.scope_id q.scope_id, text_eq_iff r.key q.key)

pub ref_eq_iff : (r q : Ref) → (ref_eq r q ≡ true) ↔ (r ≡ q)
ref_eq_iff r q = (ref_eq_sound r q, λ e. rw e (ref_eq_refl q))

-- `Item`, a row of `context_items`
pub record Item : Type 0 where
  pub id : Text
  pub ref : Ref
  pub version : ℕ
  pub content : Text
  pub mime : Text
  pub updated_by : Text
  pub updated_at : Text

abbrev pub markdown : Text
markdown = codes "text/markdown"

-- `Version`, a row of `context_versions`
pub record Version : Type 0 where
  pub item_id : Text
  pub version : ℕ
  pub content : Text
  pub author : Text
  pub reason : Text
  pub created_at : Text

-- The states of a proposal.
pub data ProposalStatus : Type 0 where
  open_ accepted rejected stale_ : ProposalStatus

-- `Proposal`, a row of `context_proposals`
pub record Proposal : Type 0 where
  pub id : Text
  pub item_id : Text
  pub base_version : ℕ
  pub content : Text
  pub author : Text
  pub reason : Text
  pub status : ProposalStatus
  pub decided_by : Text
  pub created_at : Text
  pub decided_at : Text

-- What is emitted: the type of the event, its actor and the parts of its payload that vary.
pub data Emitted : Type 0 where
  updated : Text → Ref → ℕ → Emitted
  proposed : Text → Text → Ref → ℕ → Emitted
  decided : Text → Text → Ref → ProposalStatus → Emitted

pub record Store : Type 0 where
  pub items : List Item
  pub versions : List Version
  pub proposals : List Proposal
  pub emitted : List Emitted

-- `Perm`
pub data Perm : Type 0 where
  none_ read append propose write : Perm

-- `ErrStale`, `ErrPermission`, `ErrNotFound`, and the errors that `Decide` makes.
pub data ContextError : Type 0 where
  stale : Ref → ℕ → ℕ → Text → ContextError
  permission : Ref → Perm → Perm → ContextError
  not_found : ContextError
  not_a_decision : ContextError
  proposal_stale : Text → ℕ → ContextError
  already_decided : Text → ProposalStatus → ContextError

abbrev pub Action : Type 0 → Type 0
Action = Sql ContextError Store

abbrev pub item_at : Ref → List Item → Option Item
item_at r = find (λ it. ref_eq r it.ref)

abbrev pub item_with : Text → List Item → Option Item
item_with id = find (λ it. text_eq id it.id)

abbrev pub version_at : Text → ℕ → List Version → Option Version
version_at id v = find (λ row. text_eq id row.item_id && (v == row.version))

abbrev pub missing {ℓ} : {A : Type ℓ} → Option A → Bool
missing none = true
missing (some _) = false

-- `INSERT INTO context_items`: the id is the primary key, and the place is unique.
abbrev pub insert_item : Item → Store → Result ContextError (Unit {0}) × Store
insert_item it s =
    if missing (item_with it.id s.items) && missing (item_at it.ref s.items)
    then (ok tt, record s { items = it ∷ s.items })
    else (failed, s)

-- `UPDATE context_items SET version, content, updated_by, updated_at WHERE id = ?`
abbrev pub put : Item → Item → Item
put new it =
    if text_eq new.id it.id
    then record it {
      version = new.version;
      content = new.content;
      updated_by = new.updated_by;
      updated_at = new.updated_at;
    }
    else it

-- `INSERT INTO context_versions`: the item must exist, and item and number are the primary key.
abbrev pub insert_version : Version → Store → Result ContextError (Unit {0}) × Store
insert_version row s =
    if missing (version_at row.item_id row.version s.versions)
      && any (λ it. text_eq row.item_id it.id) s.items
    then (ok tt, record s { versions = row ∷ s.versions })
    else (failed, s)

-- `_ = e.Events.Emit(…)`: handed to the bus, whose error is dropped.
abbrev pub emit : Emitted → Action (Unit {0})
emit e s fs = (ok tt, record s { emitted = e ∷ s.emitted }, fs)
