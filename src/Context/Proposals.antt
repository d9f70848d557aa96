-- ===== src/Context/Proposals.antt =====
-- internal/contextengine/proposals.go: reviewed changes.
pub mod Once
pub mod Listing
use aurium.Base.{
  not, select, ℕ, zero, suc, ◌+◌, Bool, true, false, ◌&&◌, Option, none, some, List, [], ◌∷◌, ◌++◌,
  Text, codes, text_eq, map, find, ◌==◌, if◌then◌else◌,
}
use aurium.Db.{
  Result, ok, failed, err, Faults, Sql, pure, raise, ◌>>=◌, ◌>>◌, query, modify, statement,
}
use aurium.Context.Store.{
  Ref, Item, Store, Proposal, ProposalStatus, open_, accepted, rejected, stale_, ContextError,
  stale, not_found, not_a_decision, proposal_stale, already_decided, Emitted, proposed, decided,
  Action, item_with, missing, emit,
}
use aurium.Ids.Order.{text_lt}
use aurium.Context.Engine.{get, write_item}

abbrev pub proposal_at : Text → List Proposal → Option Proposal
proposal_at id = find (λ p. text_eq id p.id)

abbrev insert_proposal : Proposal → Store → Result ContextError (Unit {0}) × Store
insert_proposal p s =
    if missing (proposal_at p.id s.proposals)
    then (ok tt, record s { proposals = p ∷ s.proposals })
    else (failed, s)

-- `Propose`: only against the current version of an item that exists.
unfoldable pub propose : Ref → ℕ → Text → Text → Text → Text → Text → Action Proposal
unfolding get
propose r base content author reason id now = do
  item ← get r
  if item.version == base then pure tt else raise (stale r base item.version item.content)
  let p : Proposal = record {
    id = id;
    item_id = item.id;
    base_version = base;
    content = content;
    author = author;
    reason = reason;
    status = open_;
    decided_by = [];
    created_at = now;
    decided_at = [];
  }
  statement (insert_proposal p)
  emit (proposed author id r base)
  pure p

abbrev proposal_row : Option Proposal → Action Proposal
proposal_row none = raise not_found
proposal_row (some p) = pure p

-- `readProposal`: the row is joined with its item, in one statement.
abbrev readable : Store → Option Proposal → Option Proposal
readable s none = none
readable s (some p) = if missing (item_with p.item_id s.items) then none else some p

unfoldable pub read_proposal : Text → Action Proposal
read_proposal id = do
  row ← query (λ (s : Store). readable s (proposal_at id s.proposals))
  proposal_row row

abbrev marked : ProposalStatus → Proposal → Proposal
marked open_ p = record p { status = stale_ }
marked _ p = p

-- `UPDATE context_proposals SET status = 'stale' WHERE id = ? AND status = 'open'`
abbrev pub mark_stale : Text → Proposal → Proposal
mark_stale id p = if text_eq id p.id then marked p.status p else p

-- Whether the item still stands at the version that the proposal was written against; a deleted
-- item stands at none.
abbrev pub stands_at : ℕ → Option Item → Bool
stands_at base none = false
stands_at base (some it) = it.version == base

-- The last test of `refreshStale`.
abbrev keep_or_mark : Bool → Proposal → Action Proposal
keep_or_mark true p = pure p
keep_or_mark false p = do
  modify (λ (s : Store). record s { proposals = map (mark_stale p.id) s.proposals })
  pure (record p { status = stale_ })

refresh_open : Proposal → Action Proposal
refresh_open p = do
  row ← query (λ (s : Store). item_with p.item_id s.items)
  keep_or_mark (stands_at p.base_version row) p

refresh_by : ProposalStatus → Proposal → Action Proposal
refresh_by open_ p = refresh_open p
refresh_by _ p = pure p

-- `refreshStale`
unfoldable pub refresh_stale : Proposal → Action Proposal
unfolding refresh_by refresh_open
refresh_stale p = refresh_by p.status p

-- `GetProposal`
unfoldable pub get_proposal : Text → Action Proposal
unfolding read_proposal refresh_stale
get_proposal id = do p ← read_proposal id; refresh_stale p

-- The texts that `Decide` may be given: the two decisions, and any other.
pub data Decision : Type 0 where
  accept reject : Decision
  neither : Text → Decision

abbrev pub outcome : Decision → ProposalStatus
outcome accept = accepted
outcome _ = rejected

abbrev check_decision : Decision → Action (Unit {0})
check_decision (neither _) = raise not_a_decision
check_decision _ = pure tt

abbrev check_open : ProposalStatus → Proposal → Action (Unit {0})
check_open open_ p = pure tt
check_open stale_ p = raise (proposal_stale p.id p.base_version)
check_open status p = raise (already_decided p.id status)

abbrev item_row : Option Item → Action Item
item_row none = raise not_found
item_row (some it) = pure it

abbrev pub acceptance : Proposal → Text → Text
acceptance p by = codes "accepted proposal " ++ (p.id ++ (codes " by " ++ by))

-- The write of an accepted proposal.
abbrev apply_decision : Decision → Proposal → Item → Text → Text → Text → Action (Unit {0})
apply_decision accept p it by fresh now =
    write_item it.ref p.author fresh now p.base_version p.content (acceptance p by) >> pure tt
apply_decision _ p it by fresh now = pure tt

-- `UPDATE context_proposals SET status, decided_by, decided_at WHERE id = ?`
abbrev pub settle_row : Text → ProposalStatus → Text → Text → Proposal → Proposal
settle_row id status by now p =
    if text_eq id p.id then record p { status = status; decided_by = by; decided_at = now } else p

-- `Decide`. Its statements are not one transaction: an accepted content is written first.
unfoldable pub decide : Text → Decision → Text → Text → Text → Action Proposal
unfolding get_proposal
decide id decision by fresh now = do
  check_decision decision
  p ← get_proposal id
  check_open p.status p
  row ← query (λ (s : Store). item_with p.item_id s.items)
  it ← item_row row
  apply_decision decision p it by fresh now
  modify (λ (s : Store). record s {
    proposals = map (settle_row id (outcome decision) by now) s.proposals;
  })
  emit (decided by p.id it.ref (outcome decision))
  pure (record p { status = outcome decision; decided_by = by; decided_at = now })

-- `ORDER BY p.id DESC`
abbrev pub insert_by_id : Proposal → List Proposal → List Proposal
insert_by_id p [] = p ∷ []
insert_by_id p (q ∷ ps) =
    let rest = insert_by_id p ps in if text_lt p.id q.id then q ∷ rest else p ∷ q ∷ ps

abbrev pub by_id : List Proposal → List Proposal
by_id [] = []
by_id (p ∷ ps) = insert_by_id p (by_id ps)

abbrev pub status_eq : ProposalStatus → ProposalStatus → Bool
status_eq open_ open_ = true
status_eq accepted accepted = true
status_eq rejected rejected = true
status_eq stale_ stale_ = true
status_eq _ _ = false

-- The WHERE clause of `ListProposals`; no status asks for all.
abbrev pub wants_status : Option ProposalStatus → Proposal → Bool
wants_status none p = true
wants_status (some st) p = status_eq p.status st

unfoldable pub refresh_each : List Proposal → Action (List Proposal)
unfolding refresh_stale
refresh_each [] = pure []
refresh_each (p ∷ ps) = do q ← refresh_stale p; qs ← refresh_each ps; pure (q ∷ qs)

-- A row is joined with its item.
abbrev pub listed : Option ProposalStatus → Store → List Proposal
listed status s = by_id (
    select (λ (p : Proposal). wants_status status p && not (missing (item_with p.item_id s.items)))
      s.proposals)

-- `ListProposals`
unfoldable pub list_proposals : Option ProposalStatus → Action (List Proposal)
unfolding refresh_each text_lt
list_proposals status = query (listed status) >>= refresh_each
