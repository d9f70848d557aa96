-- ===== src/Context/Proposals/Listing.antt =====
-- What ListProposals shows as open.
use aurium.Base.{◌≡◌, refl, ap, Bool, true, false, Option, List, [], ◌∷◌, map, All}
use aurium.Db.{Result, Faults, pure, ◌>>=◌, query, modify}
use aurium.Db.Rules.{Post, query_rule, bind_rule, statement_rule}
use aurium.Context.Store.{
  Item, Store, Proposal, ProposalStatus, open_, accepted, rejected, stale_, ContextError, item_with,
}
use aurium.Context.Proposals.{
  mark_stale, stands_at, keep_or_mark, refresh_open, refresh_by, refresh_stale, refresh_each,
  listed, list_proposals,
}

module _ (items : List Item) where
  -- If it is open, its item stands at the version that it was written against.
  abbrev pub IsCurrent : Proposal → Type 0
  IsCurrent p = p.status ≡ open_ → stands_at p.base_version (item_with p.item_id items) ≡ true

  abbrev pub Kept : Store → Type 0
  Kept t = t.items ≡ items

  -- What is asked of a run that answers with something.
  abbrev pub Shows : {A : Type 0} → (A → Type 0) → Result ContextError A × Store × Faults → Type 0
  Shows P = Post (λ x t. P x × Kept t) (λ _ t. Kept t) Kept

  module _ (p : Proposal) where
    keep_or_mark_rule :
        (b : Bool) (t : Store) (fs : Faults)
        → stands_at p.base_version (item_with p.item_id items) ≡ b
        → Kept t
        → Shows IsCurrent (keep_or_mark b p t fs)
    keep_or_mark_rule true t fs e h = ((λ _. e), h)
    keep_or_mark_rule false t fs e h =
        bind_rule (λ q t. IsCurrent q × Kept t) (λ _ t. Kept t) Kept (λ _ t. Kept t)
          (modify (λ (s : Store). record s { proposals = map (mark_stale p.id) s.proposals }))
          (λ _. pure (record p { status = stale_ })) t fs
          (statement_rule (λ _ t. Kept t) (λ _ t. Kept t) Kept _ t fs h h)
          (λ _ u gs k. ((λ o. cc), k))

    refresh_by_rule :
        (status : ProposalStatus) (t : Store) (fs : Faults)
        → p.status ≡ status
        → Kept t
        → Shows IsCurrent (refresh_by status p t fs)
    unfolding refresh_by refresh_open
    refresh_by_rule open_ t fs e h =
        bind_rule (λ q t. IsCurrent q × Kept t) (λ _ t. Kept t) Kept
          (λ row t. (row ≡ item_with p.item_id items) × Kept t)
          (query (λ (s : Store). item_with p.item_id s.items))
          (λ row. keep_or_mark (stands_at p.base_version row) p) t fs
          (query_rule (λ row t. (row ≡ item_with p.item_id items) × Kept t) (λ _ t. Kept t) Kept
            (λ (s : Store). item_with p.item_id s.items) t fs h (ap (item_with p.item_id) h, h))
          (λ row u gs k. rw k.0 (
            keep_or_mark_rule (stands_at p.base_version (item_with p.item_id items)) u gs refl k.1))
    refresh_by_rule accepted t fs e h = ((λ o. cc), h)
    refresh_by_rule rejected t fs e h = ((λ o. cc), h)
    refresh_by_rule stale_ t fs e h = ((λ o. cc), h)

    refresh_stale_rule : (t : Store) (fs : Faults) → Kept t → Shows IsCurrent (refresh_stale p t fs)
    unfolding refresh_stale
    refresh_stale_rule t fs h = refresh_by_rule p.status t fs refl h

  refresh_each_rule :
      (ps : List Proposal) (t : Store) (fs : Faults)
      → Kept t
      → Shows (All IsCurrent) (refresh_each ps t fs)
  unfolding refresh_each
  refresh_each_rule [] t fs h = (tt, h)
  refresh_each_rule (p ∷ ps) t fs h =
      bind_rule (λ qs t. All IsCurrent qs × Kept t) (λ _ t. Kept t) Kept
        (λ q t. IsCurrent q × Kept t) (refresh_stale p)
        (λ q. refresh_each ps >>= λ qs. pure (q ∷ qs)) t fs (refresh_stale_rule p t fs h)
        (λ q u gs k.
          bind_rule (λ qs t. All IsCurrent qs × Kept t) (λ _ t. Kept t) Kept
            (λ qs t. All IsCurrent qs × Kept t) (refresh_each ps) (λ qs. pure (q ∷ qs)) u gs
            (refresh_each_rule ps u gs k.1) (λ qs v hs l. ((k.0, l.0), l.1)))

-- However the database fails, `list_proposals` changes no item, and a proposal that it returns as open
-- is one whose item stands at the very version that the proposal was written against.
pub list_proposals-IsCurrent :
    (status : Option ProposalStatus) (s : Store) (fs : Faults)
    → Shows s.items (All (IsCurrent s.items)) (list_proposals status s fs)
unfolding list_proposals
list_proposals-IsCurrent status s fs =
    bind_rule (λ qs t. All (IsCurrent s.items) qs × Kept s.items t) (λ _ t. Kept s.items t)
      (Kept s.items) (λ _ t. Kept s.items t) (query (listed status)) refresh_each s fs
      (query_rule (λ _ t. Kept s.items t) (λ _ t. Kept s.items t) (Kept s.items) (listed status) s
        fs refl refl)
      (λ ps t gs h. refresh_each_rule s.items ps t gs h)
