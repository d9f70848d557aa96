-- ===== src/Context/Proposals/Once.antt =====
-- `decide`, and the version that a proposal was written against.
use aurium.Base.{
  ℕ, ◌+◌, ◌≡◌, refl, sym, ap, ◌∙◌, Bool, true, false, some, List, ◌∷◌, Text, map, Bool-cases, ◌⊎◌,
  inl, inr, ◌==◌, ==_iff,
}
use aurium.Db.{Faults, pure, ◌>>=◌, ◌>>◌, query, modify}
use aurium.Db.Rules.{Post, statement_rule, query_rule, bind_rule, Post-mono}
use aurium.Context.Store.{
  Ref, ref_eq, Item, Store, Proposal, ProposalStatus, open_, accepted, rejected, stale_, Action,
  item_at, item_with, decided, emit,
}
use aurium.Context.Engine.{write_item}
use aurium.Context.Engine.Rows.{IsUnique}
use aurium.Context.Engine.Cas.{holds, current, compare_and_set, Register, view, write_item_rule}
use aurium.Context.Proposals.{
  Decision, accept, reject, neither, outcome, proposal_at, mark_stale, stands_at, keep_or_mark,
  read_proposal, refresh_stale, get_proposal, refresh_open, refresh_by, settle_row, decide,
  check_open, item_row, apply_decision, acceptance, readable, proposal_row,
}

compare_and_set_value :
    (x : Register) (base : ℕ) (content : Text) {y : Register}
    → compare_and_set x base content ≡ some y
    → y ≡ some (base + 1, content)
compare_and_set_value x base content e = elim (Bool-cases (current x == base)) [
  | inl same ↦ cc (rw same at e)
  | inr other ↦ cc (rw other at e)
]

module _ (id by fresh now : Text) (s : Store) (unique : IsUnique s.items) (p : Proposal) (it : Item)
    (found : proposal_at id s.proposals ≡ some p) (on : item_with p.item_id s.items ≡ some it) where
  -- The context is as it was.
  abbrev pub Same : Store → Type 0
  Same t = (t.items ≡ s.items) × (t.versions ≡ s.versions)

  -- The item stood at the version that the proposal names, and holds the proposed content at the
  -- next one; no other place differs.
  abbrev pub Applied : Store → Type 0
  Applied t =
      (it.version ≡ p.base_version)
      × (holds it.ref t ≡ some (p.base_version + 1, p.content))
      × ((q : Ref) → ref_eq it.ref q ≡ false → holds q t ≡ holds q s)

  abbrev pub Effect : Store → Type 0
  Effect t = Same t ⊎ Applied t

  abbrev pub Carries : Decision → Store → Type 0
  Carries accept t = Applied t
  Carries reject t = Same t
  Carries (neither _) t = ⊥

  abbrev pub IsDecision : Decision → Type 0
  IsDecision (neither _) = ⊥
  IsDecision _ = Unit

  -- What `get_proposal` returns: the row itself, whose item is current if it is open, or a stale one.
  abbrev Fetched : Proposal → Store → Type 0
  Fetched q t =
      Same t × (((q ≡ p) × (p.status ≡ open_ → it.version ≡ p.base_version)) ⊎ (q.status ≡ stale_))

  branch_rule :
      (current : Bool) (t : Store) (fs : Faults)
      → Same t
      → (it.version == p.base_version) ≡ current
      → Post Fetched (λ _ t. Same t) Same (keep_or_mark current p t fs)
  branch_rule true t fs h e = (h, inl (refl, λ _. (==_iff it.version p.base_version).0 e))
  branch_rule false t fs h e =
      bind_rule Fetched (λ _ t. Same t) Same (λ (_ : Unit {0}) u. Same u)
        (modify (λ (s : Store). record s { proposals = map (mark_stale p.id) s.proposals }))
        (λ _. pure (record p { status = stale_ })) t fs
        (statement_rule (λ (_ : Unit {0}) u. Same u) (λ _ t. Same t) Same _ t fs h h)
        (λ _ u fs k. (k, inr refl))

  refresh_rule :
      (status : ProposalStatus) (t : Store) (fs : Faults)
      → Same t
      → p.status ≡ status
      → Post Fetched (λ _ t. Same t) Same (refresh_by status p t fs)
  unfolding refresh_by refresh_open
  refresh_rule open_ t fs h e =
      bind_rule Fetched (λ _ t. Same t) Same (λ row u. (item_with p.item_id u.items ≡ row) × Same u)
        (query (λ (s : Store). item_with p.item_id s.items))
        (λ row. keep_or_mark (stands_at p.base_version row) p) t fs
        (query_rule (λ row u. (item_with p.item_id u.items ≡ row) × Same u) (λ _ t. Same t) Same _ t
          fs h (refl, h))
        (λ row u fs k. rw (← k.0) (
          rw (ap (item_with p.item_id) k.1.0 ∙ on)
            (branch_rule (it.version == p.base_version) u fs k.1 refl)))
  refresh_rule accepted t fs h e = (h, inl (refl, λ o. cc))
  refresh_rule rejected t fs h e = (h, inl (refl, λ o. cc))
  refresh_rule stale_ t fs h e = (h, inr e)

  get_proposal_rule : (fs : Faults) → Post Fetched (λ _ t. Same t) Same (get_proposal id s fs)
  unfolding get_proposal
  get_proposal_rule fs =
      bind_rule Fetched (λ _ t. Same t) Same (λ q t. (q ≡ p) × Same t) (read_proposal id)
        refresh_stale s fs
        (bind_rule (λ q t. (q ≡ p) × Same t) (λ _ t. Same t) Same (λ row t. (row ≡ some p) × Same t)
          (query (λ (s : Store). readable s (proposal_at id s.proposals))) proposal_row s fs
          (query_rule (λ row t. (row ≡ some p) × Same t) (λ _ t. Same t) Same
            (λ (s : Store). readable s (proposal_at id s.proposals)) s fs (refl, refl)
            (rw (found, on), (refl, refl)))
          (λ row t fs h. rw h.0 (refl, h.1)))
        (λ q t fs h. rw h.0 (refresh_rule p.status t fs h.1 refl))

  check_rule :
      (q : Proposal) (t : Store) (fs : Faults)
      → Fetched q t
      → Post
          (λ _ u. (q ≡ p) × (it.version ≡ p.base_version) × Same u)
          (λ _ t. Same t)
          Same
          (check_open q.status q t fs)
  check_rule q t fs h = by_status q.status refl
    where
      by_status :
          (x : ProposalStatus)
          → q.status ≡ x
          → Post
              (λ _ u. (q ≡ p) × (it.version ≡ p.base_version) × Same u)
              (λ _ t. Same t)
              Same
              (check_open x q t fs)
      by_status open_ e = elim (h.1) [
        | inl (same, current) ↦
            (same, current (ap (λ (x : Proposal). x.status) (sym same) ∙ e), h.0)
        | inr old ↦ cc
      ]
      by_status accepted e = h.0
      by_status rejected e = h.0
      by_status stale_ e = h.0

  moved : {t u : Store} → u ≡ t → Same t → Same u
  moved e h = rw e h

  -- The write of an accepted proposal, in a state with the same context.
  apply_rule :
      (d : Decision) (t : Store) (fs : Faults)
      → IsDecision d
      → it.version ≡ p.base_version
      → Same t
      → Post (λ _ u. Carries d u) (λ _ u. Effect u) Effect (apply_decision d p it by fresh now t fs)
  apply_rule accept t fs _ v h =
      bind_rule (λ (_ : Unit {0}) u. Applied u) (λ _ u. Effect u) Effect (λ (_ : Item) u. Applied u)
        (write_item it.ref p.author fresh now p.base_version p.content (acceptance p by))
        (λ _. pure tt) t fs
        (Post-mono
          (write_item it.ref p.author fresh now p.base_version p.content (acceptance p by) t fs)
          (λ new u k. (
            v,
            k.1.here ∙ compare_and_set_value (holds it.ref t) p.base_version p.content k.0,
            λ q ne. k.1.elsewhere q ne ∙ ap (λ (items : List Item). view (item_at q items)) h.0,
          ))
          (λ e u k. inl (moved k.1 h)) (λ u k. inl (moved k h))
          (write_item_rule it.ref p.author fresh now t (rw h.0 unique) p.base_version p.content
            (acceptance p by) fs))
        (λ _ u fs k. k)
  apply_rule reject t fs _ v h = h
  apply_rule (neither x) t fs wrong v h = absurd wrong

  effect : (d : Decision) (t : Store) → Carries d t → Effect t
  effect accept t h = inr h
  effect reject t h = inl h
  effect (neither x) t h = absurd h

  abbrev finish : Decision → Proposal → Item → Action Proposal
  finish d q x = do
    modify
        (λ (s : Store). record s { proposals = map (settle_row id (outcome d) by now) s.proposals })
    emit (decided by q.id x.ref (outcome d))
    pure (record q { status = outcome d; decided_by = by; decided_at = now })

  finish_rule :
      (d : Decision) (t : Store) (fs : Faults)
      → Carries d t
      → Post
          (λ q u. Carries d u × (q.status ≡ outcome d))
          (λ _ u. Effect u)
          Effect
          (finish d p it t fs)
  finish_rule d t fs h =
      bind_rule (λ q u. Carries d u × (q.status ≡ outcome d)) (λ _ u. Effect u) Effect
        (λ (_ : Unit {0}) u. Carries d u)
        (modify (λ (s : Store). record s {
          proposals = map (settle_row id (outcome d) by now) s.proposals;
        }))
        (λ _.
          emit (decided by p.id it.ref (outcome d))
          >> pure (record p { status = outcome d; decided_by = by; decided_at = now }))
        t fs
        (statement_rule (λ (_ : Unit {0}) u. Carries d u) (λ _ u. Effect u) Effect _ t fs
          (effect d t h) (kept d t h))
        (λ _ u fs k. (emitted d u k, refl))
    where
      kept :
          (d : Decision) (t : Store)
          → Carries d t
          → Carries d (record t { proposals = map (settle_row id (outcome d) by now) t.proposals })
      kept accept t h = h
      kept reject t h = h
      kept (neither x) t h = h

      emitted :
          (d : Decision) (t : Store)
          → Carries d t
          → Carries d (record t { emitted = decided by p.id it.ref (outcome d) ∷ t.emitted })
      emitted accept t h = h
      emitted reject t h = h
      emitted (neither x) t h = h

  settle_rule :
      (d : Decision) (t : Store) (fs : Faults)
      → IsDecision d
      → it.version ≡ p.base_version
      → Same t
      → Post
          (λ q u. Carries d u × (q.status ≡ outcome d))
          (λ _ u. Effect u)
          Effect
          ((do
            row ← query (λ (s : Store). item_with p.item_id s.items)
            x ← item_row row
            apply_decision d p x by fresh now
            finish d p x)
            t fs)
  settle_rule d t fs valid v h =
      bind_rule Final (λ _ u. Effect u) Effect (λ row u. (row ≡ some it) × Same u)
        (query (λ (s : Store). item_with p.item_id s.items))
        (λ row. item_row row >>= λ x. apply_decision d p x by fresh now >> finish d p x) t fs
        (query_rule (λ row u. (row ≡ some it) × Same u) (λ _ u. Effect u) Effect
          (λ (s : Store). item_with p.item_id s.items) t fs (inl h)
          (ap (item_with p.item_id) h.0 ∙ on, h))
        (λ row u fs k. rw k.0 (
          bind_rule Final (λ _ u. Effect u) Effect (λ (_ : Unit {0}) w. Carries d w)
            (apply_decision d p it by fresh now) (λ _. finish d p it) u fs
            (apply_rule d u fs valid v k.1) (λ _ w fs l. finish_rule d w fs l)))
    where
      Final : Proposal → Store → Type 0
      Final q u = Carries d u × (q.status ≡ outcome d)

  checked_rule :
      (d : Decision) (fs : Faults)
      → IsDecision d
      → Post
          (λ q u. Carries d u × (q.status ≡ outcome d))
          (λ _ u. Effect u)
          Effect
          ((do
            q ← get_proposal id
            check_open q.status q
            row ← query (λ (s : Store). item_with q.item_id s.items)
            x ← item_row row
            apply_decision d q x by fresh now
            finish d q x)
            s fs)
  checked_rule d fs valid =
      bind_rule Final (λ _ u. Effect u) Effect Fetched (get_proposal id) after_get s fs
        (Post-mono (get_proposal id s fs) (λ q u k. k) (λ e u k. inl k) (λ u k. inl k)
          (get_proposal_rule fs))
        (λ q t fs h.
          bind_rule Final (λ _ u. Effect u) Effect
            (λ (_ : Unit {0}) u. (q ≡ p) × (it.version ≡ p.base_version) × Same u)
            (check_open q.status q) (λ _. after_check q) t fs
            (Post-mono (check_open q.status q t fs) (λ _ u k. k) (λ e u k. inl k) (λ u k. inl k)
              (check_rule q t fs h))
            (λ _ u fs k. rw k.0 (settle_rule d u fs valid k.1 k.2)))
    where
      Final : Proposal → Store → Type 0
      Final q u = Carries d u × (q.status ≡ outcome d)

      after_check : Proposal → Action Proposal
      after_check q = do
        row ← query (λ (s : Store). item_with q.item_id s.items)
        x ← item_row row
        apply_decision d q x by fresh now
        finish d q x

      after_get : Proposal → Action Proposal
      after_get q = check_open q.status q >> after_check q

  -- For a proposal and its item in a store whose places and ids are unique: however the database fails,
  -- `decide` changes the context only by applying an accepted proposal
  -- to the very version that it was written against: in every state it may leave, either every item
  -- and version is as before, or the item stood at the proposal's base version and now holds its
  -- content at the next one, and no other place differs. Where it returns, an acceptance was applied
  -- and a rejection changed no item; another text than the two decisions never returns.
  pub decide_rule :
      (d : Decision) (fs : Faults)
      → Post
          (λ q u. Carries d u × (q.status ≡ outcome d))
          (λ _ u. Effect u)
          Effect
          (decide id d by fresh now s fs)
  unfolding decide
  decide_rule accept fs = checked_rule accept fs tt
  decide_rule reject fs = checked_rule reject fs tt
  decide_rule (neither x) fs = inl (refl, refl)
