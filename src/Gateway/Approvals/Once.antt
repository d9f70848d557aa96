-- ===== src/Gateway/Approvals/Once.antt =====
-- How often a held call of approvals.go is carried out.
use aurium.Base.{
  ◌≡◌, refl, ap, Bool, true, false, not, Option, none, some, List, [], ◌∷◌, ◌++◌, Text, codes,
  text_eq, text_eq_iff, is_empty, any, map, arith, if◌then◌else◌, Bool-cases, ◌⊎◌, inl, inr,
}
use aurium.Db.{Result, ok, failed, err, Faults, Sql, pure, ◌>>=◌, ◌>>◌, query, statement}
use aurium.Db.Rules.{Post, statement_rule, query_rule, bind_rule, Post-mono}
use aurium.Gateway.Approvals.{
  Status, pending, approved, rejected, expired, status_eq, Approval, Message, NoteType,
  approval_decided, integration_call, Gate, ApprovalError, after_underscore, approval_at,
  settle_row, verb, note, found_row, get_approval, look_up_project, project_of, update_row, sends,
  told, tell, calls, after_call, execute_approved, execution, notify, carry_out, check_pending,
  decide,
}

approval_at-id :
    (id : Text) (rows : List Approval) (a : Approval) → approval_at id rows ≡ some a → id ≡ a.id
approval_at-id id [] a e = cc
approval_at-id id (x ∷ rows) a e = ground (arith, approval_at-id id rows a, text_eq_iff id x.id)

approval_at-settle :
    (id : Text) (d : Status) (by now : Text) (rows : List Approval) (a : Approval)
    → approval_at id rows ≡ some a
    → approval_at id (map (settle_row id d by now) rows)
      ≡ some (record a { status = d; decided_by = by; decided_at = now })
approval_at-settle id d by now [] a e = cc
approval_at-settle id d by now (x ∷ rows) a e =
    ground (arith, approval_at-settle id d by now rows a)

settled_under :
    (id i : Text) (d : Status) (by now : Text) (rows : List Approval) (a : Approval)
    → id ≡ i
    → approval_at id rows ≡ some a
    → approval_at id (map (settle_row i d by now) rows)
      ≡ some (record a { status = d; decided_by = by; decided_at = now })
settled_under id i d by now rows a same e = rw (← same) (approval_at-settle id d by now rows a e)

-- The approval is there, and it is no longer pending.
abbrev pub IsSettled : {W M : Type 0} → Text → Gate W M → Type 0
IsSettled id g =
    (a : Approval) × (approval_at id g.approvals ≡ some a) × (status_eq a.status pending ≡ false)

abbrev pub IsSame : {W M : Type 0} → Gate W M → Gate W M → Type 0
IsSame g h = (h.approvals ≡ g.approvals) × (h.world ≡ g.world)

status_approved : status_eq approved pending ≡ false
unfolding status_eq
status_approved = refl

status_rejected : status_eq rejected pending ≡ false
unfolding status_eq
status_rejected = refl

module _ {W M : Type 0} (id : Text) where
  -- What holds however a run ends.
  abbrev pub Always :
      {A : Type 0} → (Gate W M → Type 0) → Result ApprovalError A × Gate W M × Faults → Type 0
  Always P = Post (λ _ t. P t) (λ _ t. P t) P

  abbrev Keeps : {A : Type 0} → Sql ApprovalError (Gate W M) A → Type 0
  Keeps m = (g : Gate W M) (fs : Faults) → IsSettled id g → Always (IsSettled id) (m g fs)

  pub Always_state :
      {A : Type 0} (P : Gate W M → Type 0) (o : Result ApprovalError A × Gate W M × Faults)
      → Always P o
      → P o.1
  Always_state P (ok a, t, fs) h = h
  Always_state P (failed, t, fs) h = h
  Always_state P (err e, t, fs) h = h

  -- What a lookup gives: the row, and nothing is changed.
  abbrev Found : Gate W M → Approval → Gate W M → Type 0
  Found g a t = (approval_at id g.approvals ≡ some a) × (t ≡ g)

  found_row_rule :
      (o : Option Approval) (g : Gate W M) (fs : Faults)
      → approval_at id g.approvals ≡ o
      → Post (Found g) (λ _ t. t ≡ g) (λ t. t ≡ g) (found_row o g fs)
  found_row_rule none g fs h = refl
  found_row_rule (some a) g fs h = (h, refl)

  get_approval_rule :
      (g : Gate W M) (fs : Faults)
      → Post (Found g) (λ _ t. t ≡ g) (λ t. t ≡ g) (get_approval id g fs)
  get_approval_rule g fs =
      bind_rule (Found g) (λ _ t. t ≡ g) (λ t. t ≡ g)
        (λ o t. (approval_at id g.approvals ≡ o) × (t ≡ g))
        (query (λ (g : Gate W M). approval_at id g.approvals)) found_row g fs
        (query_rule (λ o t. (approval_at id g.approvals ≡ o) × (t ≡ g)) (λ _ t. t ≡ g) (λ t. t ≡ g)
          (λ (g : Gate W M). approval_at id g.approvals) g fs refl (refl, refl))
        (λ o t fs h. rw h.1 (found_row_rule o g fs h.0))

  note-Keeps : (t : NoteType) (of_id : Text) → Keeps (note t of_id)
  unfolding statement
  note-Keeps t i g [] h = h
  note-Keeps t i g (true ∷ fs) h = h
  note-Keeps t i g (false ∷ fs) h = h

  look_up_project-Keeps : (c : Text) → Keeps (look_up_project c)
  unfolding statement
  look_up_project-Keeps c g [] h = h
  look_up_project-Keeps c g (true ∷ fs) h = h
  look_up_project-Keeps c g (false ∷ fs) h = h

  bind-Keeps :
      {A B : Type 0} (m : Sql ApprovalError (Gate W M) A) (f : A → Sql ApprovalError (Gate W M) B)
      → Keeps m
      → ((a : A) → Keeps (f a))
      → Keeps (m >>= f)
  bind-Keeps m f hm hf g fs h =
      bind_rule (λ _ t. IsSettled id t) (λ _ t. IsSettled id t) (IsSettled id)
        (λ _ t. IsSettled id t) m f g fs (hm g fs h) (λ a t gs k. hf a t gs k)

  project_of-Keeps : (a : Approval) → Keeps (project_of a)
  unfolding project_of
  project_of-Keeps a g fs h = go (is_empty a.project_id) (is_empty a.container_id)
    where
      go :
          (p c : Bool)
          → Always (IsSettled id) (
              (if not p
                  then pure a.project_id
                  else if not c
                  then look_up_project a.container_id
                  else pure [])
                g fs)
      go false c = h
      go true false = look_up_project-Keeps a.container_id g fs h
      go true true = h

  module _ (call : Text → Text → Text → W → (Bool × Text) × W)
      (send : Message → M → Option Text × M) where
    tell-Keeps : {A : Type 0} (a : A) (i : Text) (m : Message) → Keeps (tell call send a i m)
    tell-Keeps a i m g fs h = go (sends call send m g) h
      where
        go :
            (o : Option Text × Gate W M)
            → IsSettled id o.1
            → Always (IsSettled id) (told call send a i o fs)
        go (none, t) k = k
        go (some e, t) k = k

    after_call-Keeps :
        (i : Text) (o : (Bool × Text) × Gate W M) (fs : Faults)
        → IsSettled id o.1
        → Always (IsSettled id) (after_call call send i o fs)
    after_call-Keeps i ((false, e), g) fs h = h
    after_call-Keeps i ((true, r), g) fs h =
        bind-Keeps (note integration_call i) (λ _. pure (codes "\nResult:\n" ++ r))
          (note-Keeps integration_call i) (λ _ _ _ k. k) g fs h

    execute_approved-Keeps : (a : Approval) → Keeps (execute_approved call send a)
    unfolding execute_approved
    execute_approved-Keeps a g fs h =
        elim (Bool-cases (any (text_eq a.integration_id) g.upstreams)) [
          | inl on ↦ rw on (
              after_call-Keeps a.id
                (calls call send a.integration_id (after_underscore a.capability) a.args_json g) fs
                h)
          | inr off ↦ rw off h
        ]

    execution-Keeps : (d : Status) (a : Approval) → Keeps (execution call send d a)
    execution-Keeps pending a g fs h = h
    execution-Keeps rejected a g fs h = h
    execution-Keeps expired a g fs h = h
    execution-Keeps approved a g fs h = elim (Bool-cases (is_empty a.integration_id)) [
      | inl on ↦ rw on h
      | inr off ↦ rw off (execute_approved-Keeps a g fs h)
    ]

    notify-Keeps : (a : Approval) (outcome : Text) → Keeps (notify call send a outcome)
    notify-Keeps a outcome g fs h = elim (Bool-cases (is_empty a.agent_id)) [
      | inl on ↦ rw on h
      | inr off ↦
          rw off
            (bind-Keeps (project_of a) _ (project_of-Keeps a) (λ p. tell-Keeps a a.id _) g fs h)
    ]

    -- From the UPDATE on the approval is settled; a refused UPDATE leaves everything alone.
    abbrev Reached : Gate W M → Gate W M → Type 0
    Reached g t = IsSame g t ⊎ IsSettled id t

    carry_out-Reached :
        (now by : Text) (d : Status) (a : Approval) (g : Gate W M) (fs : Faults)
        → status_eq d pending ≡ false
        → approval_at id g.approvals ≡ some a
        → Always (Reached g) (carry_out call send now d by a g fs)
    carry_out-Reached now by d a g fs settled found =
        bind_rule (λ _ t. Reached g t) (λ _ t. Reached g t) (Reached g) (λ _ t. IsSettled id t)
          (update_row a.id d by now) rest g fs
          (statement_rule (λ _ t. IsSettled id t) (λ _ t. Reached g t) (Reached g) _ g fs
            (inl (refl, refl))
            (
              record a { status = d; decided_by = by; decided_at = now },
              settled_under id a.id d by now g.approvals a (approval_at-id id g.approvals a found)
                  found,
              settled,
            ))
          (λ _ t gs k.
            Post-mono (rest tt t gs) (λ _ u h. inr h) (λ _ u h. inr h) (λ u h. inr h)
              (bind-Keeps (note approval_decided a.id) _ (note-Keeps approval_decided a.id)
                (λ _.
                  bind-Keeps (execution call send d ap) _ (execution-Keeps d ap)
                    (λ r. notify-Keeps ap (outcome r)))
                t gs k))
      where
        ap : Approval
        ap = record a { status = d; decided_by = by; decided_at = now }

        outcome : Text → Text
        outcome r =
            codes "Your request "
            ++ a.id
            ++ codes " ("
            ++ a.capability
            ++ codes ")"
            ++ verb d
            ++ by
            ++ codes "."
            ++ r

        rest : Unit {0} → Sql ApprovalError (Gate W M) Approval
        rest _ = do
          note approval_decided a.id
          result ← execution call send d ap
          notify call send ap (outcome result)

    check_pending-Reached :
        (now decision by : Text) (a : Approval) (g : Gate W M) (fs : Faults)
        → approval_at id g.approvals ≡ some a
        → Always (Reached g) (check_pending call send now decision by a g fs)
    check_pending-Reached now decision by a g fs h =
        elim (Bool-cases (status_eq a.status pending)) [
          | inr off ↦ rw off (inl (refl, refl))
          | inl on ↦ rw on (elim (Bool-cases (text_eq decision (codes "approved"))) [
            | inl is_so ↦ rw is_so (carry_out-Reached now by approved a g fs status_approved h)
            | inr is_not ↦ rw is_not (elim (Bool-cases (text_eq decision (codes "rejected"))) [
              | inl is_so ↦ rw is_so (carry_out-Reached now by rejected a g fs status_rejected h)
              | inr is_not ↦ rw is_not (inl (refl, refl))
            ])
          ])
        ]

    -- A decision, whatever fails: either nothing was decided and no upstream was called, or the
    -- approval is settled.
    decide-Reached :
        (now decision by : Text) (g : Gate W M) (fs : Faults)
        → Always (Reached g) (decide call send now id decision by g fs)
    unfolding decide
    decide-Reached now decision by g fs =
        bind_rule (λ _ t. Reached g t) (λ _ t. Reached g t) (Reached g) (Found g) (get_approval id)
          (check_pending call send now decision by) g fs
          (Post-mono (get_approval id g fs) (λ _ _ h. h) (λ _ t h. stays h) (λ t h. stays h)
            (get_approval_rule g fs))
          (λ a t gs h. rw h.1 (check_pending-Reached now decision by a g gs h.0))
      where
        stays : {t : Gate W M} → t ≡ g → Reached g t
        stays h = inl (ap (λ t. t.approvals) h, ap (λ t. t.world) h)

    -- An approval that is decided or expired is refused: nothing at all is changed, and no upstream
    -- is called.
    decide-settled :
        (now decision by : Text) (g : Gate W M) (fs : Faults)
        → IsSettled id g
        → Post (λ _ _. ⊥) (λ _ t. t ≡ g) (λ t. t ≡ g) (decide call send now id decision by g fs)
    unfolding decide
    decide-settled now decision by g fs (a, found, settled) =
        bind_rule (λ _ _. ⊥) (λ _ t. t ≡ g) (λ t. t ≡ g) (Found g) (get_approval id)
          (check_pending call send now decision by) g fs (get_approval_rule g fs)
          (λ b t gs h. let over : status_eq b.status pending ≡ false = cc in rw over h.1)

    -- Of two decisions on one approval of which the second starts when the first has returned, with
    -- whatever database failures, at most one reaches an upstream: if the first changed the state of the
    -- upstreams, the second does not. Decisions that overlap are not in this.
    pub decide-once :
        (now decision by now' decision' by' : Text) (g : Gate W M) (fs fs' : Faults)
        → let first = (decide call send now id decision by g fs).1 in
          let second = (decide call send now' id decision' by' first fs').1 in
          (first.world ≡ g.world) ⊎ (second.world ≡ first.world)
    decide-once now decision by now' decision' by' g fs fs' =
        let first = decide call send now id decision by g fs in
        elim (Always_state (Reached g) first (decide-Reached now decision by g fs)) [
          | inl same ↦ inl same.1
          | inr settled ↦
              let second = decide call send now' id decision' by' first.1 fs' in
              inr (
                ap (λ t. t.world)
                  (Always_state (λ t. t ≡ first.1) second
                    (Post-mono second (λ _ _ h. absurd h) (λ _ _ h. h) (λ _ h. h)
                      (decide-settled now' decision' by' first.1 fs' settled))))
        ]
