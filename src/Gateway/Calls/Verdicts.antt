-- ===== src/Gateway/Calls/Verdicts.antt =====
-- What a call may do, by the verdict of the grants.
use aurium.Base.{
  ◌≡◌, refl, sym, ap, Bool, true, false, Option, none, some, [], ◌∷◌, Text, codes, text_eq, any,
  if◌then◌else◌, ◌⊎◌, inl, inr,
}
use aurium.Db.{Result, ok, failed, err, Faults, ◌>>◌, statement, value}
use aurium.Db.Rules.{Post}
use aurium.Db.Keeps.{
  Always, Always_state, Keeps, bind-Keeps, modify-Keeps, ignored-Keeps, statement-Keeps, if-state,
}
use aurium.Gateway.Grants.{Mode, allow, deny, approve, Grants, levels, resolve}
use aurium.Gateway.Grants.Strictest.{verdict, Resolved, resolve-verdict}
use aurium.Gateway.Registry.{Integration, named}
use aurium.Gateway.Approvals.{
  Gate, Approval, ApprovalError, Message, approval_requested, insert_approval, insert_row, note,
  tell, told, sends, held_content, held_call, hold_row, request_message, request_approval,
}
use aurium.Gateway.Hub.{Caller, Hub, Step}
use aurium.Gateway.Calls.{
  Answer, not_connected, cut, has_prefix, approvals_caller, execute, held, by_mode, by_integration,
  by_parts, run_call, call_tool,
}

module _ {W M : Type 0} (call : Text → Text → Text → W → (Bool × Text) × W)
    (send : Message → M → Option Text × M) (digest : Text → Text)
    (native : Caller → Text → Text → Step W M Answer) where
  -- A held call leaves the upstream alone.
  module _ (w : W) where
    abbrev Same : Gate W M → Type 0
    Same g = g.world ≡ w

    told-Same :
        {A : Type 0} (a : A) (id : Text) (o : Option Text × Gate W M) (fs : Faults)
        → Same o.1
        → Always ApprovalError Same (told call send a id o fs)
    told-Same a id (none, g) fs h = h
    told-Same a id (some e, g) fs h = h

    hold_row-Same :
        (c : aurium.Gateway.Approvals.Caller) (content : Text) (a : Approval)
        → Keeps ApprovalError Same (hold_row call send c content a)
    hold_row-Same c content a =
        bind-Keeps ApprovalError Same (insert_approval a)
          (λ _. note approval_requested a.id >> tell call send a a.id (request_message c content))
          (statement-Keeps ApprovalError Same (insert_row a)
            (λ g h. if-state ApprovalError Same _ (failed, g) _ h h))
          (λ _.
            bind-Keeps ApprovalError Same (note approval_requested a.id)
              (λ _. tell call send a a.id (request_message c content))
              (ignored-Keeps ApprovalError Same _ (modify-Keeps ApprovalError Same _ (λ g h. h)))
              (λ _ g fs h. told-Same a a.id (sends call send (request_message c content) g) fs h))

    request-Same :
        (id now expires : Text) (c : aurium.Gateway.Approvals.Caller)
        (i name capability args : Text)
        → Keeps ApprovalError Same
            (request_approval call send id now expires c i name capability args)
    unfolding request_approval
    request-Same id now expires c i name capability args =
        hold_row-Same c (held_content id c name capability)
          (held_call id now expires c i name capability args)

  -- Why a call reached an upstream: the integration and the capability that its name has, the verdict,
  -- and what it leaves behind.
  pub record Ran (c : Caller) (name args : Text) (h t : Hub W M) : Type 0 where
    pub integration : Text
    pub capability : Text
    pub row : Integration
    pub parts : cut name ≡ some (integration, capability)
    pub there : named c.subject.project_id integration h.registry ≡ some row
    pub allowed : verdict row.id capability h.grants (levels c.subject) ≡ allow
    pub live : any (text_eq row.id) h.gate.upstreams ≡ true
    pub world : t.gate.world ≡ (call row.id capability args h.gate.world).1

  -- The upstreams were left alone, or the call was granted; no grant, integration or capability is other.
  abbrev pub Kept : Caller → Text → Text → Hub W M → Hub W M → Type 0
  Kept c name args h t =
      (t.grants ≡ h.grants)
      × (t.registry ≡ h.registry)
      × ((t.gate.world ≡ h.gate.world) ⊎ Ran c name args h t)

  module _ (id now expires : Text) (c : Caller) (name args : Text) (h : Hub W M) where
    abbrev pub Ends : Result Text Answer × Hub W M × Faults → Type 0
    Ends =
        Post (λ _ t. Kept c name args h t) (λ _ t. Kept c name args h t) (λ t. Kept c name args h t)

    held-Ends :
        (o : Option Approval) (t : Hub W M) (fs : Faults)
        → Kept c name args h t
        → Ends (held call send digest native o t fs)
    held-Ends none t fs k = k
    held-Ends (some a) t fs k = k

    module _ (part capability : Text) (i : Integration) (parts : cut name ≡ some (part, capability))
        (there : named c.subject.project_id part h.registry ≡ some i) where
      execute-Ends :
          (fs : Faults)
          → verdict i.id capability h.grants (levels c.subject) ≡ allow
          → Ends (execute call send digest native c i capability args h fs)
      execute-Ends fs v = pick (any (text_eq i.id) h.gate.upstreams) refl
        where
          Called : Hub W M → Type 0
          Called t =
              (t.grants ≡ h.grants)
              × (t.registry ≡ h.registry)
              × (t.gate.world ≡ (call i.id capability args h.gate.world).1)

          ran :
              (t : Hub W M)
              → any (text_eq i.id) h.gate.upstreams ≡ true
              → Called t
              → Kept c name args h t
          ran t l k = (
            k.0,
            k.1,
            inr (record {
              integration = part;
              capability = capability;
              row = i;
              parts = parts;
              there = there;
              allowed = v;
              live = l;
              world = k.2;
            }),
          )

          pick :
              (b : Bool)
              → any (text_eq i.id) h.gate.upstreams ≡ b
              → Ends (
                  if b
                  then run_call call send digest native c i capability args h fs
                  else (ok (not_connected i.name), h, fs))
          pick false l = (refl, refl, inl refl)
          pick true l = ran _ l (
              Always_state Text Called _
                (modify-Keeps Text Called _ (λ t k. k) _ fs (refl, refl, refl)))

      by_mode-Ends :
          (fs : Faults) (m : Mode)
          → verdict i.id capability h.grants (levels c.subject) ≡ m
          → Ends (
              by_mode call send digest native id now expires c name i capability args (some m) h fs)
      by_mode-Ends fs deny v = (refl, refl, inl refl)
      by_mode-Ends fs allow v = execute-Ends fs v
      by_mode-Ends fs approve v =
          let o =
            request_approval call send id now expires (approvals_caller c) i.id i.name capability
              args h.gate fs in
          held-Ends (value o.0) (record h { gate = o.1 }) o.2
            (
              refl,
              refl,
              inl (
                  Always_state ApprovalError (Same h.gate.world) o (
                    request-Same h.gate.world id now expires (approvals_caller c) i.id i.name
                      capability args h.gate fs refl)),
            )

      by_resolve-Ends :
          (o : Result Text Mode × Grants × Faults)
          → Resolved (verdict i.id capability h.grants (levels c.subject)) h.grants o
          → Ends (
              by_mode call send digest native id now expires c name i capability args
                (value o.0)
                (record h { grants = o.1 })
                o.2)
      by_resolve-Ends (ok m, g, fs) r =
          let e : record h { grants = g } ≡ h = ap (λ gs. record h { grants = gs }) r.1 in
          rw e (by_mode-Ends fs m (sym r.0))
      by_resolve-Ends (failed, g, fs) r = (r, refl, inl refl)
      by_resolve-Ends (err e, g, fs) r = elim r [ ]

    found-Ends :
        (part capability : Text) (o : Option Integration) (fs : Faults)
        → cut name ≡ some (part, capability)
        → named c.subject.project_id part h.registry ≡ o
        → Ends (
            by_integration call send digest native id now expires c name capability args
              (some o)
              h
              fs)
    found-Ends part capability none fs p t = (refl, refl, inl refl)
    found-Ends part capability (some i) fs p t =
        by_resolve-Ends part capability i p t (resolve c.subject i.id capability h.grants fs)
          (resolve-verdict c.subject i.id capability h.grants fs)

    parts-Ends :
        (o : Option (Text × Text)) (fs : Faults)
        → cut name ≡ o
        → Ends (by_parts call send digest native id now expires c name args o h fs)
    unfolding statement
    parts-Ends none fs p = (refl, refl, inl refl)
    parts-Ends (some (i, capability)) [] p =
        found-Ends i capability (named c.subject.project_id i h.registry) [] p refl
    parts-Ends (some (i, capability)) (true ∷ fs) p = (refl, refl, inl refl)
    parts-Ends (some (i, capability)) (false ∷ fs) p =
        found-Ends i capability (named c.subject.project_id i h.registry) fs p refl

    -- A call of a tool that is not native, whichever statements the database refuses and whatever the
    -- answer: it changes no grant, no integration and no capability, and it leaves the upstreams as
    -- they were, unless the name has a part before its first "_" that names an integration of the
    -- caller's project, the verdict of the caller's grants for that integration and the rest of the
    -- name is allow, and the integration is connected; then that one call has been made of it.
    pub call_tool-Kept :
        (fs : Faults)
        → has_prefix (codes "aurium_") name ≡ false
        → Ends (call_tool call send digest native id now expires c name args h fs)
    unfolding call_tool
    call_tool-Kept fs n = pick (has_prefix (codes "aurium_") name) n
      where
        pick :
            (b : Bool)
            → b ≡ false
            → Ends (
                (if b
                    then native c name args
                    else by_parts call send digest native id now expires c name args (cut name))
                  h fs)
        pick true n = cc
        pick false n = parts-Ends (cut name) fs refl
