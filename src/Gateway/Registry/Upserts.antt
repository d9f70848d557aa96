-- ===== src/Gateway/Registry/Upserts.antt =====
-- What registering an integration's tools leaves in the table.
use aurium.Base.{
  ◌≡◌, refl, ap, ◌∙◌, Bool, true, false, not, Option, none, some, List, [], ◌∷◌, Text, text_eq,
  text_eq_sound, text_eq_refl, text_eq_sym, text_eq_flip, text_eq_trans, or_false, any, find, map,
  arith, if◌then◌else◌, Bool-cases, inl, inr, and_true,
}
use aurium.Db.{Result, ok, failed, Faults, statement, modify}
use aurium.Db.Rules.{Post, Reply, statement_rule, bind_rule, Post-mono}
use aurium.Gateway.Risk.{Risk}
use aurium.Gateway.Registry.{
  Integration, Capability, Tool, Registry, is_key, risk_for, capability_of, upsert,
  insert_capability, mark_removed, register_each, register_capabilities,
}

abbrev pub look : Text → Text → List Capability → Option Capability
look i n = find (is_key i n)

abbrev pub is_live : Option Capability → Bool
is_live none = false
is_live (some c) = not c.removed

abbrev pub withdrawn : Option Capability → Option Capability
withdrawn none = none
withdrawn (some c) = some (record c { removed = true })

same_key :
    (j n : Text) (x c : Capability)
    → is_key c.integration_id c.name x ≡ true
    → is_key j n x ≡ is_key j n c
same_key j n x c h =
    let (p, q) = and_true _ _ h in
    let e : x.integration_id ≡ c.integration_id = text_eq_sound _ _ p in
    let f : x.name ≡ c.name = text_eq_sound _ _ q in simp (e, f)

own_key :
    (j n : Text) (c x : Capability)
    → is_key j n c ≡ true
    → is_key c.integration_id c.name x ≡ is_key j n x
own_key j n c x h =
    let (p, q) = and_true _ _ h in
    let e : c.integration_id ≡ j = text_eq_sound _ _ p in
    let f : c.name ≡ n = text_eq_sound _ _ q in simp (e, f)

look-upsert_new :
    (j n : Text) (c : Capability) (xs : List Capability)
    → is_key j n c ≡ true
    → look j n (upsert c xs) ≡ some c
unfolding upsert
look-upsert_new j n c [] h = simp h
look-upsert_new j n c (x ∷ xs) h = ground (arith, look-upsert_new j n c xs, own_key j n c x)

look-upsert_old :
    (j n : Text) (c : Capability) (xs : List Capability)
    → is_key j n c ≡ false
    → look j n (upsert c xs) ≡ look j n xs
unfolding upsert
look-upsert_old j n c [] h = simp h
look-upsert_old j n c (x ∷ xs) h = ground (arith, look-upsert_old j n c xs, same_key j n x c)

look-mark_other :
    (i j n : Text) (xs : List Capability)
    → text_eq j i ≡ false
    → look j n (map (mark_removed i) xs) ≡ look j n xs
look-mark_other i j n [] h = refl
look-mark_other i j n (x ∷ xs) h = ground (
  arith,
  look-mark_other i j n xs,
  text_eq_trans j x.integration_id i,
  text_eq_flip x.integration_id j,
)

look-mark_own :
    (i n : Text) (xs : List Capability)
    → look i n (map (mark_removed i) xs) ≡ withdrawn (look i n xs)
look-mark_own i n [] = refl
look-mark_own i n (x ∷ xs) = ground (arith, look-mark_own i n xs)

abbrev pub offers_name : Text → List Tool → Bool
offers_name n = any (λ (t : Tool). text_eq t.name n)

module _ (i : Text) where
  abbrev pub Others : List Capability → List Capability → Type 0
  Others s t = (j n : Text) → text_eq j i ≡ false → look j n t ≡ look j n s

  Others-trans : (s t u : List Capability) → Others s t → Others t u → Others s u
  Others-trans s t u p q j n h = q j n h ∙ p j n h

  -- What holds once `ts` are registered.
  abbrev Added : List Tool → List Capability → List Capability → Type 0
  Added ts s t =
      Others s t
      × ((n : Text) → offers_name n ts ≡ true → is_live (look i n t) ≡ true)
      × ((n : Text) → offers_name n ts ≡ false → look i n t ≡ look i n s)

  module _ (overrides : List (Text × Text)) (s : Registry) where
    abbrev pub Run :
        {A : Type 0} → (A → Registry → Type 0) → Result Text A × Registry × Faults → Type 0
    Run Q =
        Post Q (λ _ t. Others s.capabilities t.capabilities)
          (λ t. Others s.capabilities t.capabilities)

    insert-Reply :
        (t : Tool) (r : Option Risk) (u : Registry)
        → Others s.capabilities u.capabilities
        → Reply
            (λ (_ : Capability) (v : Registry). Added (t ∷ []) u.capabilities v.capabilities)
            (λ _ v. Others s.capabilities v.capabilities)
            (λ v. Others s.capabilities v.capabilities)
            (insert_capability i t r u)
    insert-Reply t none u o = o
    insert-Reply t (some r) u o = pick (any (λ (i' : Integration). text_eq i i'.id) u.integrations)
      where
        c : Capability
        c = capability_of i t r

        new_live : (n : Text) (o : Option Capability) → o ≡ some c → is_live o ≡ true
        new_live n o e = simp e

        pick :
            (b : Bool)
            → Reply {E = Text}
                (λ (_ : Capability) (v : Registry). Added (t ∷ []) u.capabilities v.capabilities)
                (λ _ v. Others s.capabilities v.capabilities)
                (λ v. Others s.capabilities v.capabilities)
                (if b
                  then (ok c, record u { capabilities = upsert c u.capabilities })
                  else (failed, u))
        pick false = o
        pick true = (
          λ j n h. look-upsert_old j n c u.capabilities (ground (arith, text_eq_sym i j)),
          λ n h.
              new_live n (look i n (upsert c u.capabilities))
                (look-upsert_new i n c u.capabilities (ground (arith, text_eq_refl i))),
          λ n h. look-upsert_old i n c u.capabilities (ground (arith, text_eq_refl i)),
        )

    Added-cons :
        (t : Tool) (ts : List Tool) (a b c : List Capability)
        → Added (t ∷ []) a b
        → Added ts b c
        → Added (t ∷ ts) a c
    Added-cons t ts a b c p q = (
      Others-trans a b c p.0 q.0,
      λ n h. elim (Bool-cases (offers_name n ts)) [
        | inl y ↦ q.1 n y
        | inr y ↦ ap is_live (q.2 n y) ∙ p.1 n (ground arith)
      ],
      λ n h.
          let o = or_false (text_eq t.name n) (offers_name n ts) h in
          q.2 n o.1 ∙ p.2 n (ground arith),
    )

    each-Run :
        (ts : List Tool) (u : Registry) (fs : Faults)
        → Others s.capabilities u.capabilities
        → Run (λ _ v. Added ts u.capabilities v.capabilities) (register_each i overrides ts u fs)
    unfolding register_each
    each-Run [] u fs o = ((λ j n h. refl), (λ n h. cc), λ n h. refl)
    each-Run (t ∷ ts) u fs o =
        let new = statement (insert_capability i t (risk_for overrides t.name)) in
        bind_rule _ _ _ (λ _ v. Added (t ∷ []) u.capabilities v.capabilities) new _ u fs
          (statement_rule _ _ _ (insert_capability i t (risk_for overrides t.name)) u fs o
            (insert-Reply t (risk_for overrides t.name) u o))
          (λ c v fs k.
            bind_rule _ _ _ (λ _ w. Added ts v.capabilities w.capabilities)
              (register_each i overrides ts) _ v fs
              (each-Run ts v fs (Others-trans s.capabilities u.capabilities v.capabilities o k.0))
              (λ cs w fs l. Added-cons t ts u.capabilities v.capabilities w.capabilities k l))

    -- What `RegisterCapabilities` leaves: of the tools, rows that are not removed; of the others, their
    -- rows removed; and nothing else is other.
    abbrev pub Registered : List Tool → List Capability → Type 0
    Registered ts t =
        Others s.capabilities t
        × ((n : Text) → offers_name n ts ≡ true → is_live (look i n t) ≡ true)
        × ((n : Text) → offers_name n ts ≡ false → look i n t ≡ withdrawn (look i n s.capabilities))

    -- Whichever statements the database refuses, RegisterCapabilities leaves the capabilities of every
    -- other integration as they were; and when it returns no error, each tool that it was given has a row
    -- that is not removed, and a capability of the integration that was not among the tools keeps its
    -- row, which is now removed, or has still none.
    pub register_capabilities-Registered :
        (ts : List Tool) (fs : Faults)
        → Run (λ _ t. Registered ts t.capabilities) (register_capabilities i ts overrides s fs)
    unfolding register_capabilities
    register_capabilities-Registered ts fs =
        let marked = map (mark_removed i) s.capabilities in
        bind_rule _ _ _ (λ _ v. v.capabilities ≡ marked)
          (modify
            (λ (d : Registry). record d { capabilities = map (mark_removed i) d.capabilities }))
          _ s fs (statement_rule _ _ _ _ s fs (λ j n h. refl) refl)
          (λ _ v fs e.
            let o : Others s.capabilities v.capabilities =
              λ j n h. ap (look j n) e ∙ look-mark_other i j n s.capabilities h in
            Post-mono (register_each i overrides ts v fs)
              (λ _ w k. (
                Others-trans s.capabilities v.capabilities w.capabilities o k.0,
                k.1,
                λ n h. k.2 n h ∙ ap (look i n) e ∙ look-mark_own i n s.capabilities,
              ))
              (λ _ _ k. k) (λ _ k. k) (each-Run ts v fs o))
