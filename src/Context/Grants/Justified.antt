-- ===== src/Context/Grants/Justified.antt =====
-- The reasons for a permission that ResolvePerm gives.
use aurium.Base.{
  ℕ, zero, suc, ◌≤◌, ◌<◌, ◌≡◌, refl, sym, ap, ◌∙◌, Bool, true, false, not, ◌&&◌, Option, none, some,
  List, [], ◌∷◌, Text, text_eq, is_empty, any, select, All, ◌==◌, ltb, arith, Bool-cases, ◌⊎◌, inl,
  inr, text_eq_sound,
}
use aurium.Db.{Result, Faults, Sql, ◌>>=◌, statement}
use aurium.Db.Rules.{Post, bind_rule, Post-mono}
use aurium.Context.Store.{container, agent, scope_eq, Ref, Perm, none_, read, write, ContextError}
use aurium.Context.Grants.{
  rank, Subject, Level, by_agent, by_role, by_container, by_project, Grant, Access, match_key,
  at_level, best_from, best_grant, parent_in, parent_of, climb, ancestor_from,
  is_ancestor_container, own, read_or, inherited, found_or, resolve_levels, levels, resolve_perm,
}

-- `ancestor` stands somewhere above a container in its chain of parents.
pub data IsAbove (a : Access) (ancestor : Text) : Text → Type 0 where
  parent : (c : Text) → parent_in c a.containers ≡ some ancestor → IsAbove a ancestor c
  above :
      (c p : Text) → parent_in c a.containers ≡ some p → IsAbove a ancestor p → IsAbove a ancestor c

abbrev pub id_at : Level → Subject → Text
id_at by_agent s = s.agent_id
id_at by_role s = s.role
id_at by_container s = s.container_id
id_at by_project s = s.project_id

-- A grant of `p` whose glob matches the key is among the rows.
abbrev pub has_grant : Text → Perm → List Grant → Bool
has_grant key p = any (λ (g : Grant). match_key g.key_glob key && (rank g.perm == rank p))

-- No grant that matches is stronger.
abbrev pub IsTop : Text → Perm → List Grant → Type 0
IsTop key p = All (λ (g : Grant). match_key g.key_glob key ≡ true → rank g.perm ≤ rank p)

-- The reasons for a permission.
pub data IsJustified (a : Access) (s : Subject) (r : Ref) : Perm → Type 0 where
  human : s.is_human ≡ true → IsJustified a s r write
  granted :
      (level : Level) (p : Perm)
      → has_grant r.key p (select (at_level r level (id_at level s)) a.grants) ≡ true
      → IsTop r.key p (select (at_level r level (id_at level s)) a.grants)
      → IsJustified a s r p
  inherits :
      scope_eq r.scope container ≡ true
      → IsAbove a r.scope_id s.container_id
      → IsJustified a s r read
  owns_container :
      scope_eq r.scope container ≡ true → r.scope_id ≡ s.container_id → IsJustified a s r write
  owns_agent : scope_eq r.scope agent ≡ true → r.scope_id ≡ s.agent_id → IsJustified a s r write
  nothing : IsJustified a s r none_

best_from-attained :
    (key : Text) (best : Perm) (found : Bool) (gs : List Grant)
    → let p = (best_from key best found gs).0 in (p ≡ best) ⊎ (has_grant key p gs ≡ true)
unfolding best_from
best_from-attained key best found [] = inl refl
best_from-attained key best found (g ∷ gs) =
    let kept = best_from-attained key best true gs in
    let raised = best_from-attained key g.perm true gs in
    let skipped = best_from-attained key best found gs in ground arith

IsTop-same : (key : Text) (p q : Perm) (gs : List Grant) → p ≡ q → IsTop key q gs → IsTop key p gs
IsTop-same key p q gs e h = rw e h

-- What `bestGrant` finds among the rows is at least as strong as every grant that matches.
best_from-strongest :
    (key : Text) (best : Perm) (found : Bool) (gs : List Grant)
    → let p = (best_from key best found gs).0 in (rank best ≤ rank p) × IsTop key p gs
unfolding best_from
best_from-strongest key best found [] = (omega arith, tt)
best_from-strongest key best found (g ∷ gs) = elim (Bool-cases (match_key g.key_glob key)) [
  | inr off ↦
      let skipped = best_from-strongest key best found gs in
      let same : (best_from key best found (g ∷ gs)).0 ≡ (best_from key best found gs).0 =
        rw off refl in
      (
        omega (arith, ap rank same, skipped.0),
        ((λ h. absurd cc), IsTop-same key _ _ gs same skipped.1),
      )
  | inl on ↦ elim (Bool-cases (ltb (rank best) (rank g.perm))) [
    | inl less ↦
        let raised = best_from-strongest key g.perm true gs in
        let weaker : rank best < rank g.perm = ground arith in
        let same : (best_from key best found (g ∷ gs)).0 ≡ (best_from key g.perm true gs).0 =
          rw (on, less) refl in
        (
          omega (arith, ap rank same, raised.0),
          ((λ h. omega (arith, ap rank same, raised.0)), IsTop-same key _ _ gs same raised.1),
        )
    | inr no_less ↦
        let kept = best_from-strongest key best true gs in
        let stronger : rank g.perm ≤ rank best = ground arith in
        let same : (best_from key best found (g ∷ gs)).0 ≡ (best_from key best true gs).0 =
          rw (on, no_less) refl in
        (
          omega (arith, ap rank same, kept.0),
          ((λ h. omega (arith, ap rank same, kept.0)), IsTop-same key _ _ gs same kept.1),
        )
  ]
]

module _ (a : Access) where
  -- What holds of a run that only reads.
  abbrev pub Answers :
      {A : Type 0} → (A → Type 0) → Result ContextError A × Access × Faults → Type 0
  Answers P = Post (λ x t. P x × (t ≡ a)) (λ _ _. ⊥) (λ t. t ≡ a)

  bind-Answers :
      {A B : Type 0} (P : A → Type 0) (Q : B → Type 0) (m : Sql ContextError Access A)
      (f : A → Sql ContextError Access B) (fs : Faults)
      → Answers P (m a fs)
      → ((x : A) (fs : Faults) → P x → Answers Q (f x a fs))
      → Answers Q ((m >>= f) a fs)
  bind-Answers P Q m f fs h k =
      bind_rule (λ x t. Q x × (t ≡ a)) (λ _ _. ⊥) (λ t. t ≡ a) (λ x t. P x × (t ≡ a)) m f a fs h
        (λ x t gs h. rw h.1 (k x gs h.0))

  parent_of-Answers :
      (c : Text) (fs : Faults)
      → Answers (λ o. (o ≡ none) ⊎ (o ≡ parent_in c a.containers)) (parent_of c a fs)
  unfolding statement
  parent_of-Answers c [] = (inr refl, refl)
  parent_of-Answers c (true ∷ fs) = (inl refl, refl)
  parent_of-Answers c (false ∷ fs) = (inr refl, refl)

  module _ (ancestor : Text) (seen : List Text) where
    climb-Answers :
        (c : Text) (next : Text → Sql ContextError Access Bool)
        → ((p : Text) (gs : Faults) → Answers (λ b. b ≡ true → IsAbove a ancestor p) (next p a gs))
        → (o : Option Text) (gs : Faults) → (o ≡ none) ⊎ (o ≡ parent_in c a.containers)
        → Answers (λ b. b ≡ true → IsAbove a ancestor c) (climb ancestor seen next o a gs)
    climb-Answers c next ih none gs h = (λ h. absurd cc, refl)
    climb-Answers c next ih (some p) gs (inl h) = absurd cc
    climb-Answers c next ih (some p) gs (inr h) = elim (Bool-cases (is_empty p)) [
      | inl top ↦ rw top (λ h. absurd cc, refl)
      | inr on ↦ rw on (elim (Bool-cases (text_eq p ancestor)) [
        | inl found ↦
            rw found
              (λ _. parent c (sym h ∙ ap (λ t. some t) (text_eq_sound p ancestor found)), refl)
        | inr other ↦ rw other (elim (Bool-cases (any (text_eq p) seen)) [
          | inl cycle ↦ rw cycle (λ h. absurd cc, refl)
          | inr new ↦ rw new (
              Post-mono (next p a gs) (λ b t k. (λ b_true. above c p (sym h) (k.0 b_true), k.1))
                (λ _ _ h. h) (λ _ h. h) (ih p gs))
        ])
      ])
    ]

  -- A climb that succeeds has found the ancestor.
  ancestor_from-Answers :
      (n : ℕ) (ancestor : Text) (seen : List Text) (c : Text) (fs : Faults)
      → Answers (λ b. b ≡ true → IsAbove a ancestor c) (ancestor_from n ancestor seen c a fs)
  unfolding ancestor_from
  ancestor_from-Answers zero ancestor seen c fs = (λ h. absurd cc, refl)
  ancestor_from-Answers (suc n) ancestor seen c fs =
      bind-Answers (λ o. (o ≡ none) ⊎ (o ≡ parent_in c a.containers))
        (λ b. b ≡ true → IsAbove a ancestor c) (parent_of c)
        (climb ancestor seen (λ p. ancestor_from n ancestor (p ∷ seen) p)) fs
        (parent_of-Answers c fs)
        (climb-Answers ancestor seen c (λ p. ancestor_from n ancestor (p ∷ seen) p)
          (λ p gs. ancestor_from-Answers n ancestor (p ∷ seen) p gs))

  module _ (s : Subject) (r : Ref) where
    own-IsJustified : IsJustified a s r (own s r)
    own-IsJustified =
        elim (Bool-cases (scope_eq r.scope container && text_eq r.scope_id s.container_id)) [
          | inl on ↦ rw on (
              owns_container (ground arith)
                (text_eq_sound r.scope_id s.container_id (ground arith)))
          | inr off ↦
              rw off (elim (Bool-cases (scope_eq r.scope agent && text_eq r.scope_id s.agent_id)) [
                | inl on ↦
                    rw on (
                      owns_agent (ground arith)
                        (text_eq_sound r.scope_id s.agent_id (ground arith)))
                | inr off ↦ rw off nothing
              ])
        ]

    inherited-Answers : (fs : Faults) → Answers (IsJustified a s r) (inherited s r a fs)
    unfolding is_ancestor_container
    inherited-Answers fs =
        elim (Bool-cases (
          scope_eq r.scope container
          && (not (is_empty s.container_id) && not (text_eq r.scope_id s.container_id)))) [
            | inr off ↦ rw off (own-IsJustified, refl)
            | inl on ↦ rw on (
                bind-Answers (λ b. b ≡ true → IsAbove a r.scope_id s.container_id)
                  (IsJustified a s r) (is_ancestor_container s.container_id r.scope_id)
                  (read_or (own s r)) fs (ancestor_from-Answers 64 r.scope_id [] s.container_id fs)
                  (λ b gs h. answered b gs (ground arith) h))
          ]
      where
        answered :
            (b : Bool) (gs : Faults)
            → scope_eq r.scope container ≡ true
            → (b ≡ true → IsAbove a r.scope_id s.container_id)
            → Answers (IsJustified a s r) (read_or (own s r) b a gs)
        answered true gs k h = (inherits k (h refl), refl)
        answered false gs k h = (own-IsJustified, refl)

    best_grant-Answers :
        (level : Level) (subject : Text) (fs : Faults)
        → Answers
            (λ o. o ≡ best_from r.key none_ false (select (at_level r level subject) a.grants))
            (best_grant r level subject a fs)
    unfolding statement
    best_grant-Answers level subject [] = (refl, refl)
    best_grant-Answers level subject (true ∷ fs) = refl
    best_grant-Answers level subject (false ∷ fs) = (refl, refl)

    best-IsJustified :
        (level : Level)
        → IsJustified a s r
            (best_from r.key none_ false (select (at_level r level (id_at level s)) a.grants)).0
    best-IsJustified level =
        elim (best_from-attained r.key none_ false
          (select (at_level r level (id_at level s)) a.grants)) [
            | inl bottom ↦ rw bottom nothing
            | inr found ↦
                granted level _ found
                  (best_from-strongest r.key none_ false
                    (select (at_level r level (id_at level s)) a.grants)).1
          ]

    found_or-Answers :
        (next : Sql ContextError Access Perm) (o : Perm × Bool) (gs : Faults)
        → IsJustified a s r o.0
        → Answers (IsJustified a s r) (next a gs)
        → Answers (IsJustified a s r) (found_or next o a gs)
    found_or-Answers next (p, true) gs k h = (k, refl)
    found_or-Answers next (p, false) gs k h = h

    resolve_levels-Answers :
        (ls : List (Level × Text)) (fs : Faults)
        → All (λ l. l.1 ≡ id_at l.0 s) ls
        → Answers (IsJustified a s r) (resolve_levels s r ls a fs)
    unfolding resolve_levels
    resolve_levels-Answers [] fs h = inherited-Answers fs
    resolve_levels-Answers ((level, subject) ∷ rest) fs (h, hs) =
        elim (Bool-cases (is_empty subject)) [
          | inl none_given ↦ rw none_given (resolve_levels-Answers rest fs hs)
          | inr given ↦ rw given (
              bind-Answers
                (λ o. o ≡ best_from r.key none_ false (select (at_level r level subject) a.grants))
                (IsJustified a s r) (best_grant r level subject)
                (found_or (resolve_levels s r rest)) fs (best_grant-Answers level subject fs)
                (λ o gs k.
                  found_or-Answers (resolve_levels s r rest) o gs
                    (rw (k, h) (best-IsJustified level)) (resolve_levels-Answers rest gs hs)))
        ]

-- A permission is given only for a reason: the subject is a human, or the strongest grant of one of
-- its levels that matches the item gives it, or it is a read of the context of a container above
-- its own, or the item is its own container's or its own. The tables are left as they are, and a
-- failing database gives no permission that has no reason.
pub resolve_perm-IsJustified :
    (a : Access) (s : Subject) (r : Ref) (fs : Faults)
    → Answers a (IsJustified a s r) (resolve_perm s r a fs)
unfolding resolve_perm
resolve_perm-IsJustified a s r fs = elim (Bool-cases s.is_human) [
  | inl on ↦ simp on (human on, refl)
  | inr off ↦
      simp off (resolve_levels-Answers a s r (levels s) fs (refl, (refl, (refl, (refl, tt)))))
]
