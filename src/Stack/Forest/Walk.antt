-- ===== src/Stack/Forest/Walk.antt =====
-- What a walk with enough fuel has seen.
use aurium.Base.{
  ◌≡◌, refl, ℕ, zero, suc, ◌≤◌, ◌<◌, Bool, true, false, List, [], ◌∷◌, ◌++◌, Text, any, arith,
  text_eq_refl, text_eq_sound, Bool-cases, ◌⊎◌, inl, inr, All,
}
use aurium.Stack.Forest.{Container, is_id, each, visit}
use aurium.Stack.Forest.Count.{
  In, In-append, any-snoc, unseen, unseen_mono, unseen_less, unseen_none,
}

-- A walk never forgets.
abbrev pub Grows : List Container → List Container → Type 0
Grows xs ys = (i : Text) → In i xs → In i ys

each-Grows :
    (f : List Container → Container → List Container)
    → ((out : List Container) (n : Container) → Grows out (f out n))
    → (out ns : List Container) → Grows out (each f out ns)
each-Grows f g out [] i h = h
each-Grows f g out (n ∷ ns) i h = each-Grows f g (f out n) ns i (g out n i h)

chosen_Grows :
    (b : Bool) (out all : List Container)
    → Grows out all
    → Grows out (elim b [ true ↦ out | false ↦ all ])
chosen_Grows true out all g = λ i h. h
chosen_Grows false out all g = g

pub visit-Grows :
    (fuel : ℕ) (kids : Text → List Container) (out : List Container) (n : Container)
    → Grows out (visit fuel kids out n)
unfolding visit
visit-Grows zero kids out n = λ i h. h
visit-Grows (suc fuel) kids out n =
    chosen_Grows (any (is_id n.id) out) out (each (visit fuel kids) (out ++ n ∷ []) (kids n.id))
      (λ i h.
        each-Grows (visit fuel kids) (visit-Grows fuel kids) (out ++ n ∷ []) (kids n.id) i
          (In-append i out (n ∷ []) h))

module _ (cs : List Container) (kids : Text → List Container) where
  abbrev Known : List Container → Type 0
  Known = All (λ (c : Container). In c.id cs)

  module _ (known : (i : Text) → Known (kids i)) where
    abbrev Inside : List Container → List Container → Type 0
    Inside out ns = All (λ (k : Container). In k.id out) ns

    Inside-Grows : (xs ys ns : List Container) → Grows xs ys → Inside xs ns → Inside ys ns
    Inside-Grows xs ys [] g h = tt
    Inside-Grows xs ys (n ∷ ns) g h = (g n.id h.0, Inside-Grows xs ys ns g h.1)

    -- Of what was put out since, the children are out too.
    abbrev pub Closed : List Container → List Container → Type 0
    Closed out more = (i : Text) → In i more → In i out ⊎ Inside more (kids i)

    Closed-trans :
        (xs ys zs : List Container) → Grows ys zs → Closed xs ys → Closed ys zs → Closed xs zs
    Closed-trans xs ys zs g p q i h = elim (q i h) [
      | inr k ↦ inr k
      | inl m ↦ elim (p i m) [ inl o ↦ inl o | inr k ↦ inr (Inside-Grows ys zs (kids i) g k) ]
    ]

    -- Fuel for what is unseen.
    abbrev Visits : (List Container → Container → List Container) → ℕ → Type 0
    Visits f fuel =
        (out : List Container) (n : Container)
        → In n.id cs
        → unseen out cs ≤ fuel
        → In n.id (f out n) × Closed out (f out n)

    each_Walk :
        (f : List Container → Container → List Container) (fuel : ℕ)
        → ((out : List Container) (n : Container) → Grows out (f out n))
        → Visits f fuel
        → (out ns : List Container) → Known ns
        → unseen out cs ≤ fuel
        → Inside (each f out ns) ns × Closed out (each f out ns)
    each_Walk f fuel g v out [] k u = (tt, λ i h. inl h)
    each_Walk f fuel g v out (n ∷ ns) k u =
        let here = v out n k.0 u in
        let less : unseen (f out n) cs ≤ unseen out cs = unseen_mono out (f out n) (g out n) cs in
        let rest = each_Walk f fuel g v (f out n) ns k.1 (omega arith) in
        let grown = each-Grows f g (f out n) ns in
        (
          (grown n.id here.0, rest.0),
          Closed-trans out (f out n) (each f (f out n) ns) grown here.1 rest.1,
        )

    visit_step :
        (fuel : ℕ) → Visits (visit fuel kids) fuel → Visits (visit (suc fuel) kids) (suc fuel)
    unfolding visit
    visit_step fuel v out n m u = pick (any (is_id n.id) out) refl
      where
        out1 : List Container
        out1 = out ++ n ∷ []

        last_In : In n.id out1
        last_In = ground (arith, any-snoc (is_id n.id) out n, text_eq_refl n.id)

        grown : Grows out out1
        grown i h = In-append i out (n ∷ []) h

        new : (i : Text) → In i out1 → In i out ⊎ (i ≡ n.id)
        new i h = elim (Bool-cases (any (is_id i) out)) [
          | inl y ↦ inl y
          | inr y ↦ inr (text_eq_sound i n.id (ground (arith, any-snoc (is_id i) out n)))
        ]

        all : List Container
        all = each (visit fuel kids) out1 (kids n.id)

        closed : Inside all (kids n.id) → Closed out1 all → Closed out all
        closed ins c i h = elim (c i h) [
          | inr k ↦ inr k
          | inl o ↦ elim (new i o) [ inl y ↦ inl y | inr e ↦ inr (rw e ins) ]
        ]

        seen : In n.id out → (In n.id out) × Closed out out
        seen h = (h, λ i h. inl h)

        fresh : any (is_id n.id) out ≡ false → (In n.id all) × Closed out all
        fresh e =
            let less : unseen out1 cs < unseen out cs =
              unseen_less out out1 grown n.id cs m e last_In in
            let rest =
              each_Walk (visit fuel kids) fuel (visit-Grows fuel kids) v out1 (kids n.id)
                (known n.id) (omega arith) in
            (
              each-Grows (visit fuel kids) (visit-Grows fuel kids) out1 (kids n.id) n.id last_In,
              closed rest.0 rest.1,
            )

        pick :
            (b : Bool)
            → any (is_id n.id) out ≡ b
            → (In n.id (elim b [ true ↦ out | false ↦ all ]))
              × Closed out (elim b [ true ↦ out | false ↦ all ])
        pick true e = seen e
        pick false e = fresh e

    visit_Walk : (fuel : ℕ) → Visits (visit fuel kids) fuel
    unfolding visit
    visit_Walk zero out n m u = (unseen_none n.id out cs m (omega arith), λ i h. inl h)
    visit_Walk (suc fuel) out n m u = visit_step fuel (visit_Walk fuel) out n m u

    -- From nothing: the nodes that are asked for, and with each its children.
    pub walk_lem :
        (fuel : ℕ) (ns : List Container)
        → Known ns
        → unseen [] cs ≤ fuel
        → Inside (each (visit fuel kids) [] ns) ns × Closed [] (each (visit fuel kids) [] ns)
    walk_lem fuel ns k u =
        each_Walk (visit fuel kids) fuel (visit-Grows fuel kids) (visit_Walk fuel) [] ns k u
