-- ===== src/Stack/Forest/Complete.antt =====
-- That no row is left out where parents do not go in a circle.
use aurium.Base.{
  ◌≡◌, ap, ◌∙◌, ℕ, zero, suc, ◌≤◌, ◌<◌, Bool, true, false, not, ◌||◌, List, [], ◌∷◌, Text, text_eq,
  select, length, ltb, ltb→lt, arith, inl, inr, All, All-map, All-both, All-select_kept,
  All-sort_by, any-sort_by, is_empty, Bool-cases, text_eq_sound, text_eq_refl, or_false,
}
use aurium.Stack.Forest.{
  Container, is_id, has_parent, is_root, is_child, sort_nodes, roots, children, topo_order,
}
use aurium.Stack.Forest.Count.{In, In-same, unseen}
use aurium.Stack.Forest.Walk.{walk_lem}

-- A row that a test keeps is among those that are kept.
abbrev Selects : List Container → Container → Type 0
Selects cs c = (In c.id cs) × ((p : Container → Bool) → p c ≡ true → In c.id (select p cs))

Selects-cons : (x c : Container) (cs : List Container) → Selects cs c → Selects (x ∷ cs) c
Selects-cons x c cs h = (ground (arith, h.0), λ p k. let r = h.1 p k in ground arith)

All-Selects : (cs : List Container) → All (Selects cs) cs
All-Selects [] = tt
All-Selects (c ∷ cs) = (
  (ground (arith, text_eq_refl c.id), λ p k. ground (arith, text_eq_refl c.id)),
  All-map (Selects cs) (Selects (c ∷ cs)) (λ x h. Selects-cons c x cs h) cs (All-Selects cs),
)

-- A row by its id.
record Row (P : Container → Type 0) (i : Text) : Type 0 where
  row : Container
  is_it : text_eq i row.id ≡ true
  holds : P row

row_of : (P : Container → Type 0) (i : Text) (cs : List Container) → All P cs → In i cs → Row P i
row_of P i [] h m = cc
row_of P i (c ∷ cs) h m = elim (Bool-cases (text_eq i c.id)) [
  | inl e ↦ record { row = c; is_it = e; holds = h.0 }
  | inr e ↦ row_of P i cs h.1 (ground arith)
]

Inside_In :
    (i : Text) (out ns : List Container)
    → All (λ (k : Container). In k.id out) ns
    → In i ns
    → In i out
Inside_In i out [] h m = cc
Inside_In i out (n ∷ ns) h m = elim (Bool-cases (text_eq i n.id)) [
  | inl e ↦ In-same i n.id out e ∙ h.0
  | inr e ↦ Inside_In i out ns h.1 (ground arith)
]

unseen_all : (cs : List Container) → unseen [] cs ≤ length cs
unseen_all [] = omega arith
unseen_all (c ∷ cs) = omega (arith, unseen_all cs)

-- A rank that grows from a parent to its child, where the parent is a row.
abbrev pub IsRanked : List Container → (Text → ℕ) → Type 0
IsRanked cs rank =
    All (λ (c : Container). (is_root cs c || ltb (rank c.parent_container_id) (rank c.id)) ≡ true)
      cs

module _ (cs : List Container) (rank : Text → ℕ) (ranked : IsRanked cs rank) where
  abbrev Good : Container → Type 0
  Good c = ((is_root cs c || ltb (rank c.parent_container_id) (rank c.id)) ≡ true) × Selects cs c

  good : All Good cs
  good = All-both _ _ Good (λ c h k. (h, k)) cs ranked (All-Selects cs)

  known : (p : Container → Bool) → All (λ (c : Container). In c.id cs) (sort_nodes (select p cs))
  unfolding sort_nodes
  known p =
      All-sort_by _ (λ (c : Container). In c.id cs) _
        (All-select_kept _ p cs
          (All-map (Selects cs) (λ (c : Container). In c.id cs) (λ c h. h.0) cs (All-Selects cs)))

  kept :
      (p : Container → Bool) (c : Container)
      → Selects cs c
      → p c ≡ true
      → In c.id (sort_nodes (select p cs))
  unfolding sort_nodes
  kept p c h k = any-sort_by _ (is_id c.id) (select p cs) ∙ h.1 p k

  abbrev order : List Container
  order = topo_order cs (roots cs)

  walked :
      All (λ (k : Container). In k.id order) (roots cs)
      × ((i : Text) → In i order → All (λ (k : Container). In k.id order) (children cs i))
  unfolding topo_order
  walked =
      let w =
        walk_lem cs (children cs) (λ i. known (is_child cs i)) (length cs) (roots cs)
          (known (is_root cs)) (unseen_all cs) in
      (w.0, λ i h. elim (w.1 i h) [ inl o ↦ cc | inr k ↦ k ])

  none_less : (n : ℕ) → ¬ (n < 0)
  none_less n = omega arith

  at_root : (c : Container) → Good c → is_root cs c ≡ true → In c.id order
  at_root c g e = Inside_In c.id order (roots cs) walked.0 (kept (is_root cs) c g.1 e)

  under :
      (c : Container)
      → Good c
      → is_root cs c ≡ false
      → In c.parent_container_id order
      → In c.id order
  under c g e h =
      Inside_In c.id order (children cs c.parent_container_id) (walked.1 c.parent_container_id h) (
        kept (is_child cs c.parent_container_id) c g.1
          (ground (arith, e, text_eq_refl c.parent_container_id)))

  listed : (n : ℕ) (i : Text) → In i cs → rank i < n → In i order
  listed zero i m r = elim (none_less (rank i) r) [ ]
  listed (suc n) i m r =
      let found = row_of Good i cs good m in
      let c = found.row in
      let same : rank i ≡ rank c.id = ap rank (text_eq_sound i c.id found.is_it) in
      let here : In c.id order = elim (Bool-cases (is_root cs c)) [
        | inl e ↦ at_root c found.holds e
        | inr e ↦
            let o = or_false (is_empty c.parent_container_id) (not (has_parent cs c)) e in
            let less : ltb (rank c.parent_container_id) (rank c.id) ≡ true =
              ground (arith, found.holds.0, e) in
            let lower = ltb→lt (rank c.parent_container_id) (rank c.id) less in
            under c found.holds e
              (listed n c.parent_container_id (ground (arith, o.1)) (omega arith))
      ] in
      In-same i c.id order found.is_it ∙ here

  -- Where the rows have a rank that grows from each parent that is a row to its child: TopoOrder of the
  -- roots that BuildForest makes has every row, an orphan too.
  pub topo_order_complete : All (λ (c : Container). In c.id (topo_order cs (roots cs))) cs
  topo_order_complete =
      All-map (Selects cs) (λ (c : Container). In c.id order)
        (λ c h. listed (suc (rank c.id)) c.id h.0 (omega arith)) cs (All-Selects cs)
