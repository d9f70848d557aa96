-- ===== src/Stack/Forest/Cycles.antt =====
-- Which rows the order has: those under a root.
use aurium.Base.{
  ◌≡◌, ap, ◌∙◌, Bool, true, false, not, ◌&&◌, ◌||◌, List, [], ◌∷◌, ◌++◌, Text, text_eq, select,
  length, arith, inl, inr, All, All-both, All-select, All-select_kept, All-append, All-sort_by,
  Bool-cases, text_eq_sound, and_true,
}
use aurium.Stack.Forest.{Container, is_root, is_child, sort_nodes, roots, children, topo_order}
use aurium.Stack.Forest.Count.{In}
use aurium.Stack.Forest.Order.{walk-keeps}

-- A set of ids whose rows have a parent that is a row, and in the set.
abbrev pub IsCyclic : List Container → (Text → Bool) → Type 0
IsCyclic cs s =
    All
      (λ (c : Container). (not (s c.id) || (not (is_root cs c) && s c.parent_container_id)) ≡ true)
      cs

module _ (cs : List Container) (s : Text → Bool) (cyclic : IsCyclic cs s) where
  abbrev Outside : Container → Type 0
  Outside n = s n.id ≡ false

  no_member : (i : Text) (out : List Container) → All Outside out → In i out → s i ≡ false
  no_member i [] h m = cc
  no_member i (x ∷ out) h m = elim (Bool-cases (text_eq i x.id)) [
    | inl e ↦ let f : i ≡ x.id = text_eq_sound i x.id e in simp (f, h.0)
    | inr e ↦ no_member i out h.1 (ground arith)
  ]

  born :
      (out : List Container) (i : Text) → All Outside out → In i out → All Outside (children cs i)
  unfolding sort_nodes
  born out i h m = All-sort_by _ Outside _ (
      All-both _ _ Outside
        (λ c k q.
          let e : c.parent_container_id ≡ i =
            text_eq_sound c.parent_container_id i (and_true _ _ k).1 in
          let f : s c.parent_container_id ≡ false = ap s e ∙ no_member i out h m in ground arith)
        (select (is_child cs i) cs) (All-select (is_child cs i) cs)
        (All-select_kept _ (is_child cs i) cs cyclic))

  root_Outside : All Outside (roots cs)
  unfolding sort_nodes
  root_Outside = All-sort_by _ Outside _ (
      All-both _ _ Outside (λ c k q. ground arith) (select (is_root cs) cs)
        (All-select (is_root cs) cs) (All-select_kept _ (is_root cs) cs cyclic))

  snoc :
      (out : List Container) (n : Container)
      → All Outside out
      → Outside n
      → All Outside (out ++ n ∷ [])
  snoc out n h k = All-append Outside out (n ∷ []) h (k, tt)

  -- Rows whose chain of parents never ends are in no tree: where each row of a set has a parent that is
  -- a row of the set too, TopoOrder of the roots has none of them.
  pub topo_order-IsCyclic : All (λ (c : Container). s c.id ≡ false) (topo_order cs (roots cs))
  unfolding topo_order
  topo_order-IsCyclic =
      walk-keeps (children cs) (λ out. All Outside out) (λ _ n. Outside n) (λ xs ys g n r. r) born
        (λ out n h f r. snoc out n h r) (length cs) (roots cs) tt root_Outside
