-- ===== src/Stack/Forest.antt =====
-- internal/stack/forest.go: containers as trees, and the orders in which trees are walked.
--
-- A node is the row of its container: ids are a primary key, and `children` gives the node's list.
-- A walk recurs on fuel, for the depth of its calls, and starts with as much as there are rows.
pub mod Count
pub mod Walk
pub mod Order
pub mod Cycles
pub mod Complete
use aurium.Base.{
  ℕ, zero, suc, ◌+◌, Bool, true, false, not, ◌&&◌, ◌||◌, List, [], ◌∷◌, ◌++◌, Text, text_eq,
  is_empty, any, select, drop, length, sort_by,
}
use aurium.Ids.Order.{text_lt}

-- `store.Container`, as far as the forest reads it.
pub record Container : Type 0 where
  pub id : Text
  pub parent_container_id : Text
  pub branch : Text

abbrev pub is_id : Text → Container → Bool
is_id i c = text_eq i c.id

abbrev pub has_parent : List Container → Container → Bool
has_parent cs c = any (is_id c.parent_container_id) cs

-- `Orphaned`
abbrev pub is_orphaned : List Container → Container → Bool
is_orphaned cs c = not (is_empty c.parent_container_id) && not (has_parent cs c)

abbrev pub is_root : List Container → Container → Bool
is_root cs c = is_empty c.parent_container_id || not (has_parent cs c)

-- `sortNodes`
unfoldable pub sort_nodes : List Container → List Container
unfolding text_lt
sort_nodes = sort_by (λ (x : Container) y. text_lt x.branch y.branch)

-- What `BuildForest` returns: the roots,
abbrev pub roots : List Container → List Container
roots cs = sort_nodes (select (is_root cs) cs)

-- and the children of a node.
abbrev pub is_child : List Container → Text → Container → Bool
is_child cs i c = not (is_root cs c) && text_eq c.parent_container_id i

abbrev pub children : List Container → Text → List Container
children cs i = sort_nodes (select (is_child cs i) cs)

-- A loop over nodes that carries what was walked so far.
abbrev pub each :
    (List Container → Container → List Container) → List Container → List Container → List Container
each f out [] = out
each f out (n ∷ ns) = each f (f out n) ns

-- `visit` of `TopoOrder`: what was seen is what was put out.
unfoldable pub visit : ℕ → (Text → List Container) → List Container → Container → List Container
visit zero kids out n = out
visit (suc fuel) kids out n = elim (any (is_id n.id) out) [
  | true ↦ out
  | false ↦ each (visit fuel kids) (out ++ n ∷ []) (kids n.id)
]

-- `TopoOrder`, of nodes of the forest that `BuildForest` made of the rows.
unfoldable pub topo_order : List Container → List Container → List Container
unfolding visit
topo_order cs ns = each (visit (length cs) (children cs)) [] ns

-- `Descendants`
unfoldable pub descendants : List Container → Container → List Container
unfolding topo_order
descendants cs n = drop 1 (topo_order cs (n ∷ []))

-- `assignDepth`: the nodes that were seen, each with its depth.
abbrev pub each_deep :
    (List (Container × ℕ) → Container → List (Container × ℕ))
    → List (Container × ℕ)
    → List Container
    → List (Container × ℕ)
each_deep f out [] = out
each_deep f out (n ∷ ns) = each_deep f (f out n) ns

unfoldable pub assign_depth :
    ℕ → (Text → List Container) → ℕ → List (Container × ℕ) → Container → List (Container × ℕ)
assign_depth zero kids depth out n = out
assign_depth (suc fuel) kids depth out n = elim (any (λ (m : Container × ℕ). is_id n.id m.0) out) [
  | true ↦ out
  | false ↦ each_deep (assign_depth fuel kids (depth + 1)) (out ++ (n, depth) ∷ []) (kids n.id)
]

-- The depths that `BuildForest` assigns.
unfoldable pub depths : List Container → List (Container × ℕ)
unfolding assign_depth
depths cs = each_deep (assign_depth (length cs) (children cs) 0) [] (roots cs)
