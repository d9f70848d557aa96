-- ===== src/Stack/Forest/Order.antt =====
-- The order in which nodes are walked.
use aurium.Base.{
  ◌≡◌, refl, sym, ℕ, zero, suc, Bool, true, false, List, [], ◌∷◌, ◌++◌, Text, text_eq, any, length,
  All-sort_by, arith, text_eq_refl, text_eq_sound, text_eq_sym, ◌⊎◌, inl, inr, All, All-select,
  All-map, append-nil, append_assoc, and_true, or_false,
}
use aurium.Stack.Forest.{Container, is_id, is_child, sort_nodes, children, each, visit, topo_order}
use aurium.Stack.Forest.Count.{In, any-snoc}
use aurium.Stack.Forest.Walk.{Grows, visit-Grows}

-- What a walk keeps, if it is kept wherever a node that is ready and was not seen is put out.
module _ (kids : Text → List Container) (P : List Container → Type 0)
    (Ready : List Container → Container → Type 0)
    (mono : (xs ys : List Container) → Grows xs ys → (n : Container) → Ready xs n → Ready ys n)
    (born : (out : List Container) (i : Text) → P out → In i out → All (Ready out) (kids i))
    (step : (out : List Container) (n : Container)
      → P out
      → any (is_id n.id) out ≡ false
      → Ready out n
      → P (out ++ n ∷ [])) where
  All-mono : (xs ys ns : List Container) → Grows xs ys → All (Ready xs) ns → All (Ready ys) ns
  All-mono xs ys [] g h = tt
  All-mono xs ys (n ∷ ns) g h = (mono xs ys g n h.0, All-mono xs ys ns g h.1)

  abbrev Keeps : (List Container → Container → List Container) → Type 0
  Keeps f = (out : List Container) (n : Container) → P out → Ready out n → P (f out n)

  each-Keeps :
      (f : List Container → Container → List Container)
      → ((out : List Container) (n : Container) → Grows out (f out n))
      → Keeps f
      → (out ns : List Container) → P out
      → All (Ready out) ns
      → P (each f out ns)
  each-Keeps f g k out [] h r = h
  each-Keeps f g k out (n ∷ ns) h r =
      each-Keeps f g k (f out n) ns (k out n h r.0) (All-mono out (f out n) ns (g out n) r.1)

  chosen-Keeps :
      (b : Bool) (out all : List Container)
      → P out
      → (b ≡ false → P all)
      → P (elim b [ true ↦ out | false ↦ all ])
  chosen-Keeps true out all h k = h
  chosen-Keeps false out all h k = k refl

  visit-Keeps : (fuel : ℕ) → Keeps (visit fuel kids)
  unfolding visit
  visit-Keeps zero out n h r = h
  visit-Keeps (suc fuel) out n h r =
      let last : In n.id (out ++ n ∷ []) =
        ground (arith, any-snoc (is_id n.id) out n, text_eq_refl n.id) in
      chosen-Keeps (any (is_id n.id) out) out (each (visit fuel kids) (out ++ n ∷ []) (kids n.id)) h
        (λ e.
          each-Keeps (visit fuel kids) (visit-Grows fuel kids) (visit-Keeps fuel) (out ++ n ∷ [])
            (kids n.id) (step out n h e r) (born (out ++ n ∷ []) n.id (step out n h e r) last))

  pub walk-keeps :
      (fuel : ℕ) (ns : List Container) → P [] → All (Ready []) ns → P (each (visit fuel kids) [] ns)
  walk-keeps fuel ns h r =
      each-Keeps (visit fuel kids) (visit-Grows fuel kids) (visit-Keeps fuel) [] ns h r

-- No id twice.
abbrev pub IsDistinct : List Container → Type 0
IsDistinct [] = Unit {0}
IsDistinct (n ∷ ns) = (any (is_id n.id) ns ≡ false) × IsDistinct ns

IsDistinct-snoc :
    (out : List Container) (n : Container)
    → IsDistinct out
    → any (is_id n.id) out ≡ false
    → IsDistinct (out ++ n ∷ [])
IsDistinct-snoc [] n h f = (refl, tt)
IsDistinct-snoc (x ∷ out) n h f =
    let (f1, f2) = or_false (text_eq n.id x.id) (any (is_id n.id) out) f in
    (
      ground (arith, any-snoc (is_id x.id) out n, text_eq_sym n.id x.id, h.0),
      IsDistinct-snoc out n h.1 f2,
    )

-- A node that was asked for, or one whose parent is out.
abbrev pub Ready : List Container → List Container → Container → Type 0
Ready ns out n = In n.id ns ⊎ In n.parent_container_id out

-- Each node is ready when it is put out, after `out`.
abbrev pub ParentsFirst : List Container → List Container → List Container → Type 0
ParentsFirst ns out [] = Unit {0}
ParentsFirst ns out (x ∷ xs) = Ready ns out x × ParentsFirst ns (out ++ x ∷ []) xs

ParentsFirst-snoc :
    (ns out xs : List Container) (n : Container)
    → ParentsFirst ns out xs
    → Ready ns (out ++ xs) n
    → ParentsFirst ns out (xs ++ n ∷ [])
ParentsFirst-snoc ns out [] n h r = (rw (sym (append-nil out)) r, tt)
ParentsFirst-snoc ns out (x ∷ xs) n h r =
    (h.0, ParentsFirst-snoc ns (out ++ x ∷ []) xs n h.1 (rw (append_assoc out (x ∷ []) xs) r))

pub children-All :
    (cs : List Container) (i : Text) → All (λ c. is_child cs i c ≡ true) (children cs i)
unfolding sort_nodes
children-All cs i = All-sort_by _ (λ c. is_child cs i c ≡ true) _ (All-select (is_child cs i) cs)

parent_of :
    (cs : List Container) (i : Text) (c : Container)
    → is_child cs i c ≡ true
    → c.parent_container_id ≡ i
parent_of cs i c h = text_eq_sound c.parent_container_id i (and_true _ _ h).1

pub own_ready :
    (f : List Container → Container → Type 0) (ns ms : List Container)
    → ((n : Container) → In n.id ms → f [] n)
    → ((n : Container) → In n.id ns → In n.id ms)
    → All (f []) ns
own_ready f [] ms k l = tt
own_ready f (n ∷ ns) ms k l =
    (k n (l n (ground (arith, text_eq_refl n.id))), own_ready f ns ms k (λ m h. l m (ground arith)))

module _ (cs ns : List Container) where
  born :
      (out : List Container) (i : Text)
      → IsDistinct out × ParentsFirst ns [] out
      → In i out
      → All (Ready ns out) (children cs i)
  born out i k h =
      All-map (λ c. is_child cs i c ≡ true) (Ready ns out) (λ c k. inr (rw (parent_of cs i c k) h))
        (children cs i) (children-All cs i)

  step :
      (out : List Container) (n : Container)
      → IsDistinct out × ParentsFirst ns [] out
      → any (is_id n.id) out ≡ false
      → Ready ns out n
      → IsDistinct (out ++ n ∷ []) × ParentsFirst ns [] (out ++ n ∷ [])
  step out n h f r = (IsDistinct-snoc out n h.0 f, ParentsFirst-snoc ns [] out n h.1 r)

  Ready-mono :
      (xs ys : List Container) → Grows xs ys → (n : Container) → Ready ns xs n → Ready ns ys n
  Ready-mono xs ys g n (inl h) = inl h
  Ready-mono xs ys g n (inr h) = inr (g n.parent_container_id h)

  -- Whatever the rows, cycles of parents included: TopoOrder of some nodes puts out no id twice, and each
  -- node that it puts out is one of those nodes or comes after a node that is its parent.
  pub topo_order-ParentsFirst :
      IsDistinct (topo_order cs ns) × ParentsFirst ns [] (topo_order cs ns)
  unfolding topo_order
  topo_order-ParentsFirst =
      walk-keeps (children cs) (λ out. IsDistinct out × ParentsFirst ns [] out) (Ready ns)
        Ready-mono born step (length cs) ns (tt, tt)
        (own_ready (Ready ns) ns ns (λ n h. inl h) (λ n h. h))
