-- ===== src/Context/Engine/Rows.antt =====
-- The table of items: one row to a place and one to an id, and what an update changes.
use aurium.Base.{
  ◌≡◌, ◌≢◌, refl, none, some, List, [], ◌∷◌, Text, text_eq_iff, text_eq_refl, map, arith,
  Bool-cases, inl, inr, if◌then◌else◌,
}
use aurium.Context.Store.{Ref, ref_eq, ref_eq_iff, ref_eq_refl, Item, item_at, item_with, put}

abbrev pub IsUnique : List Item → Type 0
IsUnique [] = Unit
IsUnique (it ∷ items) =
    (item_with it.id items ≡ none) × (item_at it.ref items ≡ none) × IsUnique items

-- What is found has the place that was asked for.
pub item_at-ref : (r : Ref) (items : List Item) (it : Item) → item_at r items ≡ some it → r ≡ it.ref
item_at-ref r [] it e = cc
item_at-ref r (x ∷ items) it e = ground (arith, item_at-ref r items it, ref_eq_iff r x.ref)

found-item_with :
    (r : Ref) (items : List Item) (it : Item)
    → item_at r items ≡ some it
    → item_with it.id items ≢ none
found-item_with r [] it e = cc
found-item_with r (x ∷ items) it e = ground (arith, found-item_with r items it, text_eq_refl it.id)

-- An id that no row has is updated nowhere.
map-put-none :
    (new : Item) (items : List Item) → item_with new.id items ≡ none → map (put new) items ≡ items
map-put-none new [] e = refl
map-put-none new (x ∷ items) e = ground (arith, map-put-none new items)

-- An update of the row at `r` is seen at `r` and nowhere else.
pub item_at-map-put :
    (new : Item) (r q : Ref) (items : List Item) (it : Item)
    → IsUnique items
    → item_at r items ≡ some it
    → new.id ≡ it.id
    → item_at q (map (put new) items) ≡ (if ref_eq r q then some (put new it) else item_at q items)
item_at-map-put new r q [] it u e h = cc
item_at-map-put new r q (x ∷ items) it u e h = elim (Bool-cases (ref_eq r x.ref)) [
  | inl here ↦ ground (
    arith,
    map-put-none new items,
    text_eq_iff new.id x.id,
    ref_eq_iff q x.ref,
    ref_eq_iff r q,
    ref_eq_iff r x.ref,
  )
  | inr away ↦ ground (
    arith,
    item_at-map-put new r q items it,
    found-item_with r items it,
    text_eq_iff new.id x.id,
    ref_eq_iff q x.ref,
    ref_eq_iff r q,
    ref_eq_iff r x.ref,
  )
]

-- An update changes neither ids nor places.
item_with-map-put :
    (new : Item) (id : Text) (items : List Item)
    → item_with id items ≡ none
    → item_with id (map (put new) items) ≡ none
item_with-map-put new id [] e = refl
item_with-map-put new id (x ∷ items) e = ground (arith, item_with-map-put new id items)

item_at-map-put-none :
    (new : Item) (r : Ref) (items : List Item)
    → item_at r items ≡ none
    → item_at r (map (put new) items) ≡ none
item_at-map-put-none new r [] e = refl
item_at-map-put-none new r (x ∷ items) e = ground (arith, item_at-map-put-none new r items)

pub put-IsUnique :
    (new : Item) (items : List Item) → IsUnique items → IsUnique (map (put new) items)
put-IsUnique new [] u = tt
put-IsUnique new (x ∷ items) u = ground (
  arith,
  put-IsUnique new items,
  item_with-map-put new x.id items,
  item_at-map-put-none new x.ref items,
)

-- The row at a place is also found by its id.
pub item_with_found :
    (r : Ref) (items : List Item) (it : Item)
    → IsUnique items
    → item_at r items ≡ some it
    → item_with it.id items ≡ some it
item_with_found r [] it u e = cc
item_with_found r (x ∷ items) it u e = ground (
  arith,
  item_with_found r items it,
  found-item_with r items it,
  text_eq_iff it.id x.id,
  text_eq_refl it.id,
)

found-item_at :
    (id : Text) (items : List Item) (it : Item)
    → item_with id items ≡ some it
    → item_at it.ref items ≢ none
found-item_at id [] it e = cc
found-item_at id (x ∷ items) it e = ground (arith, found-item_at id items it, ref_eq_refl it.ref)

-- The row with an id is also found by its place.
pub item_at_found :
    (id : Text) (items : List Item) (it : Item)
    → IsUnique items
    → item_with id items ≡ some it
    → item_at it.ref items ≡ some it
item_at_found id [] it u e = cc
item_at_found id (x ∷ items) it u e = ground (
  arith,
  item_at_found id items it,
  found-item_at id items it,
  ref_eq_iff it.ref x.ref,
  ref_eq_refl it.ref,
)
