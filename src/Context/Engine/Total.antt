-- ===== src/Context/Engine/Total.antt =====
-- Writes where the database carries every statement out.
use aurium.Base.{
  ℕ, ◌+◌, ◌≡◌, refl, true, Option, none, some, List, [], ◌∷◌, Text, text_eq, text_eq_refl, map,
  arith, any, ==_refl,
}
use aurium.Db.{ok, statement, tx}
use aurium.Context.Store.{Ref, Item, Store, item_at, item_with, version_at, put}
use aurium.Context.Engine.{written, create, replace, write_row, write_item}
use aurium.Context.Engine.Cas.{view, holds, current}

found-any-put :
    (new : Item) (r : Ref) (items : List Item) (it : Item)
    → item_at r items ≡ some it
    → any (λ x. text_eq it.id x.id) (map (put new) items) ≡ true
found-any-put new r [] it e = cc
found-any-put new r (x ∷ items) it e =
    ground (arith, found-any-put new r items it, text_eq_refl it.id)

-- The keys that the next row would take are free: a new item's id, or an item's next version.
abbrev pub HasRoom : Text → Store → Option Item → Type 0
HasRoom id s none = (item_with id s.items ≡ none) × (version_at id 1 s.versions ≡ none)
HasRoom id s (some it) = version_at it.id (it.version + 1) s.versions ≡ none

module _ (r : Ref) (author id now : Text) (s : Store) where
  write_row_total :
      (base : ℕ) (content reason : Text) (row : Option Item)
      → item_at r s.items ≡ row
      → current (view row) ≡ base
      → HasRoom id s row
      → (it : Item) × ((write_item r author id now base content reason s []).0 ≡ ok it)
  unfolding write_item tx statement create replace
  write_row_total base content reason none e v h = (
    written r author id now id 1 content,
    rw (e, write_row) (rw (← v) (rw (h.0, e) (rw (text_eq_refl id, h.1)))),
  )
  write_row_total base content reason (some it) e v h = (
    written r author id now it.id (it.version + 1) content,
    rw (e, write_row)
        (rw (← v) (
          rw (==_refl it.version) (
            rw (
              h,
              found-any-put (written r author id now it.id (it.version + 1) content) r s.items it e,
            )))),
  )

  -- A write that names the current version returns an item, when the database fails nowhere and the
  -- keys it inserts are new: those of the row of the history, and the id where the place is empty.
  pub write_item_total :
      (content reason : Text)
      → HasRoom id s (item_at r s.items)
      → (it : Item) × ((write_item r author id now (current (holds r s)) content reason s []).0
          ≡ ok it)
  write_item_total content reason room =
      write_row_total (current (holds r s)) content reason (item_at r s.items) refl refl room
