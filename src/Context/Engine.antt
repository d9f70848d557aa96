-- ===== src/Context/Engine.antt =====
-- internal/contextengine/engine.go: reads, compare-and-set writes and appends. A fresh id and the
-- clock, which a call takes from `ids`, are arguments.
pub mod Rows
pub mod Cas
pub mod Total
use aurium.Base.{
  ℕ, zero, suc, ◌+◌, Bool, true, false, Option, none, some, List, [], ◌∷◌, ◌++◌, Text, codes,
  text_eq, map, select, take, is_empty, ◌==◌, ◌||◌, if◌then◌else◌,
}
use aurium.Db.{
  Result, ok, failed, err, Faults, Sql, pure, raise, ◌>>=◌, ◌>>◌, query, modify, statement, tx,
}
use aurium.Context.Store.{
  Scope, Ref, Item, markdown, Version, Store, Emitted, updated, ContextError, stale, not_found,
  Action, item_at, item_with, insert_item, put, insert_version, emit, ref_eq,
}

abbrev or_not_found : Option Item → Action Item
or_not_found none = raise not_found
or_not_found (some it) = pure it

-- `Get`
unfoldable pub get : Ref → Action Item
get r = do row ← query (λ (s : Store). item_at r s.items); or_not_found row

-- A scan whose error is dropped leaves the variable at its zero value.
abbrev pub lenient : Action Text → Action Text
lenient m s fs = recover (m s fs)
  where
    recover : Result ContextError Text × Store × Faults → Result ContextError Text × Store × Faults
    recover (ok a, t, gs) = (ok a, t, gs)
    recover (failed, t, gs) = (ok [], t, gs)
    recover (err e, t, gs) = (ok [], t, gs)

abbrev pub content_of : Option Item → Text
content_of none = []
content_of (some it) = it.content

abbrev newline : ℕ
newline = b'\n'

-- `strings.HasSuffix(content, "\n")`
unfoldable pub ends_line : Text → Bool
ends_line [] = false
ends_line (c ∷ []) = c == newline
ends_line (c ∷ d ∷ s) = ends_line (d ∷ s)

-- `Append`'s new content: a line break is put in where the old content lacks it.
unfoldable pub joined : Text → Text → Text
unfolding ends_line
joined content text =
    if is_empty content || ends_line content then content ++ text else content ++ newline ∷ text

module _ (r : Ref) (author id now : Text) where
  -- The item that a write leaves, with the id of its row.
  abbrev pub written : Text → ℕ → Text → Item
  written row_id version content = record {
    id = row_id;
    ref = r;
    version = version;
    content = content;
    mime = markdown;
    updated_by = author;
    updated_at = now;
  }

  abbrev pub revision : Item → Text → Version
  revision it reason = record {
    item_id = it.id;
    version = it.version;
    content = it.content;
    author = author;
    reason = reason;
    created_at = now;
  }

  create : Text → Action Item
  create content = do statement (insert_item (written id 1 content)); pure (written id 1 content)

  replace : Item → Text → Action Item
  replace it content = do
    modify (λ (s : Store). record s {
      items = map (put (written it.id (it.version + 1) content)) s.items;
    })
    pure (written it.id (it.version + 1) content)

  -- The three cases of the row that `Write` reads.
  write_row : ℕ → Text → Option Item → Action Item
  unfolding create replace
  write_row base content none = if base == 0 then create content else raise (stale r base 0 [])
  write_row base content (some it) = if it.version == base then replace it content else do
    current ← lenient (query (λ (s : Store). content_of (item_with it.id s.items)))
    raise (stale r base it.version current)

  -- `Write`: compare and set on the base version.
  unfoldable pub write_item : ℕ → Text → Text → Action Item
  unfolding write_row
  write_item base content reason = do
    result ← tx (do
      row ← query (λ (s : Store). item_at r s.items)
      it ← write_row base content row
      statement (insert_version (revision it reason))
      pure it)
    emit (updated author r result.version)
    pure result

  -- The cases of the row that `Append` reads.
  append_row : Text → Option Item → Action Item
  unfolding create replace
  append_row text none = create text
  append_row text (some it) = replace it (joined it.content text)

  -- `Append`
  unfoldable pub append_item : Text → Action Item
  unfolding append_row
  append_item text = do
    result ← tx (do
      row ← query (λ (s : Store). item_at r s.items)
      it ← append_row text row
      statement (insert_version (revision it (codes "append")))
      pure it)
    emit (updated author r result.version)
    pure result
