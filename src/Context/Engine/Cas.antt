-- ===== src/Context/Engine/Cas.antt =====
-- `Write` and `Append` against a register: a place holds a version and a content, or nothing.
use aurium.Base.{
  ℕ, ◌+◌, ◌++◌, ◌≡◌, ◌≢◌, refl, ap, ◌∙◌, Bool, true, false, ◌&&◌, Option, none, some, [], ◌∷◌, Text,
  codes, text_eq, text_eq_refl, map, arith, Bool-cases, ◌⊎◌, inl, inr, if◌then◌else◌, ◌==◌, ==_iff,
  ==_refl, any,
}
use aurium.Db.{Faults, pure, raise, ◌>>=◌, ◌>>◌, query, modify, statement, tx}
use aurium.Db.Rules.{Post, statement_rule, query_rule, bind_rule, tx_rule, Post-mono}
use aurium.Context.Store.{
  Ref, ref_eq, ref_eq_iff, ref_eq_refl, Item, Version, Store, updated, ContextError, stale, Action,
  item_at, item_with, version_at, insert_item, put, insert_version, missing, emit,
}
use aurium.Context.Engine.{
  written, revision, create, replace, write_row, write_item, append_row, append_item, joined,
  ends_line, content_of, lenient,
}
use aurium.Context.Engine.Rows.{IsUnique, item_at-map-put, put-IsUnique, item_with_found}

-- What a place holds: a version and a content.
abbrev pub Register : Type 0
Register = Option (ℕ × Text)

abbrev pub view : Option Item → Register
view none = none
view (some it) = some (it.version, it.content)

abbrev pub holds : Ref → Store → Register
holds r s = view (item_at r s.items)

-- The version that a writer must name: 0 where there is nothing.
abbrev pub current : Register → ℕ
current none = 0
current (some (v, _)) = v

abbrev pub text_of : Register → Text
text_of none = []
text_of (some (_, c)) = c

-- Compare and set, on a register alone.
abbrev pub compare_and_set : Register → ℕ → Text → Option Register
compare_and_set x base content = if current x == base then some (some (base + 1, content)) else none

-- The last code of a text, of an empty one `d`.
unfoldable pub last_or : ℕ → Text → ℕ
last_or d [] = d
last_or d (c ∷ s) = last_or c s

-- A text on a line of its own behind a content: behind a line break, or behind nothing.
abbrev pub on_new_line : Text → Text → Text
on_new_line c text = c ++ (if last_or b'\n' c == b'\n' then text else b'\n' ∷ text)

-- A text put behind the content of a register.
abbrev pub extended : Register → Text → Register
extended none text = some (1, text)
extended (some (v, c)) text = some (v + 1, on_new_line c text)

ends_line-last_or : (c : ℕ) (s : Text) → ends_line (c ∷ s) ≡ (last_or c s == b'\n')
unfolding ends_line last_or
ends_line-last_or c [] = refl
ends_line-last_or c (d ∷ s) = ends_line-last_or d s

joined-on_new_line : (c text : Text) → joined c text ≡ on_new_line c text
unfolding joined last_or
joined-on_new_line [] text = refl
joined-on_new_line (c ∷ s) text = by_last (ends_line (c ∷ s)) (ends_line-last_or c s)
  where
    by_last :
        (b : Bool)
        → b ≡ (last_or c s == b'\n')
        → (if b then (c ∷ s) ++ text else (c ∷ s) ++ b'\n' ∷ text)
          ≡ (c ∷ s) ++ (if last_or c s == b'\n' then text else b'\n' ∷ text)
    by_last true h = rw (← h) refl
    by_last false h = rw (← h) refl

-- Between `s` and `t` the register of `r` became `x`, no other register differs, the new row of the
-- history is `row`, and places and ids stay unique.
pub record Sets (r : Ref) (x : Register) (row : Version) (s t : Store) : Type 0 where
  pub here : holds r t ≡ x
  pub elsewhere : (q : Ref) → ref_eq r q ≡ false → holds q t ≡ holds q s
  pub history : t.versions ≡ row ∷ s.versions
  pub unique : IsUnique t.items

module _ (r : Ref) (author id now : Text) (s : Store) (unique : IsUnique s.items) where
  -- After the item is stored, before its row of the history is.
  abbrev Stored : Register → Item → Store → Type 0
  Stored x it t =
      (holds r t ≡ x)
      × ((q : Ref) → ref_eq r q ≡ false → holds q t ≡ holds q s)
      × (t.versions ≡ s.versions)
      × IsUnique t.items
      × (x ≡ some (it.version, it.content))

  create_rule :
      (X : ContextError → Store → Type 0) (content : Text) (fs : Faults)
      → item_at r s.items ≡ none
      → Post (Stored (some (1, content))) X (λ _. Unit) (create r author id now content s fs)
  unfolding create
  create_rule X content fs e =
      bind_rule (Stored (some (1, content))) X (λ _. Unit)
        (λ (_ : Unit {0}) t. Stored (some (1, content)) (written r author id now id 1 content) t)
        (statement (insert_item (written r author id now id 1 content)))
        (λ _. pure (written r author id now id 1 content)) s fs
        (statement_rule _ X (λ _. Unit) (insert_item (written r author id now id 1 content)) s fs tt
          (elim (Bool-cases (missing (item_with id s.items) && missing (item_at r s.items))) [
            | inl free ↦ rw free (
              rw (ref_eq_refl r) refl,
              λ q ne. ground (arith, ref_eq_iff r q, ref_eq_iff q r),
              refl,
              (absent (item_with id s.items) (missing (item_at r s.items)) free, e, unique),
              refl,
            )
            | inr taken ↦ rw taken tt
          ]))
        (λ _ t fs h. h)
    where
      absent : (o : Option Item) (b : Bool) → (missing o && b) ≡ true → o ≡ none
      absent none b h = refl
      absent (some x) b h = cc

  replace_rule :
      (X : ContextError → Store → Type 0) (it : Item) (content : Text) (fs : Faults)
      → item_at r s.items ≡ some it
      → Post
          (Stored (some (it.version + 1, content)))
          X
          (λ _. Unit)
          (replace r author id now it content s fs)
  unfolding replace
  replace_rule X it content fs e =
      bind_rule (Stored (some (it.version + 1, content))) X (λ _. Unit)
        (λ (_ : Unit {0}) t.
          Stored (some (it.version + 1, content))
            (written r author id now it.id (it.version + 1) content) t)
        (modify (λ (s : Store). record s {
          items = map (put (written r author id now it.id (it.version + 1) content)) s.items;
        }))
        (λ _. pure (written r author id now it.id (it.version + 1) content)) s fs
        (statement_rule _ X (λ _. Unit) _ s fs tt
          (
            rw (item_at-map-put new r r s.items it unique e refl, ref_eq_refl r)
                (rw (text_eq_refl it.id)),
            λ q ne. rw (item_at-map-put new r q s.items it unique e refl, ne),
            refl,
            put-IsUnique new s.items unique,
            refl,
          ))
        (λ _ t fs h. h)
    where
      new : Item
      new = written r author id now it.id (it.version + 1) content

  -- A refusal: the version named is not the current one. The content reported is the current one,
  -- or nothing where the second read fails.
  abbrev pub Refuses : ℕ → ContextError → Type 0
  Refuses base e =
      (current (holds r s) ≢ base)
      × ((e ≡ stale r base (current (holds r s)) (text_of (holds r s)))
          ⊎ (e ≡ stale r base (current (holds r s)) []))

  lenient_rule :
      (base : ℕ) (it : Item) (fs : Faults)
      → item_at r s.items ≡ some it
      → current (holds r s) ≢ base
      → Post
          (λ _ _. ⊥)
          (λ e _. Refuses base e)
          (λ _. Unit)
          ((lenient (query (λ (s : Store). content_of (item_with it.id s.items))) >>= λ now.
              raise {A = Item} (stale r base it.version now))
            s fs)
  unfolding statement
  lenient_rule base it [] e ne = (ne, inl (rw (item_with_found r s.items it unique e, e)))
  lenient_rule base it (false ∷ fs) e ne = (ne, inl (rw (item_with_found r s.items it unique e, e)))
  lenient_rule base it (true ∷ fs) e ne = (ne, inr (rw e))

  write_row_rule :
      (base : ℕ) (content : Text) (row : Option Item) (fs : Faults)
      → item_at r s.items ≡ row
      → Post
          (λ it t. (current (holds r s) ≡ base) × Stored (some (base + 1, content)) it t)
          (λ e _. Refuses base e)
          (λ _. Unit)
          (write_row r author id now base content row s fs)
  unfolding write_row
  write_row_rule base content none fs e = elim (Bool-cases (base == 0)) [
    | inl zero_base ↦
        let z : base ≡ 0 = (==_iff base 0).0 zero_base in
        rw zero_base (
          Post-mono {Q = Stored (some (1, content))} {X = λ x _. Refuses base x} {F = λ _. Unit}
            (create r author id now content s fs) (λ it t h. (rw (e, z), rw z h)) (λ x t h. h)
            (λ t h. h) (create_rule (λ x _. Refuses base x) content fs e))
    | inr other ↦ rw (other, e) (λ z. ground arith, inl refl)
  ]
  write_row_rule base content (some it) fs e = elim (Bool-cases (it.version == base)) [
    | inl same ↦
        let v : it.version ≡ base = (==_iff it.version base).0 same in
        rw same (
          Post-mono {Q = Stored (some (it.version + 1, content))} {X = λ x _. Refuses base x}
            {F = λ _. Unit} (replace r author id now it content s fs)
            (λ it t h. (rw (e, v), rw v at h)) (λ x t h. h) (λ t h. h)
            (replace_rule (λ x _. Refuses base x) it content fs e))
    | inr other ↦ rw other (
        Post-mono {Q = λ _ _. ⊥} {X = λ x _. Refuses base x} {F = λ _. Unit} _ (λ it t h. absurd h)
          (λ x t h. h) (λ t h. h) (lenient_rule base it fs e (rw e (λ v. ground arith))))
  ]

  -- What the history gets.
  version_rule :
      (X : ContextError → Store → Type 0) (x : Register) (it : Item) (reason : Text) (t : Store)
      (fs : Faults)
      → Stored x it t
      → Post
          (λ _ u. Sets r x (revision r author id now it reason) s u)
          X
          (λ _. Unit)
          (statement (insert_version (revision r author id now it reason)) t fs)
  version_rule X x it reason t fs h =
      statement_rule (λ _ u. Sets r x row s u) X (λ _. Unit) (insert_version row) t fs tt
        (elim (Bool-cases (
          missing (version_at it.id it.version t.versions)
          && any (λ x. text_eq it.id x.id) t.items)) [
            | inl free ↦ rw free (record {
              here = h.0;
              elsewhere = h.1;
              history = ap (λ vs. row ∷ vs) h.2;
              unique = h.3;
            })
            | inr taken ↦ rw taken tt
          ])
    where
      row : Version
      row = revision r author id now it reason

  -- The part that `Write` and `Append` share: the row is read, changed by `body`, and recorded.
  module _ (body : Option Item → Action Item) (reason : Text) (G : Item → Type 0)
      (R : ContextError → Type 0) where
    abbrev Changes : Item → Store → Type 0
    Changes it t =
        G it × Sets r (some (it.version, it.content)) (revision r author id now it reason) s t

    abbrev record_row : Item → Action Item
    record_row it = do statement (insert_version (revision r author id now it reason)); pure it

    abbrev change : Action Item
    change = do row ← query (λ (s : Store). item_at r s.items); it ← body row; record_row it

    module _
        (step : (row : Option Item) (fs : Faults)
          → item_at r s.items ≡ row
          → Post
              (λ it t. G it × Stored (some (it.version, it.content)) it t)
              (λ e _. R e)
              (λ _. Unit)
              (body row s fs)) where
      row_rule :
          (row : Option Item) (t : Store) (fs : Faults)
          → (item_at r s.items ≡ row) × (t ≡ s)
          → Post Changes (λ e _. R e × (s ≡ s)) (λ _. Unit) ((body row >>= record_row) t fs)
      row_rule row t fs h = rw h.1 (
          bind_rule Changes (λ e _. R e × (s ≡ s)) (λ _. Unit)
            (λ it t. G it × Stored (some (it.version, it.content)) it t) (body row) record_row s fs
            (Post-mono (body row s fs) (λ it t k. k) (λ e t k. (k, refl)) (λ t k. k)
              (step row fs h.0))
            (λ it u fs k.
              bind_rule Changes (λ e _. R e × (s ≡ s)) (λ _. Unit)
                (λ (_ : Unit {0}) w.
                  Sets r (some (it.version, it.content)) (revision r author id now it reason) s w)
                (statement (insert_version (revision r author id now it reason))) (λ _. pure it) u
                fs
                (version_rule (λ e _. R e × (s ≡ s)) (some (it.version, it.content)) it reason u fs
                  k.1)
                (λ _ w fs l. (k.0, l))))

      change_rule :
          (fs : Faults)
          → Post Changes
              (λ e t. R e × (t ≡ s))
              (λ t. t ≡ s)
              ((do result ← tx change; emit (updated author r result.version); pure result) s fs)
      change_rule fs =
          bind_rule Changes (λ e t. R e × (t ≡ s)) (λ t. t ≡ s) Changes (tx change)
            (λ result. emit (updated author r result.version) >> pure result) s fs
            (tx_rule Changes (λ e t. R e × (t ≡ s)) (λ t. t ≡ s) change s fs refl
              λ fs.
                bind_rule Changes (λ e _. R e × (s ≡ s)) (λ _. Unit)
                  (λ row t. (item_at r s.items ≡ row) × (t ≡ s)) (query (λ s. item_at r s.items))
                  (λ row. body row >>= record_row) s fs
                  (query_rule (λ row t. (item_at r s.items ≡ row) × (t ≡ s)) (λ e _. R e × (s ≡ s))
                    (λ _. Unit) (λ s. item_at r s.items) s fs tt (refl, refl))
                  row_rule)
            (λ it t fs k. (
              k.0,
              record {
                here = k.1.here;
                elsewhere = k.1.elsewhere;
                history = k.1.history;
                unique = k.1.unique;
              },
            ))

  -- In a store whose places and ids are unique, `write_item` refines compare-and-set on the register of
  -- its place, however the database fails.
  -- It returns an item only if the version named is the current one; then the register holds the
  -- content at the next version, no other place changes, and the history gets exactly the row of
  -- that version. It is refused as stale only if the version is not the current one, and then, as
  -- after a failure of the database, nothing has changed.
  pub write_item_rule :
      (base : ℕ) (content reason : Text) (fs : Faults)
      → Post
          (λ it t.
            (compare_and_set (holds r s) base content ≡ some (some (it.version, it.content)))
            × Sets r (some (it.version, it.content)) (revision r author id now it reason) s t)
          (λ e t. Refuses base e × (t ≡ s))
          (λ t. t ≡ s)
          (write_item r author id now base content reason s fs)
  unfolding write_item
  write_item_rule base content reason fs =
      change_rule (write_row r author id now base content) reason
        (λ it. compare_and_set (holds r s) base content ≡ some (some (it.version, it.content)))
        (Refuses base)
        (λ row fs e.
          Post-mono (write_row r author id now base content row s fs)
            (λ it t h.
              (rw (h.0, ==_refl base) (ap some h.1.4), (h.1.0 ∙ h.1.4, h.1.1, h.1.2, h.1.3, refl)))
            (λ x t h. h) (λ t h. h) (write_row_rule base content row fs e))
        fs

  append_row_rule :
      (text : Text) (row : Option Item) (fs : Faults)
      → item_at r s.items ≡ row
      → Post
          (λ it t.
            (extended (holds r s) text ≡ some (it.version, it.content))
            × Stored (some (it.version, it.content)) it t)
          (λ _ _. ⊥)
          (λ _. Unit)
          (append_row r author id now text row s fs)
  unfolding append_row
  append_row_rule text none fs e =
      Post-mono {Q = Stored (some (1, text))} {X = λ _ _. ⊥} {F = λ _. Unit}
        (create r author id now text s fs) (λ it t h. (rw e h.4, (h.0 ∙ h.4, h.1, h.2, h.3, refl)))
        (λ x t h. h) (λ t h. h) (create_rule (λ _ _. ⊥) text fs e)
  append_row_rule text (some old) fs e =
      Post-mono {Q = Stored (some (old.version + 1, joined old.content text))} {X = λ _ _. ⊥}
        {F = λ _. Unit} (replace r author id now old (joined old.content text) s fs)
        (λ it t h.
          (rw (e, ← joined-on_new_line old.content text) h.4, (h.0 ∙ h.4, h.1, h.2, h.3, refl)))
        (λ x t h. h) (λ t h. h) (replace_rule (λ _ _. ⊥) old (joined old.content text) fs e)

  -- In a store whose places and ids are unique, `append_item` is never refused: it fails only with the database, and then nothing has changed.
  -- Else the register holds the old content with the text put behind it on a line of its own (no line break is
  -- put in behind one, or behind an empty content), at the next version, no
  -- other place changes, and the history gets exactly the row of that version.
  pub append_item_rule :
      (text : Text) (fs : Faults)
      → Post
          (λ it t.
            (extended (holds r s) text ≡ some (it.version, it.content))
            × Sets r
                (some (it.version, it.content))
                (revision r author id now it (codes "append"))
                s
                t)
          (λ _ _. ⊥)
          (λ t. t ≡ s)
          (append_item r author id now text s fs)
  unfolding append_item
  append_item_rule text fs =
      Post-mono {X = λ e t. ⊥ × (t ≡ s)} {F = λ t. t ≡ s} (append_item r author id now text s fs)
        (λ it t h. h) (λ x t h. h.0) (λ t h. h)
        (change_rule (append_row r author id now text) (codes "append")
          (λ it. extended (holds r s) text ≡ some (it.version, it.content)) (λ _. ⊥)
          (append_row_rule text) fs)
