-- ===== src/Snapshot/Retention/Spared.antt =====
-- Which snapshots a collection can take.
use aurium.Base.{
  ◌≡◌, refl, ap, ◌∙◌, ℕ, ◌+◌, ◌≤◌, Bool, true, false, not, ◌&&◌, ◌||◌, Option, none, some, List, [],
  ◌∷◌, ◌++◌, Text, text_eq, is_empty, any, select, length, length-sort_by, ltb, arith,
  if◌then◌else◌, All, All-map, All-both, All-append, All-select, All-select_kept, All-sort_by,
  text_eq_refl,
}
use aurium.Db.{ok, err, pure, ◌>>=◌, ◌>>◌, query, statement}
use aurium.Db.Keeps.{Always, Keeps, bind-Keeps, query-Keeps, if-Keeps}
use aurium.Snapshot.Retention.{
  Container, Snapshot, Shelf, Host, GcError, ref_stays, Action, is_of, snapshots_of, is_no_dir,
  add_deleted, found_path, get_path, path_in, on_world, delete_row, check_ref, check_dir,
  remove_dir, clear,
}

-- How many snapshots a container has.
abbrev pub count_of : Text → List Snapshot → ℕ
count_of container ss = length (select (is_of container) ss)

-- A snapshot that may go: no label, no container made from it, and more than `last` of its container.
abbrev pub may_go : ℕ → List Text → List Snapshot → Snapshot → Bool
may_go last referenced ss s =
    is_empty s.label
    && (not (any (text_eq s.id) referenced) && ltb last (count_of s.container_id ss))

abbrev pub is_doomed : ℕ → List Text → List Snapshot → Text → Bool
is_doomed last referenced ss id =
    any (λ (s : Snapshot). text_eq id s.id && may_go last referenced ss s) ss

abbrev pub spares : List Text → Snapshot → Bool
spares gone s = not (any (λ id. text_eq id s.id) gone)

All-any :
    (q : Snapshot → Bool) (ss : List Snapshot)
    → All (λ s. q s ≡ true → any (λ (x : Snapshot). text_eq s.id x.id && q x) ss ≡ true) ss
All-any q [] = tt
All-any q (s ∷ ss) = (
  (λ h. ground (arith, h, text_eq_refl s.id)),
  All-map (λ s. q s ≡ true → any (λ (x : Snapshot). text_eq s.id x.id && q x) ss ≡ true)
      (λ x. q x ≡ true → any (λ (y : Snapshot). text_eq x.id y.id && q y) (s ∷ ss) ≡ true)
      (λ x k h. let r = k h in ground arith) ss (All-any q ss),
)

length-select_both :
    (p q : Snapshot → Bool) (ss : List Snapshot)
    → length (select p (select q ss)) ≤ length (select p ss)
length-select_both p q [] = omega arith
length-select_both p q (s ∷ ss) = ground (arith, length-select_both p q ss)

any-snoc :
    (id : Text) (gone : List Text) (x : Text)
    → any (λ (i : Text). text_eq i id) (gone ++ x ∷ [])
      ≡ (any (λ (i : Text). text_eq i id) gone || text_eq x id)
any-snoc id [] x = ground arith
any-snoc id (g ∷ gone) x = ground (arith, any-snoc id gone x)

select-spares :
    (gone : List Text) (id : Text) (ss : List Snapshot)
    → select (λ (s : Snapshot). not (text_eq id s.id)) (select (spares gone) ss)
      ≡ select (spares (gone ++ id ∷ [])) ss
select-spares gone id [] = refl
select-spares gone id (s ∷ ss) = ground (arith, select-spares gone id ss, any-snoc s.id gone id)

pub select-spares_none : (ss : List Snapshot) → ss ≡ select (spares []) ss
select-spares_none [] = refl
select-spares_none (s ∷ ss) = ap (λ (xs : List Snapshot). s ∷ xs) (select-spares_none ss)

module _ {W : Type 0} (host : Host W) (s₀ : Shelf W) (referenced : List Text) (last : ℕ) where
  -- The rows that are left.
  abbrev pub rows_left : Bool → List Text → List Snapshot
  rows_left true gone = s₀.snapshots
  rows_left false gone = select (spares gone) s₀.snapshots

  abbrev pub IsDoomed : Text → Type 0
  IsDoomed id = is_doomed last referenced s₀.snapshots id ≡ true

  abbrev pub SameWorld : Bool → Shelf W → Type 0
  SameWorld true d = d.world ≡ s₀.world
  SameWorld false d = Unit {0}

  -- What holds of the tables, the report and the world throughout.
  abbrev pub Sound : Bool → Shelf W → Type 0
  Sound dry d =
      (d.snapshots ≡ rows_left dry d.report.deleted)
      × All IsDoomed d.report.deleted
      × SameWorld dry d

  abbrev pub Holding : {A : Type 0} → Bool → Action W A → Type 0
  Holding dry = Keeps GcError (Sound dry)

  -- What is known of a row that the loop meets.
  abbrev pub Fact : Text → Snapshot → Type 0
  Fact c s =
      (may_go last referenced s₀.snapshots s ≡ true → IsDoomed s.id)
      × (text_eq s.container_id c ≡ true)

  rows_All :
      (P : Snapshot → Type 0) (dry : Bool) (gone : List Text)
      → All P s₀.snapshots
      → All P (rows_left dry gone)
  rows_All P true gone h = h
  rows_All P false gone h = All-select_kept P (spares gone) s₀.snapshots h

  rows_count :
      (c : Text) (dry : Bool) (gone : List Text)
      → length (select (is_of c) (rows_left dry gone)) ≤ count_of c s₀.snapshots
  rows_count c true gone = omega arith
  rows_count c false gone = length-select_both (is_of c) (spares gone) s₀.snapshots

  pub met :
      (dry : Bool) (c : Text) (d : Shelf W)
      → Sound dry d
      → All (Fact c) (snapshots_of c d.snapshots)
  met dry c d h = All-sort_by _ (Fact c) _ (
      All-both (λ s. is_of c s ≡ true)
        (λ s. may_go last referenced s₀.snapshots s ≡ true → IsDoomed s.id) (Fact c)
        (λ s k q. (q, k)) (select (is_of c) d.snapshots) (All-select (is_of c) d.snapshots)
        (All-select_kept _ (is_of c) d.snapshots (
          rw h.0 (
            rows_All _ dry d.report.deleted
              (All-any (may_go last referenced s₀.snapshots) s₀.snapshots)))))

  pub met_count :
      (dry : Bool) (c : Text) (d : Shelf W)
      → Sound dry d
      → length (snapshots_of c d.snapshots) ≤ count_of c s₀.snapshots
  met_count dry c d h =
      let less : length (select (is_of c) d.snapshots) ≤ count_of c s₀.snapshots =
        rw h.0 (rows_count c dry d.report.deleted) in
      omega (
        arith,
        length-sort_by {0} (λ (x : Snapshot) y. ltb y.seq x.seq) (select (is_of c) d.snapshots),
      )

  All-snoc :
      (gone : List Text) (id : Text)
      → All IsDoomed gone
      → IsDoomed id
      → All IsDoomed (gone ++ id ∷ [])
  All-snoc gone id h k = All-append IsDoomed gone (id ∷ []) h (k, tt)

  pub dry-Sound : (s : Snapshot) → IsDoomed s.id → Holding true (add_deleted s)
  dry-Sound s k d fs h = (h.0, All-snoc d.report.deleted s.id h.1 k, h.2)

  -- A row that may go is taken out of the table and put in the report, or neither.
  both_Sound :
      (s : Snapshot) (d : Shelf W)
      → IsDoomed s.id
      → Sound false d
      → Sound false (record d {
        snapshots = select (λ (x : Snapshot). not (text_eq s.id x.id)) d.snapshots;
        report = record d.report {
          deleted = d.report.deleted ++ s.id ∷ [];
          bytes_freed = d.report.bytes_freed + s.bytes;
        };
      })
  both_Sound s d k h = (
    ap (select (λ (x : Snapshot). not (text_eq s.id x.id))) h.0
        ∙ select-spares d.report.deleted s.id s₀.snapshots,
    All-snoc d.report.deleted s.id h.1 k,
    tt,
  )

  pub deleted-Sound :
      (s : Snapshot) → IsDoomed s.id → Holding false (delete_row s.id >> add_deleted s)
  unfolding statement
  deleted-Sound s k d [] h = both_Sound s d k h
  deleted-Sound s k d (true ∷ fs) h = h
  deleted-Sound s k d (false ∷ fs) h = both_Sound s d k h

  pub seq :
      {A B : Type 0} (dry : Bool) (x : Action W A) (f : A → Action W B)
      → Holding dry x
      → ((a : A) → Holding dry (f a))
      → Holding dry (x >>= f)
  seq dry x f = bind-Keeps GcError (Sound dry) x f

  on_world-Sound : (f : W → Bool × W) → Holding false (on_world f)
  on_world-Sound f d fs h = (h.0, h.1, tt)

  found_path-Sound : (o : Option Text) → Holding false (found_path o)
  found_path-Sound none = λ d fs h. h
  found_path-Sound (some path) = λ d fs h. h

  check_ref-Sound : (path ref : Text) (b : Bool) → Holding false (check_ref host path ref b)
  check_ref-Sound path ref true d fs h = h
  check_ref-Sound path ref false d fs h = pick (host.ref_exists path ref d.world)
    where
      pick :
          (b : Bool)
          → Always GcError (Sound false) (if b then (err ref_stays, d, fs) else (ok tt, d, fs))
      pick true = h
      pick false = h

  check_dir-Sound : (b : Bool) → Holding false (check_dir host b)
  check_dir-Sound true = λ d fs h. h
  check_dir-Sound false = λ d fs h. h

  remove_dir-Sound : (dir : Text) → Holding false (remove_dir host dir)
  remove_dir-Sound dir =
      if-Keeps GcError (Sound false) (is_no_dir dir) (pure tt) _ (λ d fs h. h)
        (seq false (on_world (host.remove_all dir)) (check_dir host)
          (on_world-Sound (host.remove_all dir)) check_dir-Sound)

  abbrev drop_ref : Snapshot → Text → Action W (Unit {0})
  drop_ref s path = on_world (host.delete_ref path s.tree_ref) >>= (λ gone.
      check_ref host path s.tree_ref gone >> remove_dir host (host.dir s.manifest_path))

  drop_ref-Sound : (s : Snapshot) (path : Text) → Holding false (drop_ref s path)
  drop_ref-Sound s path =
      seq false (on_world (host.delete_ref path s.tree_ref)) _
        (on_world-Sound (host.delete_ref path s.tree_ref))
        (λ gone.
          seq false (check_ref host path s.tree_ref gone)
            (λ _. remove_dir host (host.dir s.manifest_path)) (check_ref-Sound path s.tree_ref gone)
            (λ _. remove_dir-Sound (host.dir s.manifest_path)))

  get_path-Sound : (id : Text) → Holding false (get_path id)
  get_path-Sound id =
      seq false (query (λ (d : Shelf W). path_in id d.repositories)) found_path
        (query-Keeps GcError (Sound false) (λ (d : Shelf W). path_in id d.repositories))
        found_path-Sound

  pub clear-Sound : (c : Container) (s : Snapshot) → Holding false (clear host c s)
  clear-Sound c s =
      seq false (get_path c.repo_id) (drop_ref s) (get_path-Sound c.repo_id) (drop_ref-Sound s)
