-- ===== src/Snapshot/Retention.antt =====
-- internal/runtime/snapshot/retention.go: which snapshots `GC` deletes.
--
-- Git and the file system are parameters, their state `W`. The report, which is returned beside an
-- error too, is part of the state. A policy that is not positive is 0.
pub mod Spared
pub mod Collected
use aurium.Base.{
  ℕ, zero, suc, ◌+◌, Bool, true, false, not, ◌&&◌, ◌||◌, Option, none, some, List, [], ◌∷◌, ◌++◌,
  Text, codes, text_eq, is_empty, any, find, map, select, sort_by, ltb, if◌then◌else◌,
}
use aurium.Ids.Order.{text_lt}
use aurium.Db.{Result, ok, failed, err, Faults, Sql, pure, raise, ◌>>=◌, ◌>>◌, query, modify}

-- `store.Container`, as far as the collection reads it.
pub record Container : Type 0 where
  pub id : Text
  pub project_id : Text
  pub repo_id : Text
  pub origin_snapshot_id : Text

-- `store.Snapshot`, as far as the collection reads it.
pub record Snapshot : Type 0 where
  pub id : Text
  pub container_id : Text
  pub seq : ℕ
  pub label : Text
  pub tree_ref : Text
  pub manifest_path : Text
  pub bytes : ℕ

-- The reasons of `Kept`.
pub data KeepReason : Type 0 where
  keep_recent keep_labelled keep_referenced : KeepReason

-- `Policy`
pub record Policy : Type 0 where
  pub keep_last : ℕ
  pub dry_run : Bool

-- `Report`; a `Kept` is its id, its number and its reason.
pub record Report : Type 0 where
  pub deleted : List Text
  pub kept : List (Text × ℕ × KeepReason)
  pub bytes_freed : ℕ

-- The tables, git and the files, and the report. `repositories` are ids and paths.
pub record Shelf (W : Type 0) : Type 0 where
  pub containers : List Container
  pub repositories : List (Text × Text)
  pub snapshots : List Snapshot
  pub report : Report
  pub world : W

-- What is used of git and of the file system. `true` says that it worked.
pub record Host (W : Type 0) : Type 0 where
  pub delete_ref : (path ref : Text) → W → Bool × W
  pub ref_exists : (path ref : Text) → W → Bool
  pub remove_all : Text → W → Bool × W
  pub dir : Text → Text

pub data GcError : Type 0 where
  no_repository ref_stays dir_stays : GcError

unfoldable pub or_10 : ℕ → ℕ
or_10 zero = 10
or_10 (suc n) = suc n

-- `ListContainers` and `ReferencedSnapshotIDs`
abbrev pub containers_of : Text → List Container → List Container
containers_of project cs =
    sort_by (λ (x : Container) y. text_lt x.id y.id)
      (select (λ (c : Container). text_eq c.project_id project) cs)

abbrev pub referenced_ids : Text → List Container → List Text
referenced_ids project cs =
    map (λ (c : Container). c.origin_snapshot_id)
      (select
        (λ (c : Container). text_eq c.project_id project && not (is_empty c.origin_snapshot_id)) cs)

-- `ListSnapshots`
abbrev pub is_of : Text → Snapshot → Bool
is_of container s = text_eq s.container_id container

abbrev pub snapshots_of : Text → List Snapshot → List Snapshot
snapshots_of container ss =
    sort_by (λ (x : Snapshot) y. ltb y.seq x.seq) (select (is_of container) ss)

-- The cases of the switch; none is a delete.
abbrev pub reason_to_keep : ℕ → List Text → ℕ → Snapshot → Option KeepReason
reason_to_keep last referenced i s =
    if ltb i last
    then some keep_recent
    else if not (is_empty s.label)
    then some keep_labelled
    else if any (text_eq s.id) referenced
    then some keep_referenced
    else none

abbrev pub path_in : Text → List (Text × Text) → Option Text
path_in id [] = none
path_in id ((i, path) ∷ rs) = if text_eq id i then some path else path_in id rs

-- A directory that is not removed.
abbrev pub is_no_dir : Text → Bool
is_no_dir d = is_empty d || (text_eq d (codes ".") || text_eq d (codes "/"))

abbrev pub Action : Type 0 → Type 0 → Type 0
Action W A = Sql GcError (Shelf W) A

abbrev pub empty_report : Report
empty_report = record { deleted = []; kept = []; bytes_freed = 0 }

module _ {W : Type 0} where
  abbrev pub new_report : Action W (Unit {0})
  new_report d fs = (ok tt, record d { report = empty_report }, fs)

  abbrev pub add_kept : Snapshot → KeepReason → Action W (Unit {0})
  add_kept s why d fs = (
    ok tt,
    record d { report = record d.report { kept = d.report.kept ++ (s.id, s.seq, why) ∷ [] } },
    fs,
  )

  abbrev pub add_deleted : Snapshot → Action W (Unit {0})
  add_deleted s d fs = (
    ok tt,
    record d {
      report = record d.report {
        deleted = d.report.deleted ++ s.id ∷ [];
        bytes_freed = d.report.bytes_freed + s.bytes;
      };
    },
    fs,
  )

  -- `GetRepository`, for the path.
  abbrev pub found_path : Option Text → Action W Text
  found_path none = raise no_repository
  found_path (some path) = pure path

  abbrev pub get_path : Text → Action W Text
  get_path id = query (λ (d : Shelf W). path_in id d.repositories) >>= found_path

  abbrev pub on_world : (W → Bool × W) → Action W Bool
  on_world f d fs = let (b, w) = f d.world in (ok b, record d { world = w }, fs)

  -- `DeleteSnapshot`
  abbrev pub delete_row : Text → Action W (Unit {0})
  delete_row id = modify (λ (d : Shelf W). record d {
    snapshots = select (λ (s : Snapshot). not (text_eq id s.id)) d.snapshots;
  })

  module _ (host : Host W) where
    -- A ref that cannot be deleted is an error if it is there.
    abbrev pub check_ref : (path ref : Text) → Bool → Action W (Unit {0})
    check_ref path ref true d fs = (ok tt, d, fs)
    check_ref path ref false d fs =
        if host.ref_exists path ref d.world then (err ref_stays, d, fs) else (ok tt, d, fs)

    abbrev pub check_dir : Bool → Action W (Unit {0})
    check_dir true = pure tt
    check_dir false = raise dir_stays

    abbrev pub remove_dir : Text → Action W (Unit {0})
    remove_dir d = if is_no_dir d then pure tt else (on_world (host.remove_all d) >>= check_dir)

    -- What `deleteSnapshot` does outside the tables.
    abbrev pub clear : Container → Snapshot → Action W (Unit {0})
    clear c s = do
      path ← get_path c.repo_id
      gone ← on_world (host.delete_ref path s.tree_ref)
      check_ref path s.tree_ref gone
      remove_dir (host.dir s.manifest_path)

    -- `deleteSnapshot`
    abbrev pub delete_snapshot : Container → Snapshot → Action W (Unit {0})
    delete_snapshot c s = clear c s >> delete_row s.id

    -- A case of the switch.
    abbrev pub treat : Bool → Container → Snapshot → Option KeepReason → Action W (Unit {0})
    treat dry c s (some why) = add_kept s why
    treat true c s none = add_deleted s
    treat false c s none = delete_snapshot c s >> add_deleted s

    -- The loop over the snapshots of a container, with the index.
    unfoldable pub treat_each :
        Policy → List Text → Container → ℕ → List Snapshot → Action W (Unit {0})
    treat_each p referenced c i [] = pure tt
    treat_each p referenced c i (s ∷ ss) =
        treat p.dry_run c s (reason_to_keep p.keep_last referenced i s)
        >> treat_each p referenced c (i + 1) ss

    unfoldable pub collect : Policy → List Text → List Container → Action W (Unit {0})
    unfolding treat_each
    collect p referenced [] = pure tt
    collect p referenced (c ∷ cs) =
        (query (λ (d : Shelf W). snapshots_of c.id d.snapshots) >>= treat_each p referenced c 0)
        >> collect p referenced cs

    -- `GC`
    unfoldable pub gc : Text → Policy → Action W (Unit {0})
    unfolding collect or_10 text_lt
    gc project p = do
      new_report
      cs ← query (λ (d : Shelf W). containers_of project d.containers)
      referenced ← query (λ (d : Shelf W). referenced_ids project d.containers)
      collect (record p { keep_last = or_10 p.keep_last }) referenced cs
