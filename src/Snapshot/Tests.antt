-- ===== src/Snapshot/Tests.antt =====
-- A collection of three snapshots.
use aurium.Base.{◌≡◌, refl, ℕ, true, false, List, [], ◌∷◌, Text, codes, text_eq}
use aurium.Ids.Order.{text_lt}
use aurium.Db.{statement}
use aurium.Snapshot.Retention.{
  Container, Snapshot, Policy, Shelf, Host, empty_report, gc, collect, treat_each, or_10,
}
use aurium.Snapshot.Retention.Collected.{Taken, gc-Sound}

abbrev box : Container
box = record {
  id = codes "c";
  project_id = codes "p";
  repo_id = codes "r";
  origin_snapshot_id = [];
}

abbrev shot : Text → ℕ → Text → Snapshot
shot id seq label = record {
  id = id;
  container_id = codes "c";
  seq = seq;
  label = label;
  tree_ref = id;
  manifest_path = [];
  bytes = 5;
}

abbrev shelf : Shelf (List Text)
shelf = record {
  containers = box ∷ [];
  repositories = (codes "r", codes "path") ∷ [];
  snapshots =
      shot (codes "s1") 1 [] ∷ shot (codes "s2") 2 (codes "good") ∷ shot (codes "s3") 3 [] ∷ [];
  report = empty_report;
  world = [];
}

abbrev host : Host (List Text)
host = record {
  delete_ref = λ path ref w. (true, ref ∷ w);
  ref_exists = λ path ref w. false;
  remove_all = λ dir w. (true, w);
  dir = λ path. path;
}

abbrev last_one : Policy
last_one = record { keep_last = 1; dry_run = false }

gc_deleted : (gc host (codes "p") last_one shelf []).1.report.deleted ≡ codes "s1" ∷ []
unfolding gc collect treat_each or_10 statement text_eq text_lt
gc_deleted = refl

gc-Sound_example :
    Taken host shelf
      (codes "p")
      last_one
      (gc host (codes "p") last_one shelf (false ∷ false ∷ true ∷ []))
gc-Sound_example = gc-Sound host shelf (codes "p") last_one (false ∷ false ∷ true ∷ [])
