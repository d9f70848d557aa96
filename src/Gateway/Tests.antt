-- ===== src/Gateway/Tests.antt =====
-- The gateway on concrete grants and approvals.
use aurium.Base.{
  ◌≡◌, refl, Bool, true, false, Option, none, some, List, [], ◌∷◌, Text, codes, text_eq, ◌⊎◌,
}
use aurium.Db.{ok, statement}
use aurium.Glob.{path_match}
use aurium.Gateway.Risk.{high, medium, classify_risk}
use aurium.Gateway.Grants.{
  Mode, allow, deny, approve, Level, role, project, Subject, Grant, Grants, resolve, level_eq,
}
use aurium.Gateway.Approvals.{Approval, pending, status_eq, Gate, Message, check_pending, decide}
use aurium.Gateway.Approvals.Once.{decide-once}

-- The first star takes nothing, and is not tried again: the class has matched "a", and no star passes
-- the slash behind it.
first_match_kept : path_match (codes "*[^b]*c") (codes "a/xc") ≡ some false
unfolding path_match
first_match_kept = refl

classify_delete : classify_risk (codes "deleteBranch") ≡ high
unfolding classify_risk text_eq
classify_delete = refl

classify_unknown : classify_risk (codes "frobnicate") ≡ medium
unfolding classify_risk text_eq
classify_unknown = refl

abbrev asker : Subject
asker = record {
  agent_id = codes "a_1";
  role = codes "worker";
  container_id = codes "c_1";
  project_id = codes "p_1";
}

abbrev grant : Text → Text → Level → Text → Mode → Grant
grant id glob level subject mode = record {
  id = id;
  integration_id = codes "int_1";
  capability_glob = glob;
  subject_type = level;
  subject_id = subject;
  mode = mode;
  created_by = codes "human";
  created_at = codes "t0";
}

abbrev grants : Grants
grants =
    grant (codes "g_1") (codes "*") project (codes "p_1") deny
    ∷ grant (codes "g_2") (codes "create_issue") role (codes "worker") allow
    ∷ grant (codes "g_3") (codes "create_*") role (codes "worker") approve
    ∷ []

resolve_approve : (resolve asker (codes "int_1") (codes "create_issue") grants []).0 ≡ ok approve
unfolding resolve statement text_eq level_eq
resolve_approve = refl

abbrev held : Approval
held = record {
  id = codes "ap_1";
  project_id = [];
  container_id = codes "c_1";
  agent_id = codes "a_1";
  integration_id = codes "int_1";
  capability = codes "github_delete_branch";
  args_json = codes "{}";
  reason = [];
  status = pending;
  decided_by = [];
  created_at = codes "2026-01-01T00:00:00Z";
  decided_at = [];
  expires_at = codes "2026-01-01T00:30:00Z";
}

-- An upstream that keeps the calls made of it, and a mail that takes everything.
abbrev call : Text → Text → Text → List Text → (Bool × Text) × List Text
call integration capability args calls = ((true, codes "done"), capability ∷ calls)

abbrev send : Message → List Message → Option Text × List Message
send m mail = (none, m ∷ mail)

abbrev gate : Gate (List Text) (List Message)
gate = record {
  approvals = held ∷ [];
  containers = (codes "c_1", codes "p_1") ∷ [];
  upstreams = codes "int_1" ∷ [];
  notes = [];
  world = [];
  mail = [];
}

-- An approval that has expired is approved all the same: no clock is read.
decide_overdue :
    (decide call send
      (codes "2027-01-01T00:00:00Z")
      (codes "ap_1")
      (codes "approved")
      (codes "human")
      gate
      []).1.world
    ≡ codes "delete_branch" ∷ []
unfolding decide statement text_eq status_eq
decide_overdue = refl

decide-once_example :
    let first =
      (decide call send (codes "t1") (codes "ap_1") (codes "approved") (codes "human") gate []).1 in
    let second =
      (decide call send
        (codes "t2")
        (codes "ap_1")
        (codes "approved")
        (codes "other")
        first
        (false ∷ true ∷ [])).1 in
    (first.world ≡ gate.world) ⊎ (second.world ≡ first.world)
decide-once_example =
    decide-once (codes "ap_1") call send (codes "t1") (codes "approved") (codes "human")
      (codes "t2") (codes "approved") (codes "other") gate [] (false ∷ true ∷ [])

-- Two decisions that overlap: both have read the approval as pending before either writes, and both
-- call the upstream.
decide_overlaps :
    let first =
      (check_pending call send (codes "t1") (codes "approved") (codes "human") held gate []).1 in
    (check_pending call send (codes "t2") (codes "approved") (codes "other") held first []).1.world
    ≡ codes "delete_branch" ∷ codes "delete_branch" ∷ []
unfolding decide statement text_eq status_eq
decide_overlaps = refl
