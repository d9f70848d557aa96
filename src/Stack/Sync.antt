-- ===== src/Stack/Sync.antt =====
-- internal/stack/sync.go: bringing a child's branch up to date with its parent's.
--
-- Git and the file system are parameters, with a repository's state `G`. What git prints is taken
-- as read: a count that cannot be had is none. The sentences of `Reason` stand as what they name.
pub mod Refusals
pub mod Bases
use aurium.Base.{
  ℕ, Bool, true, false, not, ◌&&◌, ◌||◌, Option, none, some, List, [], ◌∷◌, ◌++◌, Text, codes,
  text_eq, take, if◌then◌else◌,
}

-- `Eligibility`; the empty text is `unset`.
pub data Eligibility : Type 0 where
  unset eligible synced up_to_date dirty drifted conflict in_progress missing_parent : Eligibility

-- `Target`
pub record Target : Type 0 where
  pub branch : Text
  pub parent_branch : Text
  pub base_sha : Text

-- `Options`
pub record Options : Type 0 where
  pub dry_run : Bool
  pub autostash : Bool
  pub abort_on_conflict : Bool
  pub force : Bool

-- What `Reason` says.
pub data Reason : Type 0 where
  no_reason : Reason
  is_running : Reason
  no_parent : Text → Reason
  was_rewritten : (base branch : Text) → Reason
  is_uncommitted : Reason
  conflicts_in : (branch parent : Text) → List Text → Reason

-- `Result`
pub record Result : Type 0 where
  pub eligibility : Eligibility
  pub new_base_sha : Text
  pub parent_tip : Text
  pub replayed : ℕ
  pub behind : ℕ
  pub conflicted_files : List Text
  pub plan : Text
  pub reason : Reason

abbrev pub blank : Result
blank = record {
  eligibility = unset;
  new_base_sha = [];
  parent_tip = [];
  replayed = 0;
  behind = 0;
  conflicted_files = [];
  plan = [];
  reason = no_reason;
}

-- How a rebase ends; `broke` is an error that is no conflict.
pub data Rebase : Type 0 where
  done stopped broke : Rebase

-- Errors: the state of the worktree cannot be read; the rebase failed.
pub data SyncError : Type 0 where
  not_read not_rebased : SyncError

-- What is used of git: the first four read.
pub record Git (G : Type 0) : Type 0 where
  pub rev_parse : Text → G → Option Text
  pub is_ancestor : Text → Text → G → Option Bool
  pub is_clean : G → Option Bool
  pub count : Text → Text → G → Option ℕ
  pub unmerged : G → Option (List Text)
  pub rebase : (autostash : Bool) → (onto base branch : Text) → G → Rebase × G
  pub abort : G → G

-- What is used of the file system: whether a path is there and a directory, a file's text, and joined
-- paths.
pub record Files : Type 0 where
  pub stat : Text → Option Bool
  pub read_file : Text → Option Text
  pub join : Text → Text → Text
  pub trim_space : Text → Text

abbrev pub Outcome : Type 0
Outcome = Result × Option SyncError

-- `short`
abbrev pub short : Text → Text
short sha = take 8 sha

abbrev pub plan_of : Target → Text → Text
plan_of t tip =
    codes "git rebase --onto "
    ++ short tip
    ++ codes " "
    ++ short t.base_sha
    ++ codes " "
    ++ t.branch

abbrev pub or_zero : Option ℕ → ℕ
or_zero none = 0
or_zero (some n) = n

abbrev pub or_none : Option (List Text) → List Text
or_none none = []
or_none (some fs) = fs

-- `strings.CutPrefix`, or else what was there.
unfoldable pub without_prefix : Text → Text → Option Text
without_prefix [] s = some s
without_prefix (c ∷ p) [] = none
without_prefix (c ∷ p) (d ∷ s) = if text_eq (c ∷ []) (d ∷ []) then without_prefix p s else none

abbrev pub linked : (path : Text) → Option Text → Text
linked path none = path
linked path (some dir) = dir

abbrev pub body_dir : Files → (path : Text) → Option Text → Text
body_dir f path none = path
body_dir f path (some body) = linked path (without_prefix (codes "gitdir: ") (f.trim_space body))

abbrev pub git_dir : Files → (path : Text) → Option Bool → Text
git_dir f path (some false) = body_dir f path (f.read_file path)
git_dir f path _ = path

abbrev pub is_there : Option Bool → Bool
is_there none = false
is_there (some _) = true

-- `RebaseInProgress`
unfoldable pub rebase_in_progress : Files → Text → Bool
unfolding without_prefix
rebase_in_progress f worktree =
    let path = f.join worktree (codes ".git") in
    let dir = git_dir f path (f.stat path) in
    is_there (f.stat (f.join dir (codes "rebase-merge")))
    || is_there (f.stat (f.join dir (codes "rebase-apply")))

module _ {G : Type 0} (git : Git G) where
  -- The checks of `CheckEligibility`, the last first.
  abbrev pub by_clean : Target → G → Result → Option Bool → Outcome
  by_clean t g res none = (res, some not_read)
  by_clean t g res (some false) =
      (record res { eligibility = dirty; reason = is_uncommitted }, none)
  by_clean t g res (some true) = (
    record res {
      eligibility = eligible;
      behind = or_zero (git.count t.base_sha res.parent_tip g);
      plan = plan_of t res.parent_tip;
    },
    none,
  )

  abbrev pub by_tip : Target → G → Result → Bool → Outcome
  by_tip t g res true = (record res { eligibility = up_to_date; new_base_sha = t.base_sha }, none)
  by_tip t g res false = by_clean t g res (git.is_clean g)

  abbrev pub by_base : Target → G → Result → Option Bool → Outcome
  by_base t g res (some true) = by_tip t g res (text_eq res.parent_tip t.base_sha)
  by_base t g res _ = (
    record res { eligibility = drifted; reason = was_rewritten (short t.base_sha) t.branch },
    none,
  )

  abbrev pub by_parent : Target → G → Option Text → Outcome
  by_parent t g none =
      (record blank { eligibility = missing_parent; reason = no_parent t.parent_branch }, none)
  by_parent t g (some tip) =
      by_base t g (record blank { parent_tip = tip }) (git.is_ancestor t.base_sha t.branch g)

  -- `CheckEligibility`, with whether a rebase is in progress.
  abbrev pub by_progress : Target → G → Bool → Outcome
  by_progress t g true = (record blank { eligibility = in_progress; reason = is_running }, none)
  by_progress t g false = by_parent t g (git.rev_parse t.parent_branch g)

  unfoldable pub check_eligibility : Files → Text → Target → G → Outcome
  unfolding rebase_in_progress
  check_eligibility files worktree t g = by_progress t g (rebase_in_progress files worktree)

  -- What `Sync` does when the rebase has ended.
  abbrev pub after_rebase : Target → Options → Result → Rebase × G → Outcome × G
  after_rebase t o res (done, g) =
      ((record res { eligibility = synced; new_base_sha = res.parent_tip }, none), g)
  after_rebase t o res (broke, g) = ((res, some not_rebased), g)
  after_rebase t o res (stopped, g) =
      let files = or_none (git.unmerged g) in
      (
        (
          record res {
            eligibility = conflict;
            conflicted_files = files;
            reason = conflicts_in t.branch t.parent_branch files;
          },
          none,
        ),
        if o.abort_on_conflict then git.abort g else g,
      )

  abbrev pub run_rebase : Target → Options → G → Result → Outcome × G
  run_rebase t o g res =
      if o.dry_run
      then ((record res { eligibility = eligible }, none), g)
      else after_rebase t o (record res { replayed = or_zero (git.count t.base_sha t.branch g) })
          (git.rebase o.autostash res.parent_tip t.base_sha t.branch g)

  -- `Sync`, by what the check says.
  abbrev pub by_eligibility : Target → Options → G → Result → Eligibility → Outcome × G
  by_eligibility t o g res up_to_date = ((res, none), g)
  by_eligibility t o g res drifted = ((res, none), g)
  by_eligibility t o g res missing_parent = ((res, none), g)
  by_eligibility t o g res in_progress = ((res, none), g)
  by_eligibility t o g res dirty =
      if not o.autostash && not o.force
      then ((res, none), g)
      else run_rebase t o g (record res { plan = plan_of t res.parent_tip })
  by_eligibility t o g res _ = run_rebase t o g res

  abbrev pub after_check : Target → Options → G → Outcome → Outcome × G
  after_check t o g (res, some e) = ((res, some e), g)
  after_check t o g (res, none) = by_eligibility t o g res res.eligibility

  unfoldable pub sync : Files → Text → Target → Options → G → Outcome × G
  unfolding check_eligibility
  sync files worktree t o g = after_check t o g (check_eligibility files worktree t g)
