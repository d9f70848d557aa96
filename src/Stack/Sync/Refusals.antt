-- ===== src/Stack/Sync/Refusals.antt =====
-- When a sync touches the repository.
use aurium.Base.{
  ◌≡◌, refl, Bool, true, false, not, ◌&&◌, ◌||◌, Option, none, some, Text, text_eq, arith,
  if◌then◌else◌, ◌⊎◌, inl, inr,
}
use aurium.Stack.Sync.{
  eligible, dirty, is_uncommitted, blank, or_zero, plan_of, after_rebase, Target, Options, Result,
  Outcome, Git, Files, rebase_in_progress, by_clean, by_tip, by_base, by_parent, by_progress,
  check_eligibility, after_check, run_rebase, sync,
}

module _ {G : Type 0} (git : Git G) (t : Target) (o : Options) (g : G) where
  -- What must hold for a rebase to be started, and onto which commit.
  pub record MayRebase (busy : Bool) : Type 0 where
    pub tip : Text
    pub idle : busy ≡ false
    pub parent : git.rev_parse t.parent_branch g ≡ some tip
    pub built_on : git.is_ancestor t.base_sha t.branch g ≡ some true
    pub moved : text_eq tip t.base_sha ≡ false
    pub worktree : (git.is_clean g ≡ some true) ⊎ ((o.autostash || o.force) ≡ true)
    pub real : o.dry_run ≡ false

  abbrev pub Touches : Bool → Outcome × G → Type 0
  Touches busy r = (r.1 ≡ g) ⊎ MayRebase busy

  module _ (busy : Bool) (idle : busy ≡ false) (tip : Text)
      (parent : git.rev_parse t.parent_branch g ≡ some tip)
      (built_on : git.is_ancestor t.base_sha t.branch g ≡ some true)
      (moved : text_eq tip t.base_sha ≡ false) where
    run-Touches :
        (res : Result)
        → (git.is_clean g ≡ some true) ⊎ ((o.autostash || o.force) ≡ true)
        → Touches busy (run_rebase git t o g res)
    run-Touches res w = pick o.dry_run refl
      where
        ended : Outcome × G
        ended =
            after_rebase git t o
              (record res { replayed = or_zero (git.count t.base_sha t.branch g) })
              (git.rebase o.autostash res.parent_tip t.base_sha t.branch g)

        pick :
            (b : Bool)
            → o.dry_run ≡ b
            → Touches busy (if b then ((record res { eligibility = eligible }, none), g) else ended)
        pick true e = inl refl
        pick false e = inr (record {
          tip = tip;
          idle = idle;
          parent = parent;
          built_on = built_on;
          moved = moved;
          worktree = w;
          real = e;
        })

    clean-Touches :
        (c : Option Bool) (res : Result)
        → git.is_clean g ≡ c
        → Touches busy (after_check git t o g (by_clean git t g res c))
    clean-Touches none res e = inl refl
    clean-Touches (some true) res e = run-Touches _ (inl e)
    clean-Touches (some false) res e = pick o.autostash o.force refl refl
      where
        stashed : Outcome × G
        stashed = run_rebase git t o g (record res {
          eligibility = dirty;
          reason = is_uncommitted;
          plan = plan_of t res.parent_tip;
        })

        left : Outcome × G
        left = ((record res { eligibility = dirty; reason = is_uncommitted }, none), g)

        pick :
            (a f : Bool)
            → o.autostash ≡ a
            → o.force ≡ f
            → Touches busy (if not a && not f then left else stashed)
        pick false false a f = inl refl
        pick true f a e = run-Touches _ (inr (ground arith))
        pick false true a f = run-Touches _ (inr (ground arith))

  tip-Touches :
      (busy : Bool) (tip : Text) (b : Bool) (res : Result)
      → busy ≡ false
      → git.rev_parse t.parent_branch g ≡ some tip
      → git.is_ancestor t.base_sha t.branch g ≡ some true
      → text_eq tip t.base_sha ≡ b
      → Touches busy (after_check git t o g (by_tip git t g res b))
  tip-Touches busy tip true res i p a e = inl refl
  tip-Touches busy tip false res i p a e = clean-Touches busy i tip p a e (git.is_clean g) res refl

  base-Touches :
      (busy : Bool) (tip : Text) (a : Option Bool)
      → busy ≡ false
      → git.rev_parse t.parent_branch g ≡ some tip
      → git.is_ancestor t.base_sha t.branch g ≡ a
      → Touches busy (after_check git t o g (by_base git t g (record blank { parent_tip = tip }) a))
  base-Touches busy tip none i p e = inl refl
  base-Touches busy tip (some false) i p e = inl refl
  base-Touches busy tip (some true) i p e =
      tip-Touches busy tip (text_eq tip t.base_sha) (record blank { parent_tip = tip }) i p e refl

  parent-Touches :
      (busy : Bool) (p : Option Text)
      → busy ≡ false
      → git.rev_parse t.parent_branch g ≡ p
      → Touches busy (after_check git t o g (by_parent git t g p))
  parent-Touches busy none i e = inl refl
  parent-Touches busy (some tip) i e =
      base-Touches busy tip (git.is_ancestor t.base_sha t.branch g) i e refl

  progress-Touches :
      (busy b : Bool) → busy ≡ b → Touches busy (after_check git t o g (by_progress git t g b))
  progress-Touches busy true i = inl refl
  progress-Touches busy false i = parent-Touches busy (git.rev_parse t.parent_branch g) i refl

  -- Sync leaves the repository as it was, whatever it returns, unless no rebase is in progress in the
  -- worktree, the parent's branch is there, the recorded base is an ancestor of the child's branch, the
  -- parent's tip is not the recorded base, the worktree is clean or Autostash or Force is set, and it is
  -- no dry run. So Force does not help against drift or a rebase in progress.
  pub sync-MayRebase :
      (files : Files) (worktree : Text)
      → ((sync git files worktree t o g).1 ≡ g) ⊎ MayRebase (rebase_in_progress files worktree)
  unfolding sync check_eligibility
  sync-MayRebase files worktree =
      progress-Touches (rebase_in_progress files worktree) (rebase_in_progress files worktree) refl
