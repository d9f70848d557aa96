-- ===== src/Stack/Sync/Bases.antt =====
-- The recorded base that a sync returns.
use aurium.Base.{
  ◌≡◌, refl, ap, ◌∙◌, Bool, true, false, not, ◌&&◌, Option, none, some, [], Text, text_eq,
  text_eq_sound, if◌then◌else◌,
}
use aurium.Stack.Sync.{
  Eligibility, eligible, synced, up_to_date, dirty, is_uncommitted, Rebase, done, stopped, broke,
  blank, or_zero, plan_of, after_rebase, Target, Options, Result, Outcome, Git, Files,
  rebase_in_progress, by_clean, by_tip, by_base, by_parent, by_progress, check_eligibility,
  after_check, run_rebase, sync,
}

module _ {G : Type 0} (git : Git G) (t : Target) (o : Options) (g : G) where
  -- The base that goes with an outcome.
  abbrev pub BaseFor : Eligibility → Result → Type 0
  BaseFor synced r =
      (r.new_base_sha ≡ r.parent_tip) × (git.rev_parse t.parent_branch g ≡ some r.parent_tip)
  BaseFor up_to_date r =
      (r.new_base_sha ≡ t.base_sha) × (git.rev_parse t.parent_branch g ≡ some t.base_sha)
  BaseFor _ r = r.new_base_sha ≡ []

  abbrev pub HasBase : Outcome × G → Type 0
  HasBase r = BaseFor r.0.0.eligibility r.0.0

  rebase-HasBase :
      (res : Result) (r : Rebase × G)
      → res.new_base_sha ≡ []
      → git.rev_parse t.parent_branch g ≡ some res.parent_tip
      → BaseFor res.eligibility res
      → HasBase (after_rebase git t o res r)
  rebase-HasBase res (done, h) n p b = (refl, p)
  rebase-HasBase res (stopped, h) n p b = n
  rebase-HasBase res (broke, h) n p b = b

  dry-HasBase :
      (res : Result) (b : Bool) (r : Rebase × G)
      → res.new_base_sha ≡ []
      → git.rev_parse t.parent_branch g ≡ some res.parent_tip
      → BaseFor res.eligibility
          (record res { replayed = or_zero (git.count t.base_sha t.branch g) })
      → HasBase (
          if b
          then ((record res { eligibility = eligible }, none), g)
          else after_rebase git t o
              (record res { replayed = or_zero (git.count t.base_sha t.branch g) })
              r)
  dry-HasBase res true r n p b = n
  dry-HasBase res false r n p b =
      rebase-HasBase (record res { replayed = or_zero (git.count t.base_sha t.branch g) }) r n p b

  run-HasBase :
      (res : Result)
      → res.new_base_sha ≡ []
      → git.rev_parse t.parent_branch g ≡ some res.parent_tip
      → BaseFor res.eligibility
          (record res { replayed = or_zero (git.count t.base_sha t.branch g) })
      → HasBase (run_rebase git t o g res)
  run-HasBase res n p b =
      dry-HasBase res o.dry_run (git.rebase o.autostash res.parent_tip t.base_sha t.branch g) n p b

  dirty-HasBase :
      (b : Bool) (res : Result)
      → res.new_base_sha ≡ []
      → git.rev_parse t.parent_branch g ≡ some res.parent_tip
      → HasBase (
          if b
          then ((record res { eligibility = dirty; reason = is_uncommitted }, none), g)
          else run_rebase git t o g (record res {
            eligibility = dirty;
            reason = is_uncommitted;
            plan = plan_of t res.parent_tip;
          }))
  dirty-HasBase true res n p = n
  dirty-HasBase false res n p =
      run-HasBase
        (record res {
          eligibility = dirty;
          reason = is_uncommitted;
          plan = plan_of t res.parent_tip;
        })
        n p n

  clean-HasBase :
      (c : Option Bool) (res : Result)
      → res.new_base_sha ≡ []
      → git.rev_parse t.parent_branch g ≡ some res.parent_tip
      → BaseFor res.eligibility res
      → HasBase (after_check git t o g (by_clean git t g res c))
  clean-HasBase none res n p b = b
  clean-HasBase (some true) res n p b =
      run-HasBase
        (record res {
          eligibility = eligible;
          behind = or_zero (git.count t.base_sha res.parent_tip g);
          plan = plan_of t res.parent_tip;
        })
        n p n
  clean-HasBase (some false) res n p b = dirty-HasBase (not o.autostash && not o.force) res n p

  tip-HasBase :
      (b : Bool) (tip : Text)
      → text_eq tip t.base_sha ≡ b
      → git.rev_parse t.parent_branch g ≡ some tip
      → HasBase (after_check git t o g (by_tip git t g (record blank { parent_tip = tip }) b))
  tip-HasBase true tip e p = (refl, p ∙ ap some (text_eq_sound tip t.base_sha e))
  tip-HasBase false tip e p =
      clean-HasBase (git.is_clean g) (record blank { parent_tip = tip }) refl p refl

  base-HasBase :
      (a : Option Bool) (tip : Text)
      → git.rev_parse t.parent_branch g ≡ some tip
      → HasBase (after_check git t o g (by_base git t g (record blank { parent_tip = tip }) a))
  base-HasBase none tip p = refl
  base-HasBase (some false) tip p = refl
  base-HasBase (some true) tip p = tip-HasBase (text_eq tip t.base_sha) tip refl p

  parent-HasBase :
      (p : Option Text)
      → git.rev_parse t.parent_branch g ≡ p
      → HasBase (after_check git t o g (by_parent git t g p))
  parent-HasBase none e = refl
  parent-HasBase (some tip) e = base-HasBase (git.is_ancestor t.base_sha t.branch g) tip e

  progress-HasBase : (b : Bool) → HasBase (after_check git t o g (by_progress git t g b))
  progress-HasBase true = refl
  progress-HasBase false = parent-HasBase (git.rev_parse t.parent_branch g) refl

  -- The recorded base that Sync returns, whatever git does: where it says synced, the commit that the
  -- parent's branch pointed to; where it says up to date, the base of the target, which is that commit;
  -- and in every other outcome, an error too, none.
  pub sync-HasBase : (files : Files) (worktree : Text) → HasBase (sync git files worktree t o g)
  unfolding sync check_eligibility
  sync-HasBase files worktree = progress-HasBase (rebase_in_progress files worktree)
