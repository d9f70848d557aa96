-- ===== src/Gateway/Native/Permitted.antt =====
-- The changes that the native tools make to shared context.
use aurium.Base.{
  ◌≡◌, refl, ap, Bool, true, false, Option, ℕ, Text, codes, ◌⊎◌, inl, inr, if◌then◌else◌,
}
use aurium.Db.{Result, ok, failed, err, Faults, pure, raise, ◌>>=◌}
use aurium.Db.Rules.{Post, bind_rule, Post-mono}
use aurium.Context.Store.{Ref, Perm, append, write, Store, ContextError, permission, Proposal}
use aurium.Context.Store
use aurium.Context.Grants.{Subject, Access, allows, check, require, resolve_perm}
use aurium.Context.Grants.Justified.{IsJustified, resolve_perm-IsJustified}
use aurium.Gateway.Native.{
  Args, Shared, NativeAnswer, Tool, on_access, if_permitted, ref_for, context_append, context_write,
  context_propose,
}

-- A permission that allows what is wanted, and its reason.
pub record MayDo (a : Access) (c : Subject) (r : Ref) (want : Perm) : Type 0 where
  pub perm : Perm
  pub reason : IsJustified a c r perm
  pub enough : allows perm want ≡ true

check-MayDo :
    (a t : Access) (c : Subject) (r : Ref) (want p : Perm) (fs : Faults)
    → IsJustified a c r p
    → t ≡ a
    → Post (λ _ u. MayDo a c r want × (u ≡ a)) (λ _ u. u ≡ a) (λ u. u ≡ a) (check r want p t fs)
check-MayDo a t c r want p fs j e = pick (allows p want) refl
  where
    pick :
        (b : Bool)
        → allows p want ≡ b
        → Post
            (λ _ u. MayDo a c r want × (u ≡ a))
            (λ _ u. u ≡ a)
            (λ u. u ≡ a)
            ((if b then pure tt else raise (permission r want p)) t fs)
    pick true k = (record { perm = p; reason = j; enough = k }, e)
    pick false k = e

require-MayDo :
    (a : Access) (c : Subject) (r : Ref) (want : Perm) (fs : Faults)
    → Post (λ _ u. MayDo a c r want × (u ≡ a)) (λ _ u. u ≡ a) (λ u. u ≡ a) (require c r want a fs)
unfolding require
require-MayDo a c r want fs =
    bind_rule (λ _ u. MayDo a c r want × (u ≡ a)) (λ _ u. u ≡ a) (λ u. u ≡ a)
      (λ p u. IsJustified a c r p × (u ≡ a)) (resolve_perm c r) (check r want) a fs
      (Post-mono (resolve_perm c r a fs) (λ _ _ h. h) (λ _ _ h. elim h [ ]) (λ _ h. h)
        (resolve_perm-IsJustified a c r fs))
      (λ p u gs h. check-MayDo a u c r want p gs h.0 h.1)

module _ {N : Type 0} (d : Shared N) (c : Subject) where
  -- Everything is as it was, or the caller may do what is wanted.
  abbrev pub Guarded : Ref → Perm → Result ContextError NativeAnswer × Shared N × Faults → Type 0
  Guarded r want x = (x.1 ≡ d) ⊎ MayDo d.access c r want

  permitted-Guarded :
      (r : Ref) (want : Perm) (m : Tool N) (o : Result ContextError (Unit {0}) × Access × Faults)
      → Post
          (λ _ u. MayDo d.access c r want × (u ≡ d.access))
          (λ _ u. u ≡ d.access)
          (λ u. u ≡ d.access)
          o
      → Guarded r want (if_permitted m o.0 (record d { access = o.1 }) o.2)
  permitted-Guarded r want m (ok x, u, gs) h = inr h.0
  permitted-Guarded r want m (failed, u, gs) h =
      inl (ap (λ (a : Access). record d { access = a }) h)
  permitted-Guarded r want m (err e, u, gs) h = inl (ap (λ (a : Access). record d { access = a }) h)

  guarded :
      (r : Ref) (want : Perm) (m : Tool N) (fs : Faults)
      → Guarded r want ((on_access (require c r want) >>= if_permitted m) d fs)
  guarded r want m fs =
      permitted-Guarded r want m (require c r want d.access fs) (require-MayDo d.access c r want fs)

  module _ (scan : Text → Option ℕ) (notify : (project key : Text) → ℕ → N → N)
      (tell_human : Subject → Ref → Proposal → N → N) (id now : Text) (args : Args) where
    -- The native tools that change shared context, whatever statements the database refuses: unless the
    -- caller has, for one of the reasons that a permission has, one that allows to append, to write or to
    -- propose respectively, at the place that the arguments name, the call leaves the context, the
    -- grants and the mail as they were.
    pub context_tools-Guarded :
        (fs : Faults)
        → Guarded (ref_for c args (codes "container")) append (context_append id now c args d fs)
          × Guarded
              (ref_for c args (codes "container"))
              write
              (context_write scan notify tell_human id now c args d fs)
          × Guarded
              (ref_for c args (codes "project"))
              Store.Perm.propose
              (context_propose scan notify tell_human id now c args d fs)
    unfolding context_append context_write context_propose
    context_tools-Guarded fs = (
      guarded (ref_for c args (codes "container")) append _ fs,
      guarded (ref_for c args (codes "container")) write _ fs,
      guarded (ref_for c args (codes "project")) Store.Perm.propose _ fs,
    )
