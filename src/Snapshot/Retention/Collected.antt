-- ===== src/Snapshot/Retention/Collected.antt =====
-- What a collection takes, whatever fails.
use aurium.Base.{
  ◌≡◌, refl, ap, ◌∙◌, ℕ, ◌+◌, ◌≤◌, Bool, true, false, Option, none, some, List, [], ◌∷◌, Text,
  text_eq, text_eq_sound, is_empty, any, length, ltb, lt→ltb, arith, All,
}
use aurium.Db.{Result, ok, failed, err, Faults, after, ◌>>=◌, ◌>>◌, query}
use aurium.Db.Rules.{query_rule, bind_rule}
use aurium.Db.Keeps.{Always}
use aurium.Snapshot.Retention.{
  Container, Snapshot, KeepReason, Policy, empty_report, Shelf, Host, GcError, Action, or_10,
  containers_of, referenced_ids, snapshots_of, reason_to_keep, add_deleted, delete_row, clear,
  treat, treat_each, collect, gc,
}
use aurium.Snapshot.Retention.Spared.{
  count_of, IsDoomed, Sound, Holding, Fact, met, met_count, seq, clear-Sound, deleted-Sound,
  dry-Sound, select-spares_none,
}

-- A snapshot for which the switch has no reason to keep it.
no_reason :
    (last : ℕ) (referenced : List Text) (i : ℕ) (s : Snapshot)
    → reason_to_keep last referenced i s ≡ none
    → (ltb i last ≡ false) × (is_empty s.label ≡ true) × (any (text_eq s.id) referenced ≡ false)
no_reason last referenced i s h = (ground arith, ground arith, ground arith)

module _ {W : Type 0} (host : Host W) (s₀ : Shelf W) (referenced : List Text) (last : ℕ) where
  abbrev Held : {A : Type 0} → Bool → Action W A → Type 0
  Held = Holding host s₀ referenced last

  regroup :
      (s : Snapshot) (o : Result GcError (Unit {0}) × Shelf W × Faults)
      → Always GcError
          (Sound host s₀ referenced last false)
          (after o (λ _. delete_row s.id >> add_deleted s))
      → Always GcError
          (Sound host s₀ referenced last false)
          (after (after o (λ _. delete_row s.id)) (λ _. add_deleted s))
  regroup s (ok a, d, fs) h = h
  regroup s (failed, d, fs) h = h
  regroup s (err e, d, fs) h = h

  treat-Held :
      (dry : Bool) (c : Container) (s : Snapshot) (r : Option KeepReason)
      → (r ≡ none → IsDoomed host s₀ referenced last s.id)
      → Held dry (treat host dry c s r)
  treat-Held true c s (some why) k = λ d fs h. h
  treat-Held false c s (some why) k = λ d fs h. h
  treat-Held true c s none k = dry-Sound host s₀ referenced last s (k refl)
  treat-Held false c s none k = λ d fs h. regroup s (clear host c s d fs) (
      seq host s₀ referenced last false (clear host c s) (λ _. delete_row s.id >> add_deleted s)
        (clear-Sound host s₀ referenced last c s)
        (λ _. deleted-Sound host s₀ referenced last s (k refl)) d fs h)

  treat_each-Held :
      (dry : Bool) (c : Container) (i : ℕ) (ss : List Snapshot)
      → All (Fact host s₀ referenced last c.id) ss
      → i + length ss ≤ count_of c.id s₀.snapshots
      → Held dry (treat_each host (record { keep_last = last; dry_run = dry }) referenced c i ss)
  unfolding treat_each
  treat_each-Held dry c i [] f n = λ d fs h. h
  treat_each-Held dry c i (s ∷ ss) f n =
      seq host s₀ referenced last dry (treat host dry c s (reason_to_keep last referenced i s)) _
        (treat-Held dry c s (reason_to_keep last referenced i s) (λ e.
          let r = no_reason last referenced i s e in
          let same : s.container_id ≡ c.id = text_eq_sound s.container_id c.id f.0.1 in
          let low : last ≤ i = ground (arith, r.0) in
          let more : ltb last (count_of c.id s₀.snapshots) ≡ true =
            lt→ltb last (count_of c.id s₀.snapshots) (omega (arith, n, low)) in
          let own : ltb last (count_of s.container_id s₀.snapshots) ≡ true =
            ap (λ (x : Text). ltb last (count_of x s₀.snapshots)) same ∙ more in
          f.0.0 (simp (r.1, r.2, own))))
        (λ _. treat_each-Held dry c (i + 1) ss f.1 (omega arith))

  collect-Held :
      (dry : Bool) (cs : List Container)
      → Held dry (collect host (record { keep_last = last; dry_run = dry }) referenced cs)
  unfolding collect
  collect-Held dry [] = λ d fs h. h
  collect-Held dry (c ∷ cs) =
      seq host s₀ referenced last dry
        (query (λ (d : Shelf W). snapshots_of c.id d.snapshots)
          >>= treat_each host (record { keep_last = last; dry_run = dry }) referenced c 0)
        _
        (λ d fs h.
          bind_rule _ _ _
            (λ ss t.
              (Sound host s₀ referenced last dry t)
              × All (Fact host s₀ referenced last c.id) ss
              × (length ss ≤ count_of c.id s₀.snapshots))
            (query (λ (d : Shelf W). snapshots_of c.id d.snapshots))
            (treat_each host (record { keep_last = last; dry_run = dry }) referenced c 0) d fs
            (query_rule _ _ _ (λ (d : Shelf W). snapshots_of c.id d.snapshots) d fs h
              (
                h,
                met host s₀ referenced last dry c.id d h,
                met_count host s₀ referenced last dry c.id d h,
              ))
            (λ ss t gs k. treat_each-Held dry c 0 ss k.1 (omega (arith, k.2)) t gs k.0))
        (λ _. collect-Held dry cs)

module _ {W : Type 0} (host : Host W) (s : Shelf W) (project : Text) (p : Policy) where
  abbrev pub Taken : {A : Type 0} → Result GcError A × Shelf W × Faults → Type 0
  Taken =
      Always GcError
        (Sound host s (referenced_ids project s.containers) (or_10 p.keep_last) p.dry_run)

  start_Sound :
      (dry : Bool)
      → Sound host s
          (referenced_ids project s.containers)
          (or_10 p.keep_last)
          dry
          (record s { report = empty_report })
  start_Sound true = (refl, tt, refl)
  start_Sound false = (select-spares_none s.snapshots, tt, tt)

  -- Whatever the database, git and the file system refuse, and however GC ends: each snapshot that its
  -- report says was deleted has no label, no container of the project was made from it, and its
  -- container had more snapshots than the policy keeps (10 if none is given); the snapshots that are left
  -- are all but those in the report, and for a dry run all; and a dry run does nothing to git or files.
  pub gc-Sound : (fs : Faults) → Taken (gc host project p s fs)
  unfolding gc
  gc-Sound fs =
      let refs = referenced_ids project s.containers in
      let begin : Shelf W = record s { report = empty_report } in
      let Fine = Sound host s refs (or_10 p.keep_last) p.dry_run in
      bind_rule _ _ _ (λ _ t. t ≡ begin)
        (query (λ (d : Shelf W). containers_of project d.containers)) _ begin fs
        (query_rule _ _ _ (λ (d : Shelf W). containers_of project d.containers) begin fs
          (start_Sound p.dry_run) refl)
        (λ cs t fs e. rw e (
          bind_rule _ _ _ (λ r u. (r ≡ refs) × Fine u)
            (query (λ (d : Shelf W). referenced_ids project d.containers)) _ begin fs
            (query_rule _ _ _ (λ (d : Shelf W). referenced_ids project d.containers) begin fs
              (start_Sound p.dry_run) (refl, start_Sound p.dry_run))
            (λ r u gs k.
              rw k.0 (collect-Held host s refs (or_10 p.keep_last) p.dry_run cs u gs k.1))))
