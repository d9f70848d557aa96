-- ===== src/Gateway/Powers/Own.antt =====
-- On which container a native tool acts, and for whom.
use aurium.Base.{
  ◌≡◌, refl, Bool, true, false, not, ◌&&◌, Option, [], ◌∷◌, ◌++◌, Text, codes, if◌then◌else◌, ◌⊎◌,
  inl, inr,
}
use aurium.Db.{Faults}
use aurium.Ipc.Send.{is_blank}
use aurium.Gateway.Native.{Args, arg_str}
use aurium.Gateway.Powers.{
  Power, aurium_snapshot, aurium_delegate, aurium_merge, aurium_exec, Caller, Act, snapshots,
  delegates, merges, executes, Machine, note_run, PowerAnswer, hidden, unavailable, may, is_master,
  worked, perform, snapshot, delegate, merge, exec, call_power,
}

-- What allows a caller an act: for its own container only, with the scope or the role that it takes.
abbrev pub Allowed : Caller → Act → Type 0
Allowed c (snapshots container label) =
    (container ≡ c.container_id) × (may c (codes "snapshot:self") ≡ true)
Allowed c (delegates agent container title adapter mode prompt) =
    (agent ≡ c.agent_id) × (container ≡ c.container_id) × (is_master c ≡ true)
Allowed c (merges container child) = (container ≡ c.container_id) × (is_master c ≡ true)
Allowed c (executes container command) =
    (container ≡ c.container_id) × (may c (codes "exec:self") ≡ true)

-- Whether the next record is refused.
abbrev pub next_fails : Faults → Bool
next_fails [] = false
next_fails (b ∷ fs) = b

module _ {W : Type 0} (act : Act → W → Option Text × W) (c : Caller) (args : Args)
    (m : Machine W) where
  -- What is recorded of an act: a command is, once, where there is a bus and the database takes the
  -- record; else nothing is.
  abbrev pub Recorded : Act → Machine W → Type 0
  Recorded (executes container command) t =
      ((m.has_events && not (next_fails m.faults) ≡ true)
        × (t.recorded
            ≡ m.recorded
              ++ (container, command, worked (act (executes container command) m.world).0) ∷ []))
      ⊎ ((m.has_events && not (next_fails m.faults) ≡ false) × (t.recorded ≡ m.recorded))
  Recorded _ t = t.recorded ≡ m.recorded

  -- Nothing happened, or one act that the caller is allowed, recorded if it is a command.
  abbrev pub Acts : PowerAnswer × Machine W → Type 0
  Acts r =
      (r.1 ≡ m) ⊎ ((a : Act) × (Allowed c a × ((r.1.world ≡ (act a m.world).1) × Recorded a r.1)))

  if_Acts :
      (b : Bool) (x y : PowerAnswer × Machine W)
      → (b ≡ true → Acts x)
      → (b ≡ false → Acts y)
      → Acts (if b then x else y)
  if_Acts true x y h k = h refl
  if_Acts false x y h k = k refl

  may_true : (b : Bool) → not b ≡ false → b ≡ true
  may_true true h = refl
  may_true false h = cc

  snapshot-Acts : Acts (snapshot act c args m)
  unfolding snapshot
  snapshot-Acts =
      if_Acts (not (may c (codes "snapshot:self"))) _ _ (λ _. inl refl)
        (λ e.
          if_Acts (not m.has_snapshots) _ _ (λ _. inl refl)
            (λ _. inr (
              snapshots c.container_id (arg_str args (codes "label")),
              ((refl, may_true _ e), (refl, refl)),
            )))

  master-Acts :
      (a : Act)
      → (is_master c ≡ true → Allowed c a)
      → ((w : Machine W) → w.recorded ≡ m.recorded → Recorded a w)
      → Acts (
          if not (is_master c)
          then (hidden, m)
          else if not m.has_delegator
          then (unavailable, m)
          else perform act a m)
  master-Acts a k l =
      if_Acts (not (is_master c)) _ _ (λ _. inl refl)
        (λ e.
          if_Acts (not m.has_delegator) _ _ (λ _. inl refl)
            (λ _. inr (a, (k (may_true _ e), (refl, l _ refl)))))

  ran :
      (command : Text) (b : Bool) (fs : Faults)
      → m.has_events ≡ b
      → m.faults ≡ fs
      → let a = executes c.container_id command in
        let t =
          note_run
            (c.container_id, command, worked (act a m.world).0)
            b
            fs
            (record m { world = (act a m.world).1 }) in
        (t.world ≡ (act a m.world).1) × Recorded a t
  ran command false fs e f = (refl, inr (rw e refl, refl))
  ran command true [] e f = (refl, inl (rw (e, f) refl, refl))
  ran command true (false ∷ fs) e f = (refl, inl (rw (e, f) refl, refl))
  ran command true (true ∷ fs) e f = (refl, inr (rw (e, f) refl, refl))

  exec-Acts : Acts (exec act c args m)
  unfolding exec
  exec-Acts =
      let command = arg_str args (codes "command") in
      if_Acts (not (may c (codes "exec:self"))) _ _ (λ _. inl refl)
        (λ e.
          if_Acts (not m.has_executor) _ _ (λ _. inl refl)
            (λ _.
              if_Acts (is_blank command) _ _ (λ _. inl refl)
                (λ _. inr (
                  executes c.container_id command,
                  ((refl, may_true _ e), ran command m.has_events m.faults refl refl),
                ))))

  delegate-Acts : Acts (delegate act c args m)
  unfolding delegate
  delegate-Acts =
      master-Acts (delegates c.agent_id c.container_id _ _ _ _) (λ e. (refl, refl, e)) (λ w h. h)

  merge-Acts : Acts (merge act c args m)
  unfolding merge
  merge-Acts =
      master-Acts (merges c.container_id (arg_str args (codes "child"))) (λ e. (refl, e)) (λ w h. h)

  -- A call of aurium_snapshot, aurium_delegate, aurium_merge or aurium_exec leaves the machine and the
  -- record of commands as they were, or it is one act on the caller's own container: a snapshot for a
  -- token with the scope snapshot:self or for a human, a delegation or a merge for the role master, a
  -- delegation for the caller's own agent, a command for a token with the scope exec:self or for a human.
  -- A command, also one that failed, is recorded with whether it worked, if the events are there and
  -- the database does not refuse the record; else, and for the other acts, nothing is recorded.
  pub call_power-Acts : (name : Power) → Acts (call_power act name c args m)
  unfolding call_power
  call_power-Acts aurium_snapshot = snapshot-Acts
  call_power-Acts aurium_delegate = delegate-Acts
  call_power-Acts aurium_merge = merge-Acts
  call_power-Acts aurium_exec = exec-Acts
