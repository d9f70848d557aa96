-- ===== src/Gateway/Powers.antt =====
-- internal/gateway/native.go: the native tools that act on containers.
--
-- SnapshotTaker, Delegator and Executor are a parameter, `act`, with the state `W` of the machine: it
-- gives the text of a result, or none for an error. Each may be missing, and so may the events.
pub mod Own
use aurium.Base.{
  Bool, true, false, not, ◌&&◌, ◌||◌, Option, none, some, List, [], ◌∷◌, ◌++◌, Text, codes, text_eq,
  if◌then◌else◌,
}
use aurium.Db.{Faults}
use aurium.Tokens.{TokenInfo, has}
use aurium.Ipc.Send.{is_blank}
use aurium.Gateway.Native.{Args, arg_str}

-- `Caller`
pub record Caller : Type 0 where
  pub agent_id : Text
  pub role : Text
  pub container_id : Text
  pub token : TokenInfo
  pub is_human : Bool

-- The tools, by their names.
pub data Power : Type 0 where
  aurium_snapshot aurium_delegate aurium_merge aurium_exec : Power

-- The calls of SnapshotContainer, Delegate, Merge and ExecInContainer.
pub data Act : Type 0 where
  snapshots : (container label : Text) → Act
  delegates : (agent container title adapter mode prompt : Text) → Act
  merges : (container child : Text) → Act
  executes : (container command : Text) → Act

-- The machine, which of the three and whether the events are there, the commands that were recorded,
-- each with whether it worked, and which of the next INSERTs of a record fail (none of those past the
-- end).
pub record Machine (W : Type 0) : Type 0 where
  pub world : W
  pub has_snapshots : Bool
  pub has_delegator : Bool
  pub has_executor : Bool
  pub has_events : Bool
  pub recorded : List (Text × Text × Bool)
  pub faults : Faults

-- What the tools answer; `hidden` is the error for a tool that does not exist.
pub data PowerAnswer : Type 0 where
  hidden : PowerAnswer
  denied_scope : Text → PowerAnswer
  unavailable : PowerAnswer
  no_command : PowerAnswer
  act_failed : PowerAnswer
  done : Text → PowerAnswer

abbrev pub may : Caller → Text → Bool
may c scope = has c.token.scopes scope || c.is_human

abbrev pub is_master : Caller → Bool
is_master c = text_eq c.role (codes "master")

abbrev pub answer_of : Option Text → PowerAnswer
answer_of none = act_failed
answer_of (some t) = done t

abbrev pub worked : Option Text → Bool
worked none = false
worked (some _) = true

-- The event of a command, which is lost without a bus or when its INSERT fails.
abbrev pub note_run : {W : Type 0} → Text × Text × Bool → Bool → Faults → Machine W → Machine W
note_run n false fs m = m
note_run n true [] m = record m { recorded = m.recorded ++ n ∷ [] }
note_run n true (false ∷ fs) m = record m { recorded = m.recorded ++ n ∷ []; faults = fs }
note_run n true (true ∷ fs) m = record m { faults = fs }

module _ {W : Type 0} (act : Act → W → Option Text × W) where
  abbrev pub perform : Act → Machine W → PowerAnswer × Machine W
  perform a m = let (r, w) = act a m.world in (answer_of r, record m { world = w })

  -- aurium_snapshot
  unfoldable pub snapshot : Caller → Args → Machine W → PowerAnswer × Machine W
  unfolding has
  snapshot c args m =
      if not (may c (codes "snapshot:self"))
      then (denied_scope (codes "snapshot:self"), m)
      else if not m.has_snapshots
      then (unavailable, m)
      else perform (snapshots c.container_id (arg_str args (codes "label"))) m

  -- aurium_delegate
  unfoldable pub delegate : Caller → Args → Machine W → PowerAnswer × Machine W
  delegate c args m =
      if not (is_master c)
      then (hidden, m)
      else if not m.has_delegator
      then (unavailable, m)
      else perform
          (delegates c.agent_id c.container_id (arg_str args (codes "title"))
            (arg_str args (codes "adapter")) (arg_str args (codes "mode"))
            (arg_str args (codes "prompt")))
          m

  -- aurium_merge
  unfoldable pub merge : Caller → Args → Machine W → PowerAnswer × Machine W
  merge c args m =
      if not (is_master c)
      then (hidden, m)
      else if not m.has_delegator
      then (unavailable, m)
      else perform (merges c.container_id (arg_str args (codes "child"))) m

  -- The run of a command, and its record.
  abbrev pub run_command : Caller → Text → Machine W → PowerAnswer × Machine W
  run_command c command m =
      let (r, w) = act (executes c.container_id command) m.world in
      (
        answer_of r,
        note_run (c.container_id, command, worked r) m.has_events m.faults (record m { world = w }),
      )

  -- aurium_exec
  unfoldable pub exec : Caller → Args → Machine W → PowerAnswer × Machine W
  unfolding has is_blank
  exec c args m =
      if not (may c (codes "exec:self"))
      then (denied_scope (codes "exec:self"), m)
      else if not m.has_executor
      then (unavailable, m)
      else if is_blank (arg_str args (codes "command"))
      then (no_command, m)
      else run_command c (arg_str args (codes "command")) m

  -- The cases of `callNative` for these tools.
  unfoldable pub call_power : Power → Caller → Args → Machine W → PowerAnswer × Machine W
  unfolding snapshot delegate merge exec
  call_power aurium_snapshot = snapshot
  call_power aurium_delegate = delegate
  call_power aurium_merge = merge
  call_power aurium_exec = exec
