-- ===== src/Gateway/NativeTests.antt =====
-- The native tools on a small shared context.
use aurium.Base.{◌≡◌, refl, ℕ, true, false, Option, none, List, [], ◌∷◌, Text, codes, text_eq}
use aurium.Db.{ok, err, statement}
use aurium.Context.Store.{
  Store, Item, Ref, project, read, append, write, Proposal, scope_eq, ref_eq, permission,
}
use aurium.Context.Store
use aurium.Context.Grants.{Subject, require, resolve_perm, resolve_levels, best_from, allows, rank}
use aurium.Gateway.Native.{
  Args, text_value, Shared, got, ref_for, scope_for, context_get, context_append, context_write,
  context_propose,
}
use aurium.Gateway.Powers.{aurium_exec, Act, Machine, call_power}
use aurium.Gateway.Powers
use aurium.Gateway.Powers.Own.{Acts, call_power-Acts}
use aurium.Ipc.Table.{Desk, status_eq}
use aurium.Ipc.Send.{send, store_message, is_blank, is_space}
use aurium.Gateway.Tasks.{Board, Wiring, blocked_told, blocked_message, task_status}
use aurium.Gateway.Tasks.Told.{Honest, task_status-Honest}
use aurium.Gateway.Native.Permitted.{Guarded, context_tools-Guarded}

abbrev worker : Subject
worker = record {
  agent_id = codes "a";
  role = codes "worker";
  container_id = codes "c";
  project_id = codes "p";
  is_human = false;
}

abbrev goal : Item
goal = record {
  id = codes "ci1";
  ref = record { scope = project; scope_id = codes "p"; key = codes "goal" };
  version = 1;
  content = codes "ship";
  mime = codes "text/markdown";
  updated_by = codes "human";
  updated_at = codes "t0";
}

abbrev shared : Shared (List Text)
shared = record {
  store = record { items = goal ∷ []; versions = []; proposals = []; emitted = [] };
  access = record { grants = []; containers = [] };
  mail = [];
}

abbrev args : Args
args = (codes "key", text_value (codes "goal")) ∷ (codes "content", text_value (codes "x")) ∷ []

abbrev scan : Text → Option ℕ
scan t = none

abbrev notify : (project key : Text) → ℕ → List Text → List Text
notify p key version mail = key ∷ mail

abbrev tell_human : Subject → Ref → Proposal → List Text → List Text
tell_human c r p mail = r.key ∷ mail

context_tools-Guarded_example :
    Guarded shared worker
      (ref_for worker args (codes "container"))
      append
      (context_append (codes "i") (codes "t") worker args shared (false ∷ true ∷ []))
    × Guarded shared worker (ref_for worker args (codes "container")) write (
        context_write scan notify tell_human
          (codes "i")
          (codes "t")
          worker
          args
          shared
          (false ∷ true ∷ []))
    × Guarded shared worker (ref_for worker args (codes "project")) Store.Perm.propose (
        context_propose scan notify tell_human
          (codes "i")
          (codes "t")
          worker
          args
          shared
          (false ∷ true ∷ []))
context_tools-Guarded_example =
    context_tools-Guarded shared worker scan notify tell_human (codes "i") (codes "t") args
      (false ∷ true ∷ [])

-- No grant lets the worker read the project's item,
not_permitted :
    (require worker goal.ref read shared.access []).0
    ≡ err (permission goal.ref read Store.Perm.none_)
unfolding require resolve_perm resolve_levels best_from allows rank statement text_eq scope_eq
not_permitted = refl

-- and it is returned.
unasked : context_get worker args shared [] ≡ (ok (got goal), shared, [])
unfolding context_get require resolve_perm resolve_levels best_from allows rank statement text_eq
    scope_eq ref_eq ref_for scope_for
unasked = refl

abbrev holder : aurium.Gateway.Powers.Caller
holder = record {
  agent_id = codes "a";
  role = codes "worker";
  container_id = codes "c";
  token = record {
    id = codes "t";
    container_id = codes "c";
    agent_id = codes "a";
    scopes = codes "exec:self" ∷ [];
    expires_at = none;
  };
  is_human = false;
}

abbrev machine : Machine (List Text)
machine = record {
  world = [];
  has_snapshots = true;
  has_delegator = true;
  has_executor = true;
  has_events = true;
  recorded = [];
  faults = [];
}

-- Each act is kept, and fails.
abbrev act : Act → List Text → Option Text × List Text
act a w = (none, codes "acted" ∷ w)

abbrev ls : Args
ls = (codes "command", text_value (codes "ls")) ∷ []

call_power-Acts_example : Acts act holder ls machine (call_power act aurium_exec holder ls machine)
call_power-Acts_example = call_power-Acts act holder ls machine aurium_exec

abbrev desk : Desk
desk = record {
  projects = codes "p" ∷ [];
  messages = [];
  agents = (codes "a", codes "running") ∷ [];
  tasks = (codes "t", codes "running") ∷ [];
  artifacts = [];
  dependencies = [];
  notes = [];
  nudges = [];
}

abbrev board : Board
board = record {
  desk = desk;
  boxes =
      record { id = codes "c"; project_id = codes "p"; task_id = codes "t"; branch = codes "b" }
      ∷ [];
  parents = [];
  moves = [];
}

abbrev stuck : Args
stuck =
    (codes "status", text_value (codes "blocked"))
    ∷ (codes "note", text_value (codes "which?"))
    ∷ []

abbrev same : Text → Text
same t = t

-- The block is told, and one message is in the table.
abbrev wired : Wiring
wired = record { has_bus = true; has_events = true }

-- Without a bus the answer is that a human was told, and no message is there.
untold :
    let r =
      task_status
        (record wired { has_bus = false })
        (codes "m")
        []
        (codes "t1")
        holder
        same
        stuck
        board
        [] in
    (r.0 ≡ ok blocked_told) × (r.1.desk.messages ≡ [])
unfolding task_status statement text_eq
untold = (refl, refl)

told :
    (task_status wired (codes "m") [] (codes "t1") holder same stuck board []).0 ≡ ok blocked_told
unfolding task_status send statement text_eq status_eq store_message is_blank is_space
    blocked_message
told = refl

task_status-Honest_example : Honest wired (codes "m") holder (
    task_status wired
      (codes "m")
      []
      (codes "t1")
      holder
      same
      stuck
      board
      (false ∷ false ∷ true ∷ []))
task_status-Honest_example =
    task_status-Honest wired (codes "m") [] (codes "t1") holder same stuck board
      (false ∷ false ∷ true ∷ [])
