-- ===== src/Gateway/CallTests.antt =====
-- Calls through the gateway, on a hub of two integrations.
use aurium.Base.{
  text_eq, ◌≡◌, refl, ℕ, suc, Bool, true, false, Option, none, some, List, [], ◌∷◌, Text, codes,
}
use aurium.Db.{ok}
use aurium.Gateway.Risk.{low}
use aurium.Gateway.Grants.{Mode, allow, deny, project, Grant, level_eq, match_capability}
use aurium.Gateway.Approvals.{Message}
use aurium.Gateway.Registry.{Integration, Capability, Tool, Registry, register_capabilities}
use aurium.Gateway.Registry.Upserts.{Run, Registered, register_capabilities-Registered}
use aurium.Gateway.Hub.{Caller, Hub, Step}
use aurium.Gateway.Calls.{Answer, native_result, cut, has_prefix, call_tool}
use aurium.Gateway.Calls.Verdicts.{Ends, call_tool-Kept}
use aurium.Gateway.Calls.Hidden.{Says, parts_verdict, call_tool-unknown}
use aurium.Gateway.Calls.Names.{Ran, call_tool-tool_name}

abbrev asker : Caller
asker = record {
  subject = record {
    agent_id = codes "a";
    role = codes "worker";
    container_id = codes "c";
    project_id = codes "p";
  };
  is_human = false;
}

abbrev integration : Text → Text → Integration
integration id name = record {
  id = id;
  project_id = codes "p";
  name = name;
  kind = codes "native";
  status = codes "ok";
}

abbrev capability : Text → Text → Capability
capability id name = record {
  integration_id = id;
  name = name;
  description = codes "d";
  input_schema = [];
  risk = low;
  removed = false;
}

abbrev grant : Text → Text → Mode → Grant
grant id glob mode = record {
  id = id;
  integration_id = codes "i1";
  capability_glob = glob;
  subject_type = project;
  subject_id = codes "p";
  mode = mode;
  created_by = codes "human";
  created_at = codes "t0";
}

abbrev registry : Registry
registry = record {
  integrations =
      integration (codes "i1") (codes "gh") ∷ integration (codes "i2") (codes "my_db") ∷ [];
  capabilities =
      capability (codes "i1") (codes "read") ∷ capability (codes "i1") (codes "drop") ∷ [];
}

abbrev hub : Hub ℕ (List Message)
hub = record {
  registry = registry;
  grants = grant (codes "g1") (codes "*") allow ∷ grant (codes "g2") (codes "drop") deny ∷ [];
  gate = record {
    approvals = [];
    containers = [];
    upstreams = codes "i1" ∷ [];
    notes = [];
    world = 0;
    mail = [];
  };
  audits = [];
}

abbrev call : Text → Text → Text → ℕ → (Bool × Text) × ℕ
call i c args w = ((true, codes "done"), suc w)

abbrev send : Message → List Message → Option Text × List Message
send m ms = (none, m ∷ ms)

abbrev digest : Text → Text
digest args = args

abbrev native : Caller → Text → Text → Step ℕ (List Message) Answer
native c name args h fs = (ok (native_result []), h, fs)

abbrev no_tools : Caller → List Tool
no_tools c = []

abbrev search : Tool
search = record { name = codes "search"; description = []; input_schema = [] }

call_tool-Kept_example :
    Ends call send digest native
      (codes "n")
      (codes "t1")
      (codes "t2")
      asker
      (codes "gh_read")
      []
      hub
      (call_tool call send digest native
        (codes "n")
        (codes "t1")
        (codes "t2")
        asker
        (codes "gh_read")
        []
        hub
        [])
unfolding has_prefix
call_tool-Kept_example =
    call_tool-Kept call send digest native (codes "n") (codes "t1") (codes "t2") asker
      (codes "gh_read") [] hub [] refl

call_tool-unknown_example :
    Says call send digest native
      (codes "n")
      (codes "t1")
      (codes "t2")
      asker
      (codes "gh_drop")
      []
      hub
      (parts_verdict hub asker (cut (codes "gh_drop")))
      (call_tool call send digest native
        (codes "n")
        (codes "t1")
        (codes "t2")
        asker
        (codes "gh_drop")
        []
        hub
        [])
unfolding has_prefix
call_tool-unknown_example =
    call_tool-unknown call send digest native (codes "n") (codes "t1") (codes "t2") asker
      (codes "gh_drop") [] hub refl

-- A name that has a "_" of its own is not cut back.
cut_my_db : cut (codes "my_db_read") ≡ some (codes "my", codes "db_read")
unfolding cut
cut_my_db = refl

call_tool-tool_name_example :
    Ran call send digest native
      (codes "n")
      (codes "t1")
      (codes "t2")
      asker
      (codes "{}")
      hub
      (codes "read")
      ((true, codes "done"), 1)
      (call_tool call send digest native
        (codes "n")
        (codes "t1")
        (codes "t2")
        asker
        (codes "gh_read")
        (codes "{}")
        hub
        [])
unfolding text_eq level_eq match_capability
call_tool-tool_name_example =
    call_tool-tool_name call send digest native (codes "n") (codes "t1") (codes "t2") asker
      (codes "{}") hub (integration (codes "i1") (codes "gh"))
      (capability (codes "i1") (codes "read")) refl refl refl refl refl

register_capabilities-Registered_example :
    Run
      (codes "i1")
      []
      registry
      (λ _ t. Registered (codes "i1") [] registry (search ∷ []) t.capabilities)
      (register_capabilities (codes "i1") (search ∷ []) [] registry (false ∷ false ∷ []))
register_capabilities-Registered_example =
    register_capabilities-Registered (codes "i1") [] registry (search ∷ []) (false ∷ false ∷ [])
