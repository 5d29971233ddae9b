-- ===== src/Tools/Tests.antt =====
-- The theorems at one tool.
use alos_backend.Prelude.{
  Result, ok, refl, contains, is_subset, key3_eq, ℕ, String, string_eq, ◌≡◌, ◌⊎◌, some, none, List,
  [], ◌∷◌, true, false,
}
use alos_backend.Prelude.Dict.{Dict, get, insert}
use alos_backend.Json.{Json, one_text, end}
use alos_backend.Authorization.{Principal, own_assigned, is_allowed, misses}
use alos_backend.Tools.State.{
  lifecycle_beq, draft, active, optional, returned, ToolAdapter, ToolRegistration, ToolRegistry,
}
use alos_backend.Tools.Requests.{
  ToolRequest, Immutable, Validator, Boundary, immutable, ToolExecutionOutcome, ExecutionError,
}
use alos_backend.Tools.Executor.{
  execute, execute_adapter, replay_or_run, put_record, result_of, audit_record,
}
use alos_backend.Tools.Admission.{
  admit, admitted, inspect, accept_input, mismatched, lacks_key, demand_for,
}
use alos_backend.Tools.Replays.{Replays, execute-again}
use alos_backend.Tools.Executions.{MayAct, execute-world}
use alos_backend.Tools.Calls.{ToolCall, register_draft, approve, activate, calls, is_brought}
use alos_backend.Tools.Proper.{AreProper}
use alos_backend.Tools.Makers.{calls-AreProper}

-- an adapter that writes its call down; the world is a list of texts
abbrev note : ToolAdapter (List String)
note = record {
  validate_arguments = λ _. none;
  execute = λ arguments context world. (returned (Json.string "noted"), "note" ∷ world);
}

abbrev tool : ToolRegistration (List String)
tool = record {
  tool_id = "notes";
  required_permission = "note.write";
  required_scopes = "sales" ∷ [];
  adapter = note;
  allowlisted = true;
  production_enabled = true;
  lifecycle_state = draft;
  idempotency_policy = optional;
  kill_switch_active = false;
  owner_actor_id = some "alice";
  approved_by = none;
  tenant_id = some "t1";
  organization_id = some "o1";
  workspace_id = some "w1";
}

abbrev active_tool : ToolRegistration (List String)
active_tool = record tool { lifecycle_state = active; approved_by = some "bob" }

abbrev tools : Dict String (ToolRegistration (List String))
tools = ("notes", active_tool) ∷ []

abbrev lenient : Validator
lenient = record { accepts_request = λ _. true; accepts_result = λ _. true }

abbrev bob : Principal
bob = record {
  actor_id = "bob";
  tenant_id = "t1";
  organization_id = "o1";
  workspace_id = "w1";
  permissions = "note.write" ∷ [];
  scopes = "sales" ∷ [];
  roles = [];
  data_scope = own_assigned;
  division_id = none;
  project_id = none;
  active = true;
}

abbrev request : ToolRequest
request = record {
  tool_call_id = "call-1";
  run_id = "run-1";
  tool_id = "notes";
  execution_context = record {
    correlation_id = "c1";
    tenant_id = "t1";
    organization_id = "o1";
    workspace_id = "w1";
    actor_id = "bob";
    scope_refs = "sales" ∷ [];
    permission_refs = "note.write" ∷ [];
    others = end;
  };
  arguments = one_text "text" "hello";
  idempotency_key = some "key-1";
}

abbrev outside : Boundary (List String)
outside = record { records = []; store = []; world = [] }

abbrev fixed_digest : Immutable → String
fixed_digest _ = "d"

execute-world_example :
    ◌⊎◌
      ((execute lenient fixed_digest true tools request (some bob) none 5 outside).1.world ≡ [])
      (MayAct lenient fixed_digest true tools request (some bob) none 5 outside)
execute-world_example =
    execute-world lenient fixed_digest true tools request (some bob) none 5 outside

abbrev lifecycle : List (ToolCall (List String) × ℕ)
lifecycle =
    (register_draft tool "alice" "c1", 1)
    ∷ ((approve "notes" "alice" "c1", 2)
        ∷ ((approve "notes" "bob" "c1", 3) ∷ ((activate "notes" "carol" "c1", 4) ∷ [])))

abbrev no_tools : ToolRegistry (List String)
no_tools = record { tools = []; audit = some [] }

no_tools-AreProper : AreProper (λ _. false) no_tools
unfolding get
no_tools-AreProper id found at new = cc

calls-AreProper_example : AreProper (is_brought lifecycle) (calls lifecycle no_tools)
calls-AreProper_example = calls-AreProper lifecycle no_tools no_tools-AreProper

abbrev noted : ToolExecutionOutcome
noted = record {
  correlation_id = "c1";
  result = record {
    tool_call_id = "call-1";
    run_id = "run-1";
    tool_id = "notes";
    correlation_id = "c1";
    status = "SUCCESS";
    completed_at = 5;
    output = some (Json.string "noted");
    fault = none;
  };
}

-- unfolds what an execution computes with
run_execution : Unit {0}
unfolding execute admit inspect accept_input mismatched lacks_key demand_for is_allowed misses
    contains is_subset lifecycle_beq get insert execute_adapter replay_or_run put_record result_of
    audit_record immutable
run_execution = tt

abbrev first_run : Result ExecutionError ToolExecutionOutcome × Boundary (List String)
first_run = execute lenient fixed_digest true tools request (some bob) none 5 outside

run_first : first_run ≡ (ok noted, first_run.1)
unfolding run_execution
run_first = refl

-- the same request on another transport
abbrev second : ToolRequest
second = record request {
  execution_context = record (request.execution_context) { correlation_id = "c2" };
}

admitted_second : admit true tools second (some bob) none ≡ admitted active_tool
unfolding run_execution
admitted_second = refl

same_immutable : immutable second ≡ immutable request
unfolding immutable
same_immutable = refl

execute-again_example :
    Replays lenient fixed_digest second
      (Json.string "noted")
      9
      first_run.1
      (execute lenient fixed_digest true tools second (some bob) none 9 first_run.1)
execute-again_example =
    execute-again lenient fixed_digest true true tools tools request second (some bob) (some bob)
      none none 5 9 "key-1" outside first_run.1 noted (Json.string "noted") active_tool run_first
      refl refl refl same_immutable admitted_second
