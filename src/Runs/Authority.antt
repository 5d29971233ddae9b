-- ===== src/Runs/Authority.antt =====
-- The methods of `AgentRunAuthority` and of its in-memory store. A copy of a record is the record.
use alos_backend.Prelude.{
  ℕ, String, Option, none, some, List, [], ◌∷◌, Bool, false, not, ◌&&◌, ◌==◌, string_eq, Key2,
  if◌then◌else◌, pure, gets, or_raise, raise_if, modify, ◌>>=◌, ◌>>◌,
}
use alos_backend.Prelude.Dict.{get, insert, has_key}
use alos_backend.Json.{Json, string, array, object, Items, nil, cons, end, field, two_texts}
use alos_backend.Audit.{human, AuditEvent, append}
use alos_backend.Registry.State.{active, registry_state_eq, RegistryEntry}
use alos_backend.Runs.State.{
  RunStatus, running, completed, failed, cancelled, timed_out, run_status_eq, status_name,
  run_exists, run_not_found, no_context, already_terminal, result_differs, not_terminal,
  not_running, ExecutionContext, RunRequest, RunResult, RunRecord, Settings,
}
use alos_backend.Runs.Requirements.{
  Run, require_context, require_lifecycle, require_permissions, require_scope, require_tools,
  authorize_skills,
}
use alos_backend.Runs.Payloads.{common}
use alos_backend.Skills.Payloads.{members}

abbrev pub put_run : RunRecord → Run (Unit {0})
put_run run = modify (λ s. record s { runs = insert run.run_id run s.runs })

-- `InMemoryAgentRunStore.create`
unfoldable pub create_run : RunRecord → Run (Unit {0})
create_run run = do
  exists ← gets (λ s. has_key run.run_id s.runs)
  raise_if exists run_exists
  put_run run

-- `InMemoryAgentRunStore.update`
unfoldable pub update_run : RunRecord → Run (Unit {0})
update_run run = do
  exists ← gets (λ s. has_key run.run_id s.runs)
  raise_if (not exists) run_not_found
  put_run run

-- `InMemoryAgentRunStore.get` and `AgentRunAuthority.get`
unfoldable pub find_run : String → Run RunRecord
find_run run_id = do found ← gets (λ s. get run_id s.runs); or_raise found run_not_found

abbrev pub reference_items : List Key2 → Items
reference_items [] = nil
reference_items ((skill_id, version) ∷ rest) =
    cons (object (two_texts "skill_id" skill_id "skill_version" version)) (reference_items rest)

-- `_record_event`
unfoldable pub run_event : RunRecord → String → ℕ → AuditEvent
unfolding status_name
run_event run event_type now = record {
  event_type = event_type;
  entity_type = "agent_run";
  entity_id = run.run_id;
  tenant_id = run.tenant_id;
  organization_id = run.organization_id;
  workspace_id = run.workspace_id;
  actor_id = run.actor_id;
  correlation_id = run.correlation_id;
  outcome = status_name run.status;
  occurred_at = now;
  actor_kind = human;
  reason = "Authoritative Agent run lifecycle transition";
  metadata = field "agent_id" (string run.agent_id) (
      field "agent_version" (string run.agent_version) (
        field "registry_digest" (string run.registry_digest)
          (field "authorized_skill_refs" (array (reference_items run.authorized_skill_refs)) end)));
}

abbrev pub record_run : RunRecord → String → ℕ → Run (Unit {0})
record_run run event_type now =
    modify (λ s. record s { log = append (run_event run event_type now) s.log })

unfoldable pub authorization_name : RegistryEntry → String
authorization_name agent = if agent.state == active then "ACTIVE" else "TEST_AUTHORIZED"

-- the requested tools that are `in agent.payload.get("tool_ids", [])`
unfoldable pub authorized_tools : List String → Option (List Json) → List String
unfolding common
authorized_tools requested none = []
authorized_tools requested (some listed) = common requested listed

unfoldable pub new_run : RunRequest → ExecutionContext → RegistryEntry → List Key2 → ℕ → RunRecord
unfolding authorized_tools authorization_name
new_run request context agent authorized now = record {
  run_id = request.run_id;
  root_run_id = request.root_run_id;
  tenant_id = context.tenant_id;
  organization_id = context.organization_id;
  workspace_id = context.workspace_id;
  actor_id = context.actor_id;
  correlation_id = context.correlation_id;
  agent_id = request.agent_id;
  agent_version = request.agent_version;
  capability_id = request.capability_id;
  status = running;
  registry_digest = agent.digest;
  lifecycle_authorization = authorization_name agent;
  authorized_tool_ids = authorized_tools request.requested_tool_ids (members "tool_ids" agent);
  authorized_skill_refs = authorized;
  request = record request { authorized_skill_refs = some authorized };
  created_at = now;
  completed_at = none;
  result = none;
}

unfoldable pub begin : Settings → RunRequest → RegistryEntry → ℕ → Run RunRecord
unfolding new_run
begin settings request agent now = do
  context ← or_raise request.execution_context no_context
  require_context request context agent
  require_lifecycle settings request agent
  require_permissions settings context agent
  require_scope settings context agent
  require_tools settings request agent
  authorized ← authorize_skills settings request context agent
  let run = new_run request context agent authorized now
  create_run run
  record_run run "run.started" now
  pure run

abbrev pub is_value : Option String → String → Bool
is_value none value = false
is_value (some given) value = given == value

-- `_require_result_matches`
unfoldable pub matches_run : RunRecord → RunResult → Bool
matches_run current result =
    (is_value result.root_run_id current.root_run_id
      && is_value result.correlation_id current.correlation_id)
    && (is_value result.agent_id current.agent_id
        && (is_value result.agent_version current.agent_version
            && is_value result.capability_id current.capability_id))

-- `AuthoritativeRunStatus(text)`
unfoldable pub status_of : String → Option RunStatus
status_of text =
    if text == "RUNNING"
    then some running
    else if text == "COMPLETED"
    then some completed
    else if text == "FAILED"
    then some failed
    else if text == "CANCELLED"
    then some cancelled
    else if text == "TIMED_OUT"
    then some timed_out
    else none

unfoldable pub ended : RunRecord → RunStatus → RunResult → ℕ → RunRecord
ended current target result now = record current {
  status = target;
  completed_at = some now;
  result = some result;
}

abbrev pub ending : RunStatus → String
ending target = if target == completed then "run.completed" else "run.failed"

unfoldable pub complete : RunResult → ℕ → Run RunRecord
complete result now = do
  current ← find_run result.run_id
  raise_if (not (current.status == running)) already_terminal
  raise_if (not (matches_run current result)) result_differs
  target ← or_raise (status_of result.status) not_terminal
  raise_if (target == running) not_terminal
  let updated = ended current target result now
  update_run updated
  record_run updated (ending target) now
  pure updated

pub record RuntimeAuthorization : Type 0 where
  pub run_id : String
  pub registry_digest : String
  pub lifecycle_state : String
  pub allowed_tool_ids : List String
  pub authorized_skill_refs : List Key2

unfoldable pub runtime_authorization : String → Run RuntimeAuthorization
runtime_authorization run_id = do
  run ← find_run run_id
  raise_if (not (run.status == running)) not_running
  pure (record {
    run_id = run.run_id;
    registry_digest = run.registry_digest;
    lifecycle_state = run.lifecycle_authorization;
    allowed_tool_ids = run.authorized_tool_ids;
    authorized_skill_refs = run.authorized_skill_refs;
  })
