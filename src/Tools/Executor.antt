-- ===== src/Tools/Executor.antt =====
-- `ToolExecutor` of tools/executor/service.py. The validator, the digest (SHA-256 of canonical
-- JSON) and whether this is production are parameters; the tools are those of the registry.
use alos_backend.Prelude.{
  ℕ, String, Option, none, some, [], ◌∷◌, ◌++◌, Bool, true, false, not, ◌==◌, string_eq,
  if◌then◌else◌, Key3, key3_eq, Exec, ok, pure, gets, raise_if, modify, ◌>>=◌, ◌>>◌,
}
use alos_backend.Prelude.Dict.{Dict, get, insert}
use alos_backend.Json.{Json}
use alos_backend.Authorization.{Principal}
use alos_backend.Tools.State.{
  lifecycle_eq, AdapterEnd, timed_out, failed, returned, ToolRegistration,
}
use alos_backend.Tools.Requests.{
  ToolRequest, ToolFault, ToolResult, ToolExecutionOutcome, ToolAuditRecord, IdempotencyRecord,
  Immutable, immutable, Validator, ExecutionError, request_invalid, result_invalid,
  key_of_other_request, Boundary,
}
use alos_backend.Tools.Admission.{Admission, refused, admitted, admit}

unfoldable pub fault : String → String → Bool → Option String → ToolFault
fault code correlation retryable details = record {
  code = code;
  correlation_id = correlation;
  retryable = retryable;
  details = details;
}

-- `_base_result`, with the output or the fault that is put into it
unfoldable pub result_of : ToolRequest → String → Option Json → Option ToolFault → ℕ → ToolResult
result_of request status output error now = record {
  tool_call_id = request.tool_call_id;
  run_id = request.run_id;
  tool_id = request.tool_id;
  correlation_id = request.execution_context.correlation_id;
  status = status;
  completed_at = now;
  output = output;
  fault = error;
}

unfoldable pub audit_record : ToolRequest → String → ℕ → ToolAuditRecord
audit_record request outcome now = record {
  tool_call_id = request.tool_call_id;
  run_id = request.run_id;
  tool_id = request.tool_id;
  tenant_id = request.execution_context.tenant_id;
  organization_id = request.execution_context.organization_id;
  workspace_id = request.execution_context.workspace_id;
  actor_id = request.execution_context.actor_id;
  correlation_id = request.execution_context.correlation_id;
  outcome = outcome;
  occurred_at = now;
}

abbrev pub Run : Type 0 → Type 0 → Type 0
Run W A = Exec (Boundary W) ExecutionError A

-- `(tenant_id, tool_id, idempotency_key)`
abbrev pub cache_key : ToolRequest → String → Key3
cache_key request key = (request.execution_context.tenant_id, request.tool_id, key)

abbrev pub is_other_request : Option IdempotencyRecord → String → Bool
is_other_request none request_digest = false
is_other_request (some existing) request_digest = not (existing.request_digest == request_digest)

module _ {W : Type 0} where
  -- `_audit`
  abbrev pub audit : ToolRequest → String → ℕ → Run W (Unit {0})
  audit request outcome now =
      modify (λ b. record b { records = b.records ++ audit_record request outcome now ∷ [] })

  -- `_finish`
  abbrev pub finish : Validator → ToolRequest → ToolResult → ℕ → Run W ToolExecutionOutcome
  finish validator request result now = do
    raise_if (not (validator.accepts_result result)) result_invalid
    audit request result.status now
    pure (record { correlation_id = request.execution_context.correlation_id; result = result })

  -- `_finish_error`
  abbrev pub finish_error :
      Validator
      → ToolRequest
      → String
      → String
      → Bool
      → Option String
      → ℕ
      → Run W ToolExecutionOutcome
  finish_error validator request status code retryable details now =
      finish validator request
        (result_of request status none
          (some (fault code request.execution_context.correlation_id retryable details)) now)
        now

  abbrev pub conclude : Validator → ToolRequest → ℕ → AdapterEnd → Run W ToolExecutionOutcome
  conclude validator request now timed_out =
      finish_error validator request "TIMEOUT" "TOOL_TIMEOUT" true none now
  conclude validator request now failed =
      finish_error validator request "FAILED" "TOOL_EXECUTION_FAILED" false none now
  conclude validator request now (returned output) =
      finish validator request (result_of request "SUCCESS" (some output) none now) now

  -- the call of the adapter
  abbrev pub act : ToolRequest → ToolRegistration W → Run W AdapterEnd
  act request tool b =
      let (end, world) = tool.adapter.execute request.arguments request.execution_context b.world in
      (ok end, record b { world = world })

  -- `_execute_adapter`
  unfoldable pub execute_adapter :
      Validator → ToolRequest → ToolRegistration W → ℕ → Run W ToolExecutionOutcome
  execute_adapter validator request tool now = do
    end ← act request tool
    conclude validator request now end

  -- `InMemoryToolIdempotencyStore.put`
  unfoldable pub put_record : Key3 → IdempotencyRecord → Run W (Unit {0})
  put_record key stored = do
    raise_if (← gets (λ b. is_other_request (get key b.store) stored.request_digest))
        key_of_other_request
    modify (λ b. record b { store = insert key stored b.store })

  -- A result of status SUCCESS has an output.
  abbrev pub remember :
      Key3 → String → ToolExecutionOutcome → Option Json → Run W ToolExecutionOutcome
  remember key request_digest outcome none = pure outcome
  remember key request_digest outcome (some output) =
      if outcome.result.status == "SUCCESS"
      then (do
        put_record key (record { request_digest = request_digest; output = output })
        pure outcome)
      else pure outcome

  unfoldable pub replay_or_run :
      Validator
      → ToolRequest
      → ToolRegistration W
      → Key3
      → String
      → Option IdempotencyRecord
      → ℕ
      → Run W ToolExecutionOutcome
  replay_or_run validator request tool key request_digest (some existing) now =
      if not (existing.request_digest == request_digest)
      then finish_error validator request "REJECTED" "IDEMPOTENCY_CONFLICT" false none now
      else (do
        outcome ←
            finish validator request (result_of request "SUCCESS" (some existing.output) none now)
              now
        audit request "IDEMPOTENT_REPLAY" now
        pure outcome)
  replay_or_run validator request tool key request_digest none now = do
    outcome ← execute_adapter validator request tool now
    remember key request_digest outcome outcome.result.output

  abbrev pub run_tool :
      Validator
      → (Immutable → String)
      → ToolRequest
      → ToolRegistration W
      → Option String
      → ℕ
      → Run W ToolExecutionOutcome
  run_tool validator digest request tool none now = execute_adapter validator request tool now
  run_tool validator digest request tool (some key) now = do
    existing ← gets (λ b. get (cache_key request key) b.store)
    replay_or_run validator request tool (cache_key request key) (digest (immutable request))
        existing now

  abbrev pub proceed :
      Validator → (Immutable → String) → ToolRequest → ℕ → Admission W → Run W ToolExecutionOutcome
  proceed validator digest request now (refused status code details) =
      finish_error validator request status code false details now
  proceed validator digest request now (admitted tool) =
      run_tool validator digest request tool request.idempotency_key now

  unfoldable pub execute :
      Validator
      → (Immutable → String)
      → Bool
      → Dict String (ToolRegistration W)
      → ToolRequest
      → Option Principal
      → Option String
      → ℕ
      → Run W ToolExecutionOutcome
  execute validator digest production tools request principal transport now = do
    raise_if (not (validator.accepts_request request)) request_invalid
    audit request "REQUESTED" now
    proceed validator digest request now (admit production tools request principal transport)
