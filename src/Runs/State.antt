-- ===== src/Runs/State.antt =====
-- Runs, requests and results, and the state of `AgentRunAuthority` with its in-memory store. A request
-- and a result are the members that the code reads, as their schemas require them.
use alos_backend.Prelude.{
  ℕ, String, ◌≡◌, ◌↔◌, Option, List, Bool, true, Eq, decided, decided_iff, Key2,
}
use alos_backend.Prelude.Dict.{Dict}
use alos_backend.Json.{Json}
use alos_backend.Audit.{AuditLog}
use alos_backend.Registry.State.{Registry}

pub data RunStatus : Type 0 where
  running completed failed cancelled timed_out : RunStatus

RunStatus-discrete : Discrete RunStatus
RunStatus-discrete = hlevel

unfoldable pub run_status_beq : RunStatus → RunStatus → Bool
unfolding RunStatus-discrete
run_status_beq = decided RunStatus-discrete

pub run_status_iff : (a b : RunStatus) → (run_status_beq a b ≡ true) ↔ (a ≡ b)
unfolding run_status_beq
run_status_iff = decided_iff RunStatus-discrete

instance abbrev pub run_status_eq : Eq RunStatus
run_status_eq = record { beq = run_status_beq; beq_iff = run_status_iff }

unfoldable pub status_name : RunStatus → String
status_name running = "RUNNING"
status_name completed = "COMPLETED"
status_name failed = "FAILED"
status_name cancelled = "CANCELLED"
status_name timed_out = "TIMED_OUT"

-- Where a `RunAuthorityError` is raised. `payload_malformed` is the TypeError or KeyError of reading
-- a member of a definition's payload that is no list of hashable values, or of references.
pub data RunError : Type 0 where
  run_exists run_not_found no_context context_differs agent_differs : RunError
  lifecycle_not_authorized lacks_permissions lacks_scope tool_outside : RunError
  skill_not_assigned skill_registry_unavailable skill_version_not_found : RunError
  skill_context_mismatch skill_not_active skill_permission_mismatch : RunError
  skill_scope_mismatch skill_tool_mismatch : RunError
  already_terminal result_differs not_terminal not_running payload_malformed : RunError

pub record ExecutionContext : Type 0 where
  pub tenant_id : String
  pub organization_id : String
  pub workspace_id : String
  pub actor_id : String
  pub correlation_id : String
  pub permission_refs : List String
  pub scope_refs : List String
  pub allowed_tool_ids : List String

-- An `execution_context` that is no object is `none`.
pub record RunRequest : Type 0 where
  pub run_id : String
  pub root_run_id : String
  pub agent_id : String
  pub agent_version : String
  pub capability_id : String
  pub execution_context : Option ExecutionContext
  pub execution_mode : Option String
  pub requested_tool_ids : List String
  pub authorized_skill_refs : Option (List Key2)

pub record RunResult : Type 0 where
  pub run_id : String
  pub root_run_id : Option String
  pub correlation_id : Option String
  pub agent_id : Option String
  pub agent_version : Option String
  pub capability_id : Option String
  pub status : String

pub record RunRecord : Type 0 where
  pub run_id : String
  pub root_run_id : String
  pub tenant_id : String
  pub organization_id : String
  pub workspace_id : String
  pub actor_id : String
  pub correlation_id : String
  pub agent_id : String
  pub agent_version : String
  pub capability_id : String
  pub status : RunStatus
  pub registry_digest : String
  pub lifecycle_authorization : String
  pub authorized_tool_ids : List String
  pub authorized_skill_refs : List Key2
  pub request : RunRequest
  pub created_at : ℕ
  pub completed_at : Option ℕ
  pub result : Option RunResult

-- what the authority is made with: the registry of skills, as it is when it is asked, and `str` of a
-- JSON value that is no text
pub record Settings : Type 0 where
  pub skills : Option Registry
  pub allow_test_drafts : Bool
  pub shown : Json → String

pub record Runs : Type 0 where
  pub runs : Dict String RunRecord
  pub log : AuditLog
