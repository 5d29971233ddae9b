-- ===== src/Tools/Requests.antt =====
-- tools/executor: requests, results, audit records and the idempotency store. A request is kept as
-- the members that the executor reads; the rest of its execution context is a JSON object.
use alos_backend.Prelude.{ℕ, String, Option, List, Bool}
use alos_backend.Prelude.{Key3, key3_eq}
use alos_backend.Prelude.Dict.{Dict}
use alos_backend.Json.{Json, Fields}
use alos_backend.Tools.State.{ExecutionContext}

pub record ToolRequest : Type 0 where
  pub tool_call_id : String
  pub run_id : String
  pub tool_id : String
  pub execution_context : ExecutionContext
  pub arguments : Fields
  pub idempotency_key : Option String

-- `error` of a result, without its message
pub record ToolFault : Type 0 where
  pub code : String
  pub correlation_id : String
  pub retryable : Bool
  pub details : Option String

pub record ToolResult : Type 0 where
  pub tool_call_id : String
  pub run_id : String
  pub tool_id : String
  pub correlation_id : String
  pub status : String
  pub completed_at : ℕ
  pub output : Option Json
  pub fault : Option ToolFault

pub record ToolExecutionOutcome : Type 0 where
  pub correlation_id : String
  pub result : ToolResult

pub record ToolAuditRecord : Type 0 where
  pub tool_call_id : String
  pub run_id : String
  pub tool_id : String
  pub tenant_id : String
  pub organization_id : String
  pub workspace_id : String
  pub actor_id : String
  pub correlation_id : String
  pub outcome : String
  pub occurred_at : ℕ

pub record IdempotencyRecord : Type 0 where
  pub request_digest : String
  pub output : Json

-- What the digest of a request is made from: no correlation identifier.
pub record Immutable : Type 0 where
  pub tool_id : String
  pub tenant_id : String
  pub organization_id : String
  pub workspace_id : String
  pub actor_id : String
  pub scope_refs : List String
  pub permission_refs : List String
  pub others : Fields
  pub arguments : Fields

unfoldable pub immutable : ToolRequest → Immutable
immutable request = record {
  tool_id = request.tool_id;
  tenant_id = request.execution_context.tenant_id;
  organization_id = request.execution_context.organization_id;
  workspace_id = request.execution_context.workspace_id;
  actor_id = request.execution_context.actor_id;
  scope_refs = request.execution_context.scope_refs;
  permission_refs = request.execution_context.permission_refs;
  others = request.execution_context.others;
  arguments = request.arguments;
}

-- `ToolContractValidator`: whether it accepts.
pub record Validator : Type 0 where
  pub accepts_request : ToolRequest → Bool
  pub accepts_result : ToolResult → Bool

-- Where `execute` raises.
pub data ExecutionError : Type 0 where
  request_invalid result_invalid key_of_other_request : ExecutionError

-- The sink of audit records, the idempotency store, and the world on which adapters act.
pub record Boundary (W : Type 0) : Type 0 where
  pub records : List ToolAuditRecord
  pub store : Dict Key3 IdempotencyRecord
  pub world : W
