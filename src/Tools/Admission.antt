-- ===== src/Tools/Admission.antt =====
-- The checks at the head of `ToolExecutor.execute`, and what they end in. Whether this is production
-- is a parameter; the tools are those of the registry.
use alos_backend.Prelude.{
  String, Option, none, some, List, Bool, true, false, not, ◌&&◌, ◌==◌, string_eq, contains,
  is_subset, if◌then◌else◌, key3_eq,
}
use alos_backend.Prelude.Dict.{Dict, get}
use alos_backend.Authorization.{Principal, Demand, is_allowed}
use alos_backend.Tools.State.{
  active, lifecycle_eq, IdempotencyPolicy, unused, optional, required, ToolRegistration,
}
use alos_backend.Tools.Requests.{ToolRequest}

-- What the checks before the adapter end in.
pub data Admission (W : Type 0) : Type 0 where
  refused : String → String → Option String → Admission W
  admitted : ToolRegistration W → Admission W

-- `transport is not None and transport != correlation`
unfoldable pub mismatched : Option String → String → Bool
mismatched none correlation = false
mismatched (some transport) correlation = not (transport == correlation)

-- `REQUIRED and not isinstance(key, str)`
unfoldable pub lacks_key : IdempotencyPolicy → Option String → Bool
lacks_key required none = true
lacks_key required (some key) = false
lacks_key unused key = false
lacks_key optional key = false

unfoldable pub demand_for : ToolRequest → String → List String → Demand
demand_for request permission scopes = record {
  tenant_id = request.execution_context.tenant_id;
  organization_id = request.execution_context.organization_id;
  workspace_id = request.execution_context.workspace_id;
  required_permission = permission;
  required_scopes = scopes;
  division_id = none;
  project_id = none;
}

module _ {W : Type 0} where
  -- the last two checks, on the input and the idempotency key
  unfoldable pub accept_input : ToolRequest → ToolRegistration W → Option String → Admission W
  accept_input request tool (some reason) = refused "REJECTED" "TOOL_INPUT_INVALID" (some reason)
  accept_input request tool none =
      if lacks_key tool.idempotency_policy request.idempotency_key
      then refused "REJECTED" "IDEMPOTENCY_REQUIRED" none
      else admitted tool

  -- the checks on a registered tool, in their order
  unfoldable pub inspect : Bool → ToolRequest → Option Principal → ToolRegistration W → Admission W
  inspect production request principal tool =
      if not tool.allowlisted
      then refused "DENIED" "TOOL_NOT_ALLOWED" none
      else if not (tool.lifecycle_state == active)
      then refused "DENIED" "TOOL_NOT_ACTIVE" none
      else if tool.kill_switch_active
      then refused "DENIED" "TOOL_KILL_SWITCH_ACTIVE" none
      else if production && not tool.production_enabled
      then refused "DENIED" "TEST_TOOL_DISABLED" none
      else if not (is_subset tool.required_scopes request.execution_context.scope_refs)
      then refused "DENIED" "SCOPE_DENIED" none
      else if not (contains tool.required_permission request.execution_context.permission_refs)
      then refused "DENIED" "PERMISSION_DENIED" none
      else if not
          (is_allowed principal (demand_for request tool.required_permission tool.required_scopes))
      then refused "DENIED" "AUTHORIZATION_DENIED" none
      else accept_input request tool (tool.adapter.validate_arguments request.arguments)

  abbrev pub inspect_found :
      Bool → ToolRequest → Option Principal → Option (ToolRegistration W) → Admission W
  inspect_found production request principal none = refused "DENIED" "TOOL_UNKNOWN" none
  inspect_found production request principal (some tool) = inspect production request principal tool

  unfoldable pub admit :
      Bool
      → Dict String (ToolRegistration W)
      → ToolRequest
      → Option Principal
      → Option String
      → Admission W
  admit production tools request principal transport =
      if mismatched transport request.execution_context.correlation_id
      then refused "DENIED" "CORRELATION_MISMATCH" none
      else inspect_found production request principal (get request.tool_id tools)
