-- ===== src/Tools/State.antt =====
-- tools/registry: what is registered, with an adapter as in tools/adapters/base.py, which is given
-- the execution context of a request: the members that the executor reads, and the others. An adapter acts
-- on the world W outside, of which nothing is known here.
use alos_backend.Prelude.{String, ◌≡◌, ◌↔◌, Option, List, Bool, true, Eq, decided, decided_iff}
use alos_backend.Prelude.Dict.{Dict}
use alos_backend.Json.{Json, Fields}
use alos_backend.Audit.{AuditLog}

pub data ToolLifecycleState : Type 0 where
  draft approved active suspended retired : ToolLifecycleState

ToolLifecycleState-discrete : Discrete ToolLifecycleState
ToolLifecycleState-discrete = hlevel

unfoldable pub lifecycle_beq : ToolLifecycleState → ToolLifecycleState → Bool
unfolding ToolLifecycleState-discrete
lifecycle_beq = decided ToolLifecycleState-discrete

pub lifecycle_iff : (a b : ToolLifecycleState) → (lifecycle_beq a b ≡ true) ↔ (a ≡ b)
unfolding lifecycle_beq
lifecycle_iff = decided_iff ToolLifecycleState-discrete

instance abbrev pub lifecycle_eq : Eq ToolLifecycleState
lifecycle_eq = record { beq = lifecycle_beq; beq_iff = lifecycle_iff }

pub data IdempotencyPolicy : Type 0 where
  unused optional required : IdempotencyPolicy

-- How `execute` of an adapter ends within its timeout, or not.
pub data AdapterEnd : Type 0 where
  timed_out failed : AdapterEnd
  returned : Json → AdapterEnd

pub record ExecutionContext : Type 0 where
  pub correlation_id : String
  pub tenant_id : String
  pub organization_id : String
  pub workspace_id : String
  pub actor_id : String
  pub scope_refs : List String
  pub permission_refs : List String
  pub others : Fields

-- `validate_arguments` gives the text of a `ToolInputError`, or nothing.
pub record ToolAdapter (W : Type 0) : Type 0 where
  pub validate_arguments : Fields → Option String
  pub execute : Fields → ExecutionContext → W → AdapterEnd × W

pub record ToolRegistration (W : Type 0) : Type 0 where
  pub tool_id : String
  pub required_permission : String
  pub required_scopes : List String
  pub adapter : ToolAdapter W
  pub allowlisted : Bool
  pub production_enabled : Bool
  pub lifecycle_state : ToolLifecycleState
  pub idempotency_policy : IdempotencyPolicy
  pub kill_switch_active : Bool
  pub owner_actor_id : Option String
  pub approved_by : Option String
  pub tenant_id : Option String
  pub organization_id : Option String
  pub workspace_id : Option String

-- Where the registry raises.
pub data RegistryError : Type 0 where
  not_draft_registration not_owner already_registered not_registered : RegistryError
  not_draft own_tool not_approved not_active already_retired : RegistryError
  reason_required no_kill_switch no_audit_sink no_tenant_context : RegistryError

-- The tools, and the log of the sink where the registry has one.
pub record ToolRegistry (W : Type 0) : Type 0 where
  pub tools : Dict String (ToolRegistration W)
  pub audit : Option AuditLog
