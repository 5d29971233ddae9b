-- ===== src/Tools/Registry.antt =====
-- The methods of `ToolRegistry`. The event is recorded before the tool is written.
use alos_backend.Prelude.{
  ℕ, String, Option, none, some, Bool, true, false, not, ◌&&◌, ◌==◌, string_eq, is_given, is_blank,
  Exec, pure, gets, or_raise, raise_if, modify, ◌>>=◌, ◌>>◌,
}
use alos_backend.Prelude.Dict.{get, has_key, insert}
use alos_backend.Json.{end}
use alos_backend.Audit.{human, AuditEvent, AuditLog, append}
use alos_backend.Tools.State.{
  ToolLifecycleState, draft, approved, active, suspended, retired, lifecycle_eq, ToolRegistration,
  RegistryError, not_draft_registration, not_owner, already_registered, not_registered, not_draft,
  own_tool, not_approved, not_active, already_retired, reason_required, no_kill_switch,
  no_audit_sink, no_tenant_context, ToolRegistry,
}

abbrev pub default_reason : String
default_reason = "Authoritative Tool Registry lifecycle transition"

-- an identifier that was checked to be given
abbrev pub text_of : Option String → String
text_of none = ""
text_of (some given) = given

abbrev pub is_value : Option String → String → Bool
is_value none actor = false
is_value (some owner) actor = owner == actor

abbrev pub Operation : Type 0 → Type 0 → Type 0
Operation W A = Exec (ToolRegistry W) RegistryError A

abbrev pub to_sink : AuditEvent → Option AuditLog → Option AuditLog
to_sink event none = none
to_sink event (some log) = some (append event log)

abbrev pub has_sink : Option AuditLog → Bool
has_sink none = false
has_sink (some _) = true

module _ {W : Type 0} where
  unfoldable pub tool_event :
      ToolRegistration W → String → String → String → String → String → ℕ → AuditEvent
  tool_event tool actor correlation event_type outcome reason now = record {
    event_type = event_type;
    entity_type = "tool_definition";
    entity_id = tool.tool_id;
    tenant_id = text_of tool.tenant_id;
    organization_id = text_of tool.organization_id;
    workspace_id = text_of tool.workspace_id;
    actor_id = actor;
    correlation_id = correlation;
    outcome = outcome;
    occurred_at = now;
    actor_kind = human;
    reason = reason;
    metadata = end;
  }

  -- `_record`
  unfoldable pub record_tool :
      ToolRegistration W → String → String → String → String → String → ℕ → Operation W (Unit {0})
  record_tool tool actor correlation event_type outcome reason now = do
    sink ← gets (λ s. has_sink s.audit)
    raise_if (not sink) no_audit_sink
    raise_if
        (not (
          is_given tool.tenant_id && (is_given tool.organization_id && is_given tool.workspace_id)))
        no_tenant_context
    modify (λ s. record s {
      audit = to_sink (tool_event tool actor correlation event_type outcome reason now) s.audit;
    })

  abbrev pub put_tool : String → ToolRegistration W → Operation W (Unit {0})
  put_tool tool_id tool = modify (λ s. record s { tools = insert tool_id tool s.tools })

  -- `_require`
  abbrev pub find_tool : String → Operation W (ToolRegistration W)
  find_tool tool_id = do or_raise (← gets (λ s. get tool_id s.tools)) not_registered

  -- the end of each operation
  abbrev pub settle :
      String
      → ToolRegistration W
      → String
      → String
      → String
      → String
      → String
      → ℕ
      → Operation W (ToolRegistration W)
  settle tool_id tool actor correlation event_type outcome reason now = do
    record_tool tool actor correlation event_type outcome reason now
    put_tool tool_id tool
    pure tool

  -- without an audit event, for tools that the program itself brings
  unfoldable pub register : ToolRegistration W → Operation W (Unit {0})
  register tool = do
    raise_if (← gets (λ s. has_key tool.tool_id s.tools)) already_registered
    put_tool tool.tool_id tool

  unfoldable pub register_draft :
      ToolRegistration W → String → String → ℕ → Operation W (ToolRegistration W)
  register_draft tool actor correlation now = do
    raise_if (not (tool.lifecycle_state == draft)) not_draft_registration
    raise_if (not (is_value tool.owner_actor_id actor)) not_owner
    raise_if (← gets (λ s. has_key tool.tool_id s.tools)) already_registered
    settle tool.tool_id tool actor correlation "tool.draft_registered" "DRAFT" default_reason now

  unfoldable pub approved_tool : ToolRegistration W → String → ToolRegistration W
  approved_tool tool actor = record tool { lifecycle_state = approved; approved_by = some actor }

  unfoldable pub approve : String → String → String → ℕ → Operation W (ToolRegistration W)
  approve tool_id actor correlation now = do
    current ← find_tool tool_id
    raise_if (not (current.lifecycle_state == draft)) not_draft
    raise_if (is_value current.owner_actor_id actor) own_tool
    settle tool_id (approved_tool current actor) actor correlation "tool.approved" "APPROVED"
        default_reason now

  unfoldable pub in_state : ToolRegistration W → ToolLifecycleState → ToolRegistration W
  in_state tool state = record tool { lifecycle_state = state }

  unfoldable pub activate : String → String → String → ℕ → Operation W (ToolRegistration W)
  activate tool_id actor correlation now = do
    current ← find_tool tool_id
    raise_if (not (current.lifecycle_state == approved)) not_approved
    settle tool_id (in_state current active) actor correlation "tool.activated" "ACTIVE"
        default_reason now

  unfoldable pub suspend : String → String → String → ℕ → Operation W (ToolRegistration W)
  suspend tool_id actor correlation now = do
    current ← find_tool tool_id
    raise_if (not (current.lifecycle_state == active)) not_active
    settle tool_id (in_state current suspended) actor correlation "tool.suspended" "SUSPENDED"
        default_reason now

  unfoldable pub retired_tool : ToolRegistration W → ToolRegistration W
  retired_tool tool = record tool { lifecycle_state = retired; allowlisted = false }

  unfoldable pub retire : String → String → String → ℕ → Operation W (ToolRegistration W)
  retire tool_id actor correlation now = do
    current ← find_tool tool_id
    raise_if (current.lifecycle_state == retired) already_retired
    settle tool_id (retired_tool current) actor correlation "tool.retired" "RETIRED" default_reason
        now

  unfoldable pub switched : ToolRegistration W → Bool → ToolRegistration W
  switched tool on = record tool { kill_switch_active = on }

  unfoldable pub activate_kill_switch :
      String → String → String → String → ℕ → Operation W (ToolRegistration W)
  activate_kill_switch tool_id actor reason correlation now = do
    current ← find_tool tool_id
    raise_if (not (current.lifecycle_state == active)) not_active
    raise_if (is_blank reason) reason_required
    settle tool_id (switched current true) actor correlation "tool.kill_switch_activated"
        "SUSPENDED" reason now

  unfoldable pub clear_kill_switch :
      String → String → String → String → ℕ → Operation W (ToolRegistration W)
  clear_kill_switch tool_id actor reason correlation now = do
    current ← find_tool tool_id
    raise_if (not current.kill_switch_active) no_kill_switch
    raise_if (is_blank reason) reason_required
    settle tool_id (switched current false) actor correlation "tool.kill_switch_cleared" "ACTIVE"
        reason now
