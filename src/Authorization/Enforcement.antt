-- ===== src/Authorization/Enforcement.antt =====
-- authorization/enforcement.py: the decision on a command, with its audit event.
use alos_backend.Prelude.{
  ℕ, String, Option, none, some, List, [], ◌∷◌, Bool, true, false, not, ◌==◌, string_eq, or_else,
  if◌then◌else◌,
}
use Prim.Native.String.{◌++◌}
use alos_backend.Json.{Fields, one_text, two_texts}
use alos_backend.Audit.{human, AuditEvent, AuditLog, append}
use alos_backend.Authorization.{Principal, Demand, is_allowed}

pub data AuthorizationOutcome : Type 0 where
  allowed denied needs_info : AuthorizationOutcome

unfoldable pub outcome_name : AuthorizationOutcome → String
outcome_name allowed = "ALLOWED"
outcome_name denied = "DENIED"
outcome_name needs_info = "NEEDS_INFO"

-- the `reason` of a decision, and the `denied_field` that goes with it
pub data Reason : Type 0 where
  missing inactive no_scopes policy_denied authorized : Reason
  conflicting : String → Reason

abbrev pub denied_field : Reason → Option String
denied_field missing = some "actor"
denied_field inactive = some "actor"
denied_field (conflicting name) = some name
denied_field no_scopes = some "scopes"
denied_field policy_denied = some "policy"
denied_field authorized = none

pub record AuthorizationDecision : Type 0 where
  pub outcome : AuthorizationOutcome
  pub principal : Option Principal
  pub reason : Reason
  pub correlation_id : String

-- the arguments of `enforce` after the principal
pub record Claim : Type 0 where
  pub required_permission : String
  pub required_scopes : List String
  pub division_id : Option String
  pub project_id : Option String
  pub correlation_id : String
  pub command : String
  pub untrusted_actor_id : Option String
  pub untrusted_tenant_id : Option String
  pub untrusted_workspace_id : Option String
  pub untrusted_division_id : Option String
  pub untrusted_project_id : Option String

-- `untrusted is not None and untrusted != own`
unfoldable pub conflicts : Option String → String → Bool
conflicts none own = false
conflicts (some untrusted) own = not (untrusted == own)

-- the same, where the principal may have no such field
unfoldable pub conflicts_with : Option String → Option String → Bool
unfolding conflicts
conflicts_with untrusted none = false
conflicts_with untrusted (some own) = conflicts untrusted own

-- `_check_untrusted_conflicts`
unfoldable pub conflict : Principal → Claim → Option String
conflict principal claim =
    if conflicts claim.untrusted_actor_id principal.actor_id
    then some "actor_id"
    else if conflicts claim.untrusted_tenant_id principal.tenant_id
    then some "tenant_id"
    else if conflicts claim.untrusted_workspace_id principal.workspace_id
    then some "workspace_id"
    else if conflicts_with claim.untrusted_division_id principal.division_id
    then some "division_id"
    else if conflicts_with claim.untrusted_project_id principal.project_id
    then some "project_id"
    else none

-- what the policy is asked
unfoldable pub demand_of : Principal → Claim → Demand
demand_of principal claim = record {
  tenant_id = principal.tenant_id;
  organization_id = principal.organization_id;
  workspace_id = principal.workspace_id;
  required_permission = claim.required_permission;
  required_scopes = claim.required_scopes;
  division_id = or_else claim.division_id principal.division_id;
  project_id = or_else claim.project_id principal.project_id;
}

abbrev pub is_empty : List String → Bool
is_empty [] = true
is_empty (_ ∷ _) = false

abbrev pub decision_for :
    Option Principal → Claim → AuthorizationOutcome → Reason → AuthorizationDecision
decision_for principal claim outcome reason = record {
  outcome = outcome;
  principal = principal;
  reason = reason;
  correlation_id = claim.correlation_id;
}

-- the checks of an active principal, after that for conflicts
unfoldable pub judge : Principal → Claim → Option String → AuthorizationDecision
judge principal claim (some name) = decision_for (some principal) claim denied (conflicting name)
judge principal claim none =
    if is_empty principal.scopes
    then decision_for (some principal) claim needs_info no_scopes
    else if not (is_allowed (some principal) (demand_of principal claim))
    then decision_for (some principal) claim denied policy_denied
    else decision_for (some principal) claim allowed authorized

unfoldable pub decide : Option Principal → Claim → AuthorizationDecision
decide none claim = decision_for none claim denied missing
decide (some principal) claim =
    if not principal.active
    then decision_for (some principal) claim denied inactive
    else judge principal claim (conflict principal claim)

unfoldable pub reason_text : Reason → String
reason_text missing = "Authenticated principal is missing."
reason_text inactive = "Authenticated principal is inactive."
reason_text no_scopes = "At least one Backend-authorized scope is required."
reason_text policy_denied = "Authorization policy denied the request."
reason_text authorized = "Authorized."
reason_text (conflicting name) =
    "Frontend-supplied " ++ (name ++ " conflicts with authenticated principal.")

abbrev pub field_of : Option Principal → (Principal → String) → String
field_of none f = "unknown"
field_of (some principal) f = f principal

abbrev pub decision_metadata : Option String → String → Fields
decision_metadata none command = one_text "command" command
decision_metadata (some name) command = two_texts "command" command "denied_field" name

-- the event that `_audit_decision` appends
unfoldable pub decision_event : AuthorizationDecision → String → ℕ → AuditEvent
decision_event decision command now = record {
  event_type = "authorization.decision";
  entity_type = "command";
  entity_id = command;
  tenant_id = field_of decision.principal (λ (p : Principal). p.tenant_id);
  organization_id = field_of decision.principal (λ (p : Principal). p.organization_id);
  workspace_id = field_of decision.principal (λ (p : Principal). p.workspace_id);
  actor_id = field_of decision.principal (λ (p : Principal). p.actor_id);
  correlation_id = decision.correlation_id;
  outcome = outcome_name decision.outcome;
  occurred_at = now;
  actor_kind = human;
  reason = reason_text decision.reason;
  metadata = decision_metadata (denied_field decision.reason) command;
}

-- `enforce`: each of its branches audits its decision and gives it back
unfoldable pub enforce : Option Principal → Claim → ℕ → AuditLog → AuthorizationDecision × AuditLog
enforce principal claim now log =
    let decision = decide principal claim in
    (decision, append (decision_event decision claim.command now) log)
