-- ===== src/Skills/Assignment.antt =====
-- `SkillAssignmentService.assign`. The validation, the digest and the other functions of the two
-- registries are arguments, in their kinds.
use alos_backend.Prelude.{
  ℕ, String, Option, none, some, List, Bool, true, false, not, ◌==◌, string_eq, key4_eq, Key4,
  if◌then◌else◌, Result, ok, err, Exec, pure, raise, gets, or_raise, modify, ◌>>=◌, ◌>>◌,
}
use alos_backend.Prelude.Dict.{get}
use alos_backend.Json.{Json, two_texts}
use alos_backend.Audit.{human, AuditEvent}
use alos_backend.Registry.State.{
  active, registry_state_eq, RegistryEntry, DefinitionError, Kind, Registry,
}
use alos_backend.Registry.Versions.{Method, Context, logged_to, register}
use alos_backend.Registry.Authority.{RegistryAuthorityView, get_authorized}
use alos_backend.Skills.State.{
  SkillAssignmentError, agent_version_not_found, agent_not_active, skill_version_not_found,
  skill_not_active, agent_skill_duplicate, skill_permission_mismatch, skill_scope_mismatch,
  skill_tool_requirement_unmet, agent_version_invalid, agent_version_conflict, not_a_set, passed_on,
  AssignmentRequest, SkillAssignmentResponse, SkillAssignmentService,
}
use alos_backend.Skills.Texts.{refusal_text, refusal_code, is_conflict}
use alos_backend.Skills.Payloads.{
  has_reference, members, set_of, all_among, draft_payload, draft_version,
}

abbrev pub Assign : Type 0 → Type 0
Assign A = Exec SkillAssignmentService SkillAssignmentError A

unfoldable pub assignment_event : AssignmentRequest → String → String → ℕ → AuditEvent
assignment_event ask outcome reason now = record {
  event_type =
      if outcome == "DRAFT" then "skill.assignment.draft_created" else "skill.assignment.rejected";
  entity_type = "agent";
  entity_id = ask.agent_id;
  tenant_id = ask.principal.tenant_id;
  organization_id = ask.principal.organization_id;
  workspace_id = ask.principal.workspace_id;
  actor_id = ask.principal.actor_id;
  correlation_id = ask.correlation_id;
  outcome = outcome;
  occurred_at = now;
  actor_kind = human;
  reason = reason;
  metadata = two_texts "skill_id" ask.skill_id "skill_version" ask.skill_version;
}

abbrev pub with_event :
    AssignmentRequest → String → String → ℕ → SkillAssignmentService → SkillAssignmentService
with_event ask outcome reason now s = record s {
  audit = logged_to (assignment_event ask outcome reason now) s.audit;
}

-- `_record`
abbrev pub record_assignment : AssignmentRequest → String → String → ℕ → Assign (Unit {0})
record_assignment ask outcome reason now = modify (with_event ask outcome reason now)

-- a refusal is recorded, and raised
abbrev pub reject : {A : Type 0} → AssignmentRequest → String → SkillAssignmentError → ℕ → Assign A
reject ask reason code now s = (err code, with_event ask "REJECTED" reason now s)

abbrev pub reject_if :
    Bool → AssignmentRequest → String → SkillAssignmentError → ℕ → Assign (Unit {0})
reject_if true ask reason code now = reject ask reason code now
reject_if false ask reason code now = pure tt

abbrev pub or_reject :
    {A : Type 0} → Option A → AssignmentRequest → String → SkillAssignmentError → ℕ → Assign A
or_reject none ask reason code now = reject ask reason code now
or_reject (some a) ask reason code now = pure a

-- what `assign` does with an exception of `get_authorized`
abbrev pub refuse_as :
    {A : Type 0} → Option String → AssignmentRequest → DefinitionError → ℕ → Assign A
refuse_as none ask e now = raise (passed_on e)
refuse_as (some text) ask e now = reject ask text (refusal_code text) now

abbrev pub refused : {A : Type 0} → AssignmentRequest → ℕ → DefinitionError → Assign A
refused ask now e = refuse_as (refusal_text e) ask e now

-- what `assign` does with an exception of `register`
abbrev pub conflicting : {A : Type 0} → DefinitionError → Assign A
conflicting e = raise (if is_conflict e then agent_version_conflict else passed_on e)

-- a call of the registry of the agents, and of that of the skills
abbrev pub with_agents :
    {A : Type 0}
    → (DefinitionError → Assign A)
    → SkillAssignmentService
    → Result DefinitionError A × Registry
    → Result SkillAssignmentError A × SkillAssignmentService
with_agents raised s (ok a, r) = (ok a, record s { agents = r })
with_agents raised s (err e, r) = raised e (record s { agents = r })

abbrev pub with_skills :
    {A : Type 0}
    → (DefinitionError → Assign A)
    → SkillAssignmentService
    → Result DefinitionError A × Registry
    → Result SkillAssignmentError A × SkillAssignmentService
with_skills raised s (ok a, r) = (ok a, record s { registry = r })
with_skills raised s (err e, r) = raised e (record s { registry = r })

abbrev pub on_agents : {A : Type 0} → Method A → (DefinitionError → Assign A) → Assign A
on_agents m raised s = with_agents raised s (m s.agents)

abbrev pub on_skills : {A : Type 0} → Method A → (DefinitionError → Assign A) → Assign A
on_skills m raised s = with_skills raised s (m s.registry)

abbrev pub context_of : AssignmentRequest → Context
context_of ask = record {
  tenant_id = ask.principal.tenant_id;
  organization_id = ask.principal.organization_id;
  workspace_id = ask.principal.workspace_id;
  actor_id = ask.principal.actor_id;
  correlation_id = ask.correlation_id;
}

abbrev pub agent_key : AssignmentRequest → Key4
agent_key ask =
    (ask.principal.tenant_id, ask.principal.workspace_id, ask.agent_id, ask.agent_version)

abbrev pub skill_key : AssignmentRequest → Key4
skill_key ask =
    (ask.principal.tenant_id, ask.principal.workspace_id, ask.skill_id, ask.skill_version)

abbrev pub response_of : AssignmentRequest → RegistryEntry → SkillAssignmentResponse
response_of ask draft = record {
  agent_id = ask.agent_id;
  base_agent_version = ask.agent_version;
  draft_agent_version = draft.version;
  skill_id = ask.skill_id;
  skill_version = ask.skill_version;
  correlation_id = ask.correlation_id;
}

-- the draft is recorded and answered
abbrev pub answer_draft : AssignmentRequest → ℕ → RegistryEntry → Assign SkillAssignmentResponse
answer_draft ask now draft = do
  record_assignment ask "DRAFT" "Immutable AgentDefinition draft created." now
  pure (response_of ask draft)

abbrev pub make_draft :
    Kind → AssignmentRequest → RegistryEntry → List Json → ℕ → Assign SkillAssignmentResponse
make_draft agent_kind ask agent refs now = do
  version ← or_raise (draft_version ask) agent_version_invalid
  draft ←
      on_agents
        (register agent_kind (draft_payload ask version refs agent.payload) (context_of ask) now)
        conflicting
  answer_draft ask now draft

-- what the agent has to have of the skill's prerequisites
abbrev pub require_members :
    AssignmentRequest
    → RegistryEntry
    → String
    → List String
    → String
    → SkillAssignmentError
    → ℕ
    → Assign (Unit {0})
require_members ask agent name texts reason code now = do
  values ← or_raise (set_of name agent) not_a_set
  reject_if (not (all_among texts values)) ask reason code now

-- what follows the authorization of both
abbrev pub extend_agent :
    Kind
    → AssignmentRequest
    → RegistryEntry
    → RegistryAuthorityView
    → ℕ
    → Assign SkillAssignmentResponse
extend_agent agent_kind ask agent skill now = do
  refs ← or_raise (members "skill_refs" agent) not_a_set
  reject_if (has_reference ask.skill_id ask.skill_version refs) ask "Duplicate skill reference."
      agent_skill_duplicate now
  require_members ask agent "permission_refs" skill.permissions
      "Skill permission prerequisites exceed AgentDefinition permissions." skill_permission_mismatch
      now
  require_members ask agent "scope_refs" skill.scope
      "Skill scope prerequisites exceed AgentDefinition scope." skill_scope_mismatch now
  require_members ask agent "tool_ids" skill.tools "Tool prerequisite unmet."
      skill_tool_requirement_unmet now
  make_draft agent_kind ask agent refs now

unfoldable pub assign : Kind → Kind → AssignmentRequest → ℕ → Assign SkillAssignmentResponse
assign skill_kind agent_kind ask now = do
  agent_found ← gets (λ s. get (agent_key ask) s.agents.entries)
  agent ← or_reject agent_found ask "Agent version not found." agent_version_not_found now
  reject_if (not (agent.state == active)) ask "Agent is not ACTIVE." agent_not_active now
  skill_found ← gets (λ s. get (skill_key ask) s.registry.entries)
  skill_entry ← or_reject skill_found ask "Skill version not found." skill_version_not_found now
  reject_if (not (skill_entry.state == active)) ask "Skill is not ACTIVE." skill_not_active now
  on_agents (get_authorized agent_kind (some ask.principal) ask.agent_id ask.agent_version)
      (refused ask now)
  skill ←
      on_skills (get_authorized skill_kind (some ask.principal) ask.skill_id ask.skill_version)
        (refused ask now)
  extend_agent agent_kind ask agent skill now
