-- ===== src/Skills/State.antt =====
-- What `SkillAssignmentService.assign` is asked and answers, the exceptions that leave it, and the
-- objects that it holds.
use alos_backend.Prelude.{String, Option}
use alos_backend.Audit.{AuditLog}
use alos_backend.Authorization.{Principal}
use alos_backend.Registry.State.{DefinitionError, Registry}

-- The codes of a `SkillAssignmentError`. Other exceptions pass: one of a registry, or the TypeError
-- of a payload whose members are not lists of texts.
pub data SkillAssignmentError : Type 0 where
  agent_version_not_found agent_not_active skill_version_not_found : SkillAssignmentError
  skill_not_active assignment_not_authorized agent_skill_duplicate : SkillAssignmentError
  skill_permission_mismatch skill_scope_mismatch : SkillAssignmentError
  skill_tool_requirement_unmet agent_version_invalid agent_version_conflict : SkillAssignmentError
  not_a_set : SkillAssignmentError
  passed_on : DefinitionError → SkillAssignmentError

pub record AssignmentRequest : Type 0 where
  pub agent_id : String
  pub agent_version : String
  pub skill_id : String
  pub skill_version : String
  pub proposed_agent_version : Option String
  pub principal : Principal
  pub correlation_id : String

-- its lifecycle state is always DRAFT
pub record SkillAssignmentResponse : Type 0 where
  pub agent_id : String
  pub base_agent_version : String
  pub draft_agent_version : String
  pub skill_id : String
  pub skill_version : String
  pub correlation_id : String

-- The two registries, and the events of the service's own in its sink, where it has one. A sink
-- that the registries share has theirs between them.
pub record SkillAssignmentService : Type 0 where
  pub registry : Registry
  pub agents : Registry
  pub audit : Option AuditLog
