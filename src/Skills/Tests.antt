-- ===== src/Skills/Tests.antt =====
-- The theorems at an agent and a skill of one tenant.
use alos_backend.Prelude.{
  codes, String, ◌≡◌, refl, none, some, [], ◌∷◌, true, false, Key4, key4_eq, or_else, is_blank,
  is_subset, is_given, ok, err,
}
use alos_backend.Prelude.Dict.{get, insert}
use alos_backend.Prelude.Sorting.{insert_sorted}
use alos_backend.Json.{string, Fields, end, field, get_field, array, nil, cons}
use alos_backend.Authorization.{Principal, own_assigned}
use alos_backend.Registry.State.{
  RegistryState, active, suspended, registry_state_beq, RegistryEntry, Kind, Registry,
}
use alos_backend.Registry.Version.{semver, key_of, numeric, textual}
use alos_backend.Registry.Versions.{
  Context, new_entry, require_matching_context, supplied_differs, register, transitioned,
}
use alos_backend.Registry.Authority.{from_entry, authorize, view_of, get_authorized}
use alos_backend.Skills.State.{
  AssignmentRequest, SkillAssignmentResponse, SkillAssignmentService, skill_not_active,
}
use alos_backend.Skills.Minor.{next_minor}
use alos_backend.Skills.Parts.{has_no_plus}
use alos_backend.Skills.Proposed.{semver-next_minor}
use alos_backend.Skills.Payloads.{draft_version, draft_payload, all_among, has_reference}
use alos_backend.Skills.Assignment.{assign, with_event}
use alos_backend.Skills.Assigned.{is_unrecorded}
use alos_backend.Skills.Drafts.{
  IsDrafted, Extends, assign-IsDrafted, assign-Extends, assign-recorded,
}

abbrev kind_of : String → String → String → Kind
kind_of subject_type id_field version_field = record {
  subject_type = subject_type;
  id_field = id_field;
  version_field = version_field;
  accepts = λ payload. true;
  digest = λ payload. "digest";
  shown = λ value. "shown";
  nonzero = λ literal. true;
}

abbrev agent_kind : Kind
agent_kind = kind_of "agent" "agent_id" "agent_version"

abbrev skill_kind : Kind
skill_kind = kind_of "skill" "skill_id" "skill_version"

abbrev required : String → Fields
required tools = field "permission_refs" (array (cons (string "job.run") nil)) (
    field "scope_refs" (array (cons (string "sales") nil))
      (field tools (array (cons (string "crm.read") nil)) end))

abbrev agent_payload : Fields
agent_payload = field "agent_id" (string "a1") (
    field "agent_version" (string "1.9.0")
      (field "owner" (string "alice") (field "risk_level" (string "LOW") (required "tool_ids"))))

abbrev skill_payload : Fields
skill_payload =
    field "skill_id" (string "s1")
      (field "skill_version" (string "1.0.0") (required "required_tool_ids"))

abbrev context : Context
context = record {
  tenant_id = "t1";
  organization_id = "o1";
  workspace_id = "w1";
  actor_id = "alice";
  correlation_id = "c1";
}

abbrev in_force : RegistryState → Kind → Fields → String → String → RegistryEntry
in_force state kind payload subject version =
    transitioned (new_entry kind payload context subject version 1) state "c2" (some "d1")
      (some "r1")

abbrev holding : Key4 → RegistryEntry → Registry
holding key entry = record { entries = (key, entry) ∷ []; store = []; log = some [] }

abbrev service : RegistryState → SkillAssignmentService
service state = record {
  registry =
      holding ("t1", "w1", "s1", "1.0.0") (in_force state skill_kind skill_payload "s1" "1.0.0");
  agents =
      holding ("t1", "w1", "a1", "1.9.0") (in_force active agent_kind agent_payload "a1" "1.9.0");
  audit = some [];
}

abbrev alice : Principal
alice = record {
  actor_id = "alice";
  tenant_id = "t1";
  organization_id = "o1";
  workspace_id = "w1";
  permissions = "job.run" ∷ [];
  scopes = "sales" ∷ [];
  roles = [];
  data_scope = own_assigned;
  division_id = none;
  project_id = none;
  active = true;
}

abbrev ask : AssignmentRequest
ask = record {
  agent_id = "a1";
  agent_version = "1.9.0";
  skill_id = "s1";
  skill_version = "1.0.0";
  proposed_agent_version = none;
  principal = alice;
  correlation_id = "c3";
}

abbrev response : SkillAssignmentResponse
response = record {
  agent_id = "a1";
  base_agent_version = "1.9.0";
  draft_agent_version = "1.10.0";
  skill_id = "s1";
  skill_version = "1.0.0";
  correlation_id = "c3";
}

abbrev drafted : SkillAssignmentService
drafted = (assign skill_kind agent_kind ask 5 (service active)).1

answered : assign skill_kind agent_kind ask 5 (service active) ≡ (ok response, drafted)
unfolding assign get insert get_field new_entry transitioned registry_state_beq or_else
    get_authorized from_entry is_blank authorize view_of insert_sorted is_subset draft_version
    is_given next_minor draft_payload all_among has_reference register require_matching_context
    supplied_differs
answered = refl

assign-IsDrafted_example : IsDrafted skill_kind agent_kind ask 5 (service active) drafted response
assign-IsDrafted_example =
    assign-IsDrafted skill_kind agent_kind ask 5 (service active) drafted response answered

assign-Extends_example :
    (drafted.registry ≡ (service active).registry)
    × Extends (service active).agents.entries drafted.agents.entries
assign-Extends_example = assign-Extends skill_kind agent_kind ask 5 (service active)

refused_skill :
    assign skill_kind agent_kind ask 5 (service suspended)
    ≡ (err skill_not_active, with_event ask "REJECTED" "Skill is not ACTIVE." 5 (service suspended))
unfolding assign get new_entry transitioned registry_state_beq or_else
refused_skill = refl

assign-recorded_example :
    let s' = with_event ask "REJECTED" "Skill is not ACTIVE." 5 (service suspended) in
    (is_unrecorded skill_not_active ≡ true → s' ≡ service suspended)
    × (is_unrecorded skill_not_active ≡ false
        → (reason : String) × (s' ≡ with_event ask "REJECTED" reason 5 (service suspended)))
assign-recorded_example =
    assign-recorded skill_kind agent_kind ask 5 (service suspended)
      (with_event ask "REJECTED" "Skill is not ACTIVE." 5 (service suspended)) skill_not_active
      refused_skill

proposed : next_minor "1.9.3-rc.1" ≡ some "1.10.0"
unfolding next_minor
proposed = refl

read_prerelease :
    semver "1.9.3-rc.1" ≡ some (key_of 1 9 3 false (textual (codes "rc") ∷ numeric 1 ∷ []))
unfolding semver
read_prerelease = refl

-- Build metadata is not taken.
build_refused : next_minor "1.9.3+b1" ≡ none
unfolding next_minor
build_refused = refl

no_build : has_no_plus (codes "1.9.3-rc.1") ≡ true
no_build = refl

semver-next_minor_example :
    (next : String) × (next_minor "1.9.3-rc.1" ≡ some next)
    × (semver next ≡ some (key_of 1 10 0 true []))
semver-next_minor_example =
    semver-next_minor "1.9.3-rc.1" (key_of 1 9 3 false (textual (codes "rc") ∷ numeric 1 ∷ []))
      read_prerelease no_build

-- The draft has become the version in force, and the assignment is asked for again.
abbrev again : SkillAssignmentService
again = record (service active) {
  agents = record (service active).agents {
    entries =
        (("t1", "w1", "a1", "1.9.0"), in_force active agent_kind agent_payload "a1" "1.9.0")
        ∷ (
          ("t1", "w1", "a1", "1.10.0"),
          in_force active agent_kind (draft_payload ask "1.10.0" [] agent_payload) "a1" "1.10.0",
        )
        ∷ [];
  };
}

-- The answer, of which the state is always DRAFT, is of the version in force, and an event says that
-- a draft was made; the registry is as it was.
answered_again :
    assign skill_kind agent_kind ask 5 again
    ≡ (ok response, with_event ask "DRAFT" "Immutable AgentDefinition draft created." 5 again)
unfolding assign get insert get_field new_entry transitioned registry_state_beq or_else
    get_authorized from_entry is_blank authorize view_of insert_sorted is_subset draft_version
    is_given next_minor draft_payload all_among has_reference register require_matching_context
    supplied_differs
answered_again = refl
