-- ===== src/Runs/Requirements.antt =====
-- The checks of `AgentRunAuthority.begin`.
use alos_backend.Prelude.{
  String, Option, none, some, List, [], ◌∷◌, Bool, true, false, not, ◌&&◌, ◌||◌, ◌==◌, string_eq,
  Key2, key2_eq, key4_eq, contains, is_subset, Exec, pure, or_raise, raise_if, ◌>>=◌, ◌>>◌,
}
use alos_backend.Prelude.Dict.{get}
use alos_backend.Prelude.Sets.{distinct, pair_before}
use alos_backend.Prelude.Sorting.{sort_by}
use alos_backend.Json.{Json}
use alos_backend.Registry.State.{draft, approved, active, registry_state_eq, RegistryEntry}
use alos_backend.Runs.State.{
  RunError, context_differs, agent_differs, lifecycle_not_authorized, lacks_permissions,
  lacks_scope, tool_outside, skill_not_assigned, skill_registry_unavailable,
  skill_version_not_found, skill_context_mismatch, skill_not_active, skill_permission_mismatch,
  skill_scope_mismatch, skill_tool_mismatch, payload_malformed, ExecutionContext, RunRequest,
  Settings, Runs,
}
use alos_backend.Runs.Payloads.{texts_in, references_in, common, all_texts_in}
use alos_backend.Skills.Payloads.{set_of}

abbrev pub Run : Type 0 → Type 0
Run A = Exec Runs RunError A

unfoldable pub require_context : RunRequest → ExecutionContext → RegistryEntry → Run (Unit {0})
require_context request context agent = do
  raise_if
      (not (context.tenant_id == agent.tenant_id)
        || (not (context.organization_id == agent.organization_id)
            || not (context.workspace_id == agent.workspace_id)))
      context_differs
  raise_if
      (not (request.agent_id == agent.subject_id) || not (request.agent_version == agent.version))
      agent_differs

abbrev pub is_mode : String → Option String → Bool
is_mode mode none = false
is_mode mode (some given) = given == mode

unfoldable pub lifecycle_allows : Settings → RunRequest → RegistryEntry → Bool
lifecycle_allows settings request agent =
    agent.state == active
    || ((is_mode "TEST" request.execution_mode && settings.allow_test_drafts)
        && (agent.state == draft || agent.state == approved))

unfoldable pub require_lifecycle : Settings → RunRequest → RegistryEntry → Run (Unit {0})
require_lifecycle settings request agent =
    raise_if (not (lifecycle_allows settings request agent)) lifecycle_not_authorized

unfoldable pub require_permissions : Settings → ExecutionContext → RegistryEntry → Run (Unit {0})
require_permissions settings context agent = do
  required ← or_raise (texts_in settings.shown "permission_refs" agent) payload_malformed
  raise_if (not (is_subset required context.permission_refs)) lacks_permissions

abbrev pub has_any : List String → Bool
has_any [] = false
has_any (_ ∷ _) = true

unfoldable pub require_scope : Settings → ExecutionContext → RegistryEntry → Run (Unit {0})
require_scope settings context agent = do
  required ← or_raise (texts_in settings.shown "scope_refs" agent) payload_malformed
  raise_if (has_any required && not (is_subset required context.scope_refs)) lacks_scope

unfoldable pub require_tools : Settings → RunRequest → RegistryEntry → Run (Unit {0})
require_tools settings request agent = do
  allowed ← or_raise (texts_in settings.shown "tool_ids" agent) payload_malformed
  raise_if (not (is_subset request.requested_tool_ids allowed)) tool_outside

-- the references that are to be authorized
unfoldable pub raw_references : RunRequest → List Key2 → List Key2
raw_references request agent_refs = given request.authorized_skill_refs
  where
    given : Option (List Key2) → List Key2
    given none = agent_refs
    given (some requested) = requested

-- the effective permissions, scopes and tools
pub record Effective : Type 0 where
  pub permissions : List String
  pub scopes : List String
  pub tools : List String

unfoldable pub effective_of : ExecutionContext → List Json → List Json → List Json → Effective
unfolding common
effective_of context permissions scopes tools = record {
  permissions = common context.permission_refs permissions;
  scopes = common context.scope_refs scopes;
  tools = common context.allowed_tool_ids tools;
}

-- `frozenset(skill.payload.get(name, [])).issubset(effective)`, and what is raised where it is not
unfoldable pub require_covered : String → RegistryEntry → List String → RunError → Run (Unit {0})
require_covered name skill effective error = do
  values ← or_raise (set_of name skill) payload_malformed
  raise_if (not (all_texts_in values effective)) error

-- one round of the loop
unfoldable pub authorize_skill :
    Settings → RegistryEntry → List Key2 → Effective → Key2 → Run (Unit {0})
authorize_skill settings agent agent_refs effective (skill_id, version) = do
  raise_if (not (contains (skill_id, version) agent_refs)) skill_not_assigned
  skills ← or_raise settings.skills skill_registry_unavailable
  skill ←
      or_raise (get (agent.tenant_id, agent.workspace_id, skill_id, version) skills.entries)
        skill_version_not_found
  raise_if (not (skill.organization_id == agent.organization_id)) skill_context_mismatch
  raise_if (not (skill.state == active)) skill_not_active
  require_covered "permission_refs" skill effective.permissions skill_permission_mismatch
  require_covered "scope_refs" skill effective.scopes skill_scope_mismatch
  require_covered "required_tool_ids" skill effective.tools skill_tool_mismatch

unfoldable pub authorize_each :
    Settings → RegistryEntry → List Key2 → Effective → List Key2 → Run (Unit {0})
authorize_each settings agent agent_refs effective [] = pure tt
authorize_each settings agent agent_refs effective (reference ∷ rest) =
    authorize_skill settings agent agent_refs effective reference
    >> authorize_each settings agent agent_refs effective rest

-- the loop, and `sorted(set(authorized))`
unfoldable pub authorize_all :
    Settings → RegistryEntry → List Key2 → Effective → List Key2 → Run (List Key2)
unfolding sort_by distinct
authorize_all settings agent agent_refs effective references = do
  authorize_each settings agent agent_refs effective references
  pure (sort_by pair_before (distinct references))

-- `_authorize_skills`
unfoldable pub authorize_skills :
    Settings → RunRequest → ExecutionContext → RegistryEntry → Run (List Key2)
unfolding effective_of raw_references
authorize_skills settings request context agent = do
  agent_refs ← or_raise (references_in settings.shown agent) payload_malformed
  permissions ← or_raise (set_of "permission_refs" agent) payload_malformed
  scopes ← or_raise (set_of "scope_refs" agent) payload_malformed
  tools ← or_raise (set_of "tool_ids" agent) payload_malformed
  authorize_all settings agent agent_refs (effective_of context permissions scopes tools)
      (raw_references request agent_refs)
