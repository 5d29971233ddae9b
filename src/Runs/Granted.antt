-- ===== src/Runs/Granted.antt =====
-- What a run was granted where `begin` gave one.
use mathlib.Core.Path.{subst}
use alos_backend.Prelude.{
  ℕ, String, ◌≡◌, ◌↔◌, true, contains, sym, ◌∙◌, ap, inl, inr, none, some, List, string_eq, Key2,
  key2_eq, key4_eq, Option-cases, ok, pure, or_raise, ◌>>◌,
}
use alos_backend.Prelude.Dict.{get, insert, get-insert_same}
use alos_backend.Prelude.Entries.{All}
use alos_backend.Prelude.Checks.{raise_if-Checks, or_raise-Checks, Checks-ok, passed}
use alos_backend.Audit.{append}
use alos_backend.Registry.State.{registry_state_eq, RegistryEntry}
use alos_backend.Runs.State.{
  running, no_context, ExecutionContext, RunRequest, RunRecord, Settings, Runs,
}
use alos_backend.Runs.Requirements.{
  require_context, require_lifecycle, require_permissions, require_scope, require_tools,
  authorize_skills,
}
use alos_backend.Runs.Authority.{new_run, begin, create_run, record_run, run_event}
use alos_backend.Runs.Usable.{IsUsable, authorize_skills-Checks}
use alos_backend.Runs.Checked.{
  HasAll, AreDefined, ListsTool, require_context-Checks, IsRunnable, lifecycle-IsRunnable,
  require_permissions-Checks, require_scope-Checks, require_tools-Checks, authorized_tools-contains,
}

-- What a run of the agent was asked for and got.
pub record IsGranted (settings : Settings) (request : RunRequest) (agent : RegistryEntry)
    (run : RunRecord) : Type 0 where
  pub context : ExecutionContext
  pub has_context : request.execution_context ≡ some context
  pub same_tenant : context.tenant_id ≡ agent.tenant_id
  pub same_organization : context.organization_id ≡ agent.organization_id
  pub same_workspace : context.workspace_id ≡ agent.workspace_id
  pub same_agent : request.agent_id ≡ agent.subject_id
  pub same_version : request.agent_version ≡ agent.version
  pub runnable : IsRunnable settings request agent
  pub permitted : HasAll settings.shown "permission_refs" agent context.permission_refs
  pub scoped : HasAll settings.shown "scope_refs" agent context.scope_refs
  pub tools_defined : AreDefined settings.shown agent request.requested_tool_ids
  pub tools :
      (tool : String)
      → (contains tool run.authorized_tool_ids ≡ true)
        ↔ ((contains tool request.requested_tool_ids ≡ true) × ListsTool agent tool)
  pub skills : All (IsUsable settings context agent) run.authorized_skill_refs

-- The run is stored under its id, and its start is logged.
abbrev pub started : RunRecord → ℕ → Runs → Runs
started run now s = record {
  runs = insert run.run_id run s.runs;
  log = append (run_event run "run.started" now) s.log;
}

created :
    (made run : RunRecord) (now : ℕ) (s s' : Runs)
    → (create_run made >> (record_run made "run.started" now >> pure made)) s ≡ (ok run, s')
    → (made ≡ run) × (get made.run_id s.runs ≡ none) × (s' ≡ started made now s)
unfolding create_run
created made run now s s' h = elim (Option-cases (get made.run_id s.runs)) [
  | inl free ↦ (let done = rw free at h in (cc, free, cc))
  | inr (other, at) ↦ (let wrong = rw at at h in cc)
]

pub begin-cases :
    (settings : Settings) (request : RunRequest) (agent : RegistryEntry) (now : ℕ) (s s' : Runs)
    (run : RunRecord)
    → begin settings request agent now s ≡ (ok run, s')
    → (context : ExecutionContext) × (authorized : List Key2) × IsGranted settings request agent
        (new_run request context agent authorized now)
      × (new_run request context agent authorized now ≡ run)
      × (get request.run_id s.runs ≡ none)
      × (s' ≡ started (new_run request context agent authorized now) now s)
unfolding begin new_run require_lifecycle
begin-cases settings request agent now s s' run h =
    let (context, given, h1) =
      Checks-ok _ (or_raise request.execution_context no_context) _ s s' run (or_raise-Checks _ _)
        h in
    let (_, here, h2) =
      Checks-ok _ (require_context request context agent) _ s s' run
        (require_context-Checks request context agent) h1 in
    let (_, lifecycle, h3) =
      Checks-ok _ (require_lifecycle settings request agent) _ s s' run (raise_if-Checks _ _) h2 in
    let (_, permitted, h4) =
      Checks-ok _ (require_permissions settings context agent) _ s s' run
        (require_permissions-Checks settings context agent) h3 in
    let (_, scoped, h5) =
      Checks-ok _ (require_scope settings context agent) _ s s' run
        (require_scope-Checks settings context agent) h4 in
    let (_, tooled, h6) =
      Checks-ok _ (require_tools settings request agent) _ s s' run
        (require_tools-Checks settings request agent) h5 in
    let (authorized, usable, h7) =
      Checks-ok _ (authorize_skills settings request context agent) _ s s' run
        (authorize_skills-Checks settings request context agent) h6 in
    let (made, free, after) =
      created (new_run request context agent authorized now) run now s s' h7 in
    (
      context,
      authorized,
      record {
        context = context;
        has_context = given;
        same_tenant = here.0;
        same_organization = here.1;
        same_workspace = here.2;
        same_agent = here.3;
        same_version = here.4;
        runnable = lifecycle-IsRunnable settings request agent (passed lifecycle);
        permitted = permitted;
        scoped = scoped;
        tools_defined = tooled;
        tools = authorized_tools-contains request.requested_tool_ids agent;
        skills = usable;
      },
      made,
      free,
      after,
    )

-- Where `begin` gives a run, its context is that of the agent's entry, the agent is ACTIVE or a
-- test of a draft is allowed and asked for, and the context has all permissions and scopes of the
-- agent. The tools that were asked for are among the texts of the agent's tools, and the run may
-- use exactly those of them that the agent's definition lists as texts, whatever tools the context
-- allows. Every skill that the run may use is an ACTIVE version in the agent's tenant, workspace
-- and organization, is assigned to the agent, and needs only what both the context grants (its
-- permissions, scopes and allowed tools) and the agent lists. No run had its id, and it is now
-- stored under it as running.
pub begin-IsGranted :
    (settings : Settings) (request : RunRequest) (agent : RegistryEntry) (now : ℕ) (s s' : Runs)
    (run : RunRecord)
    → begin settings request agent now s ≡ (ok run, s')
    → IsGranted settings request agent run
      × (run.status ≡ running)
      × (get request.run_id s.runs ≡ none)
      × (get request.run_id s'.runs ≡ some run)
unfolding new_run
begin-IsGranted settings request agent now s s' run h =
    let (context, authorized, is_granted, made, free, after) =
      begin-cases settings request agent now s s' run h in
    let fresh = new_run request context agent authorized now in
    (
      subst (IsGranted settings request agent) made is_granted,
      sym (ap (λ (r : RunRecord). r.status) made),
      free,
      ap (λ (t : Runs). get request.run_id t.runs) after
          ∙ (get-insert_same request.run_id fresh s.runs ∙ ap some made),
    )
