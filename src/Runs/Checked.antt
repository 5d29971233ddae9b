-- ===== src/Runs/Checked.antt =====
-- What the other checks of `begin` find where they do not raise.
use alos_backend.Prelude.{
  String, ◌≡◌, ap, ◌↔◌, Option-cases, ◌⊎◌, inl, inr, Option, none, some, List, [], ◌∷◌, true, false,
  not, ◌&&◌, ◌||◌, ◌==◌, string_eq, key2_eq, key4_eq, arith, Bool-cases, contains, is_subset,
}
use alos_backend.Prelude.Entries.{All}
use alos_backend.Prelude.Checks.{
  Checks, raise_if-Checks, or_raise-Checks, bind-Checks, Checks-map, passed,
}
use alos_backend.Prelude.Sets.{subset-All}
use alos_backend.Registry.State.{
  draft, approved, active, registry_state_eq, registry_state_iff, RegistryEntry,
}
use alos_backend.Runs.State.{ExecutionContext, RunRequest, Settings}
use alos_backend.Skills.Payloads.{lists_text}
use alos_backend.Json.{Json}
use alos_backend.Runs.Usable.{common-contains, contains-common}
use alos_backend.Runs.Payloads.{texts_in}
use alos_backend.Skills.Payloads.{members}
use alos_backend.Runs.Authority.{authorized_tools}
use alos_backend.Runs.Requirements.{
  require_permissions, require_scope, require_tools, require_context, lifecycle_allows, has_any,
  is_mode,
}

-- Each of the texts is in the list.
abbrev pub AllIn : List String → List String → Type 0
AllIn xs ys = All (λ x. contains x ys ≡ true) xs

-- All texts of that name in the agent's definition are held.
abbrev pub HasAll : (Json → String) → String → RegistryEntry → List String → Type 0
HasAll shown name agent held =
    (required : List String) × (texts_in shown name agent ≡ some required) × AllIn required held

-- The agent's definition lists the tool.
abbrev pub ListsTool : RegistryEntry → String → Type 0
ListsTool agent tool =
    (listed : List Json) × (members "tool_ids" agent ≡ some listed)
    × (lists_text tool listed ≡ true)

three_same :
    (a b c x y z : String)
    → not (a == x) || (not (b == y) || not (c == z)) ≡ false
    → (a ≡ x) × (b ≡ y) × (c ≡ z)
three_same a b c x y z h =
    ground (arith, string_eq.beq_iff a x, string_eq.beq_iff b y, string_eq.beq_iff c z)

two_same : (a b x y : String) → not (a == x) || not (b == y) ≡ false → (a ≡ x) × (b ≡ y)
two_same a b x y h = ground (arith, string_eq.beq_iff a x, string_eq.beq_iff b y)

pub require_context-Checks :
    (request : RunRequest) (context : ExecutionContext) (agent : RegistryEntry)
    → Checks
        (λ _.
          (context.tenant_id ≡ agent.tenant_id)
          × (context.organization_id ≡ agent.organization_id)
          × (context.workspace_id ≡ agent.workspace_id)
          × (request.agent_id ≡ agent.subject_id)
          × (request.agent_version ≡ agent.version))
        (require_context request context agent)
unfolding require_context
require_context-Checks request context agent = bind-Checks _ _ (raise_if-Checks _ _) (λ _ here.
    Checks-map _
      (λ _ it.
        let (tenant, organization, workspace) = three_same _ _ _ _ _ _ here in
        let (subject, version) = two_same _ _ _ _ it in
        (tenant, organization, workspace, subject, version))
      (raise_if-Checks _ _))

-- Why the agent may run at all.
abbrev pub IsRunnable : Settings → RunRequest → RegistryEntry → Type 0
IsRunnable settings request agent =
    (agent.state ≡ active)
    ⊎ ((request.execution_mode ≡ some "TEST")
        × (settings.allow_test_drafts ≡ true)
        × ((agent.state ≡ draft) ⊎ (agent.state ≡ approved)))

is_mode-eq : (mode : String) (given : Option String) → is_mode mode given ≡ true → given ≡ some mode
is_mode-eq mode none h = cc
is_mode-eq mode (some given) h = ap some ((string_eq.beq_iff given mode).0 h)

pub lifecycle-IsRunnable :
    (settings : Settings) (request : RunRequest) (agent : RegistryEntry)
    → lifecycle_allows settings request agent ≡ true
    → IsRunnable settings request agent
unfolding lifecycle_allows
lifecycle-IsRunnable settings request agent h = elim (Bool-cases (agent.state == active)) [
  | inl on ↦ inl ((registry_state_iff agent.state active).0 on)
  | inr off ↦ inr (
    is_mode-eq "TEST" request.execution_mode (ground arith),
    ground arith,
    elim (Bool-cases (agent.state == draft)) [
      | inl new ↦ inl ((registry_state_iff agent.state draft).0 new)
      | inr other ↦ inr ((registry_state_iff agent.state approved).0 (ground arith))
    ],
  )
]

pub scope_held :
    (required granted : List String)
    → has_any required && not (is_subset required granted) ≡ false
    → AllIn required granted
scope_held [] granted h = tt
scope_held (x ∷ xs) granted h = subset-All (x ∷ xs) granted (passed h)

pub require_permissions-Checks :
    (settings : Settings) (context : ExecutionContext) (agent : RegistryEntry)
    → Checks
        (λ _. HasAll settings.shown "permission_refs" agent context.permission_refs)
        (require_permissions settings context agent)
unfolding require_permissions
require_permissions-Checks settings context agent =
    bind-Checks _ _ (or_raise-Checks _ _) (λ required here.
      Checks-map _
        (λ _ held. (required, here, subset-All required context.permission_refs (passed held)))
        (raise_if-Checks _ _))

pub require_scope-Checks :
    (settings : Settings) (context : ExecutionContext) (agent : RegistryEntry)
    → Checks
        (λ _. HasAll settings.shown "scope_refs" agent context.scope_refs)
        (require_scope settings context agent)
unfolding require_scope
require_scope-Checks settings context agent =
    bind-Checks _ _ (or_raise-Checks _ _) (λ required here.
      Checks-map _ (λ _ held. (required, here, scope_held required context.scope_refs held))
        (raise_if-Checks _ _))

-- The texts of the agent's tools that were asked for.
abbrev pub AreDefined : (Json → String) → RegistryEntry → List String → Type 0
AreDefined shown agent requested =
    (allowed : List String) × (texts_in shown "tool_ids" agent ≡ some allowed)
    × AllIn requested allowed

pub require_tools-Checks :
    (settings : Settings) (request : RunRequest) (agent : RegistryEntry)
    → Checks
        (λ _. AreDefined settings.shown agent request.requested_tool_ids)
        (require_tools settings request agent)
unfolding require_tools
require_tools-Checks settings request agent = bind-Checks _ _ (or_raise-Checks _ _) (λ allowed here.
    Checks-map _
      (λ _ held. (allowed, here, subset-All request.requested_tool_ids allowed (passed held)))
      (raise_if-Checks _ _))

-- The authorized tools are those that were asked for and that the agent lists.
pub authorized_tools-contains :
    (requested : List String) (agent : RegistryEntry) (tool : String)
    → (contains tool (authorized_tools requested (members "tool_ids" agent)) ≡ true)
      ↔ ((contains tool requested ≡ true) × ListsTool agent tool)
unfolding authorized_tools contains
authorized_tools-contains requested agent tool = elim (Option-cases (members "tool_ids" agent)) [
  | inl missing ↦ (
    (λ h. (let wrong = rw missing at h in (cc, ([], cc, cc)))),
    (λ h. (let (_, lists) = h in let (listed, at, _) = lists in cc)),
  )
  | inr (values, here) ↦ (
    (λ h.
        (let (asked, lists) = common-contains requested values tool (rw here at h) in
          (asked, (values, here, lists)))),
    (λ h.
        (let (asked, listing) = h in
          let (listed, at, lists) = listing in
          let there : listed ≡ values = cc in
          rw here (contains-common requested values tool asked (rw there at lists)))),
  )
]
