-- ===== src/Runs/Usable.antt =====
-- What the checks of a skill in `begin` find where they do not raise.
use alos_backend.Prelude.{
  String, ◌≡◌, refl, sym, inl, inr, some, List, [], ◌∷◌, true, ◌==◌, string_eq, Key2, key2_eq,
  key4_eq, arith, Bool-cases, contains,
}
use alos_backend.Prelude.Dict.{get}
use alos_backend.Prelude.Entries.{All}
use alos_backend.Prelude.Checks.{
  Checks, raise_if-Checks, or_raise-Checks, bind-Checks, Checks-map, passed,
}
use alos_backend.Prelude.Sets.{pair_before, All-distinct}
use alos_backend.Prelude.Sorting.{sort_by-All}
use alos_backend.Registry.State.{
  active, registry_state_eq, registry_state_iff, RegistryEntry, Registry,
}
use alos_backend.Runs.State.{RunError, ExecutionContext, RunRequest, Settings}
use alos_backend.Runs.Payloads.{references_in, common, all_texts_in}
use alos_backend.Skills.Payloads.{set_of, lists_text}
use alos_backend.Json.{Json, null, boolean, number, string, array, object}
use alos_backend.Runs.Requirements.{
  authorize_skill, authorize_each, authorize_all, authorize_skills, require_covered, Effective,
  effective_of,
}

-- Each of the values is a text, one that the context grants and the agent's definition lists.
abbrev pub IsCovered : List String → List Json → List Json → Type 0
IsCovered granted listed = All (λ value.
    (text : String) × (value ≡ string text)
    × (contains text granted ≡ true)
    × (lists_text text listed ≡ true))

-- Whatever the skill needs is granted by the context and listed by the agent.
pub record IsBounded (granted : List String) (name : String) (agent : RegistryEntry)
    (needed : String) (skill : RegistryEntry) : Type 0 where
  pub listed : List Json
  pub agent_lists : set_of name agent ≡ some listed
  pub values : List Json
  pub skill_needs : set_of needed skill ≡ some values
  pub is_covered : IsCovered granted listed values

abbrev pub IsAssigned : (Json → String) → RegistryEntry → Key2 → Type 0
IsAssigned shown agent reference =
    (agent_refs : List Key2) × (references_in shown agent ≡ some agent_refs)
    × (contains reference agent_refs ≡ true)

-- The run may use that version of a skill.
pub record IsUsable (settings : Settings) (context : ExecutionContext) (agent : RegistryEntry)
    (reference : Key2) : Type 0 where
  pub assigned : IsAssigned settings.shown agent reference
  pub skills : Registry
  pub has_skills : settings.skills ≡ some skills
  pub skill : RegistryEntry
  pub found :
      get (agent.tenant_id, agent.workspace_id, reference.0, reference.1) skills.entries
      ≡ some skill
  pub same_organization : skill.organization_id ≡ agent.organization_id
  pub is_active : skill.state ≡ active
  pub permissions :
      IsBounded context.permission_refs "permission_refs" agent "permission_refs" skill
  pub scopes : IsBounded context.scope_refs "scope_refs" agent "scope_refs" skill
  pub tools : IsBounded context.allowed_tool_ids "tool_ids" agent "required_tool_ids" skill

pub common-contains :
    (texts : List String) (values : List Json) (x : String)
    → contains x (common texts values) ≡ true
    → (contains x texts ≡ true) × (lists_text x values ≡ true)
unfolding common contains
common-contains [] values x h = cc
common-contains (y ∷ texts) values x h = elim (Bool-cases (lists_text y values)) [
  | inl listed ↦ elim (Bool-cases (x == y)) [
    | inl same ↦ (ground arith, rw ((string_eq.beq_iff x y).0 same) listed)
    | inr other ↦
        (let (here, there) = common-contains texts values x (ground arith) in (ground arith, there))
  ]
  | inr off ↦
      (let (here, there) = common-contains texts values x (ground arith) in (ground arith, there))
]

pub contains-common :
    (texts : List String) (values : List Json) (x : String)
    → contains x texts ≡ true
    → lists_text x values ≡ true
    → contains x (common texts values) ≡ true
unfolding common contains
contains-common [] values x h listed = cc
contains-common (y ∷ texts) values x h listed = elim (Bool-cases (x == y)) [
  | inl same ↦
      (let here : lists_text y values ≡ true = rw (sym ((string_eq.beq_iff x y).0 same)) listed in
        ground arith)
  | inr other ↦ (let rest = contains-common texts values x (ground arith) listed in ground arith)
]

covered :
    (granted : List String) (listed values : List Json)
    → all_texts_in values (common granted listed) ≡ true
    → IsCovered granted listed values
unfolding all_texts_in
covered granted listed [] h = tt
covered granted listed (string text ∷ values) h = (
  (let (here, there) = common-contains granted listed text (ground arith) in
      (text, refl, here, there)),
  covered granted listed values (ground arith),
)
covered granted listed (null ∷ values) h = cc
covered granted listed (boolean b ∷ values) h = cc
covered granted listed (number n ∷ values) h = cc
covered granted listed (array items ∷ values) h = cc
covered granted listed (object fields ∷ values) h = cc

bounded-Checks :
    (granted : List String) (name : String) (agent : RegistryEntry) (needed : String)
    (skill : RegistryEntry) (listed : List Json) (error : RunError)
    → set_of name agent ≡ some listed
    → Checks
        (λ _. IsBounded granted name agent needed skill)
        (require_covered needed skill (common granted listed) error)
unfolding require_covered
bounded-Checks granted name agent needed skill listed error lists =
    bind-Checks _ _ (or_raise-Checks _ _) (λ values needs.
      Checks-map _
        (λ _ all. record {
          listed = listed;
          agent_lists = lists;
          values = values;
          skill_needs = needs;
          is_covered = covered granted listed values (passed all);
        })
        (raise_if-Checks _ _))

authorize_skill-Checks :
    (settings : Settings) (context : ExecutionContext) (agent : RegistryEntry)
    (agent_refs : List Key2) (permissions scopes tools : List Json) (reference : Key2)
    → references_in settings.shown agent ≡ some agent_refs
    → set_of "permission_refs" agent ≡ some permissions
    → set_of "scope_refs" agent ≡ some scopes
    → set_of "tool_ids" agent ≡ some tools
    → Checks
        (λ _. IsUsable settings context agent reference)
        (authorize_skill settings agent agent_refs
          (effective_of context permissions scopes tools)
          reference)
unfolding authorize_skill effective_of
authorize_skill-Checks settings context agent agent_refs permissions scopes tools
      (skill_id, version) refs permits scopes_lists tools_lists =
    bind-Checks _ _ (raise_if-Checks _ _) (λ _ assigned.
      bind-Checks _ _ (or_raise-Checks _ _) (λ skills has_skills.
        bind-Checks _ _ (or_raise-Checks _ _) (λ skill found.
          bind-Checks _ _ (raise_if-Checks _ _) (λ _ same.
            bind-Checks _ _ (raise_if-Checks _ _) (λ _ on.
              bind-Checks _ _ (bounded-Checks _ _ agent _ skill permissions _ permits)
                (λ _ permitted.
                  bind-Checks _ _ (bounded-Checks _ _ agent _ skill scopes _ scopes_lists)
                    (λ _ scoped.
                      Checks-map _
                        (λ _ tooled. record {
                          assigned = (agent_refs, refs, passed assigned);
                          skills = skills;
                          has_skills = has_skills;
                          skill = skill;
                          found = found;
                          same_organization =
                              (string_eq.beq_iff skill.organization_id agent.organization_id).0
                                (passed same);
                          is_active = (registry_state_iff skill.state active).0 (passed on);
                          permissions = permitted;
                          scopes = scoped;
                          tools = tooled;
                        })
                        (bounded-Checks _ _ agent _ skill tools _ tools_lists))))))))

authorize_each-Checks :
    (settings : Settings) (agent : RegistryEntry) (agent_refs : List Key2) (effective : Effective)
    (P : Key2 → Type 0) (references : List Key2)
    → ((reference : Key2)
        → Checks (λ _. P reference) (authorize_skill settings agent agent_refs effective reference))
    → Checks (λ _. All P references) (authorize_each settings agent agent_refs effective references)
unfolding authorize_each
authorize_each-Checks settings agent agent_refs effective P [] one = λ s. inl (tt, tt, refl)
authorize_each-Checks settings agent agent_refs effective P (reference ∷ rest) one =
    bind-Checks _ _ (one reference) (λ _ usable.
      Checks-map _ (λ _ others. (usable, others))
        (authorize_each-Checks settings agent agent_refs effective P rest one))

authorize_all-Checks :
    (settings : Settings) (agent : RegistryEntry) (agent_refs : List Key2) (effective : Effective)
    (P : Key2 → Type 0) (references : List Key2)
    → ((reference : Key2)
        → Checks (λ _. P reference) (authorize_skill settings agent agent_refs effective reference))
    → Checks
        (λ authorized. All P authorized)
        (authorize_all settings agent agent_refs effective references)
unfolding authorize_all
authorize_all-Checks settings agent agent_refs effective P references one =
    bind-Checks _ _ (authorize_each-Checks settings agent agent_refs effective P references one)
      (λ _ usable s. inl (_, sort_by-All pair_before _ _ (All-distinct _ _ usable), refl))

pub authorize_skills-Checks :
    (settings : Settings) (request : RunRequest) (context : ExecutionContext)
    (agent : RegistryEntry)
    → Checks
        (λ authorized. All (IsUsable settings context agent) authorized)
        (authorize_skills settings request context agent)
unfolding authorize_skills
authorize_skills-Checks settings request context agent =
    bind-Checks _ _ (or_raise-Checks _ _) (λ agent_refs refs.
      bind-Checks _ _ (or_raise-Checks _ _) (λ permissions permits.
        bind-Checks _ _ (or_raise-Checks _ _) (λ scopes scopes_lists.
          bind-Checks _ _ (or_raise-Checks _ _) (λ tools tools_lists.
            authorize_all-Checks settings agent agent_refs _ _ _ (λ reference.
              authorize_skill-Checks settings context agent agent_refs permissions scopes tools
                reference refs permits scopes_lists tools_lists)))))
