-- ===== src/Skills/Assigned.antt =====
-- How `assign` ends: it rejects and records, it raises, or it registers a draft.
use alos_backend.Prelude.{
  ℕ, String, ◌≡◌, refl, inl, inr, some, List, [], ◌∷◌, Bool, true, false, key4_eq, Bool-cases,
  Option-cases, Result, ok, err, arith, continue,
}
use alos_backend.Prelude.Dict.{get}
use alos_backend.Prelude.Entries.{All}
use alos_backend.Json.{Json}
use alos_backend.Registry.State.{
  active, registry_state_eq, RegistryEntry, DefinitionError, Kind, Registry,
}
use alos_backend.Registry.Authority.{RegistryAuthorityView, get_authorized}
use alos_backend.Registry.Authorized.{IsAuthorized}
use alos_backend.Skills.State.{
  SkillAssignmentError, not_a_set, agent_version_invalid, agent_version_conflict, passed_on,
  AssignmentRequest, SkillAssignmentResponse, SkillAssignmentService,
}
use alos_backend.Skills.Texts.{is_conflict}
use alos_backend.Skills.Payloads.{
  has_reference, members, set_of, lists_text, all_among, draft_payload, draft_version,
}
use alos_backend.Skills.Assignment.{
  Assign, with_event, conflicting, context_of, agent_key, response_of, answer_draft, with_agents,
  make_draft, require_members, extend_agent,
}
use alos_backend.Skills.Authorizing.{Registers, register-Registers}

-- Exceptions of which `assign` records nothing.
unfoldable pub is_unrecorded : SkillAssignmentError → Bool
is_unrecorded not_a_set = true
is_unrecorded agent_version_invalid = true
is_unrecorded agent_version_conflict = true
is_unrecorded (passed_on e) = true
is_unrecorded _ = false

-- Each of the texts is among the member of that name of the agent's payload.
pub record Covers (agent : RegistryEntry) (name : String) (texts : List String) : Type 0 where
  pub values : List Json
  pub listed : set_of name agent ≡ some values
  pub all_listed : All (λ text. lists_text text values ≡ true) texts

all_among-All :
    (texts : List String) (values : List Json)
    → all_among texts values ≡ true
    → All (λ text. lists_text text values ≡ true) texts
unfolding all_among
all_among-All [] values h = tt
all_among-All (text ∷ texts) values h = (ground arith, all_among-All texts values (ground arith))

module _ (skill_kind agent_kind : Kind) (ask : AssignmentRequest) (now : ℕ)
    (s : SkillAssignmentService) where
  -- The agent and the skill may be joined.
  pub record IsEligible (agent : RegistryEntry) (skill : RegistryAuthorityView) (refs : List Json)
      : Type 0 where
    pub found : get (agent_key ask) s.agents.entries ≡ some agent
    pub is_active : agent.state ≡ active
    pub agent_authorized :
        IsAuthorized agent_kind ask.principal ask.agent_id ask.agent_version s.agents
    pub skill_authorized :
        IsAuthorized skill_kind ask.principal ask.skill_id ask.skill_version s.registry
    pub skill_given :
        get_authorized skill_kind (some ask.principal) ask.skill_id ask.skill_version s.registry
        ≡ (ok skill, s.registry)
    pub refs_listed : members "skill_refs" agent ≡ some refs
    pub is_new : has_reference ask.skill_id ask.skill_version refs ≡ false
    pub permissions : Covers agent "permission_refs" skill.permissions
    pub scopes : Covers agent "scope_refs" skill.scope
    pub tools : Covers agent "tool_ids" skill.tools

  pub data Assigned
      : Result SkillAssignmentError SkillAssignmentResponse × SkillAssignmentService → Type 0 where
    rejected :
        (code : SkillAssignmentError) (reason : String)
        → is_unrecorded code ≡ false
        → Assigned (err code, with_event ask "REJECTED" reason now s)
    raised : (code : SkillAssignmentError) → is_unrecorded code ≡ true → Assigned (err code, s)
    drafted :
        (agent : RegistryEntry) (skill : RegistryAuthorityView) (refs : List Json)
        (version : String) (draft : RegistryEntry) (agents : Registry)
        → IsEligible agent skill refs
        → draft_version ask ≡ some version
        → Registers agent_kind
            (draft_payload ask version refs agent.payload)
            s.agents
            (ok draft, agents)
        → Assigned (
          ok (response_of ask draft),
          with_event ask "DRAFT" "Immutable AgentDefinition draft created." now
              (record s { agents = agents }),
        )

  module _ (agent : RegistryEntry) (skill : RegistryAuthorityView) (refs : List Json)
      (eligible : IsEligible agent skill refs) where
    registered-Assigned :
        (version : String) (x : Result DefinitionError RegistryEntry × Registry)
        → draft_version ask ≡ some version
        → Registers agent_kind (draft_payload ask version refs agent.payload) s.agents x
        → Assigned (continue (answer_draft ask now) (with_agents conflicting s x))
    unfolding is_unrecorded
    registered-Assigned version x at (Registers.refused e) = elim (Bool-cases (is_conflict e)) [
      | inl conflict ↦ rw conflict (raised agent_version_conflict refl)
      | inr other ↦ rw other (raised (passed_on e) refl)
    ]
    registered-Assigned version x at (Registers.there key entry found same) =
        drafted agent skill refs version entry s.agents eligible at
          (Registers.there key entry found same)
    registered-Assigned version x at (Registers.written_new entry store log new from same digest) =
        drafted agent skill refs version entry _ eligible at
          (Registers.written_new entry store log new from same digest)

    make_draft-Assigned : Assigned (make_draft agent_kind ask agent refs now s)
    unfolding is_unrecorded
    make_draft-Assigned = elim (Option-cases (draft_version ask)) [
      | inl invalid ↦ rw invalid (raised agent_version_invalid refl)
      | inr (version, at) ↦ rw at (
          registered-Assigned version _ at (
            register-Registers agent_kind (draft_payload ask version refs agent.payload)
              (context_of ask) now s.agents))
    ]

  -- One of the three requirements.
  required-Assigned :
      (agent : RegistryEntry) (name : String) (texts : List String) (reason : String)
      (code : SkillAssignmentError) (rest : Assign SkillAssignmentResponse)
      → is_unrecorded code ≡ false
      → (Covers agent name texts → Assigned (rest s))
      → Assigned (continue (λ _. rest) (require_members ask agent name texts reason code now s))
  unfolding is_unrecorded
  required-Assigned agent name texts reason code rest recorded next =
      elim (Option-cases (set_of name agent)) [
        | inl no_set ↦ rw no_set (raised not_a_set refl)
        | inr (values, listed) ↦ elim (Bool-cases (all_among texts values)) [
          | inr exceeds ↦ rw (listed, exceeds) (rejected code reason recorded)
          | inl among ↦
              rw (listed, among)
                (next (record {
                  values = values;
                  listed = listed;
                  all_listed = all_among-All texts values among;
                }))
        ]
      ]

  -- What is known of the two before their members are compared.
  pub record AreAuthorized (agent : RegistryEntry) (skill : RegistryAuthorityView) : Type 0 where
    pub found : get (agent_key ask) s.agents.entries ≡ some agent
    pub is_active : agent.state ≡ active
    pub agent_authorized :
        IsAuthorized agent_kind ask.principal ask.agent_id ask.agent_version s.agents
    pub skill_authorized :
        IsAuthorized skill_kind ask.principal ask.skill_id ask.skill_version s.registry
    pub skill_given :
        get_authorized skill_kind (some ask.principal) ask.skill_id ask.skill_version s.registry
        ≡ (ok skill, s.registry)

  pub extend_agent-Assigned :
      (agent : RegistryEntry) (skill : RegistryAuthorityView)
      → AreAuthorized agent skill
      → Assigned (extend_agent agent_kind ask agent skill now s)
  unfolding is_unrecorded
  extend_agent-Assigned agent skill known = elim (Option-cases (members "skill_refs" agent)) [
    | inl no_list ↦ rw no_list (raised not_a_set refl)
    | inr (refs, listed) ↦ elim (Bool-cases (has_reference ask.skill_id ask.skill_version refs)) [
      | inl twice ↦ rw (listed, twice) (rejected _ _ refl)
      | inr new ↦
          rw (listed, new)
            (required-Assigned agent "permission_refs" skill.permissions _ _ _ refl λ permissions.
              required-Assigned agent "scope_refs" skill.scope _ _ _ refl λ scopes.
                required-Assigned agent "tool_ids" skill.tools _ _ _ refl λ tools.
                  make_draft-Assigned agent skill refs (record {
                    found = known.found;
                    is_active = known.is_active;
                    agent_authorized = known.agent_authorized;
                    skill_authorized = known.skill_authorized;
                    skill_given = known.skill_given;
                    refs_listed = listed;
                    is_new = new;
                    permissions = permissions;
                    scopes = scopes;
                    tools = tools;
                  }))
    ]
  ]
