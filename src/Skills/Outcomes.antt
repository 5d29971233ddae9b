-- ===== src/Skills/Outcomes.antt =====
-- What the outcome of `assign` says of the two registries and of the service's events.
use mathlib.Core.Path.{subst}
use alos_backend.Prelude.{
  ℕ, String, ◌≡◌, refl, inl, inr, some, false, ◌==◌, key4_eq, Bool-cases, Option-cases, ok, arith,
  continue,
}
use alos_backend.Prelude.Dict.{get}
use alos_backend.Registry.State.{
  active, registry_state_eq, registry_state_iff, DefinitionError, Kind, Registry,
}
use alos_backend.Registry.Authority.{RegistryAuthorityView, get_authorized}
use alos_backend.Registry.Authorized.{IsAuthorized, get_authorized-IsAuthorized}
use alos_backend.Skills.State.{
  passed_on, AssignmentRequest, SkillAssignmentResponse, SkillAssignmentService,
}
use alos_backend.Skills.Texts.{refusal_text, refusal_code}
use alos_backend.Skills.Assignment.{Assign, refused, agent_key, skill_key, assign}
use alos_backend.Skills.Authorizing.{authorized-cases}
use alos_backend.Skills.Assigned.{is_unrecorded, Assigned, extend_agent-Assigned}

refusal_code-recorded : (text : String) → is_unrecorded (refusal_code text) ≡ false
unfolding is_unrecorded refusal_code
refusal_code-recorded text = ground arith

module _ (skill_kind agent_kind : Kind) (ask : AssignmentRequest) (now : ℕ)
    (s : SkillAssignmentService) where
  refused-Assigned :
      {A : Type 0} (e : DefinitionError) (rest : A → Assign SkillAssignmentResponse)
      → Assigned skill_kind agent_kind ask now s (continue rest (refused ask now e s))
  unfolding is_unrecorded
  refused-Assigned e rest = elim (Option-cases (refusal_text e)) [
    | inl other ↦ rw other (Assigned.raised (passed_on e) refl)
    | inr (text, at) ↦
        rw at (Assigned.rejected (refusal_code text) text (refusal_code-recorded text))
  ]

  asker-IsAuthorized :
      (kind : Kind) (subject version : String) (r : Registry) (view : RegistryAuthorityView)
      → get_authorized kind (some ask.principal) subject version r ≡ (ok view, r)
      → IsAuthorized kind ask.principal subject version r
  asker-IsAuthorized kind subject version r view at =
      let (asker, same, authorized) =
        get_authorized-IsAuthorized kind (some ask.principal) subject version r r view at in
      let equal : asker ≡ ask.principal = cc in
      subst (λ p. IsAuthorized kind p subject version r) equal authorized

  pub assign-Assigned :
      Assigned skill_kind agent_kind ask now s (assign skill_kind agent_kind ask now s)
  unfolding assign is_unrecorded
  assign-Assigned = elim (Option-cases (get (agent_key ask) s.agents.entries)) [
    | inl missing ↦ rw missing (Assigned.rejected _ _ refl)
    | inr (agent, found) ↦ elim (Bool-cases (agent.state == active)) [
      | inr inactive ↦ rw (found, inactive) (Assigned.rejected _ _ refl)
      | inl on ↦ elim (Option-cases (get (skill_key ask) s.registry.entries)) [
        | inl no_skill ↦ rw (found, on, no_skill) (Assigned.rejected _ _ refl)
        | inr (skill_entry, skill_found) ↦ elim (Bool-cases (skill_entry.state == active)) [
          | inr off ↦ rw (found, on, skill_found, off) (Assigned.rejected _ _ refl)
          | inl ready ↦
              elim (authorized-cases agent_kind (some ask.principal) ask.agent_id ask.agent_version
                s.agents) [
                  | inr (e, kept_out) ↦
                      rw (found, on, skill_found, ready, kept_out) (refused-Assigned e _)
                  | inl (view, let_in) ↦
                      elim (authorized-cases skill_kind (some ask.principal) ask.skill_id
                        ask.skill_version s.registry) [
                          | inr (e, kept_out) ↦
                              rw (found, on, skill_found, ready, let_in, kept_out)
                                (refused-Assigned e _)
                          | inl (skill, given) ↦
                              rw (found, on, skill_found, ready, let_in, given)
                                (extend_agent-Assigned skill_kind agent_kind ask now s agent skill
                                  (record {
                                    found = found;
                                    is_active = (registry_state_iff agent.state active).0 on;
                                    agent_authorized =
                                        asker-IsAuthorized agent_kind ask.agent_id ask.agent_version
                                          s.agents view let_in;
                                    skill_authorized =
                                        asker-IsAuthorized skill_kind ask.skill_id ask.skill_version
                                          s.registry skill given;
                                    skill_given = given;
                                  }))
                        ]
                ]
        ]
      ]
    ]
  ]
