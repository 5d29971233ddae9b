-- ===== src/Skills/Drafts.antt =====
-- What `assign` does to the registry of the agents, and which assignments it answers.
use mathlib.Core.Path.{subst}
use alos_backend.Prelude.{
  ℕ, String, ◌≡◌, refl, sym, ◌∙◌, ◌⊎◌, inl, inr, none, some, List, true, false, ◌==◌, string_eq,
  Key4, key4_eq, key4_iff, Bool-cases, Result, ok, err,
}
use alos_backend.Prelude.Dict.{Dict, get, insert, get-insert_same, get-insert_other}
use alos_backend.Json.{Json, Fields}
use alos_backend.Registry.State.{draft, RegistryEntry, DefinitionError, Kind, Registry, entry_key}
use alos_backend.Registry.Authority.{RegistryAuthorityView}
use alos_backend.Skills.State.{
  SkillAssignmentError, AssignmentRequest, SkillAssignmentResponse, SkillAssignmentService,
}
use alos_backend.Skills.Payloads.{draft_payload, draft_version}
use alos_backend.Skills.Assignment.{with_event, assign}
use alos_backend.Skills.Authorizing.{Registers}
use alos_backend.Skills.Assigned.{is_unrecorded, IsEligible, Assigned}
use alos_backend.Skills.Outcomes.{assign-Assigned}

-- An answered assignment: the agent and the skill may be joined, and the registry has the version of
-- the answer, with the digest of the agent's payload in which the version is replaced and the
-- reference is added.
pub record IsDrafted (skill_kind agent_kind : Kind) (ask : AssignmentRequest) (now : ℕ)
    (s s' : SkillAssignmentService) (response : SkillAssignmentResponse) : Type 0 where
  pub agent : RegistryEntry
  pub skill : RegistryAuthorityView
  pub refs : List Json
  pub eligible : IsEligible skill_kind agent_kind ask now s agent skill refs
  pub version : String
  pub proposed : draft_version ask ≡ some version
  pub key : Key4
  pub answered : RegistryEntry
  pub found : get key s'.agents.entries ≡ some answered
  pub same_version : answered.version ≡ response.draft_agent_version
  pub same_digest :
      answered.digest ≡ agent_kind.digest (draft_payload ask version refs agent.payload)

-- The versions of an agent registry that a call may leave.
pub record Extends (before after : Dict Key4 RegistryEntry) : Type 0 where
  pub kept :
      (key : Key4) (entry : RegistryEntry)
      → get key before ≡ some entry
      → get key after ≡ some entry
  pub only_drafts :
      (key : Key4) (entry : RegistryEntry)
      → get key after ≡ some entry
      → (get key before ≡ some entry) ⊎ (entry.state ≡ draft)

Extends-refl : (d : Dict Key4 RegistryEntry) → Extends d d
Extends-refl d = record { kept = λ key entry at. at; only_drafts = λ key entry at. inl at }

Extends-insert :
    (key : Key4) (entry : RegistryEntry) (d : Dict Key4 RegistryEntry)
    → get key d ≡ none
    → entry.state ≡ draft
    → Extends d (insert key entry d)
Extends-insert key entry d new from = record {
  kept = λ k e at. elim (Bool-cases (k == key)) [
    | inl same ↦ (let equal = (key4_iff k key).0 same in let here = rw equal at at in cc)
    | inr other ↦ get-insert_other k key entry d other ∙ at
  ];
  only_drafts = λ k e at. elim (Bool-cases (k == key)) [
    | inl same ↦
        (let equal = (key4_iff k key).0 same in
          let here : some entry ≡ some e = sym (get-insert_same key entry d) ∙ rw equal at at in
          let this : entry ≡ e = cc in inr (rw this at from))
    | inr other ↦ inl (sym (get-insert_other k key entry d other) ∙ at)
  ];
}

registered-Extends :
    {kind : Kind} {payload : Fields} {r : Registry}
    {x : Result DefinitionError RegistryEntry × Registry}
    → Registers kind payload r x
    → Extends r.entries x.1.entries
registered-Extends {r = r} (Registers.refused e) = Extends-refl r.entries
registered-Extends {r = r} (Registers.there key entry found same) = Extends-refl r.entries
registered-Extends {r = r} (Registers.written_new entry store log new from same digest) =
    Extends-insert (entry_key entry) entry r.entries new from

-- A version that `register` answers stands in the registry that it leaves.
abbrev Stands : Kind → Fields → Result DefinitionError RegistryEntry × Registry → Type 0
Stands kind payload (ok entry, r) =
    (key : Key4) × (get key r.entries ≡ some entry) × (entry.digest ≡ kind.digest payload)
Stands kind payload (err e, r) = Unit

registered-Stands :
    {kind : Kind} {payload : Fields} {r : Registry}
    {x : Result DefinitionError RegistryEntry × Registry}
    → Registers kind payload r x
    → Stands kind payload x
registered-Stands (Registers.refused e) = tt
registered-Stands (Registers.there key entry found same) = (key, found, same)
registered-Stands {r = r} (Registers.written_new entry store log new from same digest) =
    (entry_key entry, get-insert_same (entry_key entry) entry r.entries, digest)

module _ (skill_kind agent_kind : Kind) (ask : AssignmentRequest) (now : ℕ)
    (s : SkillAssignmentService) where
  assigned-Extends :
      {x : Result SkillAssignmentError SkillAssignmentResponse × SkillAssignmentService}
      → Assigned skill_kind agent_kind ask now s x
      → (x.1.registry ≡ s.registry) × Extends s.agents.entries x.1.agents.entries
  assigned-Extends (Assigned.rejected code reason recorded) = (refl, Extends-refl s.agents.entries)
  assigned-Extends (Assigned.raised code unrecorded) = (refl, Extends-refl s.agents.entries)
  assigned-Extends (Assigned.drafted agent skill refs version entry agents eligible at registers) =
      (refl, registered-Extends registers)

  -- What is left to show of each outcome.
  abbrev Shows :
      Result SkillAssignmentError SkillAssignmentResponse × SkillAssignmentService → Type 0
  Shows (ok response, s') = IsDrafted skill_kind agent_kind ask now s s' response
  Shows (err code, s') =
      (is_unrecorded code ≡ true → s' ≡ s)
      × (is_unrecorded code ≡ false
          → (reason : String) × (s' ≡ with_event ask "REJECTED" reason now s))

  assigned-Shows :
      {x : Result SkillAssignmentError SkillAssignmentResponse × SkillAssignmentService}
      → Assigned skill_kind agent_kind ask now s x
      → Shows x
  assigned-Shows (Assigned.rejected code reason recorded) =
      (λ unrecorded. (let wrong = sym recorded ∙ unrecorded in cc), λ _. (reason, refl))
  assigned-Shows (Assigned.raised code unrecorded) =
      (λ _. refl, λ recorded. (let wrong = sym recorded ∙ unrecorded in cc))
  assigned-Shows (Assigned.drafted agent skill refs version answered agents eligible at registers) =
      let (key, found, digest) = registered-Stands registers in
      record {
        agent = agent;
        skill = skill;
        refs = refs;
        eligible = eligible;
        version = version;
        proposed = at;
        key = key;
        answered = answered;
        found = found;
        same_version = refl;
        same_digest = digest;
      }

-- Where `assign` answers, the agent and the skill may be joined, and the registry of the agents has
-- the version of the answer, with the digest of the agent's payload in which the proposed version
-- stands and the reference to the skill is added.
pub assign-IsDrafted :
    (skill_kind agent_kind : Kind) (ask : AssignmentRequest) (now : ℕ)
    (s s' : SkillAssignmentService) (response : SkillAssignmentResponse)
    → assign skill_kind agent_kind ask now s ≡ (ok response, s')
    → IsDrafted skill_kind agent_kind ask now s s' response
assign-IsDrafted skill_kind agent_kind ask now s s' response h =
    subst (Shows skill_kind agent_kind ask now s) h (
      assigned-Shows skill_kind agent_kind ask now s
        (assign-Assigned skill_kind agent_kind ask now s))

-- However an assignment ends, the registry of the skills is as it was, each version of an agent that
-- was there is as it was, and a version that was not there is a draft.
pub assign-Extends :
    (skill_kind agent_kind : Kind) (ask : AssignmentRequest) (now : ℕ) (s : SkillAssignmentService)
    → let s' = (assign skill_kind agent_kind ask now s).1 in
      (s'.registry ≡ s.registry) × Extends s.agents.entries s'.agents.entries
assign-Extends skill_kind agent_kind ask now s =
    assigned-Extends skill_kind agent_kind ask now s
      (assign-Assigned skill_kind agent_kind ask now s)

-- Where `assign` raises, nothing is written but the event of a rejection, to the service's sink where
-- there is one; where the exception is a conflict of versions, an invalid version, a TypeError or one
-- of a registry that passes, that is not written either.
pub assign-recorded :
    (skill_kind agent_kind : Kind) (ask : AssignmentRequest) (now : ℕ)
    (s s' : SkillAssignmentService) (code : SkillAssignmentError)
    → assign skill_kind agent_kind ask now s ≡ (err code, s')
    → (is_unrecorded code ≡ true → s' ≡ s)
      × (is_unrecorded code ≡ false
          → (reason : String) × (s' ≡ with_event ask "REJECTED" reason now s))
assign-recorded skill_kind agent_kind ask now s s' code h =
    subst (Shows skill_kind agent_kind ask now s) h (
      assigned-Shows skill_kind agent_kind ask now s
        (assign-Assigned skill_kind agent_kind ask now s))
