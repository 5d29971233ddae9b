-- ===== src/Skills/Texts.antt =====
-- The texts of the registry's refusals, and the code that `assign` reads off them.
use alos_backend.Prelude.{
  ℕ, ◌+◌, String, Option, none, some, List, [], ◌∷◌, Bool, true, false, ◌&&◌, ◌||◌, leb, codes,
  if◌then◌else◌,
}
use alos_backend.Registry.State.{
  DefinitionError, contract_invalid, missing_member, version_exists, not_human_authority,
  version_not_found, invalid_version, subject_not_found, not_a_list, context_mismatch,
  wrong_transition, principal_required, other_organization, not_active_version, no_owner, no_risk,
  bad_references, principal_inactive, principal_outside, no_scope_authority, lacks_permissions,
  lacks_scopes,
}
use alos_backend.Skills.State.{
  SkillAssignmentError, skill_permission_mismatch, skill_scope_mismatch, assignment_not_authorized,
}

-- `str(exc)` of a `RegistryAuthorizationError`; none for other exceptions
unfoldable pub refusal_text : DefinitionError → Option String
refusal_text principal_required = some "principal is required"
refusal_text other_organization = some "registry organization is outside principal scope"
refusal_text not_active_version = some "registry lifecycle is not ACTIVE"
refusal_text no_owner = some "registry definition has no authoritative owner"
refusal_text no_risk = some "registry definition has no authoritative risk"
refusal_text bad_references = some "registry definition contains invalid authority references"
refusal_text principal_inactive = some "principal is inactive"
refusal_text principal_outside = some "principal is outside registry scope"
refusal_text no_scope_authority = some "registry definition has no scope authority"
refusal_text lacks_permissions = some "principal lacks registry permissions"
refusal_text lacks_scopes = some "principal lacks registry scope"
refusal_text contract_invalid = none
refusal_text missing_member = none
refusal_text version_exists = none
refusal_text not_human_authority = none
refusal_text version_not_found = none
refusal_text invalid_version = none
refusal_text subject_not_found = none
refusal_text not_a_list = none
refusal_text (context_mismatch name) = none
refusal_text (wrong_transition from to) = none

-- The exceptions that are a `RegistryConflictError` where `register` raises them.
unfoldable pub is_conflict : DefinitionError → Bool
is_conflict version_exists = true
is_conflict (context_mismatch name) = true
is_conflict _ = false

-- `text.lower()`, of texts in ASCII
abbrev pub lowered : List ℕ → List ℕ
lowered [] = []
lowered (c ∷ cs) = (if leb b'A' c && leb c b'Z' then c + 32 else c) ∷ lowered cs

abbrev pub starts_with : List ℕ → List ℕ → Bool
starts_with [] cs = true
starts_with (w ∷ ws) [] = false
starts_with (w ∷ ws) (c ∷ cs) = (leb w c && leb c w) && starts_with ws cs

-- `word in text`
unfoldable pub occurs_in : List ℕ → List ℕ → Bool
occurs_in word [] = starts_with word []
occurs_in word (c ∷ cs) = starts_with word (c ∷ cs) || occurs_in word cs

unfoldable pub refusal_code : String → SkillAssignmentError
unfolding occurs_in
refusal_code text =
    let message = lowered (codes text) in
    if occurs_in (codes "permission") message
    then skill_permission_mismatch
    else if occurs_in (codes "scope") message
    then skill_scope_mismatch
    else assignment_not_authorized
