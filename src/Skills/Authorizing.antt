-- ===== src/Skills/Authorizing.antt =====
-- `get_authorized` writes nothing, and `register` writes at most one new draft.
use alos_backend.Prelude.{
  ℕ, String, ◌≡◌, refl, sym, ap, ◌⊎◌, ◌∙◌, inl, inr, Option, none, some, not, ◌==◌, string_eq, Key4,
  Key5, key4_eq, Bool-cases, Option-cases, Result, ok, err, continue, or_raise, arith,
}
use alos_backend.Prelude.Dict.{Dict, get, insert}
use alos_backend.Prelude.Checks.{or_raise-state}
use alos_backend.Prelude.Outcomes.{continue-state, Result-cases}
use alos_backend.Registry.Moves.{require-cases}
use alos_backend.Audit.{AuditLog}
use alos_backend.Json.{Fields, get_field}
use alos_backend.Authorization.{Principal}
use alos_backend.Registry.State.{
  draft, active, registry_state_eq, RegistryEntry, DefinitionError, Kind, Registry, entry_key,
  version_not_found, no_owner, no_risk, not_a_list, bad_references, contract_invalid,
  missing_member, version_exists,
}
use alos_backend.Registry.Versions.{Context, Method, new_entry, register_over, register}
use alos_backend.Registry.Authority.{
  RegistryAuthorityView, owner_of, risk_of, tools_of, references_of, text_or_none, elements,
  all_texts, from_entry, authorize, get_authorized,
}

authorize-state :
    (view : RegistryAuthorityView) (principal : Principal) (r : Registry)
    → (authorize view principal r).1 ≡ r
unfolding authorize
authorize-state view principal r = ground arith

from_entry-state :
    (kind : Kind) (entry : RegistryEntry) (r : Registry) → (from_entry kind entry r).1 ≡ r
unfolding from_entry
from_entry-state kind entry r = given (text_or_none (owner_of kind entry)) no_owner _ λ owner.
    given (text_or_none (risk_of kind entry)) no_risk _ λ risk.
      given (elements (tools_of kind entry)) not_a_list _ λ tools.
        given (elements (references_of kind "permission_refs" entry)) not_a_list _ λ permissions.
          given (elements (references_of kind "scope_refs" entry)) not_a_list _ λ scope.
            given (all_texts tools) bad_references _ λ tool_texts.
              given (all_texts permissions) bad_references _
                λ permission_texts. given (all_texts scope) bad_references _ λ scope_texts. refl
  where
    given :
        {A B : Type 0} (o : Option A) (e : DefinitionError) (f : A → Method B)
        → ((a : A) → (f a r).1 ≡ r)
        → (continue f (or_raise o e r)).1 ≡ r
    given o e f next = or_raise-state (λ s. s ≡ r) o e f r (λ _. refl) (λ a _. next a)

pub get_authorized-state :
    (kind : Kind) (principal : Option Principal) (subject version : String) (r : Registry)
    → (get_authorized kind principal subject version r).1 ≡ r
unfolding get_authorized
get_authorized-state kind none subject version r = refl
get_authorized-state kind (some principal) subject version r =
    or_raise-state (λ s. s ≡ r)
      (get (principal.tenant_id, principal.workspace_id, subject, version) r.entries)
      version_not_found _ r (λ _. refl)
      λ entry _. elim (Bool-cases (not (entry.organization_id == principal.organization_id))) [
        | inl other ↦ rw other refl
        | inr same ↦ elim (Bool-cases (not (entry.state == active))) [
          | inl inactive ↦ rw (same, inactive) refl
          | inr on ↦
              rw (same, on)
                (continue-state (λ s. s ≡ r) (from_entry kind entry r)
                  (λ view. authorize view principal) (from_entry-state kind entry r)
                  (λ view s at. authorize-state view principal s ∙ at))
        ]
      ]

pub authorized-cases :
    (kind : Kind) (principal : Option Principal) (subject version : String) (r : Registry)
    → ((view : RegistryAuthorityView) × (get_authorized kind principal subject version r
          ≡ (ok view, r)))
      ⊎ ((e : DefinitionError) × (get_authorized kind principal subject version r ≡ (err e, r)))
authorized-cases kind principal subject version r =
    let kept = get_authorized-state kind principal subject version r in
    elim (Result-cases (get_authorized kind principal subject version r)) [
      | inl (view, r', at) ↦ inl (view, at ∙ ap (λ x. (ok view, x)) (sym (ap (λ m. m.1) at) ∙ kept))
      | inr (e, r', at) ↦ inr (e, at ∙ ap (λ x. (err e, x)) (sym (ap (λ m. m.1) at) ∙ kept))
    ]

-- How `register` of a payload ends: it is refused, the registry has the version with its digest, or
-- the version is new, and a draft.
pub data Registers (kind : Kind) (payload : Fields) (r : Registry)
    : Result DefinitionError RegistryEntry × Registry → Type 0 where
  refused : (e : DefinitionError) → Registers kind payload r (err e, r)
  there :
      (key : Key4) (entry : RegistryEntry)
      → get key r.entries ≡ some entry
      → entry.digest ≡ kind.digest payload
      → Registers kind payload r (ok entry, r)
  written_new :
      (entry : RegistryEntry) (store : Dict Key5 RegistryEntry) (log : Option AuditLog)
      → get (entry_key entry) r.entries ≡ none
      → entry.state ≡ draft
      → entry.payload ≡ payload
      → entry.digest ≡ kind.digest payload
      → Registers kind payload r (
        ok entry,
        record { entries = insert (entry_key entry) entry r.entries; store = store; log = log },
      )

register_over-Registers :
    (kind : Kind) (payload : Fields) (entry : RegistryEntry) (now : ℕ) (r : Registry)
    (existing : Option RegistryEntry)
    → get (entry_key entry) r.entries ≡ existing
    → entry.state ≡ draft
    → entry.payload ≡ payload
    → entry.digest ≡ kind.digest payload
    → Registers kind payload r (register_over entry now existing r)
register_over-Registers kind payload entry now r none at from same digest =
    written_new entry _ _ at from same digest
register_over-Registers kind payload entry now r (some existing) at from same digest =
    elim (Bool-cases (existing.digest == entry.digest)) [
      | inr differs ↦ rw differs (refused version_exists)
      | inl equal ↦ rw equal (
          there (entry_key entry) existing at
            ((string_eq.beq_iff existing.digest entry.digest).0 equal ∙ digest))
    ]

pub register-Registers :
    (kind : Kind) (payload : Fields) (context : Context) (now : ℕ) (r : Registry)
    → Registers kind payload r (register kind payload context now r)
unfolding register new_entry
register-Registers kind payload context now r = elim (Bool-cases (kind.accepts payload)) [
  | inr invalid ↦ rw invalid (refused contract_invalid)
  | inl valid ↦
      elim (require-cases kind payload context.tenant_id context.organization_id
        context.workspace_id r) [
          | inr (e, differs) ↦ rw (valid, differs) (refused e)
          | inl matching ↦ elim (Option-cases (get_field kind.id_field payload)) [
            | inl missing ↦ rw (valid, matching, missing) (refused missing_member)
            | inr (subject, named) ↦ elim (Option-cases (get_field kind.version_field payload)) [
              | inl missing ↦ rw (valid, matching, named, missing) (refused missing_member)
              | inr (version, at) ↦
                  rw (valid, matching, named, at)
                    (register_over-Registers kind payload _ now r _ refl refl refl refl)
            ]
          ]
        ]
]
