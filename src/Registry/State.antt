-- ===== src/Registry/State.antt =====
-- The definitions of a registry, and the state of `VersionedContractRegistry` with its in-memory
-- store. A copy of an entry is the entry.
use alos_backend.Prelude.{
  ℕ, String, ◌≡◌, ◌↔◌, Option, none, some, Bool, true, ◌==◌, string_eq, Eq, decided, decided_iff,
  Key4, key4_eq, Key5, key5_eq, if◌then◌else◌,
}
use alos_backend.Prelude.Dict.{Dict}
use alos_backend.Json.{Json, null, boolean, number, string, array, object, Fields}
use alos_backend.Audit.{AuditLog}

pub data RegistryState : Type 0 where
  draft approved active suspended retired : RegistryState

RegistryState-discrete : Discrete RegistryState
RegistryState-discrete = hlevel

unfoldable pub registry_state_beq : RegistryState → RegistryState → Bool
unfolding RegistryState-discrete
registry_state_beq = decided RegistryState-discrete

pub registry_state_iff : (a b : RegistryState) → (registry_state_beq a b ≡ true) ↔ (a ≡ b)
unfolding registry_state_beq
registry_state_iff = decided_iff RegistryState-discrete

instance abbrev pub registry_state_eq : Eq RegistryState
registry_state_eq = record { beq = registry_state_beq; beq_iff = registry_state_iff }

unfoldable pub state_name : RegistryState → String
state_name draft = "DRAFT"
state_name approved = "APPROVED"
state_name active = "ACTIVE"
state_name suspended = "SUSPENDED"
state_name retired = "RETIRED"

pub data DecisionAuthority : Type 0 where
  it director : DecisionAuthority

-- `DecisionAuthority(authority)`, where the text is a member's value
unfoldable pub authority_of : String → Option DecisionAuthority
authority_of text =
    if text == "IT" then some it else if text == "DIRECTOR" then some director else none

pub record RegistryEntry : Type 0 where
  pub subject_type : String
  pub subject_id : String
  pub version : String
  pub tenant_id : String
  pub organization_id : String
  pub workspace_id : String
  pub payload : Fields
  pub digest : String
  pub state : RegistryState
  pub created_by : String
  pub correlation_id : String
  pub created_at : ℕ
  pub decision_id : Option String
  pub release_id : Option String

-- Where the registry raises; from `principal_required` on, a `RegistryAuthorizationError`.
pub data DefinitionError : Type 0 where
  contract_invalid missing_member version_exists not_human_authority : DefinitionError
  version_not_found invalid_version subject_not_found not_a_list : DefinitionError
  context_mismatch : String → DefinitionError
  wrong_transition : RegistryState → RegistryState → DefinitionError
  principal_required other_organization not_active_version no_owner no_risk : DefinitionError
  bad_references principal_inactive principal_outside no_scope_authority : DefinitionError
  lacks_permissions lacks_scopes : DefinitionError

-- What a registry is made with: its names, and of the libraries the validation against its schema,
-- the digest of a payload, `str` of a JSON value that is no text, and the test of a number literal
-- that stands for a number other than zero.
pub record Kind : Type 0 where
  pub subject_type : String
  pub id_field : String
  pub version_field : String
  pub accepts : Fields → Bool
  pub digest : Fields → String
  pub shown : Json → String
  pub nonzero : String → Bool

-- `str(value)`
unfoldable pub text_of_json : (Json → String) → Json → String
text_of_json shown (string s) = s
text_of_json shown null = shown null
text_of_json shown (boolean b) = shown (boolean b)
text_of_json shown (number n) = shown (number n)
text_of_json shown (array items) = shown (array items)
text_of_json shown (object fields) = shown (object fields)

-- `_entries`, the records of the store, and the log of the sink where there is one
pub record Registry : Type 0 where
  pub entries : Dict Key4 RegistryEntry
  pub store : Dict Key5 RegistryEntry
  pub log : Option AuditLog

abbrev pub entry_key : RegistryEntry → Key4
entry_key entry = (entry.tenant_id, entry.workspace_id, entry.subject_id, entry.version)

abbrev pub store_key : RegistryEntry → Key5
store_key entry =
    (entry.subject_type, entry.tenant_id, entry.workspace_id, entry.subject_id, entry.version)
