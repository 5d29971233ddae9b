-- ===== src/Registry/Versions.antt =====
-- The methods of `VersionedContractRegistry` that change its state, and `get`.
use alos_backend.Prelude.{
  ℕ, String, Option, none, some, List, [], ◌∷◌, Bool, false, not, ◌==◌, string_eq, Key4, key4_eq,
  key5_eq, or_else, if◌then◌else◌, Exec, pure, raise, gets, or_raise, raise_if, modify, ◌>>=◌, ◌>>◌,
}
use alos_backend.Prelude.Dict.{Dict, get, insert, values}
use alos_backend.Json.{Json, null, Fields, get_field, two_texts}
use alos_backend.Audit.{human, AuditEvent, AuditLog, append}
use alos_backend.Registry.State.{
  RegistryState, draft, approved, active, suspended, registry_state_eq, DecisionAuthority, it,
  director, authority_of, RegistryEntry, DefinitionError, contract_invalid, missing_member,
  version_exists, not_human_authority, version_not_found, context_mismatch, wrong_transition, Kind,
  text_of_json, Registry, entry_key, store_key,
}

abbrev pub Method : Type 0 → Type 0
Method A = Exec Registry DefinitionError A

unfoldable pub version_event : RegistryEntry → String → String → String → ℕ → AuditEvent
version_event entry actor event_type outcome now = record {
  event_type = event_type;
  entity_type = entry.subject_type;
  entity_id = entry.subject_id;
  tenant_id = entry.tenant_id;
  organization_id = entry.organization_id;
  workspace_id = entry.workspace_id;
  actor_id = actor;
  correlation_id = entry.correlation_id;
  outcome = outcome;
  occurred_at = now;
  actor_kind = human;
  reason = "Authority state changed";
  metadata = two_texts "version" entry.version "digest" entry.digest;
}

abbrev pub logged_to : AuditEvent → Option AuditLog → Option AuditLog
logged_to event none = none
logged_to event (some log) = some (append event log)

-- `_record`; a `NullAuditSink` keeps nothing
abbrev pub record_version : RegistryEntry → String → String → String → ℕ → Method (Unit {0})
record_version entry actor event_type outcome now =
    modify
      (λ r. record r { log = logged_to (version_event entry actor event_type outcome now) r.log })

-- `InMemoryRegistryStore.save`, and the write to `_entries` after it
abbrev pub save : RegistryEntry → Method (Unit {0})
save entry = modify (λ r. record r { store = insert (store_key entry) entry r.store })

abbrev pub put_entry : Key4 → RegistryEntry → Method (Unit {0})
put_entry key entry = modify (λ r. record r { entries = insert key entry r.entries })

-- `supplied is not None and str(supplied) != value`
unfoldable pub supplied_differs : (Json → String) → Option Json → String → Bool
unfolding text_of_json
supplied_differs shown none value = false
supplied_differs shown (some null) value = false
supplied_differs shown (some supplied) value = not (text_of_json shown supplied == value)

-- `_require_matching_context`
unfoldable pub require_matching_context :
    Kind → Fields → String → String → String → Method (Unit {0})
require_matching_context kind payload tenant_id organization_id workspace_id = do
  raise_if (supplied_differs kind.shown (get_field "tenant_id" payload) tenant_id)
      (context_mismatch "tenant_id")
  raise_if (supplied_differs kind.shown (get_field "organization_id" payload) organization_id)
      (context_mismatch "organization_id")
  raise_if (supplied_differs kind.shown (get_field "workspace_id" payload) workspace_id)
      (context_mismatch "workspace_id")

-- who registers, where
pub record Context : Type 0 where
  pub tenant_id : String
  pub organization_id : String
  pub workspace_id : String
  pub actor_id : String
  pub correlation_id : String

unfoldable pub new_entry : Kind → Fields → Context → String → String → ℕ → RegistryEntry
new_entry kind payload context subject_id version now = record {
  subject_type = kind.subject_type;
  subject_id = subject_id;
  version = version;
  tenant_id = context.tenant_id;
  organization_id = context.organization_id;
  workspace_id = context.workspace_id;
  payload = payload;
  digest = kind.digest payload;
  state = draft;
  created_by = context.actor_id;
  correlation_id = context.correlation_id;
  created_at = now;
  decision_id = none;
  release_id = none;
}

-- what `register` does with the entry that the key has, if any
abbrev pub register_over : RegistryEntry → ℕ → Option RegistryEntry → Method RegistryEntry
register_over entry now none = do
  save entry
  put_entry (entry_key entry) entry
  record_version entry entry.created_by "registry.version.created" "DRAFT" now
  pure entry
register_over entry now (some existing) =
    if existing.digest == entry.digest then pure existing else raise version_exists

unfoldable pub register : Kind → Fields → Context → ℕ → Method RegistryEntry
unfolding new_entry
register kind payload context now = do
  raise_if (not (kind.accepts payload)) contract_invalid
  require_matching_context kind payload context.tenant_id context.organization_id
      context.workspace_id
  subject ← or_raise (get_field kind.id_field payload) missing_member
  version ← or_raise (get_field kind.version_field payload) missing_member
  let entry =
      new_entry kind payload context (text_of_json kind.shown subject)
        (text_of_json kind.shown version) now
  existing ← gets (λ r. get (entry_key entry) r.entries)
  register_over entry now existing

unfoldable pub transitioned :
    RegistryEntry → RegistryState → String → Option String → Option String → RegistryEntry
transitioned current target correlation decision_id release_id = record current {
  state = target;
  correlation_id = correlation;
  decision_id = or_else decision_id current.decision_id;
  release_id = or_else release_id current.release_id;
}

-- `_transition`; each caller expects one state
unfoldable pub move_version :
    Key4
    → RegistryState
    → RegistryState
    → String
    → Option String
    → Option String
    → Method RegistryEntry
move_version key expected target correlation decision_id release_id = do
  found ← gets (λ r. get key r.entries)
  current ← or_raise found version_not_found
  raise_if (not (current.state == expected)) (wrong_transition current.state target)
  let updated = transitioned current target correlation decision_id release_id
  save updated
  put_entry key updated
  pure updated

abbrev pub authority_name : DecisionAuthority → String
authority_name it = "IT"
authority_name director = "DIRECTOR"

unfoldable pub approve : Key4 → String → String → String → String → ℕ → Method RegistryEntry
approve key actor decision_id authority correlation now = do
  resolved ← or_raise (authority_of authority) not_human_authority
  entry ← move_version key draft approved correlation (some decision_id) none
  record_version entry actor "registry.version.approved" (authority_name resolved) now
  pure entry

unfoldable pub activate : Key4 → String → String → String → ℕ → Method RegistryEntry
activate key actor release_id correlation now = do
  entry ← move_version key approved active correlation none (some release_id)
  record_version entry actor "registry.version.activated" "ACTIVE" now
  pure entry

unfoldable pub suspend : Key4 → String → String → ℕ → Method RegistryEntry
suspend key actor correlation now = do
  entry ← move_version key active suspended correlation none none
  record_version entry actor "registry.version.suspended" "SUSPENDED" now
  pure entry

-- `get`
abbrev pub find_version : Key4 → Method RegistryEntry
find_version key = do found ← gets (λ r. get key r.entries); or_raise found version_not_found

-- `load_subject_type`
unfoldable pub of_subject_type : String → List RegistryEntry → List RegistryEntry
of_subject_type subject_type [] = []
of_subject_type subject_type (entry ∷ rest) =
    let kept = of_subject_type subject_type rest in
    if entry.subject_type == subject_type then entry ∷ kept else kept

-- the dictionary that `hydrate` makes: a later entry of a key takes the place of an earlier
unfoldable pub by_entry_key : List RegistryEntry → Dict Key4 RegistryEntry → Dict Key4 RegistryEntry
by_entry_key [] made = made
by_entry_key (entry ∷ rest) made = by_entry_key rest (insert (entry_key entry) entry made)

unfoldable pub hydrate : Kind → Method (Unit {0})
unfolding of_subject_type by_entry_key
hydrate kind = modify (λ r. record r {
  entries = by_entry_key (of_subject_type kind.subject_type (values r.store)) [];
})
