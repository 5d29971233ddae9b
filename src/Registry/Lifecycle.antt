-- ===== src/Registry/Lifecycle.antt =====
-- What one call does to each version of a registry, and to its log.
use alos_backend.Prelude.{
  String, ◌≡◌, Option, none, some, [], ◌∷◌, Bool, true, false, ◌&&◌, ◌||◌, ◌==◌, string_eq, Key4,
  key4_eq, key5_eq, arith,
}
use alos_backend.Json.{Json, string, get_field}
use alos_backend.Audit.{AuditEvent, AuditLog, append}
use alos_backend.Registry.State.{
  RegistryState, draft, approved, active, suspended, retired, registry_state_eq, RegistryEntry,
}
use alos_backend.Registry.Versions.{transitioned, logged_to}

-- The moves of one version.
pub data Move (entry : RegistryEntry) : RegistryEntry → Type 0 where
  approving :
      (correlation decision : String)
      → entry.state ≡ draft
      → Move entry (transitioned entry approved correlation (some decision) none)
  activating :
      (correlation release : String)
      → entry.state ≡ approved
      → Move entry (transitioned entry active correlation none (some release))
  suspending :
      (correlation : String)
      → entry.state ≡ active
      → Move entry (transitioned entry suspended correlation none none)

pub data Change (key : Key4) : Option RegistryEntry → Option RegistryEntry → Type 0 where
  unchanged : {o : Option RegistryEntry} → Change key o o
  added : (entry : RegistryEntry) → entry.state ≡ draft → Change key none (some entry)
  moved : {entry entry' : RegistryEntry} → Move entry entry' → Change key (some entry) (some entry')

-- The event says that IT or the Director approved the version of the key.
unfoldable pub is_approval : Key4 → AuditEvent → Bool
is_approval (tenant, workspace, subject, version) event =
    (event.event_type == "registry.version.approved"
      && (event.outcome == "IT" || event.outcome == "DIRECTOR"))
    && ((event.tenant_id == tenant && event.workspace_id == workspace)
        && (event.entity_id == subject && names_version (get_field "version" event.metadata)))
  where
    names_version : Option Json → Bool
    names_version (some (string given)) = given == version
    names_version _ = false

unfoldable pub approval_logged : Key4 → AuditLog → Bool
approval_logged key [] = false
approval_logged key (event ∷ rest) = is_approval key event || approval_logged key rest

-- A registry without a sink keeps no log.
abbrev pub IsLogged : Key4 → Option AuditLog → Type 0
IsLogged key none = Unit
IsLogged key (some log) = approval_logged key log ≡ true

abbrev pub is_past : RegistryState → Bool
is_past draft = false
is_past approved = true
is_past active = true
is_past suspended = true
is_past retired = true

approval_logged-append :
    (key : Key4) (log : AuditLog) (event : AuditEvent)
    → approval_logged key log ≡ true
    → approval_logged key (append event log) ≡ true
unfolding approval_logged
approval_logged-append key [] event h = cc
approval_logged-append key (e ∷ log) event h = ground (arith, approval_logged-append key log event)

pub IsLogged-kept :
    (key : Key4) (log : Option AuditLog) (event : AuditEvent)
    → IsLogged key log
    → IsLogged key (logged_to event log)
IsLogged-kept key none event h = tt
IsLogged-kept key (some log) event h = approval_logged-append key log event h

approval_logged-last :
    (key : Key4) (log : AuditLog) (event : AuditEvent)
    → is_approval key event ≡ true
    → approval_logged key (append event log) ≡ true
unfolding approval_logged
approval_logged-last key [] event h = ground arith
approval_logged-last key (e ∷ log) event h = ground (arith, approval_logged-last key log event)

pub IsLogged-last :
    (key : Key4) (log : Option AuditLog) (event : AuditEvent)
    → is_approval key event ≡ true
    → IsLogged key (logged_to event log)
IsLogged-last key none event h = tt
IsLogged-last key (some log) event h = approval_logged-last key log event h
