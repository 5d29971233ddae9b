-- ===== src/Audit.antt =====
-- audit/models.py and the in-memory sink of audit/repository.py: an append-only list of events.
pub mod Isolation
mod Tests
use alos_backend.Prelude.{
  ℕ, suc, zero, ◌-◌, String, Option, none, some, List, [], ◌∷◌, ◌++◌, ◌&&◌, leb, if◌then◌else◌,
  ◌==◌, string_eq, Result, ok, err,
}
use alos_backend.Json.{Fields}
use mathlib.Core.List.{reverse}

pub data ActorKind : Type 0 where
  human system : ActorKind

pub record AuditEvent : Type 0 where
  pub event_type : String
  pub entity_type : String
  pub entity_id : String
  pub tenant_id : String
  pub organization_id : String
  pub workspace_id : String
  pub actor_id : String
  pub correlation_id : String
  pub outcome : String
  pub occurred_at : ℕ
  pub actor_kind : ActorKind
  pub reason : String
  pub metadata : Fields

abbrev pub AuditLog : Type 0
AuditLog = List AuditEvent

-- `InMemoryAuditRepository.append`
abbrev pub append : AuditEvent → AuditLog → AuditLog
append event log = log ++ event ∷ []

pub data AuditError : Type 0 where
  limit_out_of_range : AuditError

-- the events of a tenant
unfoldable pub of_tenant : String → AuditLog → AuditLog
of_tenant tenant [] = []
of_tenant tenant (event ∷ rest) =
    let kept = of_tenant tenant rest in if event.tenant_id == tenant then event ∷ kept else kept

-- the events of a workspace, or all where none is asked for
unfoldable pub of_workspace : Option String → AuditLog → AuditLog
of_workspace none log = log
of_workspace (some workspace) [] = []
of_workspace (some workspace) (event ∷ rest) =
    let kept = of_workspace (some workspace) rest in
    if event.workspace_id == workspace then event ∷ kept else kept

abbrev pub length : AuditLog → ℕ
length [] = 0
length (event ∷ rest) = suc (length rest)

abbrev pub drop : ℕ → AuditLog → AuditLog
drop zero log = log
drop (suc n) [] = []
drop (suc n) (event ∷ rest) = drop n rest

-- `InMemoryAuditRepository.list_events`: the newest events first, at most `limit`. The slice
-- `matching[-limit:]` keeps the last `limit` events, or all where there are fewer.
unfoldable pub list_events : String → Option String → ℕ → AuditLog → Result AuditError AuditLog
list_events tenant workspace limit log =
    if leb 1 limit && leb limit 500
    then (let matching = of_workspace workspace (of_tenant tenant log) in
        ok (reverse (drop (length matching - limit) matching)))
    else err limit_out_of_range
