-- ===== src/Memory/Records.antt =====
-- Memories and the state of `MemoryRepository`. A copy of a record is the record; of the free
-- metadata of a memory nothing is asked.
use alos_backend.Prelude.{ℕ, String, ◌≡◌, ◌↔◌, Option, List, Bool, true, Eq, decided, decided_iff}
use alos_backend.Prelude.Dict.{Dict}
use alos_backend.Json.{Fields}
use alos_backend.Audit.{AuditLog}

pub data MemoryStatus : Type 0 where
  active expired deleted : MemoryStatus

MemoryStatus-discrete : Discrete MemoryStatus
MemoryStatus-discrete = hlevel

unfoldable pub memory_status_beq : MemoryStatus → MemoryStatus → Bool
unfolding MemoryStatus-discrete
memory_status_beq = decided MemoryStatus-discrete

pub memory_status_iff : (a b : MemoryStatus) → (memory_status_beq a b ≡ true) ↔ (a ≡ b)
unfolding memory_status_beq
memory_status_iff = decided_iff MemoryStatus-discrete

instance abbrev pub memory_status_eq : Eq MemoryStatus
memory_status_eq = record { beq = memory_status_beq; beq_iff = memory_status_iff }

pub data Classification : Type 0 where
  public internal confidential restricted : Classification

abbrev pub classification_name : Classification → String
classification_name public = "PUBLIC"
classification_name internal = "INTERNAL"
classification_name confidential = "CONFIDENTIAL"
classification_name restricted = "RESTRICTED"

-- `_CLASSIFICATION_RANK`
abbrev pub rank : Classification → ℕ
rank public = 0
rank internal = 1
rank confidential = 2
rank restricted = 3

pub record MemoryRecord : Type 0 where
  pub memory_id : String
  pub tenant_id : String
  pub organization_id : String
  pub workspace_id : String
  pub division_id : Option String
  pub project_id : Option String
  pub actor_id : String
  pub scope_refs : List String
  pub classification : Classification
  pub content : String
  pub source_ref : Option String
  pub evidence_ref : Option String
  pub run_id : Option String
  pub correlation_id : Option String
  pub status : MemoryStatus
  pub created_at : ℕ
  pub expires_at : Option ℕ
  pub metadata : Fields

pub data Freshness : Type 0 where
  current stale unknown : Freshness

pub record MemoryEvidenceBundle : Type 0 where
  pub memory_refs : List String
  pub source_refs : List String
  pub evidence_refs : List String
  pub run_id : Option String
  pub correlation_id : Option String
  pub classification : Classification
  pub freshness : Freshness

pub data MemoryError : Type 0 where
  blank_id not_found inactive_principal outside_boundary : MemoryError

pub record Repository : Type 0 where
  pub store : Dict String MemoryRecord
  pub log : AuditLog

-- Of the libraries: `isoformat` of a time, and `casefold` of a text
pub record Formats : Type 0 where
  pub iso : ℕ → String
  pub fold : String → String
