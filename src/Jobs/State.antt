-- ===== src/Jobs/State.antt =====
-- jobs/models.py, and the state of `InMemoryJobRepository` of jobs/repository.py.
use alos_backend.Prelude.{
  ℕ, suc, String, ◌≡◌, ◌↔◌, Option, [], Bool, true, ◌&&◌, not, Eq, ◌==◌, string_eq, decided,
  decided_iff, leb, ltb, if◌then◌else◌, arith, Result, ok, err,
}
use alos_backend.Prelude.Dict.{Dict}
use alos_backend.Json.{Fields}
use text.Mathlib.TextEquality.{eq_iff}

pub data JobType : Type 0 where
  document_extraction document_indexing genesis_request scheduled_report : JobType
  recurring_monitor notification connector_sync : JobType

JobType-discrete : Discrete JobType
JobType-discrete = hlevel

unfoldable pub type_beq : JobType → JobType → Bool
unfolding JobType-discrete
type_beq = decided JobType-discrete

pub type_iff : (a b : JobType) → (type_beq a b ≡ true) ↔ (a ≡ b)
unfolding type_beq
type_iff = decided_iff JobType-discrete

instance abbrev pub type_eq : Eq JobType
type_eq = record { beq = type_beq; beq_iff = type_iff }

-- `job_type.value`
unfoldable pub type_name : JobType → String
type_name document_extraction = "DOCUMENT_EXTRACTION"
type_name document_indexing = "DOCUMENT_INDEXING"
type_name genesis_request = "GENESIS_REQUEST"
type_name scheduled_report = "SCHEDULED_REPORT"
type_name recurring_monitor = "RECURRING_MONITOR"
type_name notification = "NOTIFICATION"
type_name connector_sync = "CONNECTOR_SYNC"

pub data JobStatus : Type 0 where
  queued running succeeded failed cancelled : JobStatus

JobStatus-discrete : Discrete JobStatus
JobStatus-discrete = hlevel

unfoldable pub status_beq : JobStatus → JobStatus → Bool
unfolding JobStatus-discrete
status_beq = decided JobStatus-discrete

pub status_iff : (a b : JobStatus) → (status_beq a b ≡ true) ↔ (a ≡ b)
unfolding status_beq
status_iff = decided_iff JobStatus-discrete

instance abbrev pub status_eq : Eq JobStatus
status_eq = record { beq = status_beq; beq_iff = status_iff }

pub record EnqueueJob : Type 0 where
  pub tenant_id : String
  pub organization_id : String
  pub workspace_id : String
  pub job_type : JobType
  pub payload : Fields
  pub correlation_id : String
  pub idempotency_key : String
  pub owner_actor_id : Option String
  pub max_attempts : ℕ
  pub next_retry_at : ℕ

pub data JobError : Type 0 where
  key_too_short attempts_out_of_range job_not_found not_running : JobError

unfoldable pub char_count : String → ℕ
char_count String.[] = 0
char_count (String.◌∷◌ _ rest) = suc (char_count rest)

-- `EnqueueJob.__post_init__`
unfoldable pub checked : EnqueueJob → Result JobError EnqueueJob
unfolding char_count
checked command =
    if ltb (char_count command.idempotency_key) 8
    then err key_too_short
    else if not (leb 1 command.max_attempts && leb command.max_attempts 20)
    then err attempts_out_of_range
    else ok command

pub record Job : Type 0 where
  pub job_id : String
  pub tenant_id : String
  pub organization_id : String
  pub workspace_id : String
  pub job_type : JobType
  pub payload : Fields
  pub status : JobStatus
  pub attempts : ℕ
  pub max_attempts : ℕ
  pub next_retry_at : ℕ
  pub correlation_id : String
  pub idempotency_key : String
  pub owner_actor_id : Option String
  pub created_at : ℕ
  pub locked_by : Option String
  pub locked_at : Option ℕ
  pub completed_at : Option ℕ
  pub safe_error_code : Option String
  pub result : Option Fields

-- organization, type of job, idempotency key
abbrev pub JobKey : Type 0
JobKey = String × JobType × String

abbrev job_key_beq : JobKey → JobKey → Bool
job_key_beq (a, b, c) (x, y, z) = a == x && b == y && c == z

pub job_key_iff : (k j : JobKey) → (job_key_beq k j ≡ true) ↔ (k ≡ j)
job_key_iff (a, b, c) (x, y, z) = ground (arith, eq_iff a x, type_iff b y, eq_iff c z)

instance abbrev pub job_key_eq : Eq JobKey
job_key_eq = record { beq = job_key_beq; beq_iff = job_key_iff }

pub record Queue : Type 0 where
  pub jobs : Dict String Job
  pub idempotency : Dict JobKey String

-- `__init__`
abbrev pub empty : Queue
empty = record { jobs = []; idempotency = [] }
