-- ===== src/Releases/State.antt =====
-- The release states, the release record and the state of `InMemoryReleaseAuthority`.
use alos_backend.Prelude.{
  ℕ, String, ◌≡◌, ◌↔◌, Option, List, [], Bool, true, Eq, string_eq, key3_eq, Key3, decided,
  decided_iff,
}
use alos_backend.Prelude.Dict.{Dict}
use alos_backend.Audit.{AuditLog}
use alos_backend.Governance.{Materiality}

pub data ReleaseState : Type 0 where
  draft implemented automated_assurance ai_reviewed ready_for_it it_approved : ReleaseState
  ready_for_director director_approved released active revision_required : ReleaseState
  returned rejected hold blocked suspended rolled_back : ReleaseState

pub ReleaseState-discrete : Discrete ReleaseState
ReleaseState-discrete = hlevel

unfoldable pub state_beq : ReleaseState → ReleaseState → Bool
unfolding ReleaseState-discrete
state_beq = decided ReleaseState-discrete

pub state_beq_iff : (s t : ReleaseState) → (state_beq s t ≡ true) ↔ (s ≡ t)
unfolding state_beq
state_beq_iff = decided_iff ReleaseState-discrete

instance abbrev pub state_eq : Eq ReleaseState
state_eq = record { beq = state_beq; beq_iff = state_beq_iff }

-- the members' values
unfoldable pub value : ReleaseState → String
value draft = "DRAFT"
value implemented = "IMPLEMENTED"
value automated_assurance = "AUTOMATED_ASSURANCE"
value ai_reviewed = "AI_REVIEWED"
value ready_for_it = "READY_FOR_IT"
value it_approved = "IT_APPROVED"
value ready_for_director = "READY_FOR_DIRECTOR"
value director_approved = "DIRECTOR_APPROVED"
value released = "RELEASED"
value active = "ACTIVE"
value revision_required = "REVISION_REQUIRED"
value returned = "RETURNED"
value rejected = "REJECTED"
value hold = "HOLD"
value blocked = "BLOCKED"
value suspended = "SUSPENDED"
value rolled_back = "ROLLED_BACK"

pub record GovernedRelease : Type 0 where
  pub release_id : String
  pub review_id : String
  pub tenant_id : String
  pub organization_id : String
  pub workspace_id : String
  pub subject_id : String
  pub subject_version : String
  pub materiality : Materiality
  pub state : ReleaseState
  pub created_by : String
  pub correlation_id : String
  pub created_at : ℕ
  pub it_decision_id : Option String
  pub director_decision_id : Option String
  pub kill_switch_active : Bool
  pub rollback_target_release_id : Option String
  pub ever_released : Bool

-- `_subject_key`
abbrev pub subject_key : GovernedRelease → Key3
subject_key release = (release.tenant_id, release.workspace_id, release.subject_id)

-- Where the code raises: `ReleaseNotFoundError` is `not_found`, the rest `ReleaseConflictError`.
pub data ReleaseError : Type 0 where
  not_found already_exists assurance_failed : ReleaseError
  package_of_other_release package_context_differs : ReleaseError
  not_it_decision not_director_decision : ReleaseError
  decision_of_other_review decision_context_differs : ReleaseError
  director_not_needed reason_required no_kill_switch kill_switch_set : ReleaseError
  not_active wrong_target never_released : ReleaseError
  wrong_state : ReleaseState → List ReleaseState → ReleaseError

pub record Authority : Type 0 where
  pub releases : Dict String GovernedRelease
  pub active_by_subject : Dict Key3 String
  pub audit : AuditLog

-- `__init__` with an empty audit repository
abbrev pub init : Authority
init = record { releases = []; active_by_subject = []; audit = [] }
