-- ===== src/Releases/Authority.antt =====
-- The methods of `InMemoryReleaseAuthority`. A method takes the reading `now` of the clock; what it
-- wrote before it raises stays written.
use alos_backend.Prelude.{
  ℕ, String, Option, none, some, List, [], ◌∷◌, Bool, false, not, ◌||◌, ◌==◌, string_eq, key3_eq,
  Key3, contains, or_else, Exec, pure, gets, or_raise, raise_if, modify, ◌>>=◌, ◌>>◌,
}
use alos_backend.Prelude.Dict.{get, has_key, insert}
use alos_backend.Json.{Fields, end, two_texts}
use alos_backend.Audit.{ActorKind, human, system, AuditEvent, append}
use alos_backend.Governance.{Materiality, ReviewPackageReference}
use alos_backend.Governance.Assurance.{AutomatedAssuranceReport, report_passed}
use alos_backend.Releases.State.{
  ReleaseState, draft, implemented, automated_assurance, ai_reviewed, ready_for_it,
  revision_required, state_eq, value, GovernedRelease, ReleaseError, not_found, already_exists,
  assurance_failed, package_of_other_release, package_context_differs, wrong_state, Authority,
}

abbrev pub Method : Type 0 → Type 0
Method A = Exec Authority ReleaseError A

abbrev pub default_reason : String
default_reason = "Authoritative release lifecycle transition"

-- the event that `_record` appends
unfoldable pub release_event :
    GovernedRelease → String → String → String → ActorKind → String → Fields → ℕ → AuditEvent
release_event release actor event_type outcome kind reason metadata now = record {
  event_type = event_type;
  entity_type = "release";
  entity_id = release.release_id;
  tenant_id = release.tenant_id;
  organization_id = release.organization_id;
  workspace_id = release.workspace_id;
  actor_id = actor;
  correlation_id = release.correlation_id;
  outcome = outcome;
  occurred_at = now;
  actor_kind = kind;
  reason = reason;
  metadata = metadata;
}

-- `_record`
abbrev pub record_event : AuditEvent → Method Unit
record_event event = modify (λ s. record s { audit = append event s.audit })

abbrev pub put : String → GovernedRelease → Method Unit
put release_id release = modify (λ s. record s { releases = insert release_id release s.releases })

abbrev pub index : Key3 → String → Method Unit
index key release_id =
    modify (λ s. record s { active_by_subject = insert key release_id s.active_by_subject })

-- `get` and `_require`
abbrev pub find : String → Method GovernedRelease
find release_id = do or_raise (← gets (λ s. get release_id s.releases)) not_found

pub record Creation : Type 0 where
  pub release_id : String
  pub review_id : String
  pub tenant_id : String
  pub organization_id : String
  pub workspace_id : String
  pub subject_id : String
  pub subject_version : String
  pub materiality : Materiality
  pub actor_id : String
  pub correlation_id : String

unfoldable pub new_release : Creation → ℕ → GovernedRelease
new_release command now = record {
  release_id = command.release_id;
  review_id = command.review_id;
  tenant_id = command.tenant_id;
  organization_id = command.organization_id;
  workspace_id = command.workspace_id;
  subject_id = command.subject_id;
  subject_version = command.subject_version;
  materiality = command.materiality;
  state = draft;
  created_by = command.actor_id;
  correlation_id = command.correlation_id;
  created_at = now;
  it_decision_id = none;
  director_decision_id = none;
  kill_switch_active = false;
  rollback_target_release_id = none;
  ever_released = false;
}

unfoldable pub create : Creation → ℕ → Method GovernedRelease
unfolding new_release
create command now = do
  raise_if (← gets (λ s. has_key command.release_id s.releases)) already_exists
  let release = new_release command now
  put command.release_id release
  record_event (
      release_event release command.actor_id "release.created" "DRAFT" human default_reason end now)
  pure release

-- The keyword arguments of `_transition` that have a default.
pub record Options : Type 0 where
  pub actor_kind : ActorKind
  pub event_type : String
  pub reason : String
  pub it_decision_id : Option String
  pub director_decision_id : Option String
  pub kill_switch_active : Option Bool
  pub rollback_target_release_id : Option String
  pub ever_released : Option Bool

abbrev pub defaults : Options
defaults = record {
  actor_kind = human;
  event_type = "release.transitioned";
  reason = default_reason;
  it_decision_id = none;
  director_decision_id = none;
  kill_switch_active = none;
  rollback_target_release_id = none;
  ever_released = none;
}

-- `current if given is None else given`
abbrev pub keep : Bool → Option Bool → Bool
keep current none = current
keep current (some given) = given

unfoldable pub updated : GovernedRelease → ReleaseState → String → Options → GovernedRelease
updated current target correlation options = record current {
  state = target;
  correlation_id = correlation;
  it_decision_id = or_else options.it_decision_id current.it_decision_id;
  director_decision_id = or_else options.director_decision_id current.director_decision_id;
  kill_switch_active = keep current.kill_switch_active options.kill_switch_active;
  rollback_target_release_id =
      or_else options.rollback_target_release_id current.rollback_target_release_id;
  ever_released = keep current.ever_released options.ever_released;
}

unfoldable pub transition_event :
    GovernedRelease → GovernedRelease → String → Options → ℕ → AuditEvent
unfolding release_event
transition_event before after actor options now =
    release_event after actor options.event_type (value after.state) options.actor_kind
      options.reason (two_texts "from" (value before.state) "to" (value after.state)) now

-- `_transition`
unfoldable pub transition :
    String
    → List ReleaseState
    → ReleaseState
    → String
    → String
    → Options
    → ℕ
    → Method GovernedRelease
transition release_id expected target actor correlation options now = do
  current ← find release_id
  raise_if (not (contains current.state expected)) (wrong_state current.state expected)
  let after = updated current target correlation options
  put release_id after
  record_event (transition_event current after actor options now)
  pure after

unfoldable pub mark_implemented : String → String → String → ℕ → Method GovernedRelease
mark_implemented release_id actor correlation now =
    transition release_id (draft ∷ revision_required ∷ []) implemented actor correlation defaults
      now

unfoldable pub record_automated_assurance :
    String → AutomatedAssuranceReport → String → String → ℕ → Method GovernedRelease
record_automated_assurance release_id report actor correlation now = do
  raise_if (not (report_passed report)) assurance_failed
  transition release_id (implemented ∷ []) automated_assurance actor correlation defaults now

-- `review.… != current.…`, on the four fields
unfoldable pub package_differs : ReviewPackageReference → GovernedRelease → Bool
package_differs review release =
    not (review.tenant_id == release.tenant_id)
    || (not (review.workspace_id == release.workspace_id)
        || (not (review.subject_id == release.subject_id)
            || not (review.subject_version == release.subject_version)))

unfoldable pub record_ai_review_package :
    String → ReviewPackageReference → String → String → ℕ → Method GovernedRelease
record_ai_review_package release_id review actor correlation now = do
  current ← find release_id
  raise_if (not (review.review_id == current.review_id)) package_of_other_release
  raise_if (package_differs review current) package_context_differs
  transition release_id (automated_assurance ∷ []) ai_reviewed actor correlation
      (record defaults { actor_kind = system }) now

unfoldable pub submit_for_it : String → String → String → ℕ → Method GovernedRelease
submit_for_it release_id actor correlation now =
    transition release_id (ai_reviewed ∷ []) ready_for_it actor correlation defaults now
