-- ===== src/Releases/Gates.antt =====
-- The human gates, the release, and the operations on an active release: the rest of the methods
-- of `InMemoryReleaseAuthority`.
use alos_backend.Prelude.{
  ℕ, String, Option, none, some, List, [], ◌∷◌, Bool, true, false, not, ◌&&◌, ◌||◌, ◌==◌, string_eq,
  key3_eq, if◌then◌else◌, is_blank, pure, gets, raise_if, modify, ◌>>=◌, ◌>>◌,
}
use alos_backend.Prelude.Dict.{get, erase}
use alos_backend.Json.{end}
use alos_backend.Audit.{human}
use alos_backend.Governance.{
  requires_director, DecisionOutcome, AuthorityLevel, AuthoritativeDecision, Materiality,
}
use alos_backend.Releases.State.{
  ReleaseState, ready_for_it, it_approved, ready_for_director, director_approved, released, active,
  returned, rejected, hold, suspended, rolled_back, state_eq, GovernedRelease, subject_key,
  not_it_decision, not_director_decision, decision_of_other_review, decision_context_differs,
  director_not_needed, reason_required, no_kill_switch, kill_switch_set, not_active, wrong_target,
  never_released,
}
use alos_backend.Releases.Authority.{
  Method, release_event, record_event, put, index, find, transition, defaults,
}

-- `supplied is not None and supplied != expected`
abbrev differs : Option String → String → Bool
differs none expected = false
differs (some supplied) expected = not (supplied == expected)

unfoldable pub decision_differs : AuthoritativeDecision → GovernedRelease → Bool
decision_differs decision release =
    differs decision.tenant_id release.tenant_id
    || (differs decision.workspace_id release.workspace_id
        || (differs decision.release_id release.release_id
            || differs decision.subject_id release.subject_id))

-- `_require_decision_context`
unfoldable pub require_decision_context : String → AuthoritativeDecision → Method Unit
require_decision_context release_id decision = do
  release ← find release_id
  raise_if (not (decision.review_id == release.review_id)) decision_of_other_review
  raise_if (decision_differs decision release) decision_context_differs

-- `_decision_target`
unfoldable pub decision_target : DecisionOutcome → ReleaseState → ReleaseState
decision_target DecisionOutcome.approved granted = granted
decision_target DecisionOutcome.returned granted = returned
decision_target DecisionOutcome.rejected granted = rejected
decision_target DecisionOutcome.hold granted = hold

-- `decision.authority is AuthorityLevel.IT`
abbrev pub is_it : AuthorityLevel → Bool
is_it AuthorityLevel.it = true
is_it AuthorityLevel.director = false

unfoldable pub record_it_decision :
    String → AuthoritativeDecision → String → ℕ → Method GovernedRelease
record_it_decision release_id decision correlation now = do
  raise_if (not (is_it decision.authority)) not_it_decision
  require_decision_context release_id decision
  let target = decision_target decision.outcome it_approved
  transition release_id (ready_for_it ∷ []) target decision.actor_id correlation
      (record defaults { it_decision_id = some decision.decision_id }) now

unfoldable pub submit_for_director : String → String → String → ℕ → Method GovernedRelease
submit_for_director release_id actor correlation now = do
  current ← find release_id
  raise_if (not (requires_director current.materiality)) director_not_needed
  transition release_id (it_approved ∷ []) ready_for_director actor correlation defaults now

unfoldable pub record_director_decision :
    String → AuthoritativeDecision → String → ℕ → Method GovernedRelease
record_director_decision release_id decision correlation now = do
  raise_if (is_it decision.authority) not_director_decision
  require_decision_context release_id decision
  let target = decision_target decision.outcome director_approved
  transition release_id (ready_for_director ∷ []) target decision.actor_id correlation
      (record defaults { director_decision_id = some decision.decision_id }) now

unfoldable pub releasable_from : Materiality → List ReleaseState
releasable_from materiality =
    if requires_director materiality then director_approved ∷ [] else it_approved ∷ []

unfoldable pub release : String → String → String → ℕ → Method GovernedRelease
release release_id actor correlation now = do
  current ← find release_id
  transition release_id (releasable_from current.materiality) released actor correlation
      (record defaults { ever_released = some true }) now

abbrev pub superseded_reason : String
superseded_reason = "Superseded by a newly activated release"

-- the middle of `activate`: the release that was active until now is suspended
unfoldable pub supersede : Option String → String → String → String → ℕ → Method Unit
supersede none release_id actor correlation now = pure tt
supersede (some other_id) release_id actor correlation now =
    if other_id == release_id then pure tt else (do
      transition other_id (active ∷ []) suspended actor correlation
          (record defaults { reason = superseded_reason }) now
      pure tt)

unfoldable pub activate : String → String → String → ℕ → Method GovernedRelease
unfolding supersede
activate release_id actor correlation now = do
  activated ←
      transition release_id (released ∷ []) active actor correlation
        (record defaults { ever_released = some true }) now
  other_id ← gets (λ s. get (subject_key activated) s.active_by_subject)
  supersede other_id release_id actor correlation now
  index (subject_key activated) release_id
  pure activated

unfoldable pub activate_kill_switch : String → String → String → String → ℕ → Method GovernedRelease
activate_kill_switch release_id actor reason correlation now = do
  raise_if (is_blank reason) reason_required
  stopped ←
      transition release_id (active ∷ []) suspended actor correlation
        (record defaults {
          kill_switch_active = some true;
          event_type = "release.kill_switch_activated";
          reason = reason;
        })
        now
  modify (λ s. record s { active_by_subject = erase (subject_key stopped) s.active_by_subject })
  pure stopped

unfoldable pub clear_kill_switch : String → String → String → String → ℕ → Method GovernedRelease
clear_kill_switch release_id actor reason correlation now = do
  current ← find release_id
  raise_if (not current.kill_switch_active) no_kill_switch
  raise_if (is_blank reason) reason_required
  cleared ←
      transition release_id (suspended ∷ []) active actor correlation
        (record defaults {
          kill_switch_active = some false;
          event_type = "release.kill_switch_cleared";
          reason = reason;
        })
        now
  index (subject_key cleared) release_id
  pure cleared

-- the release that a rollback makes active again
unfoldable pub reactivated : GovernedRelease → String → GovernedRelease
reactivated target correlation = record target {
  state = active;
  kill_switch_active = false;
  correlation_id = correlation;
}

-- the guards at the head of `rollback`
unfoldable pub rollback_guards :
    GovernedRelease → GovernedRelease → String → String → String → Method Unit
rollback_guards current target release_id target_id reason = do
  raise_if (is_blank reason) reason_required
  raise_if current.kill_switch_active kill_switch_set
  raise_if (not (current.state == active)) not_active
  raise_if (target_id == release_id || not (subject_key current == subject_key target)) wrong_target
  raise_if (not target.ever_released) never_released

unfoldable pub rollback : String → String → String → String → String → ℕ → Method GovernedRelease
unfolding rollback_guards reactivated release_event
rollback release_id target_id actor reason correlation now = do
  current ← find release_id
  target ← find target_id
  rollback_guards current target release_id target_id reason
  rolled ←
      transition release_id (active ∷ []) rolled_back actor correlation
        (record defaults {
          rollback_target_release_id = some target_id;
          event_type = "release.rolled_back";
          reason = reason;
        })
        now
  let restored = reactivated target correlation
  put target_id restored
  index (subject_key target) target_id
  record_event (
      release_event restored actor "release.rollback_target_activated" "ACTIVE" human reason end
        now)
  pure rolled

-- `execution_allowed`
unfoldable pub execution_allowed : String → Method Bool
execution_allowed release_id = do
  found ← find release_id
  pure (found.state == active && not found.kill_switch_active)
