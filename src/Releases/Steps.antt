-- ===== src/Releases/Steps.antt =====
-- The release lifecycle as a step relation: the diagram of one release, and the steps of the
-- authority that a successful call makes.
use alos_backend.Prelude.{
  ℕ, String, ◌≡◌, ◌≢◌, ◌⊎◌, none, some, true, false, string_eq, key3_eq, Key3, contains, is_blank,
}
use alos_backend.Prelude.Dict.{get, insert, erase}
use alos_backend.Json.{end}
use alos_backend.Audit.{human, system, append}
use alos_backend.Governance.{
  requires_director, AuthoritativeDecision, ReviewPackageReference, AuthorityLevel,
}
use alos_backend.Governance.Assurance.{AutomatedAssuranceReport, report_passed}
use alos_backend.Releases.State.{
  ReleaseState, draft, implemented, automated_assurance, ai_reviewed, ready_for_it, it_approved,
  ready_for_director, director_approved, released, active, revision_required, suspended,
  rolled_back, state_eq, GovernedRelease, subject_key, Authority,
}
use alos_backend.Releases.Authority.{
  Creation, new_release, release_event, default_reason, Options, defaults, updated,
  transition_event, package_differs,
}
use alos_backend.Releases.Gates.{
  decision_differs, decision_target, releasable_from, superseded_reason, reactivated,
}

-- the options of each transition
abbrev pub by_system : Options
by_system = record defaults { actor_kind = system }

abbrev pub by_it : String → Options
by_it decision_id = record defaults { it_decision_id = some decision_id }

abbrev pub by_director : String → Options
by_director decision_id = record defaults { director_decision_id = some decision_id }

abbrev pub activation : Options
activation = record defaults { ever_released = some true }

-- The edges that a release takes before it is active, with what each of them requires.
pub data Edge (r : GovernedRelease) (target : ReleaseState) (options : Options) : Type 0 where
  implement :
      (r.state ≡ draft) ⊎ (r.state ≡ revision_required)
      → target ≡ implemented
      → options ≡ defaults
      → Edge r target options
  assure :
      (report : AutomatedAssuranceReport)
      → report_passed report ≡ true
      → r.state ≡ implemented
      → target ≡ automated_assurance
      → options ≡ defaults
      → Edge r target options
  ai_review :
      (review : ReviewPackageReference)
      → review.review_id ≡ r.review_id
      → package_differs review r ≡ false
      → r.state ≡ automated_assurance
      → target ≡ ai_reviewed
      → options ≡ by_system
      → Edge r target options
  submit_it :
      r.state ≡ ai_reviewed → target ≡ ready_for_it → options ≡ defaults → Edge r target options
  it_decide :
      (decision : AuthoritativeDecision)
      → decision.authority ≡ AuthorityLevel.it
      → decision.review_id ≡ r.review_id
      → decision_differs decision r ≡ false
      → r.state ≡ ready_for_it
      → target ≡ decision_target decision.outcome it_approved
      → options ≡ by_it decision.decision_id
      → Edge r target options
  submit_director :
      requires_director r.materiality ≡ true
      → r.state ≡ it_approved
      → target ≡ ready_for_director
      → options ≡ defaults
      → Edge r target options
  director_decide :
      (decision : AuthoritativeDecision)
      → decision.authority ≡ AuthorityLevel.director
      → decision.review_id ≡ r.review_id
      → decision_differs decision r ≡ false
      → r.state ≡ ready_for_director
      → target ≡ decision_target decision.outcome director_approved
      → options ≡ by_director decision.decision_id
      → Edge r target options
  publish :
      contains r.state (releasable_from r.materiality) ≡ true
      → target ≡ released
      → options ≡ activation
      → Edge r target options

-- what `_transition` leaves behind
unfoldable pub written :
    Authority → String → GovernedRelease → ReleaseState → String → String → Options → ℕ → Authority
written s id current target actor correlation options now =
    let after = updated current target correlation options in
    record s {
      releases = insert id after s.releases;
      audit = append (transition_event current after actor options now) s.audit;
    }

unfoldable pub indexed : Key3 → String → Authority → Authority
indexed key id s = record s { active_by_subject = insert key id s.active_by_subject }

unfoldable pub unindexed : Key3 → Authority → Authority
unindexed key s = record s { active_by_subject = erase key s.active_by_subject }

abbrev pub supersession : Options
supersession = record defaults { reason = superseded_reason }

abbrev pub killing : String → Options
killing reason = record defaults {
  kill_switch_active = some true;
  event_type = "release.kill_switch_activated";
  reason = reason;
}

abbrev pub clearing : String → Options
clearing reason = record defaults {
  kill_switch_active = some false;
  event_type = "release.kill_switch_cleared";
  reason = reason;
}

abbrev pub rolling : String → String → Options
rolling target_id reason = record defaults {
  rollback_target_release_id = some target_id;
  event_type = "release.rolled_back";
  reason = reason;
}

-- the second half of a rollback
unfoldable pub restored :
    Authority → String → GovernedRelease → String → String → String → ℕ → Authority
restored s id target actor reason correlation now =
    let again = reactivated target correlation in
    indexed (subject_key target) id (record s {
      releases = insert id again s.releases;
      audit =
          append
            (release_event again actor "release.rollback_target_activated" "ACTIVE" human reason end
              now)
            s.audit;
    })

unfoldable pub added : Authority → Creation → ℕ → Authority
added s command now = record s {
  releases = insert command.release_id (new_release command now) s.releases;
  audit =
      append
        (release_event (new_release command now) command.actor_id "release.created" "DRAFT" human
          default_reason end now)
        s.audit;
}

-- The steps of the authority. The releases that a step names are found in `s`.
pub data Step (s s' : Authority) : Type 0 where
  created :
      (command : Creation) (now : ℕ)
      → get command.release_id s.releases ≡ none
      → s' ≡ added s command now
      → Step s s'
  moved :
      (id : String) (r : GovernedRelease) (target : ReleaseState) (actor correlation : String)
      (options : Options) (now : ℕ)
      → get id s.releases ≡ some r
      → Edge r target options
      → s' ≡ written s id r target actor correlation options now
      → Step s s'
  activated_alone :
      (id : String) (r : GovernedRelease) (actor correlation : String) (now : ℕ)
      → get id s.releases ≡ some r
      → r.state ≡ released
      → get (subject_key r) s.active_by_subject ≡ none
      → s' ≡ indexed (subject_key r) id (written s id r active actor correlation activation now)
      → Step s s'
  activated_over :
      (id : String) (r : GovernedRelease) (other_id : String) (other : GovernedRelease)
      (actor correlation : String) (now : ℕ)
      → get id s.releases ≡ some r
      → r.state ≡ released
      → get (subject_key r) s.active_by_subject ≡ some other_id
      → get other_id s.releases ≡ some other
      → other.state ≡ active
      → s'
        ≡ indexed (subject_key r) id (
            written
              (written s id r active actor correlation activation now)
              other_id
              other
              suspended
              actor
              correlation
              supersession
              now)
      → Step s s'
  killed :
      (id : String) (r : GovernedRelease) (actor reason correlation : String) (now : ℕ)
      → is_blank reason ≡ false
      → get id s.releases ≡ some r
      → r.state ≡ active
      → s'
        ≡ unindexed
            (subject_key r)
            (written s id r suspended actor correlation (killing reason) now)
      → Step s s'
  cleared :
      (id : String) (r : GovernedRelease) (actor reason correlation : String) (now : ℕ)
      → is_blank reason ≡ false
      → get id s.releases ≡ some r
      → r.kill_switch_active ≡ true
      → r.state ≡ suspended
      → s'
        ≡ indexed (subject_key r) id (written s id r active actor correlation (clearing reason) now)
      → Step s s'
  rolled :
      (id target_id : String) (r target : GovernedRelease) (actor reason correlation : String)
      (now : ℕ)
      → is_blank reason ≡ false
      → get id s.releases ≡ some r
      → get target_id s.releases ≡ some target
      → r.state ≡ active
      → target_id ≢ id
      → subject_key r ≡ subject_key target
      → target.ever_released ≡ true
      → s'
        ≡ restored
            (written s id r rolled_back actor correlation (rolling target_id reason) now)
            target_id
            target
            actor
            reason
            correlation
            now
      → Step s s'
