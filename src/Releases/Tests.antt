-- ===== src/Releases/Tests.antt =====
-- The release authority on concrete histories.
use alos_backend.Prelude.{
  ℕ, String, string_eq, key3_eq, ◌≡◌, refl, some, none, [], ◌∷◌, ◌++◌, Bool, true, false, ok, err,
}
use alos_backend.Prelude.Dict.{get, insert, erase}
use alos_backend.Prelude.{or_else, is_given, is_truthy, is_blank, is_space, contains, is_subset}
use alos_backend.Governance.{
  material, DecisionOutcome, AuthorityLevel, AuthoritativeDecision, ReviewPackageReference,
  requires_director,
}
use alos_backend.Governance.Assurance.{
  AutomatedAssuranceReport, AssuranceCheck, positive, report_passed, category_beq,
}
use alos_backend.Releases.State.{
  ReleaseState, state_beq, value, released, active, ready_for_it, it_approved, ready_for_director,
  director_approved, subject_key, suspended, GovernedRelease, wrong_state,
}
use alos_backend.Releases.Authority.{Creation}
use alos_backend.Releases.Authority
use alos_backend.Releases.Gates
use alos_backend.Releases.Commands.{
  create, mark_implemented, submit_for_it, submit_for_director, record_automated_assurance,
  record_ai_review_package, record_it_decision, record_director_decision, release, activate,
  activate_kill_switch, execute, run,
}
use alos_backend.Releases.Histories.{
  History, after, after-IsValid, execution_allowed-gates, after-flags, execute-Grows,
  after-sole_active,
}
use alos_backend.Releases.Activation.{activate_lem, clear_kill_switch-two_active}
use alos_backend.Releases.Changes.{Grows}
use alos_backend.Releases.Trail.{logged}
use alos_backend.Releases.Outcomes.{Outcome}
use alos_backend.Releases.Refinement.{execute-Step}
use alos_backend.Releases.Steps.{Step}

abbrev creation : String → Creation
creation id = record {
  release_id = id;
  review_id = "review-1";
  tenant_id = "t1";
  organization_id = "o1";
  workspace_id = "w1";
  subject_id = "agent-1";
  subject_version = "1.0.0";
  materiality = material;
  actor_id = "alice";
  correlation_id = "c1";
}

abbrev check : AssuranceCheck
check = record {
  test_id = "t";
  category = positive;
  expected = record { status = "OK"; error_code = none; reason_contains = none };
  observed = record { status = "OK"; error_code = none; reason = none };
  passed = true;
  mismatches = [];
}

abbrev report : AutomatedAssuranceReport
report = record { checks = check ∷ []; required_categories = positive ∷ [] }

abbrev review : ReviewPackageReference
review = record {
  review_id = "review-1";
  tenant_id = "t1";
  workspace_id = "w1";
  subject_id = "agent-1";
  subject_version = "1.0.0";
  contract_version = "v1";
  evidence_uri = "e";
  recorded_at = 0;
}

abbrev decision : AuthorityLevel → AuthoritativeDecision
decision level = record {
  decision_id = "d1";
  review_id = "review-1";
  tenant_id = none;
  workspace_id = some "w1";
  release_id = none;
  correlation_id = none;
  subject_id = none;
  authority = level;
  outcome = DecisionOutcome.approved;
  actor_id = "bob";
  rationale = "fine";
  decided_at = 0;
}

-- a material release, from its creation to `released`
abbrev path : String → History
path id =
    (create (creation id), 1)
    ∷ (mark_implemented id "alice" "c1", 2)
    ∷ (record_automated_assurance id report "alice" "c1", 3)
    ∷ (record_ai_review_package id review "alice" "c1", 4)
    ∷ (submit_for_it id "alice" "c1", 5)
    ∷ (record_it_decision id (decision AuthorityLevel.it) "c1", 6)
    ∷ (submit_for_director id "alice" "c1", 7)
    ∷ (record_director_decision id (decision AuthorityLevel.director) "c1", 8)
    ∷ (release id "carol" "c1", 9)
    ∷ []

abbrev one_active : History
one_active = path "r1" ++ (activate "r1" "carol" "c1", 10) ∷ []

-- the first release is stopped, a second one is activated
abbrev stopped : History
stopped =
    one_active
    ++ (activate_kill_switch "r1" "carol" "incident" "c2", 11) ∷ path "r2"
    ++ (activate "r2" "carol" "c3", 12) ∷ []

abbrev at_state : String → ReleaseState → ℕ → String → Bool → GovernedRelease
at_state id state created correlation killed = record {
  release_id = id;
  review_id = "review-1";
  tenant_id = "t1";
  organization_id = "o1";
  workspace_id = "w1";
  subject_id = "agent-1";
  subject_version = "1.0.0";
  materiality = material;
  state = state;
  created_by = "alice";
  correlation_id = correlation;
  created_at = created;
  it_decision_id = some "d1";
  director_decision_id = some "d1";
  kill_switch_active = killed;
  rollback_target_release_id = none;
  ever_released = true;
}

-- unfolds what a run computes with
run_code : Unit {0}
unfolding run execute get insert erase or_else is_given is_truthy is_blank is_space contains
    is_subset requires_director report_passed category_beq state_beq value Authority.create
    Authority.mark_implemented Authority.record_automated_assurance
    Authority.record_ai_review_package Authority.submit_for_it Authority.transition
    Authority.updated Authority.package_differs Authority.transition_event Gates.decision_differs
    Gates.require_decision_context Gates.decision_target Gates.record_it_decision
    Gates.submit_for_director Gates.record_director_decision Gates.releasable_from Gates.release
    Gates.activate Gates.activate_kill_switch Gates.clear_kill_switch Gates.rollback
    Gates.execution_allowed
run_code = tt

run_one : get "r1" (after one_active).releases ≡ some (at_state "r1" active 1 "c1" false)
unfolding run_code
run_one = refl

allowed_one : (Gates.execution_allowed "r1" (after one_active)).0 ≡ ok true
unfolding run_code
allowed_one = refl

execution_allowed-gates_example :
    (active ≡ active)
    × (false ≡ false)
    × (logged "r1" ready_for_it it_approved (after one_active).audit ≡ true)
    × (true ≡ true
        → logged "r1" ready_for_director director_approved (after one_active).audit ≡ true)
unfolding requires_director
execution_allowed-gates_example =
    execution_allowed-gates one_active "r1" (at_state "r1" active 1 "c1" false) run_one allowed_one

after-flags_example : (false ≡ true → active ≡ suspended) × (true ≡ true)
after-flags_example = after-flags one_active "r1" (at_state "r1" active 1 "c1" false) run_one

-- an active release cannot be released again
again :
    (execute (release "r1" "carol" "c2") 11 (after one_active)).0
    ≡ err (wrong_state active (director_approved ∷ []))
unfolding run_code
again = refl

execute-Grows_example :
    Grows
      (after one_active)
      (execute (activate_kill_switch "r1" "carol" "x" "c2") 11 (after one_active)).1
execute-Grows_example = execute-Grows one_active (activate_kill_switch "r1" "carol" "x" "c2") 11

after-sole_active_example : ◌≡◌ {A = String} "r1" "r1"
after-sole_active_example =
    after-sole_active one_active "r1" "r1" (at_state "r1" active 1 "c1" false)
      (at_state "r1" active 1 "c1" false)
      (tt, (tt, (tt, (tt, (tt, (tt, (tt, (tt, (tt, (tt, tt)))))))))) run_one run_one refl refl refl

run_stopped : get "r1" (after stopped).releases ≡ some (at_state "r1" suspended 1 "c2" true)
unfolding run_code
run_stopped = refl

run_second : get "r2" (after stopped).releases ≡ some (at_state "r2" active 1 "c3" false)
unfolding run_code
run_second = refl

clear_kill_switch-two_active_example :
    let s' = (Gates.clear_kill_switch "r1" "carol" "resolved" "c4" 20 (after stopped)).1 in
    ((q : GovernedRelease) × (get "r1" s'.releases ≡ some q)
      × (q.state ≡ active)
      × (subject_key q ≡ ("t1", "w1", "agent-1")))
    × (get "r2" s'.releases ≡ some (at_state "r2" active 1 "c3" false))
    × (get ("t1", "w1", "agent-1") s'.active_by_subject ≡ some "r1")
unfolding is_blank
clear_kill_switch-two_active_example =
    clear_kill_switch-two_active stopped "r1" "r2" (at_state "r1" suspended 1 "c2" true)
      (at_state "r2" active 1 "c3" false) "carol" "resolved" "c4" 20 run_stopped refl refl refl
      run_second refl refl

abbrev waiting : History
waiting = one_active ++ path "r2"

run_waiting : get "r2" (after waiting).releases ≡ some (at_state "r2" released 1 "c1" false)
unfolding run_code
run_waiting = refl

activate_lem_example :
    let (result, s') = Gates.activate "r2" "carol" "c5" 30 (after waiting) in
    (result ≡ ok (at_state "r2" active 1 "c5" false))
    × (get "r2" s'.releases ≡ some (at_state "r2" active 1 "c5" false))
    × (get ("t1", "w1", "agent-1") s'.active_by_subject ≡ some "r2")
    × ((other_id : String)
        → get ("t1", "w1", "agent-1") (after waiting).active_by_subject ≡ some other_id
        → (q : GovernedRelease) × (get other_id s'.releases ≡ some q) × (q.state ≡ suspended))
unfolding Authority.updated or_else is_given is_truthy
activate_lem_example =
    activate_lem waiting "r2" (at_state "r2" released 1 "c1" false) "carol" "c5" 30 run_waiting refl

execute-Step_example :
    Outcome
      (after one_active)
      (λ _ s'. Step (after one_active) s')
      (execute (activate_kill_switch "r1" "carol" "x" "c2") 11 (after one_active))
execute-Step_example =
    execute-Step (after one_active) (activate_kill_switch "r1" "carol" "x" "c2") 11
      (after-IsValid one_active).indexed
