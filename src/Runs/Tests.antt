-- ===== src/Runs/Tests.antt =====
-- The theorems at one run of one agent.
use alos_backend.Prelude.{
  ℕ, String, ◌≡◌, refl, ap, none, some, List, [], ◌∷◌, false, ok, string_eq, contains, is_subset,
}
use alos_backend.Prelude.Dict.{get, insert}
use alos_backend.Prelude.Sorting.{sort_by, insert_sorted}
use alos_backend.Prelude.Sets.{distinct}
use alos_backend.Prelude.Comparing.{compare_lists}
use alos_backend.Json.{string, array, nil, cons, object, end, field, two_texts, get_field}
use alos_backend.Registry.State.{active, registry_state_beq, RegistryEntry, text_of_json}
use alos_backend.Registry.Authority.{elements}
use alos_backend.Runs.State.{
  running, completed, ExecutionContext, RunRequest, RunResult, RunRecord, Settings, Runs,
  status_name,
}
use alos_backend.Runs.Payloads.{texts_in, references_in, common, all_texts_in}
use alos_backend.Runs.Requirements.{
  require_context, require_lifecycle, lifecycle_allows, require_permissions, require_scope,
  require_tools, authorize_skills, authorize_each, authorize_skill, authorize_all, require_covered,
  raw_references, effective_of,
}
use alos_backend.Runs.Authority
use alos_backend.Runs.Authority.{authorized_tools, new_run, ended, runtime_authorization}
use alos_backend.Runs.Granted.{IsGranted, begin-IsGranted}
use alos_backend.Runs.Authorized.{IsAnswered, runtime_authorization-IsAnswered}
use alos_backend.Runs.Calls.{RunCall, begin, complete, apply, replay}
use alos_backend.Runs.Trails.{no_runs, trail, trail_of, replay-trail}

abbrev entry : String → String → RegistryEntry
entry subject_type subject = record {
  subject_type = subject_type;
  subject_id = subject;
  version = "1.0.0";
  tenant_id = "t1";
  organization_id = "o1";
  workspace_id = "w1";
  payload = field "permission_refs" (array (cons (string "job.run") nil)) (
      field "tool_ids" (array (cons (string "search") nil)) (
        field "required_tool_ids" (array (cons (string "search") nil)) (
          field "skill_refs"
            (array (cons (object (two_texts "skill_id" "s1" "skill_version" "1.0.0")) nil)) end)));
  digest = "digest";
  state = active;
  created_by = "alice";
  correlation_id = "c0";
  created_at = 1;
  decision_id = some "d1";
  release_id = some "r1";
}

abbrev agent : RegistryEntry
agent = entry "agent" "a1"

abbrev settings : Settings
settings = record {
  skills = some (record {
    entries = (("t1", "w1", "s1", "1.0.0"), entry "skill" "s1") ∷ [];
    store = [];
    log = none;
  });
  allow_test_drafts = false;
  shown = λ _. "?";
}

abbrev context : ExecutionContext
context = record {
  tenant_id = "t1";
  organization_id = "o1";
  workspace_id = "w1";
  actor_id = "alice";
  correlation_id = "c1";
  permission_refs = "job.run" ∷ [];
  scope_refs = [];
  allowed_tool_ids = "search" ∷ [];
}

abbrev request : RunRequest
request = record {
  run_id = "run1";
  root_run_id = "run1";
  agent_id = "a1";
  agent_version = "1.0.0";
  capability_id = "cap1";
  execution_context = some context;
  execution_mode = none;
  requested_tool_ids = "search" ∷ [];
  authorized_skill_refs = none;
}

abbrev the_run : RunRecord
the_run = new_run request context agent (("s1", "1.0.0") ∷ []) 5

abbrev running_state : Runs
running_state = (Authority.begin settings request agent 5 no_runs).1

begun_run : Authority.begin settings request agent 5 no_runs ≡ (ok the_run, running_state)
unfolding Authority.begin Authority.create_run Authority.authorization_name Authority.run_event
    new_run get insert get_field require_context require_lifecycle lifecycle_allows
    require_permissions require_scope require_tools authorize_skills authorize_each authorize_skill
    authorize_all require_covered raw_references effective_of authorized_tools common all_texts_in
    texts_in references_in elements text_of_json registry_state_beq status_name contains is_subset
    insert_sorted sort_by distinct compare_lists
begun_run = refl

begin-IsGranted_example :
    IsGranted settings request agent the_run
    × (the_run.status ≡ running)
    × (get "run1" no_runs.runs ≡ none)
    × (get "run1" running_state.runs ≡ some the_run)
begin-IsGranted_example =
    begin-IsGranted settings request agent 5 no_runs running_state the_run begun_run

abbrev outcome : RunResult
outcome = record {
  run_id = "run1";
  root_run_id = some "run1";
  correlation_id = some "c1";
  agent_id = some "a1";
  agent_version = some "1.0.0";
  capability_id = some "cap1";
  status = "COMPLETED";
}

abbrev calls : List (RunCall × ℕ)
calls = (begin settings request agent, 5) ∷ (complete outcome, 6) ∷ []

abbrev over_run : RunRecord
over_run = ended the_run completed outcome 6

replay-trail_example :
    trail "run1" (replay calls no_runs).log ≡ trail_of (get "run1" (replay calls no_runs).runs)
replay-trail_example = replay-trail calls "run1"

begun_gives : (Authority.begin settings request agent 5 (replay [] no_runs)).0 ≡ ok the_run
unfolding replay
begun_gives = ap (λ r. r.0) begun_run

runtime_authorization-IsAnswered_example :
    IsGranted settings request agent the_run
    × IsAnswered request agent the_run
        (replay
          ((complete outcome, 6) ∷ [])
          (apply (begin settings request agent) 5 (replay [] no_runs)))
        (runtime_authorization "run1" (
          replay
            ((complete outcome, 6) ∷ [])
            (apply (begin settings request agent) 5 (replay [] no_runs))))
runtime_authorization-IsAnswered_example =
    runtime_authorization-IsAnswered [] ((complete outcome, 6) ∷ []) settings request agent 5
      the_run begun_gives
