-- ===== src/Jobs/Tests.antt =====
-- The theorems at concrete histories.
use alos_backend.Prelude.{ℕ, String, string_eq, ◌≡◌, refl, ◌≤◌, Option, some, none, [], ◌∷◌, ok}
use alos_backend.Prelude.Dict.{get, insert, Dict}
use alos_backend.Prelude.Sorting.{sort_by, insert_sorted}
use alos_backend.Json.{one_text}
use alos_backend.Jobs.State.{
  scheduled_report, running, succeeded, EnqueueJob, Job, job_key_eq, checked, empty, type_name,
  char_count, status_beq, type_beq,
}
use alos_backend.Jobs.Queue
use alos_backend.Jobs.Commands.{enqueue, claim, succeed, fail, recover_stale, perform, replay}
use alos_backend.Jobs.Lawful.{IsLawful, key_of}
use alos_backend.Jobs.Histories.{
  History, AreAllowed, replay-IsLawful, claim_count, claim_count-attempts, replay-ended,
  enqueue-again,
}
use alos_backend.Jobs.Claims.{ClaimEnds, claim_lem}
use alos_backend.Jobs.Worker.{JobHandler, run_once}

abbrev report : EnqueueJob
report = record {
  tenant_id = "t1";
  organization_id = "o1";
  workspace_id = "w1";
  job_type = scheduled_report;
  payload = one_text "month" "2026-01";
  correlation_id = "c1";
  idempotency_key = "report-0001";
  owner_actor_id = none;
  max_attempts = 3;
  next_retry_at = 0;
}

-- a report is claimed, fails, is claimed again, recovered from a stale lease, and succeeds
abbrev retries : History
retries =
    (enqueue report "j1", 1)
    ∷ ((claim "w1" none, 2)
        ∷ ((fail "j1" "TEMPORARY" 10, 3)
            ∷ ((claim "w2" none, 20)
                ∷ ((recover_stale 30 "STALE_LEASE_RECOVERED", 40) ∷ ((claim "w1" none, 50) ∷ [])))))

abbrev done : History
done = (succeed "j1" (one_text "pages" "3"), 60) ∷ []

abbrev job : Option String → Option ℕ → Job
job worker since = record {
  job_id = "j1";
  tenant_id = "t1";
  organization_id = "o1";
  workspace_id = "w1";
  job_type = scheduled_report;
  payload = one_text "month" "2026-01";
  status = running;
  attempts = 3;
  max_attempts = 3;
  next_retry_at = 13;
  correlation_id = "c1";
  idempotency_key = "report-0001";
  owner_actor_id = none;
  created_at = 1;
  locked_by = worker;
  locked_at = since;
  completed_at = none;
  safe_error_code = some "STALE_LEASE_RECOVERED";
  result = none;
}

abbrev running_job : Job
running_job = job (some "w1") (some 50)

abbrev done_job : Job
done_job = record (job none none) {
  status = succeeded;
  completed_at = some 60;
  result = some (one_text "pages" "3");
}

-- unfolds what a run computes with
run_queue : Unit {0}
unfolding replay perform get insert checked char_count Queue.enqueue Queue.claim Queue.succeed
    Queue.fail Queue.recover_stale Queue.new_job sort_by insert_sorted Queue.first_eligible
    Queue.is_eligible Queue.claimed Queue.require_running Queue.finished Queue.retried
    Queue.released Queue.recover_entries Queue.is_stale claim_count run_once status_beq type_beq
run_queue = tt

allowed : AreAllowed retries empty
unfolding run_queue
allowed = ((refl, refl), (tt, (tt, (tt, (tt, (tt, tt))))))

run_retries : get "j1" (replay retries empty).jobs ≡ some running_job
unfolding run_queue
run_retries = refl

replay-IsLawful_example : IsLawful "j1" running_job
replay-IsLawful_example = replay-IsLawful retries "j1" running_job allowed run_retries

claim_count-attempts_example :
    (claim_count "j1" retries empty ≡ 3) × (claim_count "j1" retries empty ≤ 3)
claim_count-attempts_example = claim_count-attempts retries "j1" running_job allowed run_retries

abbrev finished_history : History
finished_history =
    (enqueue report "j1", 1)
    ∷ ((claim "w1" none, 2) ∷ ((succeed "j1" (one_text "pages" "3"), 60) ∷ []))

abbrev first_done : Job
first_done = record done_job { attempts = 1; next_retry_at = 0; safe_error_code = none }

allowed_finished : AreAllowed finished_history empty
unfolding run_queue
allowed_finished = ((refl, refl), (tt, (tt, tt)))

run_finished : get "j1" (replay finished_history empty).jobs ≡ some first_done
unfolding run_queue
run_finished = refl

-- later calls on the finished job: it is not claimed, and a failure of it is refused
abbrev later : History
later = (claim "w2" none, 70) ∷ ((fail "j1" "LATE" 10, 80) ∷ [])

replay-ended_example :
    get "j1" (replay later (replay finished_history empty)).jobs ≡ some first_done
replay-ended_example =
    replay-ended finished_history later "j1" first_done allowed_finished (tt, (tt, tt)) run_finished
      refl

indexed : get (Queue.command_key report) (replay finished_history empty).idempotency ≡ some "j1"
unfolding run_queue
indexed = refl

enqueue-again_example :
    let q = replay later (replay finished_history empty) in
    (found : Job) × (found.job_id ≡ "j1")
    × (key_of found ≡ Queue.command_key report)
    × (get "j1" q.jobs ≡ some found)
    × (Queue.enqueue report "j9" 90 q ≡ (ok found, q))
enqueue-again_example =
    enqueue-again finished_history later report "j1" "j9" 90 allowed_finished (tt, (tt, tt)) indexed

abbrev waiting : History
waiting = (enqueue report "j1", 1) ∷ []

allowed_waiting : AreAllowed waiting empty
unfolding run_queue
allowed_waiting = ((refl, refl), tt)

claim_lem_example :
    let (result, q') = Queue.claim "w1" 5 (some (scheduled_report ∷ [])) (replay waiting empty) in
    ClaimEnds (replay waiting empty) "w1" 5 (some (scheduled_report ∷ [])) result q'
claim_lem_example = claim_lem waiting "w1" 5 (some (scheduled_report ∷ [])) allowed_waiting

-- a handler that prints the report
abbrev print : JobHandler
print found q = (ok (one_text "pages" "3"), q)

abbrev handlers : Dict String JobHandler
handlers = ("SCHEDULED_REPORT", print) ∷ []

-- the run prints the report
run_print :
    (run_once handlers "w1" 5 6 (replay waiting empty)).0
    ≡ ok (some (record first_done { completed_at = some 6 }))
unfolding run_queue type_name
run_print = refl
