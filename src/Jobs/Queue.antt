-- ===== src/Jobs/Queue.antt =====
-- The methods of `InMemoryJobRepository`. Each runs under the repository's lock.
use alos_backend.Prelude.{
  ℕ, ◌+◌, String, Option, some, none, List, [], ◌∷◌, Bool, true, false, not, ◌&&◌, ◌==◌, string_eq,
  contains, ltb, leb, if◌then◌else◌, Exec, pure, gets, or_raise, raise_if, modify, ◌>>=◌, ◌>>◌,
}
use alos_backend.Prelude.Dict.{Dict, get, insert, values}
use alos_backend.Prelude.Sorting.{sort_by}
use alos_backend.Json.{Fields}
use alos_backend.Jobs.State.{
  JobType, type_eq, queued, running, succeeded, failed, status_eq, EnqueueJob, Job, JobError,
  job_not_found, not_running, JobKey, job_key_eq, Queue,
}

abbrev pub Method : Type 0 → Type 0
Method A = Exec Queue JobError A

unfoldable pub new_job : EnqueueJob → String → ℕ → Job
new_job command fresh now = record {
  job_id = fresh;
  tenant_id = command.tenant_id;
  organization_id = command.organization_id;
  workspace_id = command.workspace_id;
  job_type = command.job_type;
  payload = command.payload;
  status = queued;
  attempts = 0;
  max_attempts = command.max_attempts;
  next_retry_at = command.next_retry_at;
  correlation_id = command.correlation_id;
  idempotency_key = command.idempotency_key;
  owner_actor_id = command.owner_actor_id;
  created_at = now;
  locked_by = none;
  locked_at = none;
  completed_at = none;
  safe_error_code = none;
  result = none;
}

abbrev pub command_key : EnqueueJob → JobKey
command_key command = (command.organization_id, command.job_type, command.idempotency_key)

abbrev pub put_job : String → Job → Method Unit
put_job job_id job = modify (λ q. record q { jobs = insert job_id job q.jobs })

abbrev pub add_job : EnqueueJob → String → ℕ → Method Job
add_job command fresh now = do
  put_job fresh (new_job command fresh now)
  modify (λ q. record q { idempotency = insert (command_key command) fresh q.idempotency })
  pure (new_job command fresh now)

-- the job that an enqueued command already has, or a new one
abbrev pub enqueue_for : EnqueueJob → String → ℕ → Option String → Method Job
enqueue_for command fresh now none = add_job command fresh now
enqueue_for command fresh now (some existing_id) = do
  or_raise (← gets (λ q. get existing_id q.jobs)) job_not_found

-- `fresh` is the `uuid4`
unfoldable pub enqueue : EnqueueJob → String → ℕ → Method Job
enqueue command fresh now = do
  existing ← gets (λ q. get (command_key command) q.idempotency)
  enqueue_for command fresh now existing

-- `job.created_at <= other.created_at`
abbrev pub not_older : Job → Job → Bool
not_older job other = leb job.created_at other.created_at

-- `sorted(jobs, key=created_at)`, which keeps the order of equal keys
abbrev pub by_age : List Job → List Job
by_age = sort_by not_older

abbrev pub is_wanted : Option (List JobType) → JobType → Bool
is_wanted none job_type = true
is_wanted (some job_types) job_type = contains job_type job_types

-- the three tests of the loop in `claim`
unfoldable pub is_eligible : ℕ → Option (List JobType) → Job → Bool
is_eligible now job_types job =
    (job.status == queued && not (ltb now job.next_retry_at))
    && (not (leb job.max_attempts job.attempts) && is_wanted job_types job.job_type)

unfoldable pub first_eligible : ℕ → Option (List JobType) → List Job → Option Job
first_eligible now job_types [] = none
first_eligible now job_types (job ∷ rest) =
    let later = first_eligible now job_types rest in
    if is_eligible now job_types job then some job else later

unfoldable pub claimed : Job → String → ℕ → Job
claimed job worker_id now = record job {
  status = running;
  attempts = job.attempts + 1;
  locked_by = some worker_id;
  locked_at = some now;
}

abbrev pub claim_job : String → ℕ → Option Job → Method (Option Job)
claim_job worker_id now none = pure none
claim_job worker_id now (some job) = do
  put_job job.job_id (claimed job worker_id now)
  pure (some (claimed job worker_id now))

-- `now` is the argument, or the clock where it is not given
unfoldable pub claim : String → ℕ → Option (List JobType) → Method (Option Job)
claim worker_id now job_types = do
  chosen ← gets (λ q. first_eligible now job_types (by_age (values q.jobs)))
  claim_job worker_id now chosen

-- `get` and `_require_running`
abbrev pub find_job : String → Method Job
find_job job_id = do or_raise (← gets (λ q. get job_id q.jobs)) job_not_found

unfoldable pub require_running : String → Method Job
require_running job_id = do
  job ← find_job job_id
  raise_if (not (job.status == running)) not_running
  pure job

unfoldable pub finished : Job → Fields → ℕ → Job
finished job outcome now = record job {
  status = succeeded;
  result = some outcome;
  completed_at = some now;
  locked_by = none;
  locked_at = none;
}

-- `succeed`, with `_finish`
unfoldable pub succeed : String → Fields → ℕ → Method Job
succeed job_id outcome now = do
  job ← require_running job_id
  put_job job_id (finished job outcome now)
  pure (finished job outcome now)

-- `attempts >= max_attempts`
abbrev pub is_spent : Job → Bool
is_spent job = leb job.max_attempts job.attempts

-- what `fail` and `recover_stale` both write
unfoldable pub released : Job → String → ℕ → Job
released job code now = record job {
  status = if is_spent job then failed else queued;
  locked_by = none;
  locked_at = none;
  completed_at = if is_spent job then some now else none;
  safe_error_code = some code;
}

unfoldable pub retried : Job → String → ℕ → ℕ → Job
unfolding released
retried job code delay now = record (released job code now) { next_retry_at = now + delay }

unfoldable pub fail : String → String → ℕ → ℕ → Method Job
fail job_id code delay now = do
  job ← require_running job_id
  put_job job_id (retried job code delay now)
  pure (retried job code delay now)

-- `job.locked_at < stale_before`, where the job has a lease
abbrev pub before_limit : Option ℕ → ℕ → Bool
before_limit none stale_before = false
before_limit (some locked_at) stale_before = ltb locked_at stale_before

unfoldable pub is_stale : ℕ → Job → Bool
is_stale stale_before job = job.status == running && before_limit job.locked_at stale_before

-- An iteration of the loop in `recover_stale` writes only the entry that it reads.
unfoldable pub recover_entries : ℕ → String → ℕ → Dict String Job → Dict String Job × List Job
recover_entries stale_before code now [] = ([], [])
recover_entries stale_before code now ((job_id, job) ∷ rest) =
    let (jobs, recovered) = recover_entries stale_before code now rest in
    if is_stale stale_before job
    then ((job_id, released job code now) ∷ jobs, released job code now ∷ recovered)
    else ((job_id, job) ∷ jobs, recovered)

unfoldable pub recover_stale : ℕ → String → ℕ → Method (List Job)
recover_stale stale_before code now = do
  recovered ← gets (λ q. (recover_entries stale_before code now q.jobs).1)
  modify (λ q. record q { jobs = (recover_entries stale_before code now q.jobs).0 })
  pure recovered
