-- ===== src/Jobs/Worker.antt =====
-- jobs/worker, jobs/scheduler and jobs/recovery: what drives the repository. Times are in
-- microseconds. A handler is code that a worker is given; while it runs, the queue may change.
use alos_backend.Prelude.{
  ℕ, ◌-◌, String, string_eq, Option, none, some, List, [], ◌∷◌, Result, ok, err, Exec, pure, ◌>>=◌,
}
use alos_backend.Prelude.Dict.{Dict, get}
use alos_backend.Json.{Fields}
use alos_backend.Jobs.State.{EnqueueJob, Job, JobError, Queue, type_name}
use alos_backend.Jobs.Queue.{Method, claim, succeed, fail, enqueue, recover_stale}

-- what a handler raises is not looked at
pub data HandlerError : Type 0 where
  raised : HandlerError

abbrev pub JobHandler : Type 0
JobHandler = Job → Exec Queue HandlerError Fields

-- `timedelta(seconds=30)`
abbrev pub retry_delay : ℕ
retry_delay = 30000000

abbrev pub report : Job → ℕ → Result HandlerError Fields × Queue → Result JobError Job × Queue
report job now (ok outcome, q) = succeed job.job_id outcome now q
report job now (err raised, q) = fail job.job_id "SAFE_HANDLER_FAILURE" retry_delay now q

abbrev pub serve : Option JobHandler → Job → ℕ → Method Job
serve none job now = fail job.job_id "HANDLER_NOT_CONFIGURED" retry_delay now
serve (some handler) job now = λ q. report job now (handler job q)

abbrev pub work : Dict String JobHandler → ℕ → Option Job → Method (Option Job)
work handlers now none = pure none
work handlers now (some job) = do
  settled ← serve (get (type_name job.job_type) handlers) job now
  pure (some settled)

-- `now` is the clock at the claim, `later` when the handler ended
unfoldable pub run_once : Dict String JobHandler → String → ℕ → ℕ → Method (Option Job)
run_once handlers worker_id now later = do
  chosen ← claim worker_id now none
  work handlers later chosen

-- `JobScheduler.enqueue`, each command with its uuid4
unfoldable pub enqueue_all : List (EnqueueJob × String) → ℕ → Method (List Job)
enqueue_all [] now = pure []
enqueue_all ((command, fresh) ∷ rest) now = do
  job ← enqueue command fresh now
  jobs ← enqueue_all rest now
  pure (job ∷ jobs)

-- `recover_stale_jobs`; the timeout does not exceed the time since the epoch
unfoldable pub recover_stale_jobs : ℕ → ℕ → ℕ → Method (List Job)
recover_stale_jobs lease_timeout current now =
    recover_stale (current - lease_timeout) "STALE_LEASE_RECOVERED" now
