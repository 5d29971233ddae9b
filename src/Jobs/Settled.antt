-- ===== src/Jobs/Settled.antt =====
-- What a run of a worker leaves behind.
use alos_backend.Prelude.{String, ◌≡◌, ◌⊎◌, Option, none, some, false, Result, ok, err, string_eq}
use alos_backend.Prelude.Dict.{Dict, get}
use alos_backend.Jobs.State.{Job, JobError, Queue, succeeded, status_eq}
use alos_backend.Jobs.Lawful.{is_running}
use alos_backend.Jobs.Worker.{JobHandler}

-- The handlers leave the queue as it is.
abbrev pub IsQuiet : Dict String JobHandler → Type 0
IsQuiet handlers =
    (name : String) (handler : JobHandler) (job : Job) (q : Queue)
    → get name handlers ≡ some handler
    → (handler job q).1 ≡ q

-- Stored without a lease, as succeeded or with one of the two safe codes.
pub record IsSettled (job : Job) (q : Queue) : Type 0 where
  pub stored : get job.job_id q.jobs ≡ some job
  pub unleased : is_running job.status ≡ false
  pub safe :
      (job.status ≡ succeeded)
      ⊎ ((job.safe_error_code ≡ some "HANDLER_NOT_CONFIGURED")
          ⊎ (job.safe_error_code ≡ some "SAFE_HANDLER_FAILURE"))

abbrev pub RunEnds : Queue → Result JobError (Option Job) → Queue → Type 0
RunEnds q (ok none) q' = q' ≡ q
RunEnds q (ok (some job)) q' = IsSettled job q'
RunEnds q (err e) q' = ⊥
