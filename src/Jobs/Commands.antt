-- ===== src/Jobs/Commands.antt =====
-- The calls of the repository, so that a history of calls is a list.
use alos_backend.Prelude.{ℕ, String, Option, some, none, List, [], ◌∷◌, pure, ◌>>=◌}
use alos_backend.Json.{Fields}
use alos_backend.Jobs.State.{JobType, EnqueueJob, Job, Queue}
use alos_backend.Jobs.Queue
use alos_backend.Jobs.Queue.{Method}

pub data Call : Type 0 where
  enqueue : EnqueueJob → String → Call
  claim : String → Option (List JobType) → Call
  succeed : String → Fields → Call
  fail : String → String → ℕ → Call
  recover_stale : ℕ → String → Call

abbrev pub one : Job → Method (List Job)
one job = pure (job ∷ [])

abbrev pub at_most_one : Option Job → Method (List Job)
at_most_one none = pure []
at_most_one (some job) = pure (job ∷ [])

-- one call at the clock's reading, and the jobs that it gives back
unfoldable pub perform : Call → ℕ → Method (List Job)
perform (enqueue command fresh) now = Queue.enqueue command fresh now >>= one
perform (claim worker_id job_types) now = Queue.claim worker_id now job_types >>= at_most_one
perform (succeed job_id outcome) now = Queue.succeed job_id outcome now >>= one
perform (fail job_id code delay) now = Queue.fail job_id code delay now >>= one
perform (recover_stale stale_before code) now = Queue.recover_stale stale_before code now

unfoldable pub replay : List (Call × ℕ) → Queue → Queue
replay [] q = q
replay ((call, now) ∷ rest) q = replay rest (perform call now q).1
