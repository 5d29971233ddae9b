-- ===== src/Jobs/Lawful.antt =====
-- What holds of every job, and of the queue, between two calls.
use alos_backend.Prelude.{
  ℕ, ◌≤◌, ◌<◌, String, ◌≡◌, refl, Option, some, Bool, true, false, arith, inl, inr, Bool-cases, ok,
  string_eq,
}
use alos_backend.Prelude.Dict.{get, is_some}
use alos_backend.Prelude.Entries.{IsUnique}
use alos_backend.Jobs.State.{
  JobStatus, queued, running, succeeded, failed, cancelled, status_eq, EnqueueJob, Job, checked,
  job_key_eq, JobKey, Queue,
}
use alos_backend.Jobs.Queue.{new_job, claimed, finished, released, retried, is_spent}
use alos_backend.Jobs.Changes.{
  Move, claiming, finishing, failing, recovering, Change, unchanged, added, moved,
}

abbrev pub is_running : JobStatus → Bool
is_running running = true
is_running _ = false

abbrev pub is_succeeded : JobStatus → Bool
is_succeeded succeeded = true
is_succeeded _ = false

abbrev pub is_ended : JobStatus → Bool
is_ended succeeded = true
is_ended failed = true
is_ended _ = false

-- The attempts that a status allows.
abbrev pub HasBudget : JobStatus → ℕ → ℕ → Type 0
HasBudget queued attempts max_attempts = attempts < max_attempts
HasBudget running attempts max_attempts = attempts ≤ max_attempts
HasBudget succeeded attempts max_attempts = attempts ≤ max_attempts
HasBudget failed attempts max_attempts = attempts ≡ max_attempts
HasBudget cancelled attempts max_attempts = ⊥

pub HasBudget-within :
    (status : JobStatus) (attempts max_attempts : ℕ)
    → HasBudget status attempts max_attempts
    → attempts ≤ max_attempts
HasBudget-within queued a m h = ground arith
HasBudget-within running a m h = h
HasBudget-within succeeded a m h = h
HasBudget-within failed a m h = ground arith
HasBudget-within cancelled a m h = absurd h

pub record IsLawful (id : String) (job : Job) : Type 0 where
  pub named : job.job_id ≡ id
  pub limit : job.max_attempts ≤ 20
  pub budget : HasBudget job.status job.attempts job.max_attempts
  pub owner : is_some job.locked_by ≡ is_running job.status
  pub lease : is_some job.locked_at ≡ is_running job.status
  pub ending : is_some job.completed_at ≡ is_ended job.status
  pub outcome : is_some job.result ≡ is_succeeded job.status

new_job-IsLawful :
    (id : String) (command : EnqueueJob) (now : ℕ)
    → checked command ≡ ok command
    → IsLawful id (new_job command id now)
unfolding checked new_job
new_job-IsLawful id command now h = record {
  named = refl;
  limit = ground arith;
  budget = ground arith;
  owner = refl;
  lease = refl;
  ending = refl;
  outcome = refl;
}

-- A running job that is given up is failed or queued again.
released-IsLawful :
    (id code : String) (job : Job) (now : ℕ)
    → job.status ≡ running
    → IsLawful id job
    → IsLawful id (released job code now)
unfolding released
released-IsLawful id code job now state l =
    let within : job.attempts ≤ job.max_attempts = rw state at l.budget in
    let no_result : is_some job.result ≡ false = rw state at l.outcome in
    elim (Bool-cases (is_spent job)) [
      | inl spent ↦ record {
        named = l.named;
        limit = l.limit;
        budget = rw spent (ground arith);
        owner = rw spent refl;
        lease = rw spent refl;
        ending = rw spent refl;
        outcome = rw spent no_result;
      }
      | inr spare ↦ record {
        named = l.named;
        limit = l.limit;
        budget = rw spare (ground arith);
        owner = rw spare refl;
        lease = rw spare refl;
        ending = rw spare refl;
        outcome = rw spare no_result;
      }
    ]

Move-IsLawful :
    {mark : Bool} {id : String} {job job' : Job}
    → Move job mark job'
    → IsLawful id job
    → IsLawful id job'
unfolding claimed finished retried
Move-IsLawful (claiming worker now state spare) l = record {
  named = l.named;
  limit = l.limit;
  budget = ground arith;
  owner = refl;
  lease = refl;
  ending = rw state at l.ending;
  outcome = rw state at l.outcome;
}
Move-IsLawful (finishing outcome now state) l = record {
  named = l.named;
  limit = l.limit;
  budget = rw state at l.budget;
  owner = refl;
  lease = refl;
  ending = refl;
  outcome = refl;
}
Move-IsLawful {id = id} {job = job} (failing code delay now state) l =
    let base = released-IsLawful id code job now state l in
    record {
      named = base.named;
      limit = base.limit;
      budget = base.budget;
      owner = base.owner;
      lease = base.lease;
      ending = base.ending;
      outcome = base.outcome;
    }
Move-IsLawful {id = id} {job = job} (recovering code now state) l =
    released-IsLawful id code job now state l

-- The key of a job's command.
abbrev pub key_of : Job → JobKey
key_of job = (job.organization_id, job.job_type, job.idempotency_key)

Move-key : {mark : Bool} {job job' : Job} → Move job mark job' → key_of job' ≡ key_of job
unfolding claimed finished released retried
Move-key (claiming worker now state spare) = refl
Move-key (finishing outcome now state) = refl
Move-key (failing code delay now state) = refl
Move-key (recovering code now state) = refl

pub Change-IsLawful :
    {id : String} {mark : Bool} {o o' : Option Job} (job : Job)
    → Change id mark o o'
    → ((old : Job) → o ≡ some old → IsLawful id old)
    → o' ≡ some job
    → IsLawful id job
Change-IsLawful job unchanged f at = f job at
Change-IsLawful {id} job (added command now h) f at =
    let same : new_job command id now ≡ job = ground arith in
    rw same at (new_job-IsLawful id command now h)
Change-IsLawful {id} job (moved {job = old} {job' = next} m) f at =
    let same : next ≡ job = ground arith in rw same at (Move-IsLawful m (f old refl))

-- A job stays, with its key.
pub Change-kept :
    {id : String} {mark : Bool} {o o' : Option Job} (job : Job)
    → Change id mark o o'
    → o ≡ some job
    → (next : Job) × (o' ≡ some next) × (key_of next ≡ key_of job)
Change-kept job unchanged at = (job, at, refl)
Change-kept job (added command now h) at = cc
Change-kept job (moved {job = old} {job' = next} m) at =
    let same : old ≡ job = ground arith in (next, refl, rw same at (Move-key m))

-- Every key of the index leads to the job that it was made for.
pub record IsValid (q : Queue) : Type 0 where
  pub unique : IsUnique q.jobs
  pub lawful : (id : String) (job : Job) → get id q.jobs ≡ some job → IsLawful id job
  pub found :
      (key : JobKey) (id : String)
      → get key q.idempotency ≡ some id
      → (job : Job) × (get id q.jobs ≡ some job) × (key_of job ≡ key)
