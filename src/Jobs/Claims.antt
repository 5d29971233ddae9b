-- ===== src/Jobs/Claims.antt =====
-- What `claim` gives out.
use alos_backend.Prelude.{
  ℕ, ◌<◌, String, ◌≡◌, refl, Option, none, some, List, true, false, ltb, arith, Result, ok, err,
  Option-cases, inl, inr, ◌==◌, string_eq,
}
use alos_backend.Prelude.Dict.{get, insert, values}
use alos_backend.Prelude.Entries.{IsUnique-Every, get-values, values-All}
use alos_backend.Prelude.Sorting.{sort_by-All, All-sort_by}
use alos_backend.Jobs.State.{
  JobType, type_eq, queued, status_eq, status_iff, Job, JobError, Queue, empty,
}
use alos_backend.Jobs.Queue.{
  claim, claimed, is_eligible, first_eligible, not_older, by_age, is_wanted,
}
use alos_backend.Jobs.Order.{NotOlder, first_eligible-some, first_eligible-none, by_age-oldest}
use alos_backend.Jobs.Lawful.{HasBudget}
use alos_backend.Jobs.Histories.{History, AreAllowed, replay-IsValid, empty-IsValid}
use alos_backend.Jobs.Commands.{replay}

-- Queued, due, and of a type that the worker takes.
pub record IsDue (now : ℕ) (job_types : Option (List JobType)) (job : Job) : Type 0 where
  pub waiting : job.status ≡ queued
  pub time : ltb now job.next_retry_at ≡ false
  pub wanted : is_wanted job_types job.job_type ≡ true

-- How a claim may end: with nothing, where no job is due, or with the oldest job that is.
abbrev pub ClaimEnds :
    Queue → String → ℕ → Option (List JobType) → Result JobError (Option Job) → Queue → Type 0
ClaimEnds q worker now job_types (ok none) q' =
    (q' ≡ q) × ((id : String) (job : Job) → get id q.jobs ≡ some job → ¬ IsDue now job_types job)
ClaimEnds q worker now job_types (ok (some given)) q' =
    (job : Job) × (given ≡ claimed job worker now)
    × (get job.job_id q.jobs ≡ some job)
    × IsDue now job_types job
    × (q' ≡ record q { jobs = insert job.job_id given q.jobs })
    × ((id : String) (other : Job)
        → get id q.jobs ≡ some other
        → IsDue now job_types other
        → NotOlder job other)
ClaimEnds q worker now job_types (err e) q' = ⊥

-- The budget never keeps back a job that is due.
IsDue-is_eligible :
    (now : ℕ) (job_types : Option (List JobType)) (job : Job)
    → HasBudget job.status job.attempts job.max_attempts
    → IsDue now job_types job
    → is_eligible now job_types job ≡ true
unfolding is_eligible
IsDue-is_eligible now job_types job budget due =
    let spare : job.attempts < job.max_attempts = rw due.waiting at budget in
    let state : (job.status == queued) ≡ true = (status_iff job.status queued).1 due.waiting in
    rw (state, due.time, due.wanted) (ground arith)

eligible-IsDue :
    (now : ℕ) (job_types : Option (List JobType)) (job : Job)
    → is_eligible now job_types job ≡ true
    → IsDue now job_types job
unfolding is_eligible
eligible-IsDue now job_types job fits = record {
  waiting = ground (arith, status_iff job.status queued);
  time = ground arith;
  wanted = ground arith;
}

-- After any history, a claim returns. It gives nothing, and changes nothing, only where no job is
-- queued, due and wanted; otherwise it gives a job that is, none of those being older, marked as
-- running for the worker with one attempt more, and stores exactly that.
pub claim_lem :
    (h : History) (worker : String) (now : ℕ) (job_types : Option (List JobType))
    → AreAllowed h empty
    → let (result, q') = claim worker now job_types (replay h empty) in
      ClaimEnds (replay h empty) worker now job_types result q'
unfolding claim
claim_lem h worker now job_types a =
    let q = replay h empty in
    let v = replay-IsValid h empty a empty-IsValid in
    elim (Option-cases (first_eligible now job_types (by_age (values q.jobs)))) [
      | inl nobody ↦ rw nobody (
        refl,
        λ id job at due.
            let idle =
              values-All _ id job q.jobs
                (All-sort_by not_older _ (values q.jobs)
                  (first_eligible-none now job_types (by_age (values q.jobs)) nobody))
                at in
            let fits = IsDue-is_eligible now job_types job (v.lawful id job at).budget due in cc,
      )
      | inr (job, chosen) ↦
          (let all =
              sort_by-All not_older (λ j. get j.job_id q.jobs ≡ some j) (values q.jobs)
                (get-values (λ (j : Job). j.job_id) q.jobs v.unique
                  (IsUnique-Every _ q.jobs v.unique (λ k j at. (v.lawful k j at).named))) in
            let (fits, at) =
              first_eligible-some now job_types (λ j. get j.job_id q.jobs ≡ some j)
                (by_age (values q.jobs)) job all chosen in
            rw chosen (
              job,
              refl,
              at,
              eligible-IsDue now job_types job fits,
              refl,
              λ id other there due.
                  values-All _ id other q.jobs
                    (by_age-oldest now job_types (values q.jobs) job chosen) there
                    (IsDue-is_eligible now job_types other (v.lawful id other there).budget due),
            ))
    ]
