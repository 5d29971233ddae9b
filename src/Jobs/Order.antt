-- ===== src/Jobs/Order.antt =====
-- The order in which `claim` looks at the jobs: by age, and the first that is eligible.
use alos_backend.Prelude.{
  ℕ, ◌≡◌, inl, inr, Option, none, some, List, [], ◌∷◌, true, false, leb, arith, Bool-cases,
}
use alos_backend.Prelude.Entries.{All, All-map}
use alos_backend.Jobs.State.{JobType, Job}
use alos_backend.Prelude.Sorting.{IsSorted, All-sort_by, sort_by-IsSorted}
use alos_backend.Jobs.Queue.{not_older, by_age, is_eligible, first_eligible}

abbrev pub NotOlder : Job → Job → Type 0
NotOlder job other = leb job.created_at other.created_at ≡ true

NotOlder-total : (a b : Job) → not_older a b ≡ false → not_older b a ≡ true
NotOlder-total a b h = ground arith

NotOlder-trans : (a b c : Job) → NotOlder a b → NotOlder b c → NotOlder a c
NotOlder-trans a b c p q = ground arith

by_age-IsSorted : (jobs : List Job) → IsSorted not_older (by_age jobs)
by_age-IsSorted = sort_by-IsSorted not_older NotOlder-total NotOlder-trans

module _ (now : ℕ) (job_types : Option (List JobType)) where
  pub first_eligible-some :
      (P : Job → Type 0) (jobs : List Job) (job : Job)
      → All P jobs
      → first_eligible now job_types jobs ≡ some job
      → (is_eligible now job_types job ≡ true) × P job
  unfolding first_eligible
  first_eligible-some P [] job h chosen = cc
  first_eligible-some P (other ∷ rest) job h chosen =
      elim (Bool-cases (is_eligible now job_types other)) [
        | inl fits ↦ (let equal : other ≡ job = ground arith in (rw equal at fits, rw equal at h.0))
        | inr misfits ↦ first_eligible-some P rest job h.1 (ground arith)
      ]

  first_eligible-oldest :
      (jobs : List Job) (job : Job)
      → IsSorted not_older jobs
      → first_eligible now job_types jobs ≡ some job
      → All (λ other. is_eligible now job_types other ≡ true → NotOlder job other) jobs
  unfolding first_eligible
  first_eligible-oldest [] job h chosen = tt
  first_eligible-oldest (other ∷ rest) job h chosen =
      elim (Bool-cases (is_eligible now job_types other)) [
        | inl fits ↦
            (let equal : other ≡ job = ground arith in
              (λ _. ground arith, All-map rest (λ k older _. rw equal at older) h.0))
        | inr misfits ↦ (λ fits. cc, first_eligible-oldest rest job h.1 (ground arith))
      ]

  pub first_eligible-none :
      (jobs : List Job)
      → first_eligible now job_types jobs ≡ none
      → All (λ job. is_eligible now job_types job ≡ false) jobs
  unfolding first_eligible
  first_eligible-none [] h = tt
  first_eligible-none (job ∷ rest) h = elim (Bool-cases (is_eligible now job_types job)) [
    | inl fits ↦ ground arith
    | inr misfits ↦ (misfits, first_eligible-none rest (ground arith))
  ]

  -- No eligible job is older than the chosen one.
  pub by_age-oldest :
      (jobs : List Job) (job : Job)
      → first_eligible now job_types (by_age jobs) ≡ some job
      → All (λ other. is_eligible now job_types other ≡ true → NotOlder job other) jobs
  by_age-oldest jobs job chosen =
      All-sort_by not_older _ jobs
        (first_eligible-oldest (by_age jobs) job (by_age-IsSorted jobs) chosen)
