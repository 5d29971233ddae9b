-- ===== src/Jobs/Changes.antt =====
-- What one call does to each job of the queue.
use text.Mathlib.TextEquality.{eq_iff}
use alos_backend.Prelude.{
  ℕ, String, ◌≡◌, refl, inl, inr, Option, none, some, List, [], ◌∷◌, Bool, true, false, ◌&&◌, ◌==◌,
  string_eq, arith, Bool-cases, Result, ok,
}
use alos_backend.Prelude.Dict.{Dict, get, insert, get-insert}
use alos_backend.Json.{Fields}
use alos_backend.Jobs.State.{
  running, queued, status_eq, status_iff, EnqueueJob, Job, Queue, checked, job_key_eq, JobError,
}
use alos_backend.Jobs.Commands.{Call, enqueue, claim}
use alos_backend.Jobs.Queue.{
  new_job, claimed, finished, released, retried, is_spent, is_stale, recover_entries,
}

-- The moves of one job; the mark says whether a worker claims it.
pub data Move (job : Job) : Bool → Job → Type 0 where
  claiming :
      (worker : String) (now : ℕ)
      → job.status ≡ queued
      → is_spent job ≡ false
      → Move job true (claimed job worker now)
  finishing :
      (outcome : Fields) (now : ℕ)
      → job.status ≡ running
      → Move job false (finished job outcome now)
  failing :
      (code : String) (delay now : ℕ)
      → job.status ≡ running
      → Move job false (retried job code delay now)
  recovering :
      (code : String) (now : ℕ) → job.status ≡ running → Move job false (released job code now)

-- What happens to the entry of one identifier.
pub data Change (id : String) : Bool → Option Job → Option Job → Type 0 where
  unchanged : {o : Option Job} → Change id false o o
  added :
      (command : EnqueueJob) (now : ℕ)
      → checked command ≡ ok command
      → Change id false none (some (new_job command id now))
  moved :
      {mark : Bool} {job job' : Job} → Move job mark job' → Change id mark (some job) (some job')

-- The identifier that a call claims, from what it gives back.
abbrev pub claims : Call → Result JobError (List Job) → String → Bool
claims (claim _ _) (ok (job ∷ [])) id = id == job.job_id
claims (claim _ _) _ id = false
claims _ _ id = false

-- An enqueued command was checked when it was made, and its uuid4 is new.
abbrev pub IsAllowed : Call → Queue → Type 0
IsAllowed (enqueue command fresh) q = (checked command ≡ ok command) × (get fresh q.jobs ≡ none)
IsAllowed _ _ = Unit

and_true : (b : Bool) → (b && true) ≡ b
and_true true = refl
and_true false = refl

and_false : (b : Bool) → (b && false) ≡ false
and_false true = refl
and_false false = refl

pub put-Change :
    (d : Dict String Job) (k id : String) (mark : Bool) (job : Job)
    → Change k mark (get k d) (some job)
    → Change id (mark && (id == k)) (get id d) (get id (insert k job d))
put-Change d k id mark job c = elim (Bool-cases (id == k)) [
  | inl same ↦
      (let key : id ≡ k = (eq_iff id k).0 same in
        rw (get-insert id k job d, same, and_true mark) (rw key c))
  | inr other ↦ rw (get-insert id k job d, other, and_false mark) unchanged
]

pub get-recovered :
    (stale_before : ℕ) (code : String) (now : ℕ) (d : Dict String Job) (id : String)
    → Change id false (get id d) (get id (recover_entries stale_before code now d).0)
unfolding recover_entries get is_stale
get-recovered stale_before code now [] id = unchanged
get-recovered stale_before code now ((k, job) ∷ d) id =
    let rest = get-recovered stale_before code now d id in
    elim (Bool-cases (is_stale stale_before job)) [
      | inl stale ↦ rw stale (elim (Bool-cases (id == k)) [
        | inl same ↦
            rw same (moved (recovering code now (ground (arith, status_iff job.status running))))
        | inr other ↦ rw other rest
      ])
      | inr fresh ↦
          rw fresh (elim (Bool-cases (id == k)) [
            | inl same ↦ rw same unchanged
            | inr other ↦ rw other rest
          ])
    ]
