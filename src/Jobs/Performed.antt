-- ===== src/Jobs/Performed.antt =====
-- The calls of the repository, in terms of the moves of its jobs.
use text.Mathlib.TextEquality.{eq_iff}
use alos_backend.Prelude.{
  ℕ, String, ◌≡◌, refl, sym, ◌∙◌, ◌⊎◌, inl, inr, Option, none, some, List, [], ◌∷◌, Bool, true,
  false, ◌&&◌, ◌==◌, string_eq, arith, Option-cases, Bool-cases, ok,
}
use alos_backend.Prelude.Dict.{Dict, get, insert, get-insert, values}
use alos_backend.Prelude.Entries.{IsUnique, insert-IsUnique, IsUnique-Every, get-values}
use alos_backend.Json.{Fields}
use alos_backend.Prelude.Sorting.{sort_by-All}
use alos_backend.Jobs.State.{
  JobType, running, queued, status_eq, status_iff, EnqueueJob, Job, JobKey, job_key_eq, Queue,
  checked,
}
use alos_backend.Jobs.Queue
use alos_backend.Jobs.Queue.{
  new_job, command_key, claimed, finished, retried, released, is_spent, is_eligible, first_eligible,
  not_older, by_age, recover_entries, is_stale, require_running,
}
use alos_backend.Jobs.Order.{first_eligible-some}
use alos_backend.Jobs.Commands.{Call, enqueue, claim, succeed, fail, recover_stale, perform}
use alos_backend.Jobs.Changes.{
  Change, unchanged, added, moved, claiming, finishing, failing, claims, IsAllowed, put-Change,
  get-recovered,
}
use alos_backend.Jobs.Lawful.{IsValid, key_of, Change-IsLawful, Change-kept}

pub record Performed (q q' : Queue) (mark : String → Bool) : Type 0 where
  pub change : (id : String) → Change id (mark id) (get id q.jobs) (get id q'.jobs)
  pub unique : IsUnique q.jobs → IsUnique q'.jobs
  pub entries :
      (key : JobKey) (id : String)
      → get key q'.idempotency ≡ some id
      → (get key q.idempotency ≡ some id)
        ⊎ ((job : Job) × (get id q'.jobs ≡ some job) × (key_of job ≡ key))
  pub kept :
      (key : JobKey) (id : String)
      → get key q.idempotency ≡ some id
      → get key q'.idempotency ≡ some id

same-Performed : (q : Queue) → Performed q q (λ _. false)
same-Performed q = record {
  change = λ id. unchanged;
  unique = λ u. u;
  entries = λ key id at. inl at;
  kept = λ key id at. at;
}

put-Performed :
    (q : Queue) (k : String) (mark : Bool) (job : Job)
    → Change k mark (get k q.jobs) (some job)
    → Performed q (record q { jobs = insert k job q.jobs }) (λ id. mark && (id == k))
put-Performed q k mark job c = record {
  change = λ id. put-Change q.jobs k id mark job c;
  unique = λ u. insert-IsUnique k job q.jobs u;
  entries = λ key id at. inl at;
  kept = λ key id at. at;
}

add-Performed :
    (q : Queue) (command : EnqueueJob) (fresh : String) (now : ℕ)
    → checked command ≡ ok command
    → get fresh q.jobs ≡ none
    → get (command_key command) q.idempotency ≡ none
    → Performed q
        (record {
          jobs = insert fresh (new_job command fresh now) q.jobs;
          idempotency = insert (command_key command) fresh q.idempotency;
        })
        (λ _. false)
unfolding new_job
add-Performed q command fresh now valid free unused = record {
  change = λ id.
      put-Change q.jobs fresh id false (new_job command fresh now)
        (rw free (added command now valid));
  unique = λ u. insert-IsUnique fresh (new_job command fresh now) q.jobs u;
  entries = λ key id at. elim (Bool-cases (key == command_key command)) [
    | inl same ↦
        (let read = rw (get-insert key (command_key command) fresh q.idempotency, same) at at in
          let equal : id ≡ fresh = ground arith in
          inr (
            new_job command fresh now,
            rw (get-insert id fresh (new_job command fresh now) q.jobs, (eq_iff id fresh).1 equal)
                refl,
            sym ((job_key_eq.beq_iff key (command_key command)).0 same),
          ))
    | inr other ↦ inl (rw (get-insert key (command_key command) fresh q.idempotency, other) at at)
  ];
  kept = λ key id at.
      rw (get-insert key (command_key command) fresh q.idempotency)
        (ground (arith, job_key_eq.beq_iff key (command_key command)));
}

enqueue-Performed :
    (q : Queue) (command : EnqueueJob) (fresh : String) (now : ℕ)
    → IsAllowed (enqueue command fresh) q
    → Performed q (perform (enqueue command fresh) now q).1 (λ _. false)
unfolding perform Queue.enqueue
enqueue-Performed q command fresh now allowed =
    elim (Option-cases (get (command_key command) q.idempotency)) [
      | inl free ↦ rw free (add-Performed q command fresh now allowed.0 allowed.1 free)
      | inr (existing_id, at) ↦ rw at (elim (Option-cases (get existing_id q.jobs)) [
        | inl missing ↦ rw missing (same-Performed q)
        | inr (job, there) ↦ rw there (same-Performed q)
      ])
    ]

claim-Performed :
    (q : Queue) (worker_id : String) (job_types : Option (List JobType)) (now : ℕ)
    → IsValid q
    → Performed q
        (perform (claim worker_id job_types) now q).1
        (claims (claim worker_id job_types) (perform (claim worker_id job_types) now q).0)
unfolding perform Queue.claim claimed is_eligible
claim-Performed q worker_id job_types now v =
    elim (Option-cases (first_eligible now job_types (by_age (values q.jobs)))) [
      | inl nobody ↦ rw nobody (same-Performed q)
      | inr (job, chosen) ↦
          (let all =
              sort_by-All not_older (λ j. get j.job_id q.jobs ≡ some j) (values q.jobs)
                (get-values (λ (j : Job). j.job_id) q.jobs v.unique
                  (IsUnique-Every _ q.jobs v.unique (λ k j at. (v.lawful k j at).named))) in
            let (fits, at) =
              first_eligible-some now job_types (λ j. get j.job_id q.jobs ≡ some j)
                (by_age (values q.jobs)) job all chosen in
            rw chosen (
              put-Performed q job.job_id true (claimed job worker_id now) (
                rw at (
                  moved (
                    claiming worker_id now (ground (arith, status_iff job.status queued))
                      (ground arith))))))
    ]

finish-Performed :
    (q : Queue) (job_id : String) (outcome : Fields) (now : ℕ)
    → Performed q (perform (succeed job_id outcome) now q).1 (λ _. false)
unfolding perform Queue.succeed require_running
finish-Performed q job_id outcome now = elim (Option-cases (get job_id q.jobs)) [
  | inl missing ↦ rw missing (same-Performed q)
  | inr (job, at) ↦ rw at (elim (Bool-cases (job.status == running)) [
    | inl runs ↦ rw runs (
        put-Performed q job_id false (finished job outcome now)
          (rw at (moved (finishing outcome now ((status_iff job.status running).0 runs)))))
    | inr rests ↦ rw rests (same-Performed q)
  ])
]

fail-Performed :
    (q : Queue) (job_id code : String) (delay now : ℕ)
    → Performed q (perform (fail job_id code delay) now q).1 (λ _. false)
unfolding perform Queue.fail require_running
fail-Performed q job_id code delay now = elim (Option-cases (get job_id q.jobs)) [
  | inl missing ↦ rw missing (same-Performed q)
  | inr (job, at) ↦ rw at (elim (Bool-cases (job.status == running)) [
    | inl runs ↦ rw runs (
        put-Performed q job_id false (retried job code delay now)
          (rw at (moved (failing code delay now ((status_iff job.status running).0 runs)))))
    | inr rests ↦ rw rests (same-Performed q)
  ])
]

recovered-free :
    (stale_before : ℕ) (code : String) (now : ℕ) (d : Dict String Job) (id : String)
    → get id d ≡ none
    → get id (recover_entries stale_before code now d).0 ≡ none
unfolding recover_entries get
recovered-free stale_before code now [] id free = refl
recovered-free stale_before code now ((k, job) ∷ d) id free = elim (Bool-cases (id == k)) [
  | inl same ↦ ground arith
  | inr other ↦
      (let rest = recovered-free stale_before code now d id (rw other at free) in
        elim (Bool-cases (is_stale stale_before job)) [
          | inl stale ↦ rw stale (rw other rest)
          | inr fresh ↦ rw fresh (rw other rest)
        ])
]

recovered-IsUnique :
    (stale_before : ℕ) (code : String) (now : ℕ) (d : Dict String Job)
    → IsUnique d
    → IsUnique (recover_entries stale_before code now d).0
unfolding recover_entries
recovered-IsUnique stale_before code now [] u = tt
recovered-IsUnique stale_before code now ((k, job) ∷ d) u =
    let free = recovered-free stale_before code now d k u.0 in
    let rest = recovered-IsUnique stale_before code now d u.1 in
    elim (Bool-cases (is_stale stale_before job)) [
      | inl stale ↦ rw stale (free, rest)
      | inr fresh ↦ rw fresh (free, rest)
    ]

recover-Performed :
    (q : Queue) (stale_before : ℕ) (code : String) (now : ℕ)
    → Performed q (perform (recover_stale stale_before code) now q).1 (λ _. false)
unfolding perform Queue.recover_stale
recover-Performed q stale_before code now = record {
  change = λ id. get-recovered stale_before code now q.jobs id;
  unique = λ u. recovered-IsUnique stale_before code now q.jobs u;
  entries = λ key id at. inl at;
  kept = λ key id at. at;
}

pub perform-Performed :
    (q : Queue) (call : Call) (now : ℕ)
    → IsValid q
    → IsAllowed call q
    → Performed q (perform call now q).1 (claims call (perform call now q).0)
perform-Performed q (enqueue command fresh) now v a = enqueue-Performed q command fresh now a
perform-Performed q (claim worker_id job_types) now v a =
    claim-Performed q worker_id job_types now v
perform-Performed q (succeed job_id outcome) now v a = finish-Performed q job_id outcome now
perform-Performed q (fail job_id code delay) now v a = fail-Performed q job_id code delay now
perform-Performed q (recover_stale stale_before code) now v a =
    recover-Performed q stale_before code now

pub Performed-IsValid :
    (q q' : Queue) (mark : String → Bool) → Performed q q' mark → IsValid q → IsValid q'
Performed-IsValid q q' mark p v = record {
  unique = p.unique v.unique;
  lawful = λ id job at. Change-IsLawful job (p.change id) (λ old was. v.lawful id old was) at;
  found = λ key id at. elim (p.entries key id at) [
    | inl before ↦
        (let (job, there, same) = v.found key id before in
          let (next, now_there, kept) = Change-kept job (p.change id) there in
          (next, now_there, kept ∙ same))
    | inr new ↦ new
  ];
}
