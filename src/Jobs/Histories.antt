-- ===== src/Jobs/Histories.antt =====
-- What holds of the queue after every history of calls on a new repository.
use alos_backend.Prelude.{
  ℕ, ◌+◌, ◌≤◌, String, ◌≡◌, refl, Option, none, some, List, [], ◌∷◌, Bool, true, false, arith, ok,
  if◌then◌else◌, string_eq,
}
use alos_backend.Prelude.Dict.{get}
use alos_backend.Jobs.State.{EnqueueJob, Job, Queue, empty, JobKey, job_key_eq}
use alos_backend.Jobs.Queue.{enqueue, command_key, claimed, finished, retried, released, new_job}
use alos_backend.Jobs.Commands.{Call, perform, replay}
use alos_backend.Jobs.Changes.{
  Move, Change, unchanged, added, moved, claims, IsAllowed, claiming, finishing, failing,
  recovering,
}
use alos_backend.Jobs.Lawful.{IsLawful, IsValid, HasBudget-within, is_ended, key_of}
use alos_backend.Jobs.Performed.{perform-Performed, Performed-IsValid}

abbrev pub History : Type 0
History = List (Call × ℕ)

abbrev pub AreAllowed : History → Queue → Type 0
AreAllowed [] q = Unit
AreAllowed ((call, now) ∷ rest) q = IsAllowed call q × AreAllowed rest (perform call now q).1

perform-IsValid :
    (q : Queue) (call : Call) (now : ℕ)
    → IsValid q
    → IsAllowed call q
    → IsValid (perform call now q).1
perform-IsValid q call now v a =
    Performed-IsValid q (perform call now q).1 _ (perform-Performed q call now v a) v

pub replay-IsValid : (h : History) (q : Queue) → AreAllowed h q → IsValid q → IsValid (replay h q)
unfolding replay
replay-IsValid [] q a v = v
replay-IsValid ((call, now) ∷ rest) q a v =
    replay-IsValid rest (perform call now q).1 a.1 (perform-IsValid q call now v a.0)

pub empty-IsValid : IsValid empty
unfolding get
empty-IsValid = record { unique = tt; lawful = λ id job at. cc; found = λ key id at. cc }

-- After any history, every job is stored under its identifier, has used at most its attempts, of
-- which a queued job has one left, a failed job none, is leased exactly while it runs, has a
-- completion time exactly if it ended, and a result exactly if it succeeded.
pub replay-IsLawful :
    (h : History) (id : String) (job : Job)
    → AreAllowed h empty
    → get id (replay h empty).jobs ≡ some job
    → IsLawful id job
replay-IsLawful h id job a at = (replay-IsValid h empty a empty-IsValid).lawful id job at

-- how often a history gives a job to a worker
unfoldable pub claim_count : String → History → Queue → ℕ
claim_count id [] q = 0
claim_count id ((call, now) ∷ rest) q =
    (if claims call (perform call now q).0 id then 1 else 0)
    + claim_count id rest (perform call now q).1

abbrev pub attempts_of : Option Job → ℕ
attempts_of none = 0
attempts_of (some job) = job.attempts

Move-attempts :
    {mark : Bool} {job job' : Job}
    → Move job mark job'
    → job'.attempts ≡ (if mark then 1 else 0) + job.attempts
unfolding claimed finished retried released
Move-attempts (claiming worker now state spare) = omega arith
Move-attempts (finishing outcome now state) = omega arith
Move-attempts (failing code delay now state) = omega arith
Move-attempts (recovering code now state) = omega arith

Change-attempts :
    {id : String} {mark : Bool} {o o' : Option Job}
    → Change id mark o o'
    → attempts_of o' ≡ (if mark then 1 else 0) + attempts_of o
unfolding new_job
Change-attempts unchanged = omega arith
Change-attempts (added command now h) = omega arith
Change-attempts (moved m) = Move-attempts m

replay-attempts :
    (id : String) (h : History) (q : Queue)
    → AreAllowed h q
    → IsValid q
    → attempts_of (get id (replay h q).jobs) ≡ claim_count id h q + attempts_of (get id q.jobs)
unfolding replay claim_count
replay-attempts id [] q a v = omega arith
replay-attempts id ((call, now) ∷ rest) q a v =
    let first = Change-attempts ((perform-Performed q call now v a.0).change id) in
    let later =
      replay-attempts id rest (perform call now q).1 a.1 (perform-IsValid q call now v a.0) in
    omega arith

-- Over any history, a job is claimed exactly as often as its attempts say, so at most as often as
-- its maximum allows.
pub claim_count-attempts :
    (h : History) (id : String) (job : Job)
    → AreAllowed h empty
    → get id (replay h empty).jobs ≡ some job
    → (claim_count id h empty ≡ job.attempts) × (claim_count id h empty ≤ job.max_attempts)
unfolding get
claim_count-attempts h id job a at =
    let counted = replay-attempts id h empty a empty-IsValid in
    let same : claim_count id h empty ≡ job.attempts = ground arith in
    let within =
      HasBudget-within job.status job.attempts job.max_attempts
        (replay-IsLawful h id job a at).budget in
    (same, rw same within)

Move-open : {mark : Bool} {job job' : Job} → Move job mark job' → is_ended job.status ≡ false
Move-open (claiming worker now state spare) = rw state refl
Move-open (finishing outcome now state) = rw state refl
Move-open (failing code delay now state) = rw state refl
Move-open (recovering code now state) = rw state refl

Change-ended :
    {id : String} {mark : Bool} {o o' : Option Job} (job : Job)
    → Change id mark o o'
    → o ≡ some job
    → is_ended job.status ≡ true
    → o' ≡ some job
Change-ended job unchanged at ended = at
Change-ended job (added command now h) at ended = cc
Change-ended job (moved {job = old} m) at ended =
    let same : old ≡ job = ground arith in let still_open = rw same at (Move-open m) in cc

ended-kept :
    (later : History) (q : Queue) (id : String) (job : Job)
    → AreAllowed later q
    → IsValid q
    → get id q.jobs ≡ some job
    → is_ended job.status ≡ true
    → get id (replay later q).jobs ≡ some job
unfolding replay
ended-kept [] q id job a v at ended = at
ended-kept ((call, now) ∷ rest) q id job a v at ended =
    ended-kept rest (perform call now q).1 id job a.1 (perform-IsValid q call now v a.0)
      (Change-ended job ((perform-Performed q call now v a.0).change id) at ended) ended

-- A job that succeeded or failed stays as it is, whatever calls follow.
pub replay-ended :
    (h later : History) (id : String) (job : Job)
    → AreAllowed h empty
    → AreAllowed later (replay h empty)
    → get id (replay h empty).jobs ≡ some job
    → is_ended job.status ≡ true
    → get id (replay later (replay h empty)).jobs ≡ some job
replay-ended h later id job a b at ended =
    ended-kept later (replay h empty) id job b (replay-IsValid h empty a empty-IsValid) at ended

index-kept :
    (later : History) (q : Queue) (key : JobKey) (id : String)
    → AreAllowed later q
    → IsValid q
    → get key q.idempotency ≡ some id
    → get key (replay later q).idempotency ≡ some id
unfolding replay
index-kept [] q key id a v at = at
index-kept ((call, now) ∷ rest) q key id a v at =
    index-kept rest (perform call now q).1 key id a.1 (perform-IsValid q call now v a.0)
      ((perform-Performed q call now v a.0).kept key id at)

-- Once the index leads from a key to an identifier, enqueuing a command with that key after any
-- further calls gives back the job of that identifier and changes nothing.
pub enqueue-again :
    (h later : History) (command : EnqueueJob) (id fresh : String) (now : ℕ)
    → AreAllowed h empty
    → AreAllowed later (replay h empty)
    → get (command_key command) (replay h empty).idempotency ≡ some id
    → let q = replay later (replay h empty) in
      (job : Job) × (job.job_id ≡ id)
      × (key_of job ≡ command_key command)
      × (get id q.jobs ≡ some job)
      × (enqueue command fresh now q ≡ (ok job, q))
unfolding enqueue
enqueue-again h later command id fresh now a b at =
    let v = replay-IsValid h empty a empty-IsValid in
    let known = index-kept later (replay h empty) (command_key command) id b v at in
    let v' = replay-IsValid later (replay h empty) b v in
    let (job, there, same) = v'.found (command_key command) id known in
    (job, (v'.lawful id job there).named, same, there, rw known (rw there refl))
