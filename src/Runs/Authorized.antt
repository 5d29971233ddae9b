-- ===== src/Runs/Authorized.antt =====
-- What `runtime_authorization` says of a run that `begin` gave.
use alos_backend.Prelude.{
  ℕ, ◌≡◌, refl, sym, ◌∙◌, ap, ◌⊎◌, inl, inr, some, List, false, ◌==◌, string_eq, Bool-cases, Result,
  ok, err,
}
use alos_backend.Prelude.Dict.{get}
use alos_backend.Registry.State.{RegistryEntry}
use alos_backend.Runs.State.{
  running, run_status_eq, run_status_iff, RunError, not_running, RunRequest, RunRecord, Settings,
  Runs,
}
use alos_backend.Runs.Authority
use alos_backend.Runs.Authority.{
  new_run, find_run, authorization_name, RuntimeAuthorization, runtime_authorization,
}
use alos_backend.Runs.Granted.{IsGranted, begin-IsGranted, begin-cases}
use alos_backend.Runs.Calls.{RunCall, begin, apply, replay, apply-Changed}
use alos_backend.Runs.Trails.{no_runs, no_runs-IsTraced, replay-IsTraced, Changed-IsTraced}
use alos_backend.Runs.Histories.{IsSame-after}

-- What the run was granted when it began.
abbrev pub grant : RunRequest → RegistryEntry → RunRecord → RuntimeAuthorization
grant request agent run = record {
  run_id = request.run_id;
  registry_digest = agent.digest;
  lifecycle_state = authorization_name agent;
  allowed_tool_ids = run.authorized_tool_ids;
  authorized_skill_refs = run.authorized_skill_refs;
}

-- The answer for the run in state s, and what is stored under its id there.
pub record IsAnswered (request : RunRequest) (agent : RegistryEntry) (run : RunRecord) (s : Runs)
    (x : Result RunError RuntimeAuthorization × Runs) : Type 0 where
  pub kept : x.1 ≡ s
  pub later : RunRecord
  pub stored : get request.run_id s.runs ≡ some later
  pub answer :
      ((later.status ≡ running) × (x.0 ≡ ok (grant request agent run)))
      ⊎ (((later.status == running) ≡ false) × (x.0 ≡ err not_running))

abbrev authorization_of : RunRecord → RuntimeAuthorization
authorization_of run = record {
  run_id = run.run_id;
  registry_digest = run.registry_digest;
  lifecycle_state = run.lifecycle_authorization;
  allowed_tool_ids = run.authorized_tool_ids;
  authorized_skill_refs = run.authorized_skill_refs;
}

stored-IsAnswered :
    (request : RunRequest) (agent : RegistryEntry) (run later : RunRecord) (s : Runs)
    → get request.run_id s.runs ≡ some later
    → authorization_of later ≡ grant request agent run
    → IsAnswered request agent run s (runtime_authorization request.run_id s)
unfolding runtime_authorization find_run
stored-IsAnswered request agent run later s at same = elim (Bool-cases (later.status == running)) [
  | inl on ↦ record {
    kept = rw (at, on) refl;
    later = later;
    stored = at;
    answer = inl ((run_status_iff later.status running).0 on, rw (at, on) (ap ok same));
  }
  | inr off ↦ record {
    kept = rw (at, off) refl;
    later = later;
    stored = at;
    answer = inr (off, rw (at, off) refl);
  }
]

begun-grant :
    (settings : Settings) (request : RunRequest) (agent : RegistryEntry) (now : ℕ) (s s' : Runs)
    (run : RunRecord)
    → Authority.begin settings request agent now s ≡ (ok run, s')
    → authorization_of run ≡ grant request agent run
unfolding new_run
begun-grant settings request agent now s s' run h =
    let (context, authorized, is_granted, made, free, after) =
      begin-cases settings request agent now s s' run h in
    rw (sym made) refl

-- After any history in which `begin` gave a run, and any calls that follow, the run is stored, and
-- `runtime_authorization` changes nothing: while the run is running it answers with the digest and
-- the lifecycle of the agent's entry that `begin` was given and with the tools and skills that
-- `begin` granted, and otherwise it raises that the run is not running.
pub runtime_authorization-IsAnswered :
    (calls further : List (RunCall × ℕ)) (settings : Settings) (request : RunRequest)
    (agent : RegistryEntry) (now : ℕ) (run : RunRecord)
    → (Authority.begin settings request agent now (replay calls no_runs)).0 ≡ ok run
    → let s = replay further (apply (begin settings request agent) now (replay calls no_runs)) in
      IsGranted settings request agent run
      × IsAnswered request agent run s (runtime_authorization request.run_id s)
unfolding apply
runtime_authorization-IsAnswered calls further settings request agent now run h =
    let s = replay calls no_runs in
    let s' = apply (begin settings request agent) now s in
    let gave : Authority.begin settings request agent now s ≡ (ok run, s') = ap (λ r. (r, s')) h in
    let (is_granted, status, free, at) = begin-IsGranted settings request agent now s s' run gave in
    let traced =
      Changed-IsTraced s s' (apply-Changed (begin settings request agent) now s)
        (replay-IsTraced calls no_runs no_runs-IsTraced) in
    let (later, there, same) = IsSame-after further s' request.run_id run traced at in
    (
      is_granted,
      stored-IsAnswered request agent run later (replay further s') there
          (ap authorization_of same.same ∙ begun-grant settings request agent now s s' run gave),
    )
