-- ===== src/Runs/Calls.antt =====
-- The calls on the authority over runs, so that a history of calls is a list. Each may meet another
-- registry of skills. A call changes one run, or none.
use alos_backend.Prelude.{
  ℕ, ◌≡◌, refl, inl, inr, none, some, List, [], ◌∷◌, true, false, not, ◌==◌, string_eq,
  Option-cases, pure, raise_if, or_raise, ◌>>◌,
}
use alos_backend.Prelude.Dict.{get, insert}
use alos_backend.Prelude.Checks.{raise_if-Checks, or_raise-Checks, Checks-state, passed}
use alos_backend.Audit.{append}
use alos_backend.Registry.State.{RegistryEntry}
use alos_backend.Runs.State.{
  RunStatus, running, run_status_eq, run_status_iff, no_context, run_not_found, already_terminal,
  result_differs, not_terminal, RunRequest, RunResult, RunRecord, Settings, Runs,
}
use alos_backend.Runs.Requirements.{
  require_context, require_lifecycle, require_permissions, require_scope, require_tools,
  authorize_skills,
}
use alos_backend.Runs.Authority
use alos_backend.Runs.Authority.{
  new_run, create_run, update_run, find_run, record_run, run_event, matches_run, status_of, ended,
  ending,
}
use alos_backend.Runs.Usable.{authorize_skills-Checks}
use alos_backend.Runs.Checked.{
  require_context-Checks, require_permissions-Checks, require_scope-Checks, require_tools-Checks,
}
use alos_backend.Runs.Granted.{started}

pub data RunCall : Type 0 where
  begin : Settings → RunRequest → RegistryEntry → RunCall
  complete : RunResult → RunCall

unfoldable pub apply : RunCall → ℕ → Runs → Runs
apply (begin settings request agent) now s = (Authority.begin settings request agent now s).1
apply (complete result) now s = (Authority.complete result now s).1

unfoldable pub replay : List (RunCall × ℕ) → Runs → Runs
replay [] s = s
replay ((call, now) ∷ rest) s = replay rest (apply call now s)

-- The run has its end stored and logged.
abbrev pub concluded : RunRecord → ℕ → Runs → Runs
concluded run now s = record {
  runs = insert run.run_id run s.runs;
  log = append (run_event run (ending run.status) now) s.log;
}

pub record IsNew (run : RunRecord) : Type 0 where
  pub is_running : run.status ≡ running
  pub no_end : run.completed_at ≡ none
  pub no_result : run.result ≡ none

pub data Changed (s : Runs) : Runs → Type 0 where
  unchanged : Changed s s
  begun :
      (run : RunRecord) (now : ℕ)
      → IsNew run
      → get run.run_id s.runs ≡ none
      → Changed s (started run now s)
  finished :
      (current : RunRecord) (target : RunStatus) (result : RunResult) (now : ℕ)
      → get result.run_id s.runs ≡ some current
      → current.status ≡ running
      → matches_run current result ≡ true
      → (target == running) ≡ false
      → Changed s (concluded (ended current target result now) now s)

created-Changed :
    (run : RunRecord) (now : ℕ) (s : Runs)
    → IsNew run
    → Changed s ((create_run run >> (record_run run "run.started" now >> pure run)) s).1
unfolding create_run
created-Changed run now s fresh = elim (Option-cases (get run.run_id s.runs)) [
  | inl free ↦ rw free (begun run now fresh free)
  | inr (other, at) ↦ rw at unchanged
]

begin-Changed :
    (settings : Settings) (request : RunRequest) (agent : RegistryEntry) (now : ℕ) (s : Runs)
    → Changed s (Authority.begin settings request agent now s).1
unfolding Authority.begin new_run require_lifecycle
begin-Changed settings request agent now s =
    Checks-state (Changed s) _ (or_raise request.execution_context no_context) _ s
      (or_raise-Checks _ _) unchanged
      (λ context given.
        Checks-state (Changed s) _ (require_context request context agent) _ s
          (require_context-Checks request context agent) unchanged
          (λ _ here.
            Checks-state (Changed s) _ (require_lifecycle settings request agent) _ s
              (raise_if-Checks _ _) unchanged
              (λ _ lifecycle.
                Checks-state (Changed s) _ (require_permissions settings context agent) _ s
                  (require_permissions-Checks settings context agent) unchanged
                  (λ _ permitted.
                    Checks-state (Changed s) _ (require_scope settings context agent) _ s
                      (require_scope-Checks settings context agent) unchanged
                      (λ _ scoped.
                        Checks-state (Changed s) _ (require_tools settings request agent) _ s
                          (require_tools-Checks settings request agent) unchanged
                          (λ _ tooled.
                            Checks-state (Changed s) _
                              (authorize_skills settings request context agent) _ s
                              (authorize_skills-Checks settings request context agent) unchanged
                              (λ authorized usable.
                                created-Changed (new_run request context agent authorized now) now s
                                  (record {
                                    is_running = refl;
                                    no_end = refl;
                                    no_result = refl;
                                  }))))))))

updated-Changed :
    (current : RunRecord) (target : RunStatus) (result : RunResult) (now : ℕ) (s : Runs)
    → get result.run_id s.runs ≡ some current
    → current.status ≡ running
    → matches_run current result ≡ true
    → (target == running) ≡ false
    → let updated = ended current target result now in
      Changed s
        ((update_run updated >> (record_run updated (ending target) now >> pure updated)) s).1
unfolding update_run ended
updated-Changed current target result now s at from matching terminal =
    elim (Option-cases (get current.run_id s.runs)) [
      | inl missing ↦ rw missing unchanged
      | inr (other, there) ↦ rw there (finished current target result now at from matching terminal)
    ]

complete-Changed :
    (result : RunResult) (now : ℕ) (s : Runs) → Changed s (Authority.complete result now s).1
unfolding Authority.complete find_run
complete-Changed result now s =
    Checks-state (Changed s) _ (or_raise (get result.run_id s.runs) run_not_found) _ s
      (or_raise-Checks _ _) unchanged
      (λ current at.
        Checks-state (Changed s) _ (raise_if (not (current.status == running)) already_terminal) _ s
          (raise_if-Checks _ _) unchanged
          (λ _ from.
            Checks-state (Changed s) _ (raise_if (not (matches_run current result)) result_differs)
              _ s (raise_if-Checks _ _) unchanged
              (λ _ matching.
                Checks-state (Changed s) _ (or_raise (status_of result.status) not_terminal) _ s
                  (or_raise-Checks _ _) unchanged
                  (λ target named.
                    Checks-state (Changed s) _ (raise_if (target == running) not_terminal) _ s
                      (raise_if-Checks _ _) unchanged
                      (λ _ terminal.
                        updated-Changed current target result now s at
                          ((run_status_iff current.status running).0 (passed from))
                          (passed matching) terminal)))))

pub apply-Changed : (call : RunCall) (now : ℕ) (s : Runs) → Changed s (apply call now s)
unfolding apply
apply-Changed (begin settings request agent) now s = begin-Changed settings request agent now s
apply-Changed (complete result) now s = complete-Changed result now s
