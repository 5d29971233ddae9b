-- ===== src/Releases/Refinement.antt =====
-- The calls, in terms of the step relation.
use alos_backend.Prelude.{ℕ, Result, ok, err}
use alos_backend.Releases.State.{GovernedRelease, ReleaseError, Authority}
use alos_backend.Releases.Commands.{
  Command, create, mark_implemented, submit_for_it, submit_for_director, record_automated_assurance,
  record_ai_review_package, record_it_decision, record_director_decision, release, activate,
  activate_kill_switch, clear_kill_switch, rollback, execute,
}
use alos_backend.Releases.Indexed.{IsIndexed}
use alos_backend.Releases.Outcomes.{Ends, Outcome}
use alos_backend.Releases.Steps.{Step}
use alos_backend.Releases.Moves.{
  Stepped, Cleared, create-Step, mark_implemented-Step, record_automated_assurance-Step,
  record_ai_review_package-Step, submit_for_it-Step, submit_for_director-Step, release-Step,
  record_it_decision-Step, record_director_decision-Step,
}
use alos_backend.Releases.Switches.{
  activate-Step, activate_kill_switch-Step, clear_kill_switch-Step, rollback-Step,
}

abbrev pub Done : Command → Authority → GovernedRelease → Authority → Type 0
Done (clear_kill_switch id _ _ _) = Cleared id
Done _ = Stepped

pub execute-Ends :
    (s : Authority) (command : Command) (now : ℕ)
    → IsIndexed s
    → Ends s (Done command s) (execute command now s)
unfolding execute
execute-Ends s (create c) now h = create-Step s c now
execute-Ends s (mark_implemented id a c) now h = mark_implemented-Step s id a c now
execute-Ends s (submit_for_it id a c) now h = submit_for_it-Step s id a c now
execute-Ends s (submit_for_director id a c) now h = submit_for_director-Step s id a c now
execute-Ends s (record_automated_assurance id report a c) now h =
    record_automated_assurance-Step s id a c now report
execute-Ends s (record_ai_review_package id review a c) now h =
    record_ai_review_package-Step s id a c now review
execute-Ends s (record_it_decision id d c) now h = record_it_decision-Step s id d c now
execute-Ends s (record_director_decision id d c) now h = record_director_decision-Step s id d c now
execute-Ends s (release id a c) now h = release-Step s id a c now
execute-Ends s (activate id a c) now h = activate-Step s id a c now h
execute-Ends s (activate_kill_switch id a reason c) now h =
    activate_kill_switch-Step s id a c now reason
execute-Ends s (clear_kill_switch id a reason c) now h = clear_kill_switch-Step s id a c now reason
execute-Ends s (rollback id target a reason c) now h = rollback-Step s id target a reason c now

Done-Step :
    (s : Authority) (command : Command) (r : GovernedRelease) (s' : Authority)
    → Done command s r s'
    → Step s s'
Done-Step s (create _) r s' d = d.0
Done-Step s _ r s' d = d.0

Outcome-map :
    {A : Type 0} (s : Authority) {Q R : A → Authority → Type 0}
    (x : Result ReleaseError A × Authority)
    → ((a : A) (s' : Authority) → Q a s' → R a s')
    → Outcome s Q x
    → Outcome s R x
Outcome-map s (ok a, s') f h = f a s' h
Outcome-map s (err e, s') f h = h

-- Where every entry of the index names an active release of its subject, a call either returns and
-- makes one step of the lifecycle, or raises and leaves releases, index and audit log as they were.
pub execute-Step :
    (s : Authority) (command : Command) (now : ℕ)
    → IsIndexed s
    → Outcome s (λ _ s'. Step s s') (execute command now s)
execute-Step s command now h =
    Outcome-map s (execute command now s) (Done-Step s command)
      (execute-Ends s command now h).outcome
