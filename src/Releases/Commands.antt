-- ===== src/Releases/Commands.antt =====
-- The methods as commands, so that a history of calls is a list.
use alos_backend.Prelude.{ℕ, String, List, [], ◌∷◌}
use alos_backend.Governance.{AuthoritativeDecision, ReviewPackageReference}
use alos_backend.Governance.Assurance.{AutomatedAssuranceReport}
use alos_backend.Releases.State.{GovernedRelease, Authority}
use alos_backend.Releases.Authority
use alos_backend.Releases.Authority.{Method, Creation}
use alos_backend.Releases.Gates

pub data Command : Type 0 where
  create : Creation → Command
  mark_implemented submit_for_it submit_for_director : String → String → String → Command
  record_automated_assurance : String → AutomatedAssuranceReport → String → String → Command
  record_ai_review_package : String → ReviewPackageReference → String → String → Command
  record_it_decision record_director_decision : String → AuthoritativeDecision → String → Command
  release activate : String → String → String → Command
  activate_kill_switch clear_kill_switch : String → String → String → String → Command
  rollback : String → String → String → String → String → Command

-- one call, with the clock's reading
unfoldable pub execute : Command → ℕ → Method GovernedRelease
execute (create command) now = Authority.create command now
execute (mark_implemented id actor correlation) now =
    Authority.mark_implemented id actor correlation now
execute (submit_for_it id actor correlation) now = Authority.submit_for_it id actor correlation now
execute (submit_for_director id actor correlation) now =
    Gates.submit_for_director id actor correlation now
execute (record_automated_assurance id report actor correlation) now =
    Authority.record_automated_assurance id report actor correlation now
execute (record_ai_review_package id review actor correlation) now =
    Authority.record_ai_review_package id review actor correlation now
execute (record_it_decision id decision correlation) now =
    Gates.record_it_decision id decision correlation now
execute (record_director_decision id decision correlation) now =
    Gates.record_director_decision id decision correlation now
execute (release id actor correlation) now = Gates.release id actor correlation now
execute (activate id actor correlation) now = Gates.activate id actor correlation now
execute (activate_kill_switch id actor reason correlation) now =
    Gates.activate_kill_switch id actor reason correlation now
execute (clear_kill_switch id actor reason correlation) now =
    Gates.clear_kill_switch id actor reason correlation now
execute (rollback id target actor reason correlation) now =
    Gates.rollback id target actor reason correlation now

-- A history of calls; what a call raises is handled by its caller, who goes on.
unfoldable pub run : List (Command × ℕ) → Authority → Authority
run [] s = s
run ((command, now) ∷ rest) s = run rest (execute command now s).1
