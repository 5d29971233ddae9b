-- ===== src/Releases/HumanGates.antt =====
-- The human gates: what the audit log holds of a release that has come past them.
use alos_backend.Prelude.{
  ℕ, String, ◌≡◌, ◌⊎◌, some, none, Bool, true, false, ◌&&◌, string_eq, arith,
}
use alos_backend.Audit.{AuditEvent, AuditLog, append, human}
use alos_backend.Governance.{Materiality, requires_director}
use alos_backend.Releases.State.{
  ReleaseState, ready_for_it, it_approved, ready_for_director, director_approved, released, active,
  suspended, rolled_back, state_eq, GovernedRelease,
}
use alos_backend.Releases.Authority.{Options, updated, keep, transition_event}
use alos_backend.Releases.Gates.{releasable_from, decision_target}
use alos_backend.Releases.Outcomes.{contains_one}
use alos_backend.Releases.Trail.{logged, logged-append, logged-append_old, is_move-transition_event}
use alos_backend.Releases.Steps.{
  Edge, implement, assure, ai_review, submit_it, it_decide, submit_director, director_decide,
  publish,
}

-- the states that a release has once it was released
abbrev pub was_released : ReleaseState → Bool
was_released released = true
was_released active = true
was_released suspended = true
was_released rolled_back = true
was_released _ = false

-- the states behind the IT gate
abbrev pub past_it : ReleaseState → Bool
past_it it_approved = true
past_it ready_for_director = true
past_it director_approved = true
past_it state = was_released state

-- the states behind the Director gate, which only a material release takes
abbrev pub past_director : Materiality → ReleaseState → Bool
past_director materiality director_approved = true
past_director materiality state = was_released state && requires_director materiality

pub record IsSound (log : AuditLog) (r : GovernedRelease) : Type 0 where
  pub killed : r.kill_switch_active ≡ true → r.state ≡ suspended
  pub once : r.ever_released ≡ was_released r.state
  pub it_gate : past_it r.state ≡ true → logged r.release_id ready_for_it it_approved log ≡ true
  pub director_gate :
      past_director r.materiality r.state ≡ true
      → logged r.release_id ready_for_director director_approved log ≡ true

pub append-IsSound :
    (log : AuditLog) (event : AuditEvent) (r : GovernedRelease)
    → IsSound log r
    → IsSound (append event log) r
append-IsSound log event r h = record {
  killed = h.killed;
  once = h.once;
  it_gate = λ p. logged-append_old _ _ _ event log (h.it_gate p);
  director_gate = λ p. logged-append_old _ _ _ event log (h.director_gate p);
}

module _ (log : AuditLog) (r : GovernedRelease) (target : ReleaseState) (actor correlation : String)
    (options : Options) (now : ℕ) where
  abbrev pub after : GovernedRelease
  after = updated r target correlation options

  abbrev pub longer : AuditLog
  longer = append (transition_event r after actor options now) log

  -- what the log says of a human move of this transition
  after-logged :
      (source to : ReleaseState)
      → options.actor_kind ≡ human
      → r.state ≡ source
      → target ≡ to
      → logged r.release_id source to longer ≡ true
  unfolding updated
  after-logged source to h e t = ground (
    arith,
    logged-append r.release_id source to (transition_event r after actor options now) log,
    is_move-transition_event r after actor options now h,
  )

  pub Edge-IsSound : Edge r target options → IsSound log r → IsSound longer after
  unfolding updated decision_target releasable_from
  Edge-IsSound (implement e t o) h =
      ground (arith, append-IsSound log (transition_event r after actor options now) r h)
  Edge-IsSound (it_decide d by same fits e t o) h = ground (
    arith,
    append-IsSound log (transition_event r after actor options now) r h,
    after-logged ready_for_it it_approved,
  )
  Edge-IsSound (director_decide d by same fits e t o) h = ground (
    arith,
    append-IsSound log (transition_event r after actor options now) r h,
    after-logged ready_for_director director_approved,
  )
  Edge-IsSound (publish e t o) h = ground (
    arith,
    append-IsSound log (transition_event r after actor options now) r h,
    contains_one r.state director_approved,
    contains_one r.state it_approved,
  )
  Edge-IsSound (assure report p e t o) h =
      ground (arith, append-IsSound log (transition_event r after actor options now) r h)
  Edge-IsSound (ai_review review same fits e t o) h =
      ground (arith, append-IsSound log (transition_event r after actor options now) r h)
  Edge-IsSound (submit_it e t o) h =
      ground (arith, append-IsSound log (transition_event r after actor options now) r h)
  Edge-IsSound (submit_director m e t o) h =
      ground (arith, append-IsSound log (transition_event r after actor options now) r h)

  -- the moves of a release that was released before
  pub switch-IsSound :
      was_released r.state ≡ true
      → was_released target ≡ true
      → (options.ever_released ≡ none) ⊎ (options.ever_released ≡ some true)
      → (keep r.kill_switch_active options.kill_switch_active ≡ true → target ≡ suspended)
      → IsSound log r
      → IsSound longer after
  unfolding updated
  switch-IsSound was will once kill h =
      ground (arith, append-IsSound log (transition_event r after actor options now) r h)
