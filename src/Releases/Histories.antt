-- ===== src/Releases/Histories.antt =====
-- What holds after every history of calls on a new authority.
use alos_backend.Prelude.{
  ℕ, String, ◌≡◌, ap, ◌⊎◌, inl, inr, some, none, List, [], ◌∷◌, true, false, ◌&&◌, not, ◌==◌,
  string_eq, key3_eq, arith, Result, ok, err,
}
use alos_backend.Prelude.Dict.{get}
use alos_backend.Governance.{requires_director}
use alos_backend.Releases.State.{
  active, suspended, it_approved, ready_for_it, ready_for_director, director_approved, state_eq,
  GovernedRelease, subject_key, ReleaseError, Authority, init,
}
use alos_backend.Releases.Gates.{execution_allowed}
use alos_backend.Releases.Commands.{Command, execute, run, clear_kill_switch}
use alos_backend.Releases.Outcomes.{Outcome}
use alos_backend.Releases.Steps.{Step}
use alos_backend.Releases.Refinement.{execute-Step, execute-Ends, Done}
use alos_backend.Releases.Sole.{IsSole}
use alos_backend.Releases.SoleKept.{Step-IsSole}
use alos_backend.Releases.Indexed.{IsIndexed}
use alos_backend.Releases.IndexKept.{Step-IsIndexed}
use alos_backend.Releases.HumanGates.{was_released}
use alos_backend.Releases.Trail.{logged}
use alos_backend.Releases.Governed.{IsGoverned, Step-IsGoverned}
use alos_backend.Releases.Changes.{Grows, Grows-same}
use alos_backend.Releases.ChangesKept.{Step-Grows}

abbrev pub History : Type 0
History = List (Command × ℕ)

-- the state after a history
abbrev pub after : History → Authority
after history = run history init

pub record IsValid (s : Authority) : Type 0 where
  pub indexed : IsIndexed s
  pub governed : IsGoverned s

-- A call makes a step or changes nothing.
pub Outcome-cases :
    {A : Type 0} (s : Authority) (x : Result ReleaseError A × Authority)
    → Outcome s (λ _ s'. Step s s') x
    → Step s x.1 ⊎ (x.1 ≡ s)
Outcome-cases s (ok a, s') h = inl h
Outcome-cases s (err e, s') h = inr h

pub execute-IsValid :
    (s : Authority) (c : Command) (now : ℕ) → IsValid s → IsValid (execute c now s).1
execute-IsValid s c now v =
    elim (Outcome-cases s (execute c now s) (execute-Step s c now v.indexed)) [
      | inl step ↦ record {
        indexed = Step-IsIndexed step v.indexed;
        governed = Step-IsGoverned step v.governed;
      }
      | inr same ↦ rw same v
    ]

-- A kill switch is cleared only while the index names no release of the subject.
abbrev pub Exclusive : Command → Authority → Type 0
Exclusive (clear_kill_switch id _ _ _) s =
    (q : GovernedRelease)
    → get id s.releases ≡ some q
    → get (subject_key q) s.active_by_subject ≡ none
Exclusive _ _ = Unit

abbrev pub IsExclusive : History → Authority → Type 0
IsExclusive [] s = Unit
IsExclusive ((c, now) ∷ h) s = Exclusive c s × IsExclusive h (execute c now s).1

Done-IsSole :
    (s : Authority) (c : Command) (r : GovernedRelease) (s' : Authority)
    → Exclusive c s
    → IsSole s
    → Done c s r s'
    → IsSole s'
Done-IsSole s (clear_kill_switch _ _ _ _) r s' x h d = Step-IsSole d.0 (d.1 x) h
Done-IsSole s _ r s' x h d = Step-IsSole d.0 d.1 h

Outcome-IsSole :
    (s : Authority) (c : Command) (x : Result ReleaseError GovernedRelease × Authority)
    → Exclusive c s
    → IsSole s
    → Outcome s (Done c s) x
    → IsSole x.1
Outcome-IsSole s c (ok r, s') x h d = Done-IsSole s c r s' x h d
Outcome-IsSole s c (err e, s') x h d = rw d h

run-IsSole :
    (h : History) (s : Authority) → IsExclusive h s → IsValid s → IsSole s → IsSole (run h s)
unfolding run
run-IsSole [] s x v sole = sole
run-IsSole ((c, now) ∷ h) s x v sole =
    run-IsSole h (execute c now s).1 x.1 (execute-IsValid s c now v)
      (Outcome-IsSole s c (execute c now s) x.0 sole (execute-Ends s c now v.indexed).outcome)

init-IsSole : IsSole init
unfolding get
init-IsSole = record { named = λ id r at act. cc }

run-IsValid : (h : History) (s : Authority) → IsValid s → IsValid (run h s)
unfolding run
run-IsValid [] s v = v
run-IsValid ((c, now) ∷ h) s v = run-IsValid h (execute c now s).1 (execute-IsValid s c now v)

init-IsValid : IsValid init
unfolding get
init-IsValid = record {
  indexed = record { entry = λ key id at. cc };
  governed = record { at = λ id r at. cc };
}

pub after-IsValid : (h : History) → IsValid (after h)
after-IsValid h = run-IsValid h init init-IsValid

-- After any history, a release that may execute is active with no kill switch set, has an audit
-- event of a human move from READY_FOR_IT to IT_APPROVED, and, if it is material, one of a human
-- move from READY_FOR_DIRECTOR to DIRECTOR_APPROVED.
pub execution_allowed-gates :
    (h : History) (id : String) (r : GovernedRelease)
    → get id (after h).releases ≡ some r
    → (execution_allowed id (after h)).0 ≡ ok true
    → (r.state ≡ active)
      × (r.kill_switch_active ≡ false)
      × (logged id ready_for_it it_approved (after h).audit ≡ true)
      × (requires_director r.materiality ≡ true
          → logged id ready_for_director director_approved (after h).audit ≡ true)
unfolding execution_allowed
execution_allowed-gates h id r found allowed =
    let (name, sound) = (after-IsValid h).governed.at id r found in
    let both : (r.state == active && not r.kill_switch_active) ≡ true = ground arith in
    let state : r.state ≡ active = ground (arith, state_eq.beq_iff r.state active) in
    (
      state,
      ground arith,
      rw name at (sound.it_gate (ground arith)),
      λ m. rw name at (sound.director_gate (ground arith)),
    )

-- After any history, the kill switch of a release is set only while the release is suspended, and
-- a release was released before exactly if it is released, active, suspended or rolled back.
pub after-flags :
    (h : History) (id : String) (r : GovernedRelease)
    → get id (after h).releases ≡ some r
    → (r.kill_switch_active ≡ true → r.state ≡ suspended) × (r.ever_released ≡ was_released r.state)
after-flags h id r found =
    let (name, sound) = (after-IsValid h).governed.at id r found in (sound.killed, sound.once)

-- After any history, a call extends the audit log, keeps every release with its identity and
-- provenance, leaves closed releases (returned, rejected, held, blocked) as they are, and changes
-- no release that none of the new audit events names.
pub execute-Grows :
    (h : History) (c : Command) (now : ℕ) → Grows (after h) (execute c now (after h)).1
execute-Grows h c now =
    elim (Outcome-cases (after h) (execute c now (after h))
      (execute-Step (after h) c now (after-IsValid h).indexed)) [
        | inl step ↦ Step-Grows step (after-IsValid h).governed
        | inr same ↦
            Grows-same (ap (λ (s : Authority). s.releases) same)
              (ap (λ (s : Authority). s.audit) same)
      ]

-- After a history in which every kill switch is cleared while the index names no release of the
-- subject, two active releases of one subject are the same release.
pub after-sole_active :
    (h : History) (id id' : String) (r r' : GovernedRelease)
    → IsExclusive h init
    → get id (after h).releases ≡ some r
    → get id' (after h).releases ≡ some r'
    → r.state ≡ active
    → r'.state ≡ active
    → subject_key r ≡ subject_key r'
    → id ≡ id'
after-sole_active h id id' r r' x found found' act act' same =
    let sole = run-IsSole h init x init-IsValid init-IsSole in
    let named = sole.named id r found act in
    let named' = sole.named id' r' found' act' in cc (named, named')
