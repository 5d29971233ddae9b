-- ===== src/Releases/Switches.antt =====
-- The methods on released releases refine the step relation.
use alos_backend.Prelude.{
  ℕ, String, ◌≡◌, refl, ◌∙◌, ◌≢◌, inl, inr, some, [], ◌∷◌, Bool, true, false, not, ◌||◌, ◌==◌,
  string_eq, key3_eq, is_blank, Bool-cases, Option-cases, arith, gets, pure, ◌>>=◌, ◌>>◌,
}
use alos_backend.Prelude.Dict.{get}
use text.Mathlib.TextEquality.{eq_iff}
use alos_backend.Releases.State.{
  ReleaseState, released, active, suspended, rolled_back, state_eq, GovernedRelease, subject_key,
  Authority, reason_required, no_kill_switch,
}
use alos_backend.Releases.Authority
use alos_backend.Releases.Authority.{Method, Creation, defaults, updated, Options, package_differs}
use alos_backend.Releases.Gates
use alos_backend.Releases.Gates.{decision_differs, decision_target, releasable_from, is_it}
use alos_backend.Releases.Outcomes.{
  Ends, Ends-raise_if, Ends-find, Ends-transition, contains_one, contains_self,
}
use alos_backend.Releases.Steps.{
  written, indexed, activated_alone, activated_over, killed, cleared, rolled, activation,
  supersession, killing, clearing, rolling, restored, unindexed,
}
use alos_backend.Releases.Indexed.{IsIndexed}
use alos_backend.Releases.Moves.{Stepped, Cleared}
use alos_backend.Prelude.Dict.{get-insert}
use alos_backend.Releases.Outcomes.{transition_allowed}

module _ (s : Authority) (id actor correlation : String) (now : ℕ) where
  -- the release that is superseded is found unchanged after the first transition
  get-written :
      (r : GovernedRelease) (other_id : String) (target : ReleaseState) (options : Options)
      → (other_id == id) ≡ false
      → get other_id (written s id r target actor correlation options now).releases
        ≡ get other_id s.releases
  unfolding written
  get-written r other_id target options ne = rw get-insert (rw ne)

  activate_rest-Step :
      (r : GovernedRelease)
      → IsIndexed s
      → get id s.releases ≡ some r
      → r.state ≡ released
      → Ends s (Stepped s) (
          (do
            other_id ← gets (λ t. get (subject_key r) t.active_by_subject)
            Gates.supersede other_id id actor correlation now
            Authority.index (subject_key r) id
            pure (updated r active correlation activation))
            (written s id r active actor correlation activation now))
  unfolding Gates.supersede written updated
  activate_rest-Step r valid found state =
      elim (Option-cases (get (subject_key r) s.active_by_subject)) [
        | inl alone ↦ rw alone (record {
          outcome =
              unfold indexed in
              (activated_alone id r actor correlation now found state alone refl, tt);
        })
        | inr (other_id, e) ↦
            (let (other, at, is_active, same_subject) = valid.entry (subject_key r) other_id e in
              elim (Bool-cases (other_id == id)) [
                | inl same ↦ absurd (ground (arith, eq_iff other_id id))
                | inr ne ↦ rw e (
                    rw ne (
                      rw
                        (transition_allowed (written s id r active actor correlation activation now)
                          other_id (active ∷ []) suspended actor correlation supersession now other
                          (get-written r other_id active activation ne ∙ at)
                          (contains_self _ _ is_active))
                        (record {
                          outcome =
                              unfold indexed in
                              (
                                activated_over id r other_id other actor correlation now found state
                                    e at is_active refl,
                                tt,
                              );
                        })))
              ])
      ]

  pub activate-Step : IsIndexed s → Ends s (Stepped s) (Gates.activate id actor correlation now s)
  unfolding Gates.activate updated
  activate-Step valid =
      Ends-transition s (Stepped s) id (released ∷ []) active actor correlation activation now _
        λ r found allowed. activate_rest-Step r valid found (contains_one _ _ allowed)

  pub activate_kill_switch-Step :
      (reason : String)
      → Ends s (Stepped s) (Gates.activate_kill_switch id actor reason correlation now s)
  unfolding Gates.activate_kill_switch updated unindexed
  activate_kill_switch-Step reason =
      Ends-raise_if s (Stepped s) (is_blank reason) reason_required _ λ given.
        Ends-transition s (Stepped s) id (active ∷ []) suspended actor correlation (killing reason)
          now _
          λ r found allowed. record {
            outcome = (
              killed id r actor reason correlation now given found (contains_one _ _ allowed) refl,
              tt,
            );
          }

  pub clear_kill_switch-Step :
      (reason : String)
      → Ends s (Cleared id s) (Gates.clear_kill_switch id actor reason correlation now s)
  unfolding Gates.clear_kill_switch updated indexed
  clear_kill_switch-Step reason = Ends-find s (Cleared id s) id _ λ r at.
      Ends-raise_if s (Cleared id s) (not r.kill_switch_active) no_kill_switch _ λ set.
        Ends-raise_if s (Cleared id s) (is_blank reason) reason_required _ λ given.
          Ends-transition s (Cleared id s) id (suspended ∷ []) active actor correlation
            (clearing reason) now _
            λ r' found allowed.
              let e : r' ≡ r = cc in
              record {
                outcome = (
                  cleared id r' actor reason correlation now given found (rw e (ground arith))
                      (contains_one _ _ allowed) refl,
                  λ free. free r' found,
                );
              }

matched : (a b : Bool) → (a || not b) ≡ false → b ≡ true
matched a b h = ground arith

module _ (s : Authority) (id target_id actor reason correlation : String) (now : ℕ) where
  guards-Ends :
      {A : Type 0} (Q : A → Authority → Type 0) (r target : GovernedRelease) (m : Method A)
      → (is_blank reason ≡ false
          → r.state ≡ active
          → target_id ≢ id
          → subject_key r ≡ subject_key target
          → target.ever_released ≡ true
          → Ends s Q (m s))
      → Ends s Q ((Gates.rollback_guards r target id target_id reason >> m) s)
  unfolding Gates.rollback_guards
  guards-Ends Q r target m h = elim (Bool-cases (is_blank reason)) [
    | inl blank ↦ record { outcome = rw blank }
    | inr given ↦ elim (Bool-cases r.kill_switch_active) [
      | inl set ↦ record { outcome = rw given (rw set) }
      | inr unset ↦ elim (Bool-cases (r.state == active)) [
        | inr other ↦ record { outcome = rw given (rw unset (rw other)) }
        | inl state ↦
            elim (Bool-cases (target_id == id || not (subject_key r == subject_key target))) [
              | inl wrong ↦ record { outcome = rw given (rw unset (rw state (rw wrong))) }
              | inr right ↦ elim (Bool-cases target.ever_released) [
                | inr never ↦ record {
                  outcome = rw given (rw unset (rw state (rw right (rw never))));
                }
                | inl once ↦ rw given (
                    rw unset (
                      rw state (
                        rw right (
                          rw once (
                            h given ((state_eq.beq_iff _ _).0 state)
                              (λ e. ground (arith, eq_iff target_id id))
                              ((key3_eq.beq_iff _ _).0 (matched _ _ right)) once)))))
              ]
            ]
      ]
    ]
  ]

  pub rollback-Step :
      Ends s (Stepped s) (Gates.rollback id target_id actor reason correlation now s)
  unfolding Gates.rollback restored indexed
  rollback-Step = Ends-find s (Stepped s) id _ λ r at.
      Ends-find s (Stepped s) target_id _ λ target there.
        guards-Ends (Stepped s) r target _ λ given state ne same once.
          Ends-transition s (Stepped s) id (active ∷ []) rolled_back actor correlation
            (rolling target_id reason) now _
            λ r' found allowed.
              let e : r' ≡ r = cc in
              record {
                outcome = (
                  rolled id target_id r' target actor reason correlation now given found there
                      (contains_one _ _ allowed) ne (rw e same) once refl,
                  tt,
                );
              }
