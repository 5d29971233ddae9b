-- ===== src/Releases/Moves.antt =====
-- The methods that lead a release up to `released` refine the step relation: a call that returns
-- makes a step, and one that raises changes nothing.
use alos_backend.Prelude.{
  ℕ, String, ◌≡◌, refl, inl, inr, none, some, [], ◌∷◌, false, not, ◌==◌, string_eq, key3_eq,
  Bool-cases, Option-cases, arith, ◌>>◌,
}
use alos_backend.Prelude.Dict.{get}
use text.Mathlib.TextEquality.{eq_iff}
use alos_backend.Governance.{requires_director, AuthoritativeDecision, ReviewPackageReference}
use alos_backend.Governance.Assurance.{AutomatedAssuranceReport, report_passed}
use alos_backend.Releases.State.{
  draft, implemented, automated_assurance, ai_reviewed, ready_for_it, it_approved,
  ready_for_director, director_approved, released, revision_required, state_eq, GovernedRelease,
  subject_key, Authority, assurance_failed, package_of_other_release, package_context_differs,
  not_it_decision, not_director_decision, director_not_needed,
}
use alos_backend.Releases.Authority
use alos_backend.Releases.Authority.{Method, Creation, defaults, updated, Options, package_differs}
use alos_backend.Releases.Gates
use alos_backend.Releases.Gates.{decision_differs, decision_target, releasable_from, is_it}
use alos_backend.Releases.Outcomes.{
  Ends, Ends-raise_if, Ends-find, Ends-transition_last, contains_one, contains_one_of,
}
use alos_backend.Releases.Sole.{ClearsAlone}
use alos_backend.Releases.Steps.{
  implement, assure, ai_review, submit_it, it_decide, submit_director, director_decide, publish,
  Step, created, moved, by_it, by_director, by_system, activation, added,
}

-- what a successful call leaves: a step that clears no kill switch
abbrev pub Stepped : Authority → GovernedRelease → Authority → Type 0
Stepped s r s' = (step : Step s s') × ClearsAlone step

-- what clearing a kill switch leaves: the same, if the index named no release of the subject
abbrev pub Cleared : String → Authority → GovernedRelease → Authority → Type 0
Cleared id s _ s' =
    (step : Step s s') × (((q : GovernedRelease)
        → get id s.releases ≡ some q
        → get (subject_key q) s.active_by_subject ≡ none)
      → ClearsAlone step)

module _ (s : Authority) where
  pub create-Step : (c : Creation) (now : ℕ) → Ends s (Stepped s) (Authority.create c now s)
  unfolding Authority.create added
  create-Step c now = elim (Option-cases (get c.release_id s.releases)) [
    | inl new ↦ record { outcome = rw new (created c now new refl, tt) }
    | inr (r, e) ↦ record { outcome = rw e }
  ]

module _ (s : Authority) (id actor correlation : String) (now : ℕ) where
  pub mark_implemented-Step :
      Ends s (Stepped s) (Authority.mark_implemented id actor correlation now s)
  unfolding Authority.mark_implemented
  mark_implemented-Step =
      Ends-transition_last s (Stepped s) id (draft ∷ revision_required ∷ []) implemented actor
        correlation defaults now
        λ r found allowed. (
          moved id r implemented actor correlation defaults now found
              (implement (contains_one_of _ _ _ allowed) refl refl) refl,
          tt,
        )

  pub record_automated_assurance-Step :
      (report : AutomatedAssuranceReport)
      → Ends s (Stepped s) (Authority.record_automated_assurance id report actor correlation now s)
  unfolding Authority.record_automated_assurance
  record_automated_assurance-Step report =
      Ends-raise_if s (Stepped s) (not (report_passed report)) assurance_failed _ λ passed.
        Ends-transition_last s (Stepped s) id (implemented ∷ []) automated_assurance actor
          correlation defaults now
          λ r found allowed. (
            moved id r automated_assurance actor correlation defaults now found
                (assure report (ground arith) (contains_one _ _ allowed) refl refl) refl,
            tt,
          )

  pub record_ai_review_package-Step :
      (review : ReviewPackageReference)
      → Ends s (Stepped s) (Authority.record_ai_review_package id review actor correlation now s)
  unfolding Authority.record_ai_review_package
  record_ai_review_package-Step review = Ends-find s (Stepped s) id _ λ r at.
      Ends-raise_if s (Stepped s) (not (review.review_id == r.review_id)) package_of_other_release _
        λ same.
          Ends-raise_if s (Stepped s) (package_differs review r) package_context_differs _ λ fits.
            Ends-transition_last s (Stepped s) id (automated_assurance ∷ []) ai_reviewed actor
              correlation by_system now
              λ r' found allowed.
                let e : r' ≡ r = cc in
                (
                  moved id r' ai_reviewed actor correlation by_system now found
                      (rw e (
                        ai_review review (ground (arith, eq_iff review.review_id r.review_id)) fits
                          (rw e at (contains_one _ _ allowed)) refl refl))
                      refl,
                  tt,
                )

  pub submit_for_it-Step : Ends s (Stepped s) (Authority.submit_for_it id actor correlation now s)
  unfolding Authority.submit_for_it
  submit_for_it-Step =
      Ends-transition_last s (Stepped s) id (ai_reviewed ∷ []) ready_for_it actor correlation
        defaults now
        λ r found allowed. (
          moved id r ready_for_it actor correlation defaults now found
              (submit_it (contains_one _ _ allowed) refl refl) refl,
          tt,
        )

  pub submit_for_director-Step :
      Ends s (Stepped s) (Gates.submit_for_director id actor correlation now s)
  unfolding Gates.submit_for_director
  submit_for_director-Step = Ends-find s (Stepped s) id _ λ r at.
      Ends-raise_if s (Stepped s) (not (requires_director r.materiality)) director_not_needed _
        λ needed.
          Ends-transition_last s (Stepped s) id (it_approved ∷ []) ready_for_director actor
            correlation defaults now
            λ r' found allowed.
              let e : r' ≡ r = cc in
              (
                moved id r' ready_for_director actor correlation defaults now found
                    (rw e (
                      submit_director (ground arith) (rw e at (contains_one _ _ allowed)) refl
                        refl))
                    refl,
                tt,
              )

  pub release-Step : Ends s (Stepped s) (Gates.release id actor correlation now s)
  unfolding Gates.release
  release-Step = Ends-find s (Stepped s) id _ λ r at.
      Ends-transition_last s (Stepped s) id (releasable_from r.materiality) released actor
        correlation activation now
        λ r' found allowed.
          let e : r' ≡ r = cc in
          (
            moved id r' released actor correlation activation now found
                (rw e (publish (rw e at allowed) refl refl)) refl,
            tt,
          )

module _ (s : Authority) (id : String) (d : AuthoritativeDecision) (correlation : String)
    (now : ℕ) where
  context-Step :
      {A : Type 0} (Q : A → Authority → Type 0) (m : Method A)
      → ((r : GovernedRelease)
          → get id s.releases ≡ some r
          → d.review_id ≡ r.review_id
          → decision_differs d r ≡ false
          → Ends s Q (m s))
      → Ends s Q ((Gates.require_decision_context id d >> m) s)
  unfolding Gates.require_decision_context
  context-Step Q m h = elim (Option-cases (get id s.releases)) [
    | inl missing ↦ record { outcome = rw missing }
    | inr (r, e) ↦ elim (Bool-cases (d.review_id == r.review_id)) [
      | inr other ↦ record { outcome = rw e (rw other) }
      | inl same ↦ elim (Bool-cases (decision_differs d r)) [
        | inl differs ↦ record { outcome = rw e (rw same (rw differs)) }
        | inr fits ↦ rw e (rw same (rw fits (h r e ((eq_iff _ _).0 same) fits)))
      ]
    ]
  ]

  pub record_it_decision-Step : Ends s (Stepped s) (Gates.record_it_decision id d correlation now s)
  unfolding Gates.record_it_decision
  record_it_decision-Step =
      Ends-raise_if s (Stepped s) (not (is_it d.authority)) not_it_decision _ λ by.
        context-Step (Stepped s) _ λ r at same fits.
          Ends-transition_last s (Stepped s) id (ready_for_it ∷ [])
            (decision_target d.outcome it_approved) d.actor_id correlation (by_it d.decision_id) now
            λ r' found allowed.
              let e : r' ≡ r = cc in
              (
                moved id r' _ d.actor_id correlation (by_it d.decision_id) now found
                    (rw e (
                      it_decide d (ground arith) same fits (rw e at (contains_one _ _ allowed)) refl
                        refl))
                    refl,
                tt,
              )

  pub record_director_decision-Step :
      Ends s (Stepped s) (Gates.record_director_decision id d correlation now s)
  unfolding Gates.record_director_decision
  record_director_decision-Step =
      Ends-raise_if s (Stepped s) (is_it d.authority) not_director_decision _ λ by.
        context-Step (Stepped s) _ λ r at same fits.
          Ends-transition_last s (Stepped s) id (ready_for_director ∷ [])
            (decision_target d.outcome director_approved) d.actor_id correlation
            (by_director d.decision_id) now
            λ r' found allowed.
              let e : r' ≡ r = cc in
              (
                moved id r' _ d.actor_id correlation (by_director d.decision_id) now found
                    (rw e (
                      director_decide d (ground arith) same fits
                        (rw e at (contains_one _ _ allowed)) refl refl))
                    refl,
                tt,
              )
