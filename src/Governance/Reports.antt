-- ===== src/Governance/Reports.antt =====
-- What a check and a report that pass have shown.
use text.Mathlib.TextEquality.{eq_iff}
use alos_backend.Prelude.{
  String, ◌≡◌, refl, ap, ◌↔◌, ◌⊎◌, inl, inr, Option, none, some, List, [], ◌∷◌, ◌++◌, true, false,
  ◌&&◌, ◌==◌, string_eq, contains, arith, Bool-cases, Result, ok, err, is_subset-contains,
}
use alos_backend.Governance.Assurance.{
  TestCategory, negative, category_eq, category_iff, ExpectedBehavior, ObservedBehavior,
  AssuranceCheck, AssuranceError, Mismatch, has_text, evaluate, AutomatedAssuranceReport,
  report_passed, categories, all_passed, success_statuses, is_empty_list, status_mismatch,
  error_code_mismatch, reason_mismatch, all_mismatches,
}

-- Some check of the category passed.
abbrev pub PassesIn : TestCategory → List AssuranceCheck → Type 0
PassesIn category [] = ⊥
PassesIn category (check ∷ rest) =
    ((check.category ≡ category) × (check.passed ≡ true)) ⊎ PassesIn category rest

covered :
    (category : TestCategory) (checks : List AssuranceCheck)
    → all_passed checks ≡ true
    → contains category (categories checks) ≡ true
    → PassesIn category checks
unfolding all_passed contains
covered category [] passed there = cc
covered category (check ∷ rest) passed there = elim (Bool-cases (category == check.category)) [
  | inl same ↦ inl (ground (arith, category_iff category check.category), ground arith)
  | inr other ↦ inr (covered category rest (ground arith) (ground arith))
]

-- A report that passes has a passing check in every required category.
pub report_passed-covers :
    (report : AutomatedAssuranceReport) (category : TestCategory)
    → report_passed report ≡ true
    → contains category report.required_categories ≡ true
    → PassesIn category report.checks
unfolding report_passed
report_passed-covers report category passed needed = covered category report.checks (ground arith) (
    is_subset-contains report.required_categories (categories report.checks) category (ground arith)
      needed)

-- The observed value is the expected one, where one is expected.
abbrev pub MeetsCode : Option String → Option String → Type 0
MeetsCode none observed = Unit
MeetsCode (some code) observed = observed ≡ some code

abbrev pub MeetsReason : Option String → Option String → Type 0
MeetsReason none observed = Unit
MeetsReason (some piece) none = ⊥
MeetsReason (some piece) (some reason) = has_text piece reason ≡ true

pub record Meets (expected : ExpectedBehavior) (observed : ObservedBehavior) : Type 0 where
  pub status : observed.status ≡ expected.status
  pub error_code : MeetsCode expected.error_code observed.error_code
  pub reason : MeetsReason expected.reason_contains observed.reason

none_after :
    (xs ys : List Mismatch)
    → (is_empty_list (xs ++ ys) ≡ true) ↔ ((is_empty_list xs ≡ true) × (is_empty_list ys ≡ true))
unfolding is_empty_list
none_after [] ys = (λ h. (refl, h), λ h. h.1)
none_after (x ∷ xs) ys = (λ h. cc, λ h. cc)

status_lem :
    (expected observed : String)
    → (is_empty_list (status_mismatch expected observed) ≡ true) ↔ (observed ≡ expected)
unfolding is_empty_list status_mismatch
status_lem expected observed = elim (Bool-cases (observed == expected)) [
  | inl same ↦ rw same (λ h. (eq_iff observed expected).0 same, λ h. refl)
  | inr other ↦ rw other (λ h. cc, λ h. ground (arith, eq_iff observed expected))
]

code_lem :
    (expected observed : Option String)
    → (is_empty_list (error_code_mismatch expected observed) ≡ true) ↔ MeetsCode expected observed
unfolding is_empty_list error_code_mismatch
code_lem none observed = (λ h. tt, λ h. refl)
code_lem (some code) none = (λ h. cc, λ h. cc)
code_lem (some code) (some actual) = elim (Bool-cases (actual == code)) [
  | inl same ↦ rw same (λ h. ap some ((eq_iff actual code).0 same), λ h. refl)
  | inr other ↦ rw other (λ h. cc, λ h. ground (arith, eq_iff actual code))
]

reason_lem :
    (expected observed : Option String)
    → (is_empty_list (reason_mismatch expected observed) ≡ true) ↔ MeetsReason expected observed
unfolding is_empty_list reason_mismatch
reason_lem none observed = (λ h. tt, λ h. refl)
reason_lem (some piece) none = (λ h. cc, λ h. absurd h)
reason_lem (some piece) (some reason) = elim (Bool-cases (has_text piece reason)) [
  | inl inside ↦ rw inside (λ h. refl, λ h. refl)
  | inr outside ↦ rw outside (λ h. cc, λ h. cc)
]

mismatches_lem :
    (expected : ExpectedBehavior) (observed : ObservedBehavior)
    → (is_empty_list (all_mismatches expected observed) ≡ true) ↔ Meets expected observed
unfolding all_mismatches
mismatches_lem e o =
    let first = none_after (status_mismatch e.status o.status) (
      error_code_mismatch e.error_code o.error_code
      ++ reason_mismatch e.reason_contains o.reason) in
    let second =
      none_after (error_code_mismatch e.error_code o.error_code)
        (reason_mismatch e.reason_contains o.reason) in
    (
      λ h. record {
        status = (status_lem e.status o.status).0 (first.0 h).0;
        error_code = (code_lem e.error_code o.error_code).0 (second.0 (first.0 h).1).0;
        reason = (reason_lem e.reason_contains o.reason).0 (second.0 (first.0 h).1).1;
      },
      λ m. first.1 (
        (status_lem e.status o.status).1 m.status,
        second.1 (
          (code_lem e.error_code o.error_code).1 m.error_code,
          (reason_lem e.reason_contains o.reason).1 m.reason,
        ),
      ),
    )

-- How an evaluation may end: a negative test that expects a success is refused, any other becomes
-- a check that passed exactly if the observed behaviour meets the expected one.
abbrev pub EvaluationEnds :
    TestCategory
    → ExpectedBehavior
    → ObservedBehavior
    → Result AssuranceError AssuranceCheck
    → Type 0
EvaluationEnds category expected observed (ok check) =
    (check.category ≡ category)
    × ((category ≡ negative) → contains expected.status success_statuses ≡ false)
    × ((check.passed ≡ true) ↔ Meets expected observed)
EvaluationEnds category expected observed (err e) =
    (category ≡ negative) × (contains expected.status success_statuses ≡ true)

-- An evaluation refuses exactly the negative tests that expect a success; the check that it gives
-- otherwise passed exactly if the status is the expected one, the error code is where one is
-- expected, and the reason contains the text where one is expected.
pub evaluate_lem :
    (test_id : String) (category : TestCategory) (expected : ExpectedBehavior)
    (observed : ObservedBehavior)
    → EvaluationEnds category expected observed (evaluate test_id category expected observed)
unfolding evaluate
evaluate_lem test_id category expected observed =
    elim (Bool-cases (category == negative && contains expected.status success_statuses)) [
      | inl wrong ↦ rw wrong (ground (arith, category_iff category negative), ground arith)
      | inr fine ↦ rw fine (
        refl,
        λ is_negative. ground (arith, category_iff category negative),
        mismatches_lem expected observed,
      )
    ]
