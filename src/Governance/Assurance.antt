-- ===== src/Governance/Assurance.antt =====
-- governance/gates/assurance.py: the deterministic evaluation of tests for a release gate.
use text.Mathlib.Text.{find?}
use alos_backend.Prelude.{
  String, ◌≡◌, ◌↔◌, Option, none, some, List, [], ◌∷◌, ◌++◌, Bool, true, false, ◌&&◌, Eq, ◌==◌,
  string_eq, contains, is_subset, decided, decided_iff, is_truthy, if◌then◌else◌, Result, ok, err,
}

pub data TestCategory : Type 0 where
  positive negative regression security recovery : TestCategory

TestCategory-discrete : Discrete TestCategory
TestCategory-discrete = hlevel

unfoldable pub category_beq : TestCategory → TestCategory → Bool
unfolding TestCategory-discrete
category_beq = decided TestCategory-discrete

pub category_iff : (a b : TestCategory) → (category_beq a b ≡ true) ↔ (a ≡ b)
unfolding category_beq
category_iff = decided_iff TestCategory-discrete

instance abbrev pub category_eq : Eq TestCategory
category_eq = record { beq = category_beq; beq_iff = category_iff }

pub record ExpectedBehavior : Type 0 where
  pub status : String
  pub error_code : Option String
  pub reason_contains : Option String

pub record ObservedBehavior : Type 0 where
  pub status : String
  pub error_code : Option String
  pub reason : Option String

pub data AssuranceError : Type 0 where
  status_required negative_must_fail : AssuranceError

-- `ExpectedBehavior.__post_init__`
unfoldable pub expect : ExpectedBehavior → Result AssuranceError ExpectedBehavior
expect expected = if is_truthy expected.status then ok expected else err status_required

pub data Mismatch : Type 0 where
  status_differs : String → String → Mismatch
  error_code_differs : String → Option String → Mismatch
  reason_lacks_text : Mismatch

pub record AssuranceCheck : Type 0 where
  pub test_id : String
  pub category : TestCategory
  pub expected : ExpectedBehavior
  pub observed : ObservedBehavior
  pub passed : Bool
  pub mismatches : List Mismatch

-- `expected.error_code is not None and observed.error_code != expected.error_code`
unfoldable pub error_code_mismatch : Option String → Option String → List Mismatch
error_code_mismatch none observed = []
error_code_mismatch (some code) none = error_code_differs code none ∷ []
error_code_mismatch (some code) (some actual) =
    if actual == code then [] else error_code_differs code (some actual) ∷ []

-- `text in reason`
unfoldable pub has_text : String → String → Bool
has_text piece reason = elim (find? reason piece) [ none ↦ false | some _ ↦ true ]

unfoldable pub reason_mismatch : Option String → Option String → List Mismatch
unfolding has_text
reason_mismatch none observed = []
reason_mismatch (some piece) none = reason_lacks_text ∷ []
reason_mismatch (some piece) (some reason) =
    if has_text piece reason then [] else reason_lacks_text ∷ []

unfoldable pub status_mismatch : String → String → List Mismatch
status_mismatch expected observed =
    if observed == expected then [] else status_differs expected observed ∷ []

-- the statuses that a negative test may not expect
abbrev pub success_statuses : List String
success_statuses = "SUCCESS" ∷ "SUCCEEDED" ∷ "PASS" ∷ "PASSED" ∷ []

unfoldable pub is_empty_list : List Mismatch → Bool
is_empty_list [] = true
is_empty_list (_ ∷ _) = false

unfoldable pub all_mismatches : ExpectedBehavior → ObservedBehavior → List Mismatch
unfolding status_mismatch error_code_mismatch reason_mismatch
all_mismatches expected observed =
    status_mismatch expected.status observed.status
    ++ (error_code_mismatch expected.error_code observed.error_code
        ++ reason_mismatch expected.reason_contains observed.reason)

-- `AssuranceEvaluator.evaluate`
unfoldable pub evaluate :
    String
    → TestCategory
    → ExpectedBehavior
    → ObservedBehavior
    → Result AssuranceError AssuranceCheck
unfolding all_mismatches is_empty_list
evaluate test_id category expected observed =
    let mismatches = all_mismatches expected observed in
    if category == negative && contains expected.status success_statuses
    then err negative_must_fail
    else ok (record {
      test_id = test_id;
      category = category;
      expected = expected;
      observed = observed;
      passed = is_empty_list mismatches;
      mismatches = mismatches;
    })

pub record AutomatedAssuranceReport : Type 0 where
  pub checks : List AssuranceCheck
  pub required_categories : List TestCategory

abbrev pub categories : List AssuranceCheck → List TestCategory
categories [] = []
categories (check ∷ rest) = check.category ∷ categories rest

unfoldable pub all_passed : List AssuranceCheck → Bool
all_passed [] = true
all_passed (check ∷ rest) = check.passed && all_passed rest

has_checks : List AssuranceCheck → Bool
has_checks [] = false
has_checks (_ ∷ _) = true

-- `AutomatedAssuranceReport.passed`
unfoldable pub report_passed : AutomatedAssuranceReport → Bool
unfolding has_checks all_passed
report_passed report =
    has_checks report.checks
    && (is_subset report.required_categories (categories report.checks) && all_passed report.checks)
