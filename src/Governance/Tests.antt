-- ===== src/Governance/Tests.antt =====
-- The theorems at concrete tests.
use alos_backend.Prelude.{◌≡◌, refl, some, none, [], ◌∷◌, true, contains, is_subset}
use alos_backend.Governance.Assurance.{
  negative, security, ExpectedBehavior, ObservedBehavior, AssuranceCheck, evaluate,
  AutomatedAssuranceReport, report_passed, category_beq, category_eq,
}
use alos_backend.Governance.Reports.{PassesIn, report_passed-covers, EvaluationEnds, evaluate_lem}

abbrev denial : ExpectedBehavior
denial = record { status = "DENIED"; error_code = some "SCOPE_DENIED"; reason_contains = none }

abbrev denied : ObservedBehavior
denied = record { status = "DENIED"; error_code = some "SCOPE_DENIED"; reason = some "scope" }

evaluate_lem_example : EvaluationEnds negative denial denied (evaluate "t-1" negative denial denied)
evaluate_lem_example = evaluate_lem "t-1" negative denial denied

abbrev security_check : AssuranceCheck
security_check = record {
  test_id = "t-2";
  category = security;
  expected = denial;
  observed = denied;
  passed = true;
  mismatches = [];
}

abbrev report : AutomatedAssuranceReport
report = record { checks = security_check ∷ []; required_categories = security ∷ [] }

report_passes : report_passed report ≡ true
unfolding report_passed is_subset contains category_beq
report_passes = refl

needed : contains security report.required_categories ≡ true
unfolding contains category_beq
needed = refl

report_passed-covers_example : PassesIn security (security_check ∷ [])
report_passed-covers_example = report_passed-covers report security report_passes needed
