-- ===== src/Tests/Results.antt =====
-- Manifests, verification results, rework contracts and budgets.
use harness_system.Prelude.{
  ℕ, String, ◌≡◌, refl, ◌≤◌, ◌⊎◌, ◌≢◌, ◌↔◌, Bool, true, false, List, [], ◌∷◌, Option, none, some,
  member, string_eq,
}
use harness_system.Exceptions.{ok, raised, budget_exceeded}
use harness_system.Domain.Enums.{VerificationDecision}
use harness_system.Domain.Validation.{find_pass_invariant_violations}
use harness_system.Domain.Validation.Pass.{IsValidPass, find_pass_invariant_violations_iff}
use harness_system.Execution.Manifest.{diff_manifests, entry_by_path}
use harness_system.Execution.Manifest.Diff.{IsClassified, diff_manifests-IsClassified}
use harness_system.Checks.{verified_verification}
use harness_system.Checks.Accepted.{accepted_decision-cases}
use harness_system.Rework.{ReworkRequest, build_rework_contract, detect_no_progress}
use harness_system.Rework.Guards.{
  IsBuildable, bound, build_rework_contract_iff, detect_no_progress_iff,
}
use harness_system.Usage.{check_budget}
use harness_system.Usage.Order.{accumulate_all, check_budget-accumulate_all, check_budget_iff}
use harness_system.Tests.Data.{
  budget, changed_a, contract, digests, file_a, frozen, no_usage, overspent, passed, to_rework,
  two_turns,
}

find_pass_invariant_violations_iff_example :
    (find_pass_invariant_violations contract passed ≡ []) ↔ IsValidPass contract passed
find_pass_invariant_violations_iff_example = find_pass_invariant_violations_iff contract passed

-- The Verifier's claim is accepted.
passed-accepted :
    (verified_verification contract frozen passed none).accepted_decision
    ≡ VerificationDecision.pass
unfolding verified_verification harness_system.Checks.violations_of
    harness_system.Checks.find_missing_evidence_violations harness_system.Checks.each_evidence
    harness_system.Checks.evidence_violations harness_system.Checks.known_evidence_ids
    harness_system.Checks.find_check_execution_violations harness_system.Checks.each_criterion
    harness_system.Checks.criterion_violations harness_system.Checks.execution_violations
    harness_system.Checks.execution_by_id find_pass_invariant_violations
    harness_system.Domain.Validation.each_mandatory harness_system.Domain.Validation.mandatory_ids
    harness_system.Domain.Validation.mandatory_violations
    harness_system.Domain.Validation.result_violations
    harness_system.Domain.Validation.criterion_by_id
    harness_system.Domain.Validation.unverified_violations
    harness_system.Domain.Validation.finding_violations harness_system.Prelude.sorted_set
passed-accepted = refl

accepted_decision-cases_example :
    ((verified_verification contract frozen to_rework none).accepted_decision ≡ to_rework.decision)
    ⊎ ((to_rework.decision ≡ VerificationDecision.pass)
        × ((verified_verification contract frozen to_rework none).accepted_decision
            ≡ VerificationDecision.manual_review))
accepted_decision-cases_example = accepted_decision-cases contract frozen to_rework none

diff_manifests-IsClassified_example :
    IsClassified
      (entry_by_path (file_a ∷ []) "src/a.py")
      (entry_by_path (changed_a ∷ []) "src/a.py")
      "src/a.py"
      (diff_manifests (file_a ∷ []) (changed_a ∷ []))
diff_manifests-IsClassified_example =
    diff_manifests-IsClassified (file_a ∷ []) (changed_a ∷ []) "src/a.py"

abbrev first_rework : ReworkRequest
first_rework = record {
  rework_id = "rework-1";
  attempt_number = 1;
  effective_scope = none;
  requested_additional_capabilities = none;
}

build_rework_contract_iff_example :
    (build_rework_contract digests contract to_rework first_rework
      ≡ ok (bound digests contract to_rework first_rework))
    ↔ (IsBuildable digests contract to_rework first_rework
        × (bound digests contract to_rework first_rework
            ≡ bound digests contract to_rework first_rework))
build_rework_contract_iff_example =
    build_rework_contract_iff digests contract to_rework first_rework
      (bound digests contract to_rework first_rework)

-- The contract is built.
first_rework-built :
    build_rework_contract digests contract to_rework first_rework
    ≡ ok (bound digests contract to_rework first_rework)
unfolding build_rework_contract harness_system.Rework.required_fixes_from
    harness_system.Rework.draft_rework_contract harness_system.Rework.failed_criteria_ids_of
    harness_system.Prelude.sorted_set harness_system.Domain.Validation.assert_rework_scope_is_subset
    harness_system.Domain.Validation.is_scope_subset
    harness_system.Domain.Validation.ceiling_not_raised harness_system.Rework.Guards.fixes_of
first_rework-built = refl

abbrev one_failed : List String
one_failed = "tests-pass" ∷ []

detect_no_progress_iff_example : (detect_no_progress (some one_failed) one_failed ≡ true) ↔ (
    (ids : List String) × (some one_failed ≡ some ids)
    × (one_failed ≢ [])
    × ((a : String) → (member a one_failed ≡ true) ↔ (member a ids ≡ true)))
detect_no_progress_iff_example = detect_no_progress_iff (some one_failed) one_failed

overspent-refused : check_budget overspent budget ≡ raised budget_exceeded
unfolding check_budget
overspent-refused = refl

check_budget-accumulate_all_example :
    check_budget (accumulate_all overspent ((two_turns, true) ∷ [])) budget ≡ raised budget_exceeded
check_budget-accumulate_all_example =
    check_budget-accumulate_all overspent budget ((two_turns, true) ∷ []) overspent-refused

check_budget_iff_example : (check_budget no_usage budget ≡ ok tt) ↔ (
    (no_usage.turns_used ≤ budget.max_turns)
    × (no_usage.rework_used ≤ budget.max_rework_iterations))
check_budget_iff_example = check_budget_iff no_usage budget
