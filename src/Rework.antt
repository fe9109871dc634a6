-- ===== src/Rework.antt =====
-- The rework lifecycle: src/agent_harness/application/rework.py. A frozenset is the sorted list of
-- its members; the random identifier of the contract is an argument.
pub mod Guards
use harness_system.Prelude.{
  ℕ, ◌+◌, String, Bool, true, false, ◌&&◌, ◌||◌, not, List, [], ◌∷◌, ◌++◌, map, Option, none, some,
  ◌==◌, string_eq, eqb, ltb, if◌then◌else◌, any, filter, is_empty, member, is_subset, sorted_set,
}
use harness_system.Exceptions.{
  rework_exhausted, value_error, validation_error, Result, ok, raised, ◌>>=◌, ◌>>◌, raise_if,
}
use harness_system.Domain.Enums.{CriterionResult, VerificationDecision, VerificationMethod}
use harness_system.Domain.Models.{
  AcceptanceCriterion, BudgetRequest, CriterionVerification, Finding, RequestedCapabilities,
  RequiredFix, ReworkContract, ScopeRules, TaskContract, VerificationResult,
}
use harness_system.Domain.Digests.{Digests, placeholder_digest, rework_contract_digest}
use harness_system.Domain.Validation.{assert_rework_scope_is_subset}

-- c.result not in (CriterionResult.PASS, CriterionResult.WAIVED)
abbrev pub is_failing : CriterionResult → Bool
is_failing CriterionResult.pass = false
is_failing CriterionResult.waived = false
is_failing _ = true

unfoldable pub failed_criteria_ids_of : VerificationResult → List String
failed_criteria_ids_of result = sorted_set (
    map (λ (c : CriterionVerification). c.id)
      (filter (λ (c : CriterionVerification). is_failing c.result) result.criteria))

-- `==` on two sets
abbrev pub same_set : List String → List String → Bool
same_set xs ys = is_subset xs ys && is_subset ys xs

unfoldable pub detect_no_progress : Option (List String) → List String → Bool
detect_no_progress none current_failed_ids = false
detect_no_progress (some previous_failed_ids) current_failed_ids =
    not (is_empty current_failed_ids) && same_set current_failed_ids previous_failed_ids

unfoldable pub check_rework_budget : ℕ → BudgetRequest → Result (Unit {0})
check_rework_budget attempt_number ceiling =
    raise_if (ltb ceiling.max_rework_iterations attempt_number) rework_exhausted

-- The loop over the acceptance criteria, which stops at the first one that has failed.
unfoldable pub verification_method_of : List AcceptanceCriterion → List String → VerificationMethod
verification_method_of [] failed_ids = VerificationMethod.command
verification_method_of (c ∷ cs) failed_ids =
    let rest = verification_method_of cs failed_ids in
    if member c.id failed_ids then c.verification.method else rest

-- `enumerate(result.required_fixes)`; `RequiredFix.description` has `min_length=1`.
unfoldable pub required_fixes_from :
    List String → VerificationMethod → ℕ → List String → Result (List RequiredFix)
required_fixes_from rules method index [] = ok []
required_fixes_from rules method index (description ∷ more) =
    let rest = required_fixes_from rules method (index + 1) more in
    do
      raise_if (description == "") validation_error
      fixes ← rest
      ok (
          record {
            id = index + 1;
            description = description;
            allowed_path_rules = rules;
            verification_method = method;
            required_evidence = [];
          }
          ∷ fixes)

-- The keyword arguments of `build_rework_contract`, with the identifier of the new contract.
pub record ReworkRequest : Type 0 where
  pub rework_id : String
  pub attempt_number : ℕ
  pub effective_scope : Option ScopeRules
  pub requested_additional_capabilities : Option RequestedCapabilities

abbrev pub is_rework : VerificationDecision → Bool
is_rework VerificationDecision.rework = true
is_rework _ = false

abbrev pub scope_or : Option ScopeRules → ScopeRules → ScopeRules
scope_or none scope = scope
scope_or (some effective_scope) scope = effective_scope

unfoldable pub draft_rework_contract :
    TaskContract → VerificationResult → ReworkRequest → List RequiredFix → ReworkContract
draft_rework_contract contract result q required_fixes = record {
  rework_id = q.rework_id;
  task_id = contract.task_id;
  parent_contract_digest = contract.integrity.canonical_digest;
  parent_verification_id = result.verification_id;
  parent_result_snapshot_digest = result.result_snapshot_digest;
  attempt_number = q.attempt_number;
  failed_criteria_ids = failed_criteria_ids_of result;
  finding_ids = map (λ (f : Finding). f.id) (result.security_findings ++ result.quality_findings);
  required_fixes = required_fixes;
  prohibited_changes = result.prohibited_changes;
  effective_scope = scope_or q.effective_scope contract.scope;
  requested_additional_capabilities = q.requested_additional_capabilities;
  budget = contract.budget_request;
  integrity_digest = placeholder_digest;
}

-- The field constraints of `ReworkContract`.
unfoldable pub check_rework_contract : ReworkContract → Result (Unit {0})
check_rework_contract c =
    raise_if
      (eqb c.attempt_number 0 || (is_empty c.failed_criteria_ids || is_empty c.required_fixes))
      validation_error

unfoldable pub build_rework_contract :
    Digests → TaskContract → VerificationResult → ReworkRequest → Result ReworkContract
unfolding check_rework_contract
build_rework_contract digests contract result q = do
  raise_if (not (is_rework result.decision)) value_error
  let method = verification_method_of contract.acceptance_criteria (failed_criteria_ids_of result)
  required_fixes ←
      required_fixes_from contract.scope.allowed_path_rules method 0 result.required_fixes
  let draft = draft_rework_contract contract result q required_fixes
  check_rework_contract draft
  let accepted = record draft { integrity_digest = rework_contract_digest digests draft }
  assert_rework_scope_is_subset contract accepted.effective_scope
  ok accepted
