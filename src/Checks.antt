-- ===== src/Checks.antt =====
-- The re-check of a Verifier's claim: src/agent_harness/application/verification.py, but for the
-- prompt and the call of the provider.
pub mod Accepted
use harness_system.Prelude.{
  String, Bool, true, false, ◌&&◌, ◌||◌, not, List, [], ◌∷◌, ◌++◌, map, Option, none, some, ◌==◌,
  string_eq, ℤ, int_eq, if◌then◌else◌, all, any, filter, is_empty, member,
}
use harness_system.Domain.Enums.{CriterionResult, VerificationDecision, VerificationMethod}
use harness_system.Domain.Models.{
  AcceptanceCriterion, CriterionVerification, EvidenceRecord, TaskContract, UsageRecord,
  VerificationResult, VerificationSpec,
}
use harness_system.Domain.Validation.{Violation, find_pass_invariant_violations, is_pass}
use harness_system.Execution.ScopeGuard.{ScopeViolation}
use harness_system.Execution.Frozen.{CommandExecution, FrozenValidationResult}

-- The texts of `violations`.
pub data CheckViolation : Type 0 where
  pass_invariant : Violation → CheckViolation
  no_such_evidence : String → List String → CheckViolation
  scope_check : ScopeViolation → CheckViolation
  never_executed : String → Option String → CheckViolation
  command_timed_out command_exceeded_output_cap : String → Option String → CheckViolation
  unexpected_exit_code : String → Option String → Option ℤ → CheckViolation
  side_effects : List String → CheckViolation

-- [violation] if test else []
abbrev pub when : Bool → CheckViolation → List CheckViolation
when test violation = if test then violation ∷ [] else []

-- {record.evidence_id for record in frozen_result.evidence}
unfoldable pub known_evidence_ids : FrozenValidationResult → List String
known_evidence_ids frozen_result =
    map (λ (e : EvidenceRecord). e.evidence_id) frozen_result.evidence

abbrev pub is_pass_result : CriterionResult → Bool
is_pass_result CriterionResult.pass = true
is_pass_result _ = false

-- One round of the loop over the criteria.
unfoldable pub evidence_violations : List String → CriterionVerification → List CheckViolation
evidence_violations known criterion =
    let unresolved = filter (λ ref. not (member ref known)) criterion.evidence_refs in
    when
      (is_pass_result criterion.result
        && (is_empty criterion.evidence_refs || not (is_empty unresolved)))
      (no_such_evidence criterion.id criterion.evidence_refs)

unfoldable pub each_evidence : List String → List CriterionVerification → List CheckViolation
each_evidence known [] = []
each_evidence known (c ∷ cs) = evidence_violations known c ++ each_evidence known cs

unfoldable pub find_missing_evidence_violations :
    VerificationResult → FrozenValidationResult → List CheckViolation
find_missing_evidence_violations verification_result frozen_result =
    each_evidence (known_evidence_ids frozen_result) verification_result.criteria

-- `executions_by_command_id.get(command_id)`: of several the last; no execution has the id None.
unfoldable pub execution_by_id : List CommandExecution → Option String → Option CommandExecution
execution_by_id executions none = none
execution_by_id [] (some command_id) = none
execution_by_id (e ∷ es) (some command_id) =
    let rest = execution_by_id es (some command_id) in
    elim rest [
      | some later ↦ some later
      | none ↦ if e.command_run.command_spec_id == command_id then some e else none
    ]

-- `exit_code in expected`
abbrev pub is_expected : Option ℤ → List ℤ → Bool
is_expected none expected = false
is_expected (some code) expected = member code expected

-- The checks of one COMMAND criterion, for the execution of its command.
unfoldable pub execution_violations :
    AcceptanceCriterion → Option CommandExecution → List CheckViolation
execution_violations criterion none =
    never_executed criterion.id criterion.verification.command_id ∷ []
execution_violations criterion (some e) =
    let command_id = criterion.verification.command_id in
    let expected = criterion.verification.expected_exit_codes in
    when e.process_result.timed_out (command_timed_out criterion.id command_id)
    ++ (when e.process_result.output_cap_exceeded
          (command_exceeded_output_cap criterion.id command_id)
        ++ when (not (is_empty expected) && not (is_expected e.command_run.exit_code expected))
            (unexpected_exit_code criterion.id command_id e.command_run.exit_code))

abbrev pub is_command : VerificationMethod → Bool
is_command VerificationMethod.command = true
is_command _ = false

-- One round of the loop over the acceptance criteria.
unfoldable pub criterion_violations :
    List CommandExecution → AcceptanceCriterion → List CheckViolation
criterion_violations executions criterion =
    if is_command criterion.verification.method
    then execution_violations criterion
        (execution_by_id executions criterion.verification.command_id)
    else []

unfoldable pub each_criterion :
    List CommandExecution → List AcceptanceCriterion → List CheckViolation
each_criterion executions [] = []
each_criterion executions (c ∷ cs) =
    criterion_violations executions c ++ each_criterion executions cs

unfoldable pub find_check_execution_violations :
    TaskContract → FrozenValidationResult → List CheckViolation
find_check_execution_violations contract frozen_result =
    each_criterion frozen_result.check_executions contract.acceptance_criteria
    ++ when (not (is_empty frozen_result.test_side_effects))
        (side_effects frozen_result.test_side_effects)

pub record VerifiedVerification : Type 0 where
  pub verification_result : VerificationResult
  pub pass_invariant_violations : List CheckViolation
  pub accepted_decision : VerificationDecision
  pub usage : Option UsageRecord

-- `violations` of `run_verification`
unfoldable pub violations_of :
    TaskContract → VerificationResult → FrozenValidationResult → List CheckViolation
violations_of contract verification_result frozen_result =
    map pass_invariant (find_pass_invariant_violations contract verification_result)
    ++ (find_missing_evidence_violations verification_result frozen_result
        ++ (map scope_check frozen_result.scope_violations
            ++ find_check_execution_violations contract frozen_result))

-- The end of `run_verification`, from the Verifier's result that has been parsed.
unfoldable pub verified_verification :
    TaskContract
    → FrozenValidationResult
    → VerificationResult
    → Option UsageRecord
    → VerifiedVerification
verified_verification contract frozen_result verification_result usage =
    let violations = violations_of contract verification_result frozen_result in
    record {
      verification_result = verification_result;
      pass_invariant_violations = violations;
      accepted_decision =
          if is_pass verification_result.decision && not (is_empty violations)
          then VerificationDecision.manual_review
          else verification_result.decision;
      usage = usage;
    }
