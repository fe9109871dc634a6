-- ===== src/Domain/Validation.antt =====
-- The checks over several records: src/agent_harness/domain/validation.py. A list of messages is a
-- list of `Violation`s. Python iterates over a set in no fixed order; it is taken sorted here.
pub mod Pass
pub mod Scope
use harness_system.Prelude.{
  ℕ, String, Bool, true, false, not, ◌&&◌, ◌||◌, List, [], ◌∷◌, ◌++◌, map, Option, none, some, ◌==◌,
  string_eq, leb, if◌then◌else◌, filter, is_empty, length, member, is_subset, sorted_set,
}
use harness_system.Exceptions.{invariant_violation, Result, ok, raised, raise_if}
use harness_system.Domain.Enums.{CriterionResult, FindingSeverity, VerificationDecision}
use harness_system.Domain.Models.{
  AcceptanceCriterion, Approval, Artifact, CriterionVerification, EvidenceRecord, Finding,
  ScopeRules, TaskContract, VerificationResult,
}

pub data Violation : Type 0 where
  subject_digest_mismatch policy_decision_digest_mismatch : Violation
  no_verification_result : String → Violation
  waived_without_approval_ref : String → Violation
  not_pass_or_waived : String → CriterionResult → Violation
  not_verified : String → Violation
  unresolved_security_finding : FindingSeverity → String → Violation
  unresolved_scope_violations : ℕ → Violation
  content_digest_mismatch artifact_not_referenced : Violation

-- [violation] if test else []
abbrev pub when : Bool → Violation → List Violation
when test violation = if test then violation ∷ [] else []

-- The truth value of an optional text.
abbrev pub is_given : Option String → Bool
is_given none = false
is_given (some s) = not (s == "")

unfoldable pub approval_binding_violations : Approval → String → String → List Violation
approval_binding_violations approval subject_digest policy_decision_digest =
    when (not (approval.subject_digest == subject_digest)) subject_digest_mismatch
    ++ when (not (approval.policy_decision_digest == policy_decision_digest))
        policy_decision_digest_mismatch

unfoldable pub validate_approval_binding : Approval → String → String → Result (Unit {0})
unfolding approval_binding_violations
validate_approval_binding approval subject_digest policy_decision_digest =
    raise_if
      (not (is_empty (approval_binding_violations approval subject_digest policy_decision_digest)))
      invariant_violation

-- `{c.id: c for c in criteria}.get(id)`: of several with one id the last one.
unfoldable pub criterion_by_id : List CriterionVerification → String → Option CriterionVerification
criterion_by_id [] id = none
criterion_by_id (c ∷ cs) id =
    let rest = criterion_by_id cs id in
    elim rest [ some later ↦ some later | none ↦ if c.id == id then some c else none ]

-- `{c.id for c in contract.acceptance_criteria if c.mandatory}`
unfoldable pub mandatory_ids : TaskContract → List String
mandatory_ids contract = sorted_set (
    map (λ (c : AcceptanceCriterion). c.id)
      (filter (λ (c : AcceptanceCriterion). c.mandatory) contract.acceptance_criteria))

-- One round of the loop over `mandatory_ids`.
unfoldable pub result_violations : String → CriterionResult → CriterionVerification → List Violation
result_violations id CriterionResult.pass v = []
result_violations id CriterionResult.waived v =
    when (not (is_given v.waiver_approval_ref)) (waived_without_approval_ref id)
result_violations id other v = not_pass_or_waived id other ∷ []

unfoldable pub mandatory_violations : String → Option CriterionVerification → List Violation
unfolding result_violations
mandatory_violations id none = no_verification_result id ∷ []
mandatory_violations id (some v) = result_violations id v.result v

unfoldable pub each_mandatory : List CriterionVerification → List String → List Violation
each_mandatory criteria [] = []
each_mandatory criteria (id ∷ ids) =
    mandatory_violations id (criterion_by_id criteria id) ++ each_mandatory criteria ids

abbrev pub is_not_verified : CriterionResult → Bool
is_not_verified CriterionResult.not_verified = true
is_not_verified _ = false

unfoldable pub unverified_violations : List CriterionVerification → List Violation
unverified_violations [] = []
unverified_violations (c ∷ cs) =
    when (is_not_verified c.result) (not_verified c.id) ++ unverified_violations cs

-- `severity in unresolved_severities`
abbrev pub is_unresolved : FindingSeverity → Bool
is_unresolved FindingSeverity.blocker = true
is_unresolved FindingSeverity.high = true
is_unresolved _ = false

unfoldable pub finding_violations : List Finding → List Violation
finding_violations [] = []
finding_violations (f ∷ fs) =
    when (is_unresolved f.severity) (unresolved_security_finding f.severity f.id)
    ++ finding_violations fs

unfoldable pub find_pass_invariant_violations : TaskContract → VerificationResult → List Violation
find_pass_invariant_violations contract result =
    each_mandatory result.criteria (mandatory_ids contract)
    ++ (unverified_violations result.criteria
        ++ (finding_violations result.security_findings
            ++ when (not (is_empty result.scope_violations))
                (unresolved_scope_violations (length result.scope_violations))))

abbrev pub is_pass : VerificationDecision → Bool
is_pass VerificationDecision.pass = true
is_pass _ = false

unfoldable pub assert_valid_pass : TaskContract → VerificationResult → Result (Unit {0})
assert_valid_pass contract result =
    raise_if
      (is_pass result.decision && not (is_empty (find_pass_invariant_violations contract result)))
      invariant_violation

-- `_ceiling_not_raised`
unfoldable pub ceiling_not_raised : Option ℕ → Option ℕ → Bool
ceiling_not_raised child none = true
ceiling_not_raised none (some parent) = false
ceiling_not_raised (some child) (some parent) = leb child parent

unfoldable pub is_scope_subset : ScopeRules → ScopeRules → Bool
is_scope_subset child parent =
    is_subset child.allowed_path_rules parent.allowed_path_rules
    && (is_subset parent.forbidden_path_rules child.forbidden_path_rules
        && (not (child.allow_new_files && not parent.allow_new_files)
            && (ceiling_not_raised child.max_changed_files parent.max_changed_files
                && ceiling_not_raised child.max_changed_bytes parent.max_changed_bytes)))

unfoldable pub assert_rework_scope_is_subset : TaskContract → ScopeRules → Result (Unit {0})
assert_rework_scope_is_subset parent_contract effective_scope =
    raise_if (not (is_scope_subset effective_scope parent_contract.scope)) invariant_violation

unfoldable pub assert_evidence_matches_artifact : EvidenceRecord → Artifact → Result (Unit {0})
assert_evidence_matches_artifact evidence artifact =
    raise_if
      (not (
        is_empty (
          when (not (evidence.content_digest == artifact.content_digest)) content_digest_mismatch
          ++ when (not (member artifact.artifact_id evidence.artifact_refs))
              artifact_not_referenced)))
      invariant_violation
