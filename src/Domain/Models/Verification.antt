-- ===== src/Domain/Models/Verification.antt =====
-- `VerificationResult` and `ReworkContract` of src/agent_harness/domain/models.py.
use harness_system.Prelude.{ℕ, String, List, Option}
use harness_system.Domain.Enums.{
  CriterionResult, FindingSeverity, VerificationDecision, VerificationMethod,
}
use harness_system.Domain.Models.Contracts.{BudgetRequest, RequestedCapabilities, ScopeRules}

pub record CriterionVerification : Type 0 where
  pub id : String
  pub result : CriterionResult
  pub evidence_refs : List String
  pub reason : Option String
  pub waiver_approval_ref : Option String

pub record Finding : Type 0 where
  pub id : String
  pub severity : FindingSeverity
  pub description : String
  pub criterion_id : Option String

pub record VerificationResult : Type 0 where
  pub verification_id : String
  pub task_id : String
  pub contract_digest : String
  pub result_snapshot_digest : String
  pub evidence_set_digest : String
  pub invocation_id : String
  pub decision : VerificationDecision
  pub criteria : List CriterionVerification
  pub scope_violations : List String
  pub security_findings : List Finding
  pub quality_findings : List Finding
  pub required_fixes : List String
  pub prohibited_changes : List String
  pub remaining_risks : List String

-- `id` is the number n of the text "fix-n".
pub record RequiredFix : Type 0 where
  pub id : ℕ
  pub description : String
  pub allowed_path_rules : List String
  pub verification_method : VerificationMethod
  pub required_evidence : List String

pub record ReworkContract : Type 0 where
  pub rework_id : String
  pub task_id : String
  pub parent_contract_digest : String
  pub parent_verification_id : String
  pub parent_result_snapshot_digest : String
  pub attempt_number : ℕ
  pub failed_criteria_ids : List String
  pub finding_ids : List String
  pub required_fixes : List RequiredFix
  pub prohibited_changes : List String
  pub effective_scope : ScopeRules
  pub requested_additional_capabilities : Option RequestedCapabilities
  pub budget : BudgetRequest
  pub integrity_digest : String
