-- ===== src/Domain/Models/Policies.antt =====
-- `PolicyGrants`, `PolicyDecision` and `Approval` of src/agent_harness/domain/models.py, and
-- `PolicyCeiling` of src/agent_harness/policy/models.py.
use harness_system.Prelude.{ℕ, String, Bool, List, Option}
use harness_system.Domain.Enums.{PolicyOutcome, SubjectType, WorkspaceAccessLevel}
use harness_system.Domain.Models.Contracts.{BudgetRequest, ScopeRules}

pub record PolicyCeiling : Type 0 where
  pub policy_bundle_id : String
  pub policy_bundle_digest : String
  pub engine_version : String
  pub workspace_scope : ScopeRules
  pub allowed_command_ids : List String
  pub raw_shell_allowed : Bool
  pub allowed_network_domains : List String
  pub package_install_allowed : Bool
  pub allowed_mcp_tools : List String
  pub allowed_external_systems : List String
  pub allowed_database_targets : List String
  pub sandbox_profile : String
  pub budget_ceiling : BudgetRequest

pub record PolicyGrants : Type 0 where
  pub path_rules : ScopeRules
  pub command_ids : List String
  pub workspace_access : WorkspaceAccessLevel
  pub network_rules : List String
  pub package_rules : List String
  pub mcp_tools : List String
  pub external_targets : List String
  pub sandbox_profile : String
  pub budgets : BudgetRequest

-- The texts that `evaluate_policy` appends to `denials`, with what they list.
pub data Denial : Type 0 where
  hard_deny_network_metadata_endpoint : List String → Denial
  ceiling_forbids_raw_shell : Denial
  ceiling_forbids_commands : List String → Denial
  ceiling_forbids_network_domains : List String → Denial
  ceiling_forbids_mcp_tools : List String → Denial
  ceiling_forbids_external_systems : List String → Denial
  ceiling_forbids_database_targets : List String → Denial
  ceiling_forbids_package_install : Denial

-- The names of `_APPROVAL_GATED_CAPABILITIES`.
pub data GatedCapability : Type 0 where
  network_access package_install raw_shell : GatedCapability
  mcp_tools external_systems database_targets : GatedCapability

pub record PolicyDecision : Type 0 where
  pub decision_id : String
  pub subject_type : SubjectType
  pub subject_id : String
  pub subject_digest : String
  pub policy_bundle_id : String
  pub policy_bundle_digest : String
  pub engine_version : String
  pub evaluated_at : ℕ
  pub outcome : PolicyOutcome
  pub grants : PolicyGrants
  pub denials : List Denial
  pub approval_requirements : List GatedCapability
  pub reason_codes : List Denial
  pub evaluated_fact_digests : List String
  pub expires_at : Option ℕ
  pub integrity_digest : String

-- `Literal["APPROVED", "REJECTED"]`
pub data ApprovalDecision : Type 0 where
  approved rejected : ApprovalDecision

pub record Approval : Type 0 where
  pub approval_id : String
  pub subject_type : SubjectType
  pub subject_id : String
  pub subject_digest : String
  pub policy_decision_id : String
  pub policy_decision_digest : String
  pub actor : String
  pub decision : ApprovalDecision
  pub scope : List GatedCapability
  pub requested_at : ℕ
  pub decided_at : ℕ
  pub expires_at : Option ℕ
  pub single_use : Bool
  pub rationale : String
