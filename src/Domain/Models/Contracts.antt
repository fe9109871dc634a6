-- ===== src/Domain/Models/Contracts.antt =====
-- `ScopeRules`, the requests and `TaskContract` of src/agent_harness/domain/models.py.
use harness_system.Prelude.{ℕ, String, Bool, List, Option, ℤ}
use harness_system.Domain.Enums.{WorkspaceAccessLevel, VerificationMethod}

pub record ScopeRules : Type 0 where
  pub allowed_path_rules : List String
  pub forbidden_path_rules : List String
  pub allow_new_files : Bool
  pub max_changed_files : Option ℕ
  pub max_changed_bytes : Option ℕ
  pub declared_generated_paths : List String

pub record RequestedCapabilities : Type 0 where
  pub workspace_access : WorkspaceAccessLevel
  pub command_ids : List String
  pub raw_shell : Bool
  pub network_domains : List String
  pub package_install : Bool
  pub external_systems : List String
  pub mcp_tools : List String
  pub database_targets : List String

pub record BudgetRequest : Type 0 where
  pub timeout_seconds : ℕ
  pub max_turns : ℕ
  pub max_rework_iterations : ℕ

pub record RepositoryRef : Type 0 where
  pub repository_id : String
  pub base_commit_sha : String
  pub target_ref : String
  pub expected_repository_fingerprint : String

pub record VerificationSpec : Type 0 where
  pub method : VerificationMethod
  pub command_id : Option String
  pub assertion : Option String
  pub manual_instruction : Option String
  pub expected_exit_codes : List ℤ
  pub expected_output_match : Option String
  pub required_evidence_kinds : List String

pub record AcceptanceCriterion : Type 0 where
  pub id : String
  pub description : String
  pub mandatory : Bool
  pub verification : VerificationSpec

pub record IntegrityRef : Type 0 where
  pub canonical_digest : String
  pub supersedes_contract_id : Option String

pub record ConstraintSet : Type 0 where
  pub typed_constraints : List String
  pub notes : Option String

pub record TaskContract : Type 0 where
  pub contract_id : String
  pub contract_revision : ℕ
  pub run_id : String
  pub task_id : String
  pub request_snapshot_ref : String
  pub objective : String
  pub repository : RepositoryRef
  pub scope : ScopeRules
  pub constraints : ConstraintSet
  pub acceptance_criteria : List AcceptanceCriterion
  pub requested_capabilities : RequestedCapabilities
  pub budget_request : BudgetRequest
  pub required_evidence : List String
  pub worker_profile_ref : Option String
  pub risk_hints : List String
  pub integrity : IntegrityRef
