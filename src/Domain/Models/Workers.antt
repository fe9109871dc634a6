-- ===== src/Domain/Models/Workers.antt =====
-- `WorkerResult`, `ProviderError` and `WorkspaceLease` of src/agent_harness/domain/models.py.
use harness_system.Prelude.{ℕ, ℤ, String, Bool, List, Option}
use harness_system.Domain.Enums.{ProviderErrorCode, WorkerResultStatus}
use harness_system.Domain.Models.Contracts.{RequestedCapabilities}

-- `Literal["ADDED", "MODIFIED", "DELETED", "RENAMED"]`
pub data ChangeType : Type 0 where
  added modified deleted renamed : ChangeType

pub record ReportedChangedFile : Type 0 where
  pub path : String
  pub change_type : ChangeType
  pub previous_path : Option String

pub record ReportedCommand : Type 0 where
  pub command_id : String
  pub reported_exit_code : Option ℤ
  pub reported_duration_ms : Option ℕ

pub record ReportedTestRun : Type 0 where
  pub name : String
  pub reported_passed : Option ℕ
  pub reported_failed : Option ℕ
  pub command_id : Option String

pub record WorkerResult : Type 0 where
  pub task_id : String
  pub contract_id : String
  pub contract_digest : String
  pub invocation_id : String
  pub provider_session_ref : String
  pub status : WorkerResultStatus
  pub implementation_summary : String
  pub reported_changed_files : List ReportedChangedFile
  pub reported_commands : List ReportedCommand
  pub reported_tests : List ReportedTestRun
  pub assumptions : List String
  pub unverified_items : List String
  pub remaining_risks : List String
  pub scope_exceptions_requested : List String
  pub requested_additional_capabilities : Option RequestedCapabilities
  pub provider_artifact_refs : List String
  pub blocked_reason : Option String

pub record ProviderError : Type 0 where
  pub code : ProviderErrorCode
  pub retriable : Bool
  pub message : String
  pub provider_original_code : Option String
  pub raw_artifact_ref : Option String

pub record WorkspaceLease : Type 0 where
  pub lease_id : String
  pub repository_id : String
  pub worktree_path_handle : String
  pub base_commit_sha : String
  pub branch : String
  pub owner : String
  pub heartbeat_at : ℕ
  pub sandbox_profile : String
  pub created_at : ℕ
  pub expires_at : Option ℕ
