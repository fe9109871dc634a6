-- ===== src/Pipeline/Attempt/State.antt =====
-- The variables of the loop of `run_task_pipeline` (src/agent_harness/application/orchestrator.py).
use harness_system.Prelude.{ℕ, String, List, Option, none, some, ◌==◌, string_eq, if◌then◌else◌}
use harness_system.Domain.Models.{
  Artifact, BudgetUsage, PolicyGrants, RequestedCapabilities, ReworkContract, Run, Task,
  TaskContract, WorkerResult, WorkspaceLease,
}
use harness_system.Execution.Manifest.{ManifestEntry}
use harness_system.Execution.Frozen.{FrozenValidationResult}
use harness_system.Checks.{VerifiedVerification}

-- What stays the same in all rounds.
pub record Setting : Type 0 where
  pub task : Task
  pub contract : TaskContract
  pub contract_digest : String
  pub lease : WorkspaceLease

-- The variables of the loop.
pub record Round : Type 0 where
  pub run : Run
  pub budget_used : BudgetUsage
  pub baseline : List ManifestEntry × Artifact
  pub active_capabilities : RequestedCapabilities
  pub active_grants : PolicyGrants
  pub rework_contract : Option ReworkContract
  pub attempt_number : ℕ
  pub previous_failed_ids : Option (List String)

-- The run and the usage after the Worker's turn, with its report if it can be read.
pub record Executed : Type 0 where
  pub run : Run
  pub budget_used : BudgetUsage
  pub worker_result : Option WorkerResult

-- The run and the usage after the Verifier's turn.
pub record Verified : Type 0 where
  pub run : Run
  pub budget_used : BudgetUsage
  pub frozen_result : FrozenValidationResult
  pub verified : VerifiedVerification

abbrev pub rework_ref : Option ReworkContract → Option String
rework_ref none = none
rework_ref (some r) = some r.rework_id

abbrev pub rework_digest : Option ReworkContract → Option String
rework_digest none = none
rework_digest (some r) = some r.integrity_digest

-- `x or "unknown"`
abbrev pub or_unknown : Option String → String
or_unknown none = "unknown"
or_unknown (some ref) = if ref == "" then "unknown" else ref

-- `post_test_artifact` is None only by the default of its field.
abbrev pub or_artifact : Option Artifact → Artifact → Artifact
or_artifact none artifact = artifact
or_artifact (some artifact) _ = artifact

abbrev pub requested_by : Option WorkerResult → Option RequestedCapabilities
requested_by none = none
requested_by (some result) = result.requested_additional_capabilities
