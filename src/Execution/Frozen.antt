-- ===== src/Execution/Frozen.antt =====
-- `FrozenValidationResult` of src/agent_harness/execution/evidence.py, with `CommandRun`
-- (src/agent_harness/domain/models.py), `ProcessResult` (src/agent_harness/execution/process.py) and
-- `CommandExecution` (src/agent_harness/execution/command_broker.py). Bytes are a list of numbers.
use harness_system.Prelude.{ℕ, String, Bool, List, Option, ℤ}
use harness_system.Domain.Models.{Artifact, EvidenceRecord}
use harness_system.Execution.Manifest.{ManifestEntry, ManifestDiff}
use harness_system.Execution.ScopeGuard.{ScopeViolation}

pub record CommandRun : Type 0 where
  pub command_run_id : String
  pub command_spec_id : String
  pub resolved_argv : List String
  pub exit_code : Option ℤ
  pub signal : Option String
  pub duration_ms : ℕ
  pub stdout_artifact_ref : Option String
  pub stderr_artifact_ref : Option String
  pub pre_manifest_ref : Option String
  pub post_manifest_ref : Option String
  pub started_at : ℕ
  pub completed_at : Option ℕ

pub record ProcessResult : Type 0 where
  pub argv : List String
  pub exit_code : Option ℤ
  pub timed_out : Bool
  pub output_cap_exceeded : Bool
  pub duration_ms : ℕ
  pub stdout : List ℕ
  pub stderr : List ℕ
  pub stdout_truncated : Bool
  pub stderr_truncated : Bool
  pub started_at : ℕ
  pub completed_at : ℕ

pub record CommandExecution : Type 0 where
  pub command_run : CommandRun
  pub process_result : ProcessResult
  pub stdout_artifact : Option Artifact
  pub stderr_artifact : Option Artifact

pub record FrozenValidationResult : Type 0 where
  pub baseline_manifest : List ManifestEntry
  pub result_manifest : List ManifestEntry
  pub baseline_artifact : Artifact
  pub result_artifact : Artifact
  pub manifest_diff : ManifestDiff
  pub test_mutations : List String
  pub check_executions : List CommandExecution
  pub evidence : List EvidenceRecord
  pub scope_violations : List ScopeViolation
  pub post_test_manifest : List ManifestEntry
  pub post_test_artifact : Option Artifact
  pub test_side_effects : List String
