-- ===== src/Pipeline/Deps.antt =====
-- `PipelineDeps` of src/agent_harness/application/orchestrator.py, with the library code that the
-- pipeline calls: the clock, random identifiers, git, the file system, pydantic's parsing of a
-- dictionary, and `re` and `fnmatch`. A text that is only logged or sent is a `Message`, which
-- `render` writes out.
use harness_system.Prelude.{ℕ, String, Bool, List, Option}
use harness_system.Domain.Enums.{AgentRole, ProtocolStatus}
use harness_system.Domain.Models.{
  Artifact, GatedCapability, PolicyCeiling, PolicyDecision, ReworkContract, TaskContract,
  VerificationResult, WorkerResult, WorkspaceLease,
}
use harness_system.Domain.Digests.{Digests}
use harness_system.Execution.Manifest.{ManifestEntry}
use harness_system.Execution.ScopeGuard.{RegexPart}
use harness_system.Execution.Frozen.{CommandExecution, FrozenValidationResult}
use harness_system.Checks.{VerifiedVerification}
use harness_system.Providers.Protocol.{AgentProvider, Reply}

-- The texts that the pipeline composes, with what they are composed from.
pub data Message : Type 0 where
  planner_prompt : String → Message
  worker_prompt : TaskContract → Option ReworkContract → Message
  verifier_prompt : TaskContract → FrozenValidationResult → Message
  repository_unresolved worktree_failed contract_invalid : Message
  over_budget : AgentRole → Message
  invocation_late : AgentRole → ℕ → Message
  no_contract : ProtocolStatus → Message
  policy_denied : PolicyDecision → Message
  approval_required : List GatedCapability → Message
  approval_rejected : Message
  verification_unusable : Message
  verification_rejected : List String → Message
  review_required final_approval_required : Message
  no_progress : ℕ → List String → Message
  rework_exhausted : ℕ → Message

-- The arguments of `create_worktree` that vary.
pub record WorktreeRequest : Type 0 where
  pub repository_id : String
  pub base_commit_sha : String
  pub run_id : String
  pub now : ℕ

-- The keys that the pipeline sets in a Worker's output before it is parsed.
pub record WorkerIdentity : Type 0 where
  pub task_id : String
  pub contract_id : String
  pub contract_digest : String
  pub invocation_id : String
  pub provider_session_ref : String

pub record PipelineDeps : Type 0 where
  pub digests : Digests
  pub utc_now : ℕ → ℕ
  pub new_id : ℕ → String
  pub render : Message → String
  pub re_match : List RegexPart → String → Bool
  pub fnmatch : String → String → Bool
  pub rev_parse : ℕ → Reply String
  pub compute_repository_fingerprint : ℕ → Reply String
  pub verify_repository_fingerprint : String → ℕ → Reply (Unit {0})
  pub create_worktree : WorktreeRequest → ℕ → Reply WorkspaceLease
  pub freeze_manifest : ℕ → Reply (List ManifestEntry × Artifact)
  pub execute_command : String → ℕ → Reply CommandExecution
  pub parse_task_contract : String → String → String → ℕ → Option TaskContract
  pub parse_worker_result : String → WorkerIdentity → ℕ → Option WorkerResult
  pub parse_verification_result : String → ℕ → Option VerificationResult
  pub provider_for_role : AgentRole → ℕ → Reply AgentProvider
  pub verifier_provider_factory : ℕ → Reply AgentProvider
  pub policy_ceiling : PolicyCeiling
  pub check_command_ids : List String
  pub test_path_patterns : List String
  pub role_profile_digest : String
  pub decide_policy_approval : PolicyDecision → ℕ → Reply Bool
  pub decide_final_approval : VerifiedVerification → ℕ → Reply Bool
