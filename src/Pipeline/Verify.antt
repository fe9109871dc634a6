-- ===== src/Pipeline/Verify.antt =====
-- `run_verification` of src/agent_harness/application/verification.py. The prompt registry of the
-- call is local to it.
use Prim.Native.String.{◌++◌ as append}
use harness_system.Prelude.{ℕ, String, false, [], Option, none, some}
use harness_system.Exceptions.{verification_service, validation_error}
use harness_system.Domain.Enums.{AgentRole, ProtocolStatus, WorkspaceAccessLevel}
use harness_system.Domain.Models.{
  BudgetRequest, PolicyGrants, ScopeRules, TaskContract, UsageRecord, VerificationResult,
}
use harness_system.Execution.Frozen.{FrozenValidationResult}
use harness_system.Checks.{VerifiedVerification, verified_verification}
use harness_system.Providers.Protocol.{AgentRunRequest, AgentRunResult}
use harness_system.Pipeline.Exec.{M, pure, throw, ◌>>=◌, ask, draw}
use harness_system.Pipeline.Deps.{PipelineDeps}
use harness_system.Pipeline.Invoke.{in_session, run_invocation}

-- The defaults of `ScopeRules` and `PolicyGrants`.
abbrev pub no_scope : ScopeRules
no_scope = record {
  allowed_path_rules = [];
  forbidden_path_rules = [];
  allow_new_files = false;
  max_changed_files = none;
  max_changed_bytes = none;
  declared_generated_paths = [];
}

abbrev pub default_grants : String → BudgetRequest → PolicyGrants
default_grants sandbox_profile budgets = record {
  path_rules = no_scope;
  command_ids = [];
  workspace_access = WorkspaceAccessLevel.none;
  network_rules = [];
  package_rules = [];
  mcp_tools = [];
  external_targets = [];
  sandbox_profile = sandbox_profile;
  budgets = budgets;
}

-- `_read_only_grants`
abbrev pub read_only_grants : PolicyGrants
read_only_grants =
    default_grants "read_only"
      (record { timeout_seconds = 600; max_turns = 5; max_rework_iterations = 0 })

-- The arguments of `run_verification` that vary.
pub record Verification : Type 0 where
  pub context_snapshot_digest : String
  pub deadline : ℕ
  pub correlation_id : String
  pub budget : BudgetRequest

module _ (deps : PipelineDeps) (contract : TaskContract) (frozen_result : FrozenValidationResult)
    (q : Verification) where
  unfoldable pub verifier_request : String → String → String → AgentRunRequest
  verifier_request prompt_ref invocation_id key = record {
    invocation_id = invocation_id;
    role = AgentRole.verifier;
    task_contract_ref = contract.contract_id;
    task_contract_digest = contract.integrity.canonical_digest;
    rework_contract_ref = none;
    rework_contract_digest = none;
    context_snapshot_ref = "context-ref";
    context_snapshot_digest = q.context_snapshot_digest;
    role_profile_ref = "verifier-profile";
    role_profile_digest = deps.role_profile_digest;
    output_schema_id = "verification_result";
    output_schema_version = "1.0";
    output_schema_digest = q.context_snapshot_digest;
    effective_policy_grants = read_only_grants;
    workspace_handle = ".";
    deadline = q.deadline;
    max_turns = some q.budget.max_turns;
    max_tokens = none;
    max_cost_usd = none;
    allowed_tool_ids = [];
    allowed_mcp_tool_ids = [];
    prompt_payload_artifact_ref = prompt_ref;
    correlation_id = q.correlation_id;
    idempotency_key = append "verify-" (append contract.contract_id (append "-" key));
  }

  -- The turn of the Verifier, in a provider and a session of its own.
  unfoldable pub verifier_turn : M AgentRunResult
  unfolding in_session run_invocation verifier_request
  verifier_turn = do
    id ← draw deps.new_id
    let prompt_ref = append "prompt://" id
    provider ← ask deps.verifier_provider_factory
    in_session provider
        (record {
          role = AgentRole.verifier;
          role_profile_ref = "verifier-profile";
          role_profile_digest = deps.role_profile_digest;
          contract_digest = contract.integrity.canonical_digest;
          context_snapshot_ref = "context-ref";
          context_snapshot_digest = q.context_snapshot_digest;
          deadline = q.deadline;
        })
        (λ session. do
          key ← draw deps.new_id
          invocation_id ← draw deps.new_id
          run_invocation provider session (verifier_request prompt_ref invocation_id key)
              q.budget.timeout_seconds verification_service)

  -- `VerificationResult.model_validate`, and what is made of it.
  unfoldable pub verified_of :
      Option UsageRecord → Option VerificationResult → M VerifiedVerification
  verified_of usage none = throw validation_error
  verified_of usage (some result) = pure (verified_verification contract frozen_result result usage)

  -- What is made of the Verifier's answer.
  unfoldable pub read_verdict :
      Option UsageRecord → ProtocolStatus → Option String → M VerifiedVerification
  unfolding verified_of
  read_verdict usage ProtocolStatus.succeeded (some output) = do
    result ← draw (deps.parse_verification_result output)
    verified_of usage result
  read_verdict usage _ _ = throw verification_service

  unfoldable pub run_verification : M VerifiedVerification
  unfolding verifier_turn read_verdict
  run_verification = do
    result ← verifier_turn
    read_verdict result.usage result.protocol_status result.structured_output
