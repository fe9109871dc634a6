-- ===== src/Pipeline/Attempt/Turns.antt =====
-- The two turns of a round of `run_task_pipeline` (src/agent_harness/application/orchestrator.py): the
-- Worker's with the frozen result, and the Verifier's.
use harness_system.Prelude.{String, Option, none, some, ◌==◌, string_eq, if◌then◌else◌}
use harness_system.Exceptions.{Exception, verification_service}
use harness_system.Domain.Enums.{AgentRole, FailureCategory, FailureCode, ProtocolStatus}
use harness_system.Domain.Lifecycle.{LifecycleState}
use harness_system.Domain.Models.{BudgetUsage, Run, WorkerResult}
use harness_system.Execution.Frozen.{FrozenValidationResult}
use harness_system.Store.{insert_verification_result}
use harness_system.Providers.Protocol.{AgentRunResult}
use harness_system.Pipeline.Exec.{M, pure, throw, ◌>>=◌, ◌>>◌, catch, ask, draw, insert}
use harness_system.Pipeline.Deps.{PipelineDeps, Message}
use harness_system.Pipeline.Invoke.{compute_deadline, invoke_role}
use harness_system.Pipeline.Freeze.{freeze_and_validate}
use harness_system.Pipeline.Verify.{run_verification}
use harness_system.Pipeline.Gate.{advance, claude_tool_ids_for, return_failed}
use harness_system.Pipeline.Plan.{charged, on_timeout, within_budget}
use harness_system.Pipeline.Attempt.State.{
  Executed, Round, Setting, Verified, or_unknown, rework_digest, rework_ref,
}

module _ (deps : PipelineDeps) (correlation_id : String) (c : Setting) where
  -- The Worker's report: an empty dictionary counts as none, and a malformed one is dropped.
  unfoldable pub read_report :
      AgentRunResult → ProtocolStatus → Option String → M (Option WorkerResult)
  read_report result ProtocolStatus.succeeded (some output) =
      if output == "{}"
      then pure none
      else draw (
          deps.parse_worker_result output (record {
            task_id = c.task.task_id;
            contract_id = c.contract.contract_id;
            contract_digest = c.contract_digest;
            invocation_id = result.invocation_id;
            provider_session_ref = or_unknown result.provider_session_ref;
          }))
  read_report result _ _ = pure none

  unfoldable pub invoke_worker : Run → Round → M AgentRunResult
  invoke_worker run r =
      catch
        (do
          provider ← ask (deps.provider_for_role AgentRole.worker)
          invoke_role deps provider AgentRole.worker (record {
            prompt = Message.worker_prompt c.contract r.rework_contract;
            task_contract_ref = c.contract.contract_id;
            task_contract_digest = c.contract_digest;
            output_schema_id = "worker_result";
            effective_policy_grants = r.active_grants;
            workspace_handle = c.lease.worktree_path_handle;
            role_profile_ref = "worker-profile";
            budget = r.active_grants.budgets;
            correlation_id = correlation_id;
            allowed_tool_ids = claude_tool_ids_for r.active_grants;
            rework_contract_ref = rework_ref r.rework_contract;
            rework_contract_digest = rework_digest r.rework_contract;
          }))
        (on_timeout deps correlation_id run "EXECUTING" AgentRole.worker r.active_grants.budgets)

  -- EXECUTING
  unfoldable pub execute : Round → M Executed
  unfolding invoke_worker read_report
  execute r = do
    run ← advance deps r.run LifecycleState.executing correlation_id
    within_budget deps correlation_id run r.budget_used r.active_grants.budgets "EXECUTING"
        AgentRole.worker
    result ← invoke_worker run r
    report ← read_report result result.protocol_status result.structured_output
    pure (record {
      run = run;
      budget_used = charged r.budget_used result.usage;
      worker_result = report;
    })

  -- FREEZING_RESULT and HOST_VALIDATING
  unfoldable pub validate : Round → Run → M (Run × FrozenValidationResult)
  validate r run = do
    freezing ← advance deps run LifecycleState.freezing_result correlation_id
    validating ← advance deps freezing LifecycleState.host_validating correlation_id
    now ← draw deps.utc_now
    frozen ←
        freeze_and_validate deps validating.run_id c.task.task_id r.baseline
          r.active_grants.path_rules now
    pure (validating, frozen)

  -- `except VerificationServiceError`
  unfoldable pub on_unusable : {A : Type 0} → Run → Exception → M A
  on_unusable run verification_service = return_failed deps run correlation_id (record {
    stage = "VERIFYING";
    code = FailureCode.execution_failed;
    category = FailureCategory.infrastructure;
    detail = Message.verification_unusable;
  })
  on_unusable run e = throw e

  -- VERIFYING
  unfoldable pub verify : Round → BudgetUsage → Run × FrozenValidationResult → M Verified
  unfolding on_unusable
  verify r budget_used (run, frozen) = do
    verifying ← advance deps run LifecycleState.verifying correlation_id
    within_budget deps correlation_id verifying budget_used r.active_grants.budgets "VERIFYING"
        AgentRole.verifier
    verified ←
        catch
          (do
            now ← draw deps.utc_now
            run_verification deps c.contract frozen (record {
              context_snapshot_digest = c.contract_digest;
              deadline = compute_deadline r.active_grants.budgets now;
              correlation_id = correlation_id;
              budget = r.active_grants.budgets;
            }))
          (on_unusable verifying)
    created_at ← draw deps.utc_now
    insert (insert_verification_result verified.verification_result verifying.run_id)
    pure (record {
      run = verifying;
      budget_used = charged budget_used verified.usage;
      frozen_result = frozen;
      verified = verified;
    })
