-- ===== src/Pipeline/Plan.antt =====
-- The first half of `run_task_pipeline` of src/agent_harness/application/orchestrator.py: from the
-- repository to the accepted contract and its policy decision.
use harness_system.Prelude.{String, false, List, [], Option, none, some}
use harness_system.Exceptions.{Exception, Result, ok, raised, pipeline_timeout}
use harness_system.Domain.Enums.{
  AgentRole, FailureCategory, FailureCode, ProtocolStatus, SubjectType,
}
use harness_system.Domain.Lifecycle.{LifecycleState}
use harness_system.Domain.Models.{
  Artifact, BudgetRequest, BudgetUsage, PolicyDecision, Run, Task, TaskContract, UsageRecord,
  WorkspaceLease,
}
use harness_system.Domain.Digests.{placeholder_digest, task_contract_digest}
use harness_system.Execution.Manifest.{ManifestEntry}
use harness_system.Usage.{accumulate_usage, check_budget}
use harness_system.Store.{insert_task_contract}
use harness_system.Providers.Protocol.{AgentRunResult}
use harness_system.Pipeline.Exec.{M, pure, throw, give, ◌>>=◌, ◌>>◌, catch, ask, draw, insert}
use harness_system.Pipeline.Deps.{PipelineDeps, Message}
use harness_system.Pipeline.Invoke.{invoke_role}
use harness_system.Pipeline.Verify.{default_grants}
use harness_system.Pipeline.Gate.{advance, gate_policy, return_failed}

-- `try: check_budget(...) except BudgetExceededError: ...`, which is the only exception of the call.
unfoldable pub or_else : Result (Unit {0}) → M (Unit {0}) → M (Unit {0})
or_else (ok _) h = pure tt
or_else (raised e) h = h

-- `if result.usage is not None: budget_used = accumulate_usage(...)`
unfoldable pub charged : BudgetUsage → Option UsageRecord → BudgetUsage
charged used none = used
charged used (some usage) = accumulate_usage used usage false

-- A run with its usage, a contract and the decision about it.
pub record Planned : Type 0 where
  pub run : Run
  pub budget_used : BudgetUsage
  pub contract : TaskContract
  pub contract_digest : String
  pub decision : PolicyDecision

-- The worktree and its first manifest.
pub record Workspace : Type 0 where
  pub lease : WorkspaceLease
  pub baseline : List ManifestEntry × Artifact

module _ (deps : PipelineDeps) (correlation_id : String) where
  unfoldable pub resolve_repository : Run → M (String × String)
  resolve_repository run =
      catch
        (do
          base_sha ← ask deps.rev_parse
          fingerprint ← ask deps.compute_repository_fingerprint
          pure (base_sha, fingerprint))
        (λ _. return_failed deps run correlation_id (record {
          stage = "PLANNING";
          code = FailureCode.execution_failed;
          category = FailureCategory.infrastructure;
          detail = Message.repository_unresolved;
        }))

  -- The budget check before an invocation.
  unfoldable pub within_budget :
      Run → BudgetUsage → BudgetRequest → String → AgentRole → M (Unit {0})
  unfolding or_else
  within_budget run used ceiling stage role = or_else (check_budget used ceiling) (
      return_failed deps run correlation_id (record {
        stage = stage;
        code = FailureCode.execution_failed;
        category = FailureCategory.domain;
        detail = Message.over_budget role;
      }))

  -- `except PipelineTimeoutError`
  unfoldable pub on_timeout :
      {A : Type 0} → Run → String → AgentRole → BudgetRequest → Exception → M A
  on_timeout run stage role budget pipeline_timeout =
      return_failed deps run correlation_id (record {
        stage = stage;
        code = FailureCode.timed_out;
        category = FailureCategory.infrastructure;
        detail = Message.invocation_late role budget.timeout_seconds;
      })
  on_timeout run stage role budget e = throw e

  unfoldable pub invoke_planner : Run → Task → String → M AgentRunResult
  unfolding on_timeout
  invoke_planner run task user_request_text =
      catch
        (do
          provider ← ask (deps.provider_for_role AgentRole.planner)
          invoke_role deps provider AgentRole.planner (record {
            prompt = Message.planner_prompt user_request_text;
            task_contract_ref = task.task_id;
            task_contract_digest = placeholder_digest;
            output_schema_id = "task_contract";
            effective_policy_grants = default_grants "read_only" deps.policy_ceiling.budget_ceiling;
            workspace_handle = ".";
            role_profile_ref = "planner-profile";
            budget = deps.policy_ceiling.budget_ceiling;
            correlation_id = correlation_id;
            allowed_tool_ids = [];
            rework_contract_ref = none;
            rework_contract_digest = none;
          }))
        (on_timeout run "PLANNING" AgentRole.planner deps.policy_ceiling.budget_ceiling)

  -- The output of a planner that succeeded.
  unfoldable pub planner_output : Run → ProtocolStatus → Option String → M String
  planner_output run ProtocolStatus.succeeded (some output) = pure output
  planner_output run status _ = return_failed deps run correlation_id (record {
    stage = "PLANNING";
    code = FailureCode.execution_failed;
    category = FailureCategory.infrastructure;
    detail = Message.no_contract status;
  })

  unfoldable pub valid_contract : Run → Option TaskContract → M TaskContract
  valid_contract run none = return_failed deps run correlation_id (record {
    stage = "CONTRACT_VALIDATING";
    code = FailureCode.schema_invalid;
    category = FailureCategory.domain;
    detail = Message.contract_invalid;
  })
  valid_contract run (some contract) = pure contract

  -- The repository that the Harness resolved replaces the Planner's.
  unfoldable pub pinned : TaskContract → String → String × String → TaskContract
  pinned contract repository_id (base_sha, fingerprint) = record contract {
    repository = record {
      repository_id = repository_id;
      base_commit_sha = base_sha;
      target_ref = "HEAD";
      expected_repository_fingerprint = fingerprint;
    };
  }

  -- The digest that the Harness computes replaces the Planner's.
  unfoldable pub accepted_contract : TaskContract → TaskContract
  accepted_contract draft = record draft {
    integrity = record {
      canonical_digest = task_contract_digest deps.digests draft;
      supersedes_contract_id = none;
    };
  }

  -- `if decision is None: return run`
  unfoldable pub or_return : Run × Option PolicyDecision → M (Run × PolicyDecision)
  or_return (run, none) = give run
  or_return (run, some decision) = pure (run, decision)

  -- PLANNING
  unfoldable pub plan : Run → Task → String → M (Run × BudgetUsage × String)
  unfolding within_budget invoke_planner planner_output charged
  plan run task user_request_text = do
    planning ← advance deps run LifecycleState.planning correlation_id
    within_budget planning run.budget_used deps.policy_ceiling.budget_ceiling "PLANNING"
        AgentRole.planner
    result ← invoke_planner planning task user_request_text
    output ← planner_output planning result.protocol_status result.structured_output
    pure (planning, charged run.budget_used result.usage, output)

  -- CONTRACT_VALIDATING and the first policy decision
  unfoldable pub accept_contract : Task → String × String → Run × BudgetUsage × String → M Planned
  unfolding valid_contract pinned accepted_contract or_return
  accept_contract task repository (run, budget_used, output) = do
    validating ← advance deps run LifecycleState.contract_validating correlation_id
    parsed ← draw (deps.parse_task_contract output task.task_id run.run_id)
    proposed ← valid_contract validating parsed
    let draft = pinned proposed run.repository_id repository
    let contract = accepted_contract draft
    created_at ← draw deps.utc_now
    insert (insert_task_contract contract run.run_id)
    gated ← gate_policy deps validating correlation_id (record {
      subject_type = SubjectType.task_contract;
      subject_id = contract.contract_id;
      subject_digest = contract.integrity.canonical_digest;
      requested_capabilities = contract.requested_capabilities;
      requested_scope = contract.scope;
    })
    (gated_run, decision) ← or_return gated
    preparing ← advance deps gated_run LifecycleState.preparing_workspace correlation_id
    pure (record {
      run = preparing;
      budget_used = budget_used;
      contract = contract;
      contract_digest = contract.integrity.canonical_digest;
      decision = decision;
    })

  -- PREPARING_WORKSPACE
  unfoldable pub prepare_workspace : Planned → M Workspace
  prepare_workspace p = do
    lease ←
        catch
          (do
            ask (
                deps.verify_repository_fingerprint
                  p.contract.repository.expected_repository_fingerprint)
            now ← draw deps.utc_now
            ask (
                deps.create_worktree (record {
                  repository_id = p.contract.repository.repository_id;
                  base_commit_sha = p.contract.repository.base_commit_sha;
                  run_id = p.run.run_id;
                  now = now;
                })))
          (λ _. return_failed deps p.run correlation_id (record {
            stage = "PREPARING_WORKSPACE";
            code = FailureCode.execution_failed;
            category = FailureCategory.infrastructure;
            detail = Message.worktree_failed;
          }))
    baseline ← ask deps.freeze_manifest
    pure (record { lease = lease; baseline = baseline })
