-- ===== src/Pipeline/Run.antt =====
-- `run_task_pipeline` of src/agent_harness/application/orchestrator.py. The loop is given one round
-- more than the reworks that the contract allows.
use Prim.Native.String.{◌++◌ as append}
use harness_system.Prelude.{ℕ, zero, suc, String, none}
use harness_system.Domain.Models.{Run, Task}
use harness_system.Pipeline.Exec.{M, pure, ◌>>=◌}
use harness_system.Pipeline.Deps.{PipelineDeps}
use harness_system.Pipeline.Plan.{
  Planned, Workspace, accept_contract, plan, prepare_workspace, resolve_repository,
}
use harness_system.Pipeline.Attempt.{Round, Setting, attempt}

abbrev pub setting_of : Task → Planned → Workspace → Setting
setting_of task p w = record {
  task = task;
  contract = p.contract;
  contract_digest = p.contract_digest;
  lease = w.lease;
}

-- The variables before the first round.
abbrev pub first_round : Planned → Workspace → Round
first_round p w = record {
  run = p.run;
  budget_used = p.budget_used;
  baseline = w.baseline;
  active_capabilities = p.contract.requested_capabilities;
  active_grants = p.decision.grants;
  rework_contract = none;
  attempt_number = 1;
  previous_failed_ids = none;
}

module _ (deps : PipelineDeps) where
  -- `while True`, for at most this many rounds; `done` means that they were not enough.
  unfoldable pub rounds : ℕ → String → Setting → Round → M (Unit {0})
  rounds zero correlation_id c r = pure tt
  rounds (suc more) correlation_id c r =
      attempt deps correlation_id c r >>= λ next. rounds more correlation_id c next

  unfoldable pub run_task_pipeline : Run → Task → String → M (Unit {0})
  unfolding rounds
  run_task_pipeline run task user_request_text = do
    let correlation_id = append "run-" run.run_id
    repository ← resolve_repository deps correlation_id run
    planned ← plan deps correlation_id run task user_request_text
    p ← accept_contract deps correlation_id task repository planned
    w ← prepare_workspace deps correlation_id p
    rounds (suc p.contract.budget_request.max_rework_iterations) correlation_id
        (setting_of task p w) (first_round p w)
