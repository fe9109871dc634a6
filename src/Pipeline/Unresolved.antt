-- ===== src/Pipeline/Unresolved.antt =====
-- A repository that git cannot resolve, at the start of `run_task_pipeline`
-- (src/agent_harness/application/orchestrator.py).
use harness_system.Prelude.{eqb, eqb_iff, String, ◌≡◌, refl, some, true}
use harness_system.Exceptions.{illegal_transition, not_allowed}
use harness_system.Domain.Lifecycle.{LifecycleState}
use harness_system.Domain.Models.{Run, Task}
use harness_system.Transitions.{
  can_transition, is_terminal, requires_pending_action, transition_run, validate_transition,
  is_failed,
}
use harness_system.Store.{apply_transition, get_run, transition_body}
use harness_system.Providers.Protocol.{broken}
use harness_system.Pipeline.Exec.{
  World, threw, ◌>>=◌, continue, catch, handle, ask, lift, throw, draw, transact, on_store,
}
use harness_system.Pipeline.Deps.{PipelineDeps}
use harness_system.Pipeline.Gate.{fail, failure_of, move, orchestrator_request, return_failed}
use harness_system.Pipeline.Plan.{resolve_repository}
use harness_system.Pipeline.Run.{run_task_pipeline}

-- For a new run whose row is in the table, in a repository for which `git rev-parse` fails: the
-- pipeline does not return a failed run but raises IllegalTransition, because the table has no edge
-- from CREATED to FAILED, and leaves every table as it was.
pub run_task_pipeline-unresolved :
    (deps : PipelineDeps) (run : Run) (task : Task) (user_request_text : String) (w : World)
    → run.state ≡ LifecycleState.created
    → get_run w.store run.run_id ≡ some run
    → deps.rev_parse w.tick ≡ broken
    → ((run_task_pipeline deps run task user_request_text w).0
        ≡ threw (illegal_transition not_allowed))
      × ((run_task_pipeline deps run task user_request_text w).1.store ≡ w.store)
unfolding run_task_pipeline resolve_repository ◌>>=◌ continue catch handle ask lift throw
    return_failed fail move draw transact on_store apply_transition transition_body
    orchestrator_request transition_run validate_transition is_terminal can_transition
    requires_pending_action is_failed failure_of
run_task_pipeline-unresolved deps run task text w at_start row unresolved =
    let current : eqb run.state_version run.state_version ≡ true =
      (eqb_iff run.state_version run.state_version).1 refl in
    rw (unresolved, row, at_start, current) (refl, refl)
