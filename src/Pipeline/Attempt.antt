-- ===== src/Pipeline/Attempt.antt =====
-- One round of the loop of `run_task_pipeline` (src/agent_harness/application/orchestrator.py): the
-- Worker's turn, the frozen result, the Verifier's turn and what follows from the verdict.
mod State
mod Turns
mod Verdicts
unfoldable pub use State.*
unfoldable pub use Turns.*
unfoldable pub use Verdicts.*
use harness_system.Prelude.{String}
use harness_system.Pipeline.Exec.{M, ◌>>=◌}
use harness_system.Pipeline.Deps.{PipelineDeps}

module _ (deps : PipelineDeps) (correlation_id : String) (c : Setting) where
  -- One round.
  unfoldable pub attempt : Round → M Round
  unfolding execute validate verify follow
  attempt r = do
    executed ← execute deps correlation_id c r
    checked ← validate deps correlation_id c r executed.run
    v ← verify deps correlation_id c r executed.budget_used checked
    follow deps correlation_id c r executed.worker_result v v.verified.accepted_decision
