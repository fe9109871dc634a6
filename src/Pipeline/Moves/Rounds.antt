-- ===== src/Pipeline/Moves/Rounds.antt =====
-- The loop and the whole pipeline (src/agent_harness/application/orchestrator.py), as in Turns.
use harness_system.Prelude.{
  Bool-cases, ◌==◌, string_eq, inl, inr, ℕ, zero, suc, String, Bool, true, false, List, Option,
  none, some,
}
use harness_system.Exceptions.{Exception, verification_service}
use harness_system.Domain.Enums.{ProtocolStatus, VerificationDecision}
use harness_system.Domain.Models.{
  BudgetUsage, RequestedCapabilities, ReworkContract, Run, Task, WorkerResult,
}
use harness_system.Execution.Frozen.{FrozenValidationResult}
use harness_system.Providers.Protocol.{AgentRunResult}
use harness_system.Pipeline.Exec.{World, M}
use harness_system.Pipeline.Exec.Moves.{Moves, IsStable, moves_rules, Moves-bind}
use harness_system.Pipeline.Deps.{PipelineDeps}
use harness_system.Pipeline.Attempt.{
  Round, Setting, Verified, stop_if, read_report, invoke_worker, execute, validate, on_unusable,
  verify, finish, regate, may_rework, rework, follow, attempt,
}
use harness_system.Pipeline.Run.{rounds, run_task_pipeline}
use harness_system.Pipeline.Moves.Turns.{
  invoke_role-Moves, freeze_and_validate-Moves, run_verification-Moves,
}
use harness_system.Pipeline.Moves.Gates.{
  return_failed-Moves, advance-Moves, advance_pending-Moves, gate_policy-Moves,
}
use harness_system.Pipeline.Moves.Stages.{
  or_else-Moves, resolve_repository-Moves, within_budget-Moves, on_timeout-Moves, or_return-Moves,
  plan-Moves, accept_contract-Moves, prepare_workspace-Moves,
}

module _ (deps : PipelineDeps) (R : World → World → Type 0) (stable : IsStable deps.digests R) where
  stop_if-Moves : (test : Bool) (m : M (Unit {0})) → Moves R m → Moves R (stop_if test m)
  unfolding stop_if
  stop_if-Moves true m moves = moves
  stop_if-Moves false m moves = search moves_rules

  module _ (id : String) (c : Setting) where
    read_report-Moves :
        (result : AgentRunResult) (status : ProtocolStatus) (output : Option String)
        → Moves R (read_report deps id c result status output)
    unfolding read_report
    read_report-Moves result ProtocolStatus.succeeded (some output) =
        elim (Bool-cases (output == "{}")) [
          | inl blank ↦ rw blank (search moves_rules)
          | inr full ↦ rw full (search moves_rules)
        ]
    read_report-Moves result _ _ = search moves_rules

    invoke_worker-Moves : (run : Run) (r : Round) → Moves R (invoke_worker deps id c run r)
    unfolding invoke_worker
    invoke_worker-Moves run r = search (moves_rules, invoke_role-Moves, on_timeout-Moves) depth 7

    execute-Moves : (r : Round) → Moves R (execute deps id c r)
    unfolding execute
    execute-Moves r =
        search
          (moves_rules, advance-Moves, within_budget-Moves, invoke_worker-Moves, read_report-Moves)
          depth 9

    validate-Moves : (r : Round) (run : Run) → Moves R (validate deps id c r run)
    unfolding validate
    validate-Moves r run = search (moves_rules, advance-Moves, freeze_and_validate-Moves) depth 9

    on_unusable-Moves :
        {A : Type 0} (run : Run) (e : Exception) → Moves {A = A} R (on_unusable deps id c run e)
    unfolding on_unusable
    on_unusable-Moves run verification_service = search return_failed-Moves
    on_unusable-Moves run _ = search moves_rules

    verify-Moves :
        (r : Round) (used : BudgetUsage) (checked : Run × FrozenValidationResult)
        → Moves R (verify deps id c r used checked)
    unfolding verify
    verify-Moves r used (run, frozen) =
        search
          (
            moves_rules, advance-Moves, within_budget-Moves, run_verification-Moves,
            on_unusable-Moves,
          )
          depth 10

    finish-Moves : (v : Verified) → Moves R (finish deps id c v)
    unfolding finish
    finish-Moves v = search (moves_rules, advance-Moves, advance_pending-Moves) depth 9

    regate-Moves :
        (r : Round) (run : Run) (w : ReworkContract) (additional : Option RequestedCapabilities)
        → Moves R (regate deps id c r run w additional)
    unfolding regate
    regate-Moves r run w none = search moves_rules
    regate-Moves r run w (some additional) =
        search (moves_rules, gate_policy-Moves, or_return-Moves) depth 7

    may_rework-Moves :
        (r : Round) (run : Run) (ids : List String) → Moves R (may_rework deps id c r run ids)
    unfolding may_rework
    may_rework-Moves r run ids =
        search (moves_rules, stop_if-Moves, or_else-Moves, return_failed-Moves) depth 7

    rework-Moves :
        (r : Round) (report : Option WorkerResult) (v : Verified)
        → Moves R (rework deps id c r report v)
    unfolding rework
    rework-Moves r report v =
        search (moves_rules, advance-Moves, may_rework-Moves, regate-Moves) depth 14

    follow-Moves :
        (r : Round) (report : Option WorkerResult) (v : Verified) (d : VerificationDecision)
        → Moves R (follow deps id c r report v d)
    unfolding follow
    follow-Moves r report v VerificationDecision.reject = search return_failed-Moves
    follow-Moves r report v VerificationDecision.manual_review =
        search (moves_rules, advance_pending-Moves)
    follow-Moves r report v VerificationDecision.pass = search finish-Moves
    follow-Moves r report v VerificationDecision.rework = search rework-Moves

    attempt-Moves : (r : Round) → Moves R (attempt deps id c r)
    unfolding attempt
    attempt-Moves r =
        search (moves_rules, execute-Moves, validate-Moves, verify-Moves, follow-Moves) depth 9

  rounds-Moves :
      (more : ℕ) (id : String) (c : Setting) (r : Round) → Moves R (rounds deps more id c r)
  unfolding rounds
  rounds-Moves zero id c r = search moves_rules
  rounds-Moves (suc more) id c r =
      Moves-bind stable (attempt deps id c r) _ (attempt-Moves id c r)
        (λ next. rounds-Moves more id c next)

  -- What every step keeps, the pipeline keeps.
  pub run_task_pipeline-Moves :
      (run : Run) (task : Task) (text : String) → Moves R (run_task_pipeline deps run task text)
  unfolding run_task_pipeline
  run_task_pipeline-Moves run task text =
      search
        (
          moves_rules, resolve_repository-Moves, plan-Moves, accept_contract-Moves,
          prepare_workspace-Moves, rounds-Moves,
        )
        depth 9
