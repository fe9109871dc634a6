-- ===== src/Pipeline/Moves/Stages.antt =====
-- The stages before the loop, as in Turns.
use harness_system.Prelude.{string_eq, String, Option, none, some}
use harness_system.Exceptions.{Exception, Result, ok, raised, pipeline_timeout}
use harness_system.Domain.Enums.{AgentRole, ProtocolStatus}
use harness_system.Domain.Models.{
  BudgetRequest, BudgetUsage, PolicyDecision, Run, Task, TaskContract,
}
use harness_system.Pipeline.Exec.{World, M}
use harness_system.Pipeline.Exec.Moves.{Moves, IsStable, moves_rules}
use harness_system.Pipeline.Deps.{PipelineDeps}
use harness_system.Pipeline.Plan.{
  Planned, or_else, resolve_repository, within_budget, on_timeout, invoke_planner, planner_output,
  valid_contract, or_return, plan, accept_contract, prepare_workspace,
}
use harness_system.Pipeline.Moves.Turns.{invoke_role-Moves}
use harness_system.Pipeline.Moves.Gates.{return_failed-Moves, advance-Moves, gate_policy-Moves}

module _ (deps : PipelineDeps) (R : World → World → Type 0) (stable : IsStable deps.digests R) where
  pub or_else-Moves : (r : Result (Unit {0})) (h : M (Unit {0})) → Moves R h → Moves R (or_else r h)
  unfolding or_else
  or_else-Moves (ok u) h moves = search moves_rules
  or_else-Moves (raised e) h moves = moves

  pub resolve_repository-Moves :
      (id : String) (run : Run) → Moves R (resolve_repository deps id run)
  unfolding resolve_repository
  resolve_repository-Moves id run = search (moves_rules, return_failed-Moves) depth 7

  pub within_budget-Moves :
      (id : String) (run : Run) (used : BudgetUsage) (ceiling : BudgetRequest) (stage : String)
      (role : AgentRole)
      → Moves R (within_budget deps id run used ceiling stage role)
  unfolding within_budget
  within_budget-Moves id run used ceiling stage role = search (or_else-Moves, return_failed-Moves)

  pub on_timeout-Moves :
      {A : Type 0} (id : String) (run : Run) (stage : String) (role : AgentRole)
      (budget : BudgetRequest) (e : Exception)
      → Moves {A = A} R (on_timeout deps id run stage role budget e)
  unfolding on_timeout
  on_timeout-Moves id run stage role budget pipeline_timeout = search return_failed-Moves
  on_timeout-Moves id run stage role budget _ = search moves_rules

  invoke_planner-Moves :
      (id : String) (run : Run) (task : Task) (text : String)
      → Moves R (invoke_planner deps id run task text)
  unfolding invoke_planner
  invoke_planner-Moves id run task text =
      search (moves_rules, invoke_role-Moves, on_timeout-Moves) depth 7

  planner_output-Moves :
      (id : String) (run : Run) (status : ProtocolStatus) (output : Option String)
      → Moves R (planner_output deps id run status output)
  unfolding planner_output
  planner_output-Moves id run ProtocolStatus.succeeded (some output) = search moves_rules
  planner_output-Moves id run _ _ = search return_failed-Moves

  valid_contract-Moves :
      (id : String) (run : Run) (parsed : Option TaskContract)
      → Moves R (valid_contract deps id run parsed)
  unfolding valid_contract
  valid_contract-Moves id run none = search return_failed-Moves
  valid_contract-Moves id run (some contract) = search moves_rules

  pub or_return-Moves :
      (id : String) (gated : Run × Option PolicyDecision) → Moves R (or_return deps id gated)
  unfolding or_return
  or_return-Moves id (run, none) = search moves_rules
  or_return-Moves id (run, some d) = search moves_rules

  pub plan-Moves :
      (id : String) (run : Run) (task : Task) (text : String) → Moves R (plan deps id run task text)
  unfolding plan
  plan-Moves id run task text =
      search
        (
          moves_rules, advance-Moves, within_budget-Moves, invoke_planner-Moves,
          planner_output-Moves,
        )
        depth 9

  pub accept_contract-Moves :
      (id : String) (task : Task) (repository : String × String)
      (planned : Run × BudgetUsage × String)
      → Moves R (accept_contract deps id task repository planned)
  unfolding accept_contract
  accept_contract-Moves id task repository (run, used, output) =
      search (moves_rules, advance-Moves, valid_contract-Moves, gate_policy-Moves, or_return-Moves)
        depth 14

  pub prepare_workspace-Moves : (id : String) (p : Planned) → Moves R (prepare_workspace deps id p)
  unfolding prepare_workspace
  prepare_workspace-Moves id p = search (moves_rules, return_failed-Moves) depth 9
