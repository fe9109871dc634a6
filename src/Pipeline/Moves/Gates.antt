-- ===== src/Pipeline/Moves/Gates.antt =====
-- The transitions and the policy gate, as in Turns.
use harness_system.Prelude.{string_eq, String, Option}
use harness_system.Prelude.{Bool}
use harness_system.Domain.Enums.{FailureCode, PendingActionKind, PolicyOutcome}
use harness_system.Domain.Lifecycle.{LifecycleState}
use harness_system.Domain.Models.{FailureRecord, PendingAction, PolicyDecision, Run}
use harness_system.Pipeline.Exec.{World}
use harness_system.Pipeline.Exec.Moves.{Moves, IsStable, moves_rules}
use harness_system.Pipeline.Deps.{PipelineDeps, Message}
use harness_system.Pipeline.Gate.{
  Failing, Gating, move, fail, return_failed, advance, advance_pending, gate_failed, gate_resolved,
  ask_approval, gate_outcome, gate_policy, resolve,
}

module _ (deps : PipelineDeps) (R : World → World → Type 0) (stable : IsStable deps.digests R) where
  move-Moves :
      (run : Run) (target : LifecycleState) (id : String) (failure : Option FailureRecord)
      (pending : Option PendingAction)
      → Moves R (move deps run target id failure pending)
  unfolding move
  move-Moves run target id failure pending = search moves_rules depth 7

  fail-Moves : (run : Run) (id : String) (f : Failing) → Moves R (fail deps run id f)
  unfolding fail
  fail-Moves run id f = search (moves_rules, move-Moves) depth 7

  pub return_failed-Moves :
      {A : Type 0} (run : Run) (id : String) (f : Failing)
      → Moves {A = A} R (return_failed deps run id f)
  unfolding return_failed
  return_failed-Moves run id f = search (moves_rules, fail-Moves)

  pub advance-Moves :
      (run : Run) (target : LifecycleState) (id : String) → Moves R (advance deps run target id)
  unfolding advance
  advance-Moves run target id = search move-Moves

  pub advance_pending-Moves :
      (run : Run) (target : LifecycleState) (id : String) (kind : PendingActionKind) (d : Message)
      → Moves R (advance_pending deps run target id kind d)
  unfolding advance_pending
  advance_pending-Moves run target id kind d = search (moves_rules, move-Moves)

  gate_failed-Moves :
      (run : Run) (id : String) (code : FailureCode) (d : Message)
      → Moves R (gate_failed deps run id code d)
  unfolding gate_failed
  gate_failed-Moves run id code d = search (moves_rules, fail-Moves)

  gate_resolved-Moves :
      (run : Run) (id : String) (d : PolicyDecision) (o : PolicyOutcome)
      → Moves R (gate_resolved deps run id d o)
  unfolding gate_resolved
  gate_resolved-Moves run id d PolicyOutcome.allow = search moves_rules
  gate_resolved-Moves run id d _ = search gate_failed-Moves

  resolve-Moves :
      (run : Run) (id : String) (d : PolicyDecision) (approved : Bool)
      → Moves R (resolve deps run id d approved)
  unfolding resolve
  resolve-Moves run id d approved = search (moves_rules, gate_resolved-Moves) depth 12

  ask_approval-Moves :
      (run : Run) (id : String) (d : PolicyDecision) → Moves R (ask_approval deps run id d)
  unfolding ask_approval
  ask_approval-Moves run id d = search (moves_rules, advance_pending-Moves, resolve-Moves) depth 7

  gate_outcome-Moves :
      (run : Run) (id : String) (d : PolicyDecision) (o : PolicyOutcome)
      → Moves R (gate_outcome deps run id d o)
  unfolding gate_outcome
  gate_outcome-Moves run id d PolicyOutcome.deny = search gate_failed-Moves
  gate_outcome-Moves run id d PolicyOutcome.require_approval = search ask_approval-Moves
  gate_outcome-Moves run id d _ = search moves_rules

  pub gate_policy-Moves :
      (run : Run) (id : String) (g : Gating deps) → Moves R (gate_policy deps run id g)
  unfolding gate_policy
  gate_policy-Moves run id g = search (moves_rules, gate_outcome-Moves) depth 9
