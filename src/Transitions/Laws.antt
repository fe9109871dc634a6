-- ===== src/Transitions/Laws.antt =====
-- What `transition_run` (src/agent_harness/application/transitions.py) accepts, and what it
-- changes.
use harness_system.Prelude.{ℕ, ◌≡◌, refl, ◌⊎◌, inl, inr, true, false, not, Option, arith}
use harness_system.Exceptions.{Exception, illegal_transition, terminal_state, Result, ok, raised}
use harness_system.Domain.Lifecycle.{LifecycleState, failed, ready_for_merge, cancelled, state_eq}
use harness_system.Domain.Models.{Run, FailureRecord, PendingAction}
use harness_system.Transitions.{
  is_terminal, is_failed, requires_pending_action, TransitionOutcome, is_none, can_transition,
  updated_run, transition_run,
}

-- A terminal state has no edge out.
pub terminal-can_transition :
    (s t : LifecycleState) → is_terminal s ≡ true → can_transition s t ≡ false
unfolding is_terminal can_transition
terminal-can_transition ready_for_merge t h = refl
terminal-can_transition failed t h = refl
terminal-can_transition cancelled t h = refl
terminal-can_transition _ t h = cc

-- The arguments with which a move is legal: the table has the edge, a failure is given exactly for
-- `FAILED`, and a pending action exactly for the states that wait.
pub record IsLegal (run : Run) (target : LifecycleState) (failure : Option FailureRecord)
    (pending_action : Option PendingAction) : Type 0 where
  pub edge : can_transition run.state target ≡ true
  pub failure_fits : is_none failure ≡ not (is_failed target)
  pub pending_fits : is_none pending_action ≡ not (requires_pending_action target)

module _ (run : Run) (target : LifecycleState) (now : ℕ) (failure : Option FailureRecord)
    (pending_action : Option PendingAction) where
  pub transition_run_of_IsLegal :
      IsLegal run target failure pending_action
      → transition_run run target now failure pending_action
        ≡ ok (record {
          run = updated_run run target now;
          pending_action = pending_action;
          failure = failure;
        })
  unfolding transition_run
  transition_run_of_IsLegal h = ground (arith, terminal-can_transition run.state target)

  -- Whatever succeeds was legal.
  pub transition_run-IsLegal :
      (o : TransitionOutcome)
      → transition_run run target now failure pending_action ≡ ok o
      → IsLegal run target failure pending_action × (o.run ≡ updated_run run target now)
  unfolding transition_run
  transition_run-IsLegal o h = ground arith

  -- From a terminal state every request raises, whatever its arguments.
  pub terminal-transition_run :
      is_terminal run.state ≡ true
      → transition_run run target now failure pending_action
        ≡ raised (illegal_transition terminal_state)
  unfolding transition_run
  terminal-transition_run h = ground arith

  -- The two ways a call can end.
  pub transition_run-cases :
      (IsLegal run target failure pending_action
        × (transition_run run target now failure pending_action
            ≡ ok (record {
              run = updated_run run target now;
              pending_action = pending_action;
              failure = failure;
            })))
      ⊎ ((e : Exception) × (transition_run run target now failure pending_action ≡ raised e))
  transition_run-cases =
      let both : (r : Result TransitionOutcome)
          → transition_run run target now failure pending_action ≡ r
          → (IsLegal run target failure pending_action
              × (transition_run run target now failure pending_action
                  ≡ ok (record {
                    run = updated_run run target now;
                    pending_action = pending_action;
                    failure = failure;
                  })))
            ⊎ ((e : Exception) × (transition_run run target now failure pending_action
                  ≡ raised e)) =
        elim [
          | ok o ↦ λ h.
              let legal = (transition_run-IsLegal o h).0 in
              inl (legal, transition_run_of_IsLegal legal)
          | raised e ↦ λ h. inr (e, h)
        ] in
      both _ refl
