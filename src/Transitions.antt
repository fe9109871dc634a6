-- ===== src/Transitions.antt =====
-- The state machine kernel: src/agent_harness/application/transitions.py. `transitions` is the
-- table `TRANSITIONS`; `transition_run` returns the new run, or the `IllegalTransition` raised.
pub mod Graph
pub mod Laws
use harness_system.Prelude.{
  ℕ, ◌+◌, Bool, true, false, not, ◌&&◌, List, [], ◌∷◌, ◌++◌, Option, none, some, member,
  if◌then◌else◌,
}
use harness_system.Exceptions.{
  Exception, illegal_transition, TransitionError, terminal_state, not_allowed, failure_required,
  failure_unexpected, pending_action_required, pending_action_unexpected, Result, ok, raised, ◌>>=◌,
  ◌>>◌, raise_if,
}
use harness_system.Domain.Lifecycle.{
  LifecycleState, created, planning, contract_validating, awaiting_approval, preparing_workspace,
  executing, freezing_result, host_validating, verifying, rework_contracting,
  awaiting_manual_review, awaiting_final_approval, recovery_required, ready_for_merge, failed,
  cancelled, state_eq, state_beq, terminal_lifecycle_states,
}
use harness_system.Domain.Models.{Run, FailureRecord, PendingAction}

-- `RECOVERY_RESTART_TARGETS`
abbrev pub recovery_restart_targets : List LifecycleState
recovery_restart_targets =
    created ∷ planning ∷ contract_validating ∷ awaiting_approval ∷ awaiting_manual_review
    ∷ awaiting_final_approval ∷ preparing_workspace ∷ freezing_result ∷ host_validating ∷ verifying
    ∷ rework_contracting ∷ []

-- `TRANSITIONS`
abbrev pub transitions : LifecycleState → List LifecycleState
transitions created = planning ∷ cancelled ∷ []
transitions planning = contract_validating ∷ failed ∷ cancelled ∷ []
transitions contract_validating =
    awaiting_approval ∷ preparing_workspace ∷ planning ∷ failed ∷ cancelled ∷ []
transitions awaiting_approval = preparing_workspace ∷ planning ∷ failed ∷ cancelled ∷ []
transitions preparing_workspace = executing ∷ recovery_required ∷ failed ∷ cancelled ∷ []
transitions executing =
    freezing_result ∷ awaiting_approval ∷ recovery_required ∷ failed ∷ cancelled ∷ []
transitions freezing_result = host_validating ∷ recovery_required ∷ failed ∷ cancelled ∷ []
transitions host_validating = verifying ∷ recovery_required ∷ failed ∷ cancelled ∷ []
transitions verifying =
    rework_contracting ∷ awaiting_manual_review ∷ awaiting_final_approval ∷ failed ∷ cancelled ∷ []
transitions rework_contracting = contract_validating ∷ failed ∷ cancelled ∷ []
transitions awaiting_manual_review =
    rework_contracting ∷ awaiting_final_approval ∷ failed ∷ cancelled ∷ []
transitions awaiting_final_approval = ready_for_merge ∷ rework_contracting ∷ failed ∷ cancelled ∷ []
transitions recovery_required = recovery_restart_targets ++ failed ∷ cancelled ∷ []
transitions ready_for_merge = []
transitions failed = []
transitions cancelled = []

-- `PENDING_ACTION_REQUIRED_STATES`
abbrev pub pending_action_required_states : List LifecycleState
pending_action_required_states =
    awaiting_approval ∷ awaiting_manual_review ∷ awaiting_final_approval ∷ recovery_required ∷ []

pub record TransitionOutcome : Type 0 where
  pub run : Run
  pub pending_action : Option PendingAction
  pub failure : Option FailureRecord

-- `state in TERMINAL_LIFECYCLE_STATES`
unfoldable pub is_terminal : LifecycleState → Bool
is_terminal state = member state terminal_lifecycle_states

-- `state in PENDING_ACTION_REQUIRED_STATES`
unfoldable pub requires_pending_action : LifecycleState → Bool
requires_pending_action state = member state pending_action_required_states

-- `state is LifecycleState.FAILED`
unfoldable pub is_failed : LifecycleState → Bool
is_failed state = state_beq state failed

abbrev pub is_none {ℓ} : {A : Type ℓ} → Option A → Bool
is_none none = true
is_none (some _) = false

unfoldable pub can_transition : LifecycleState → LifecycleState → Bool
can_transition current target = member target (transitions current)

unfoldable pub validate_transition : LifecycleState → LifecycleState → Result (Unit {0})
validate_transition current target = do
  raise_if (is_terminal current) (illegal_transition terminal_state)
  raise_if (not (can_transition current target)) (illegal_transition not_allowed)

-- `run.model_copy(update=updates)`
unfoldable pub updated_run : Run → LifecycleState → ℕ → Run
updated_run run target now = record run {
  state = target;
  state_version = run.state_version + 1;
  updated_at = now;
  disposition = if is_terminal target then some target else run.disposition;
}

unfoldable pub transition_run :
    Run
    → LifecycleState
    → ℕ
    → Option FailureRecord
    → Option PendingAction
    → Result TransitionOutcome
unfolding validate_transition updated_run
transition_run run target now failure pending_action = do
  validate_transition run.state target
  raise_if (is_failed target && is_none failure) (illegal_transition failure_required)
  raise_if (not (is_failed target) && not (is_none failure)) (illegal_transition failure_unexpected)
  raise_if (requires_pending_action target && is_none pending_action)
      (illegal_transition pending_action_required)
  raise_if (not (requires_pending_action target) && not (is_none pending_action))
      (illegal_transition pending_action_unexpected)
  ok (record {
    run = updated_run run target now;
    pending_action = pending_action;
    failure = failure;
  })
