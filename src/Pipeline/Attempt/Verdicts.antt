-- ===== src/Pipeline/Attempt/Verdicts.antt =====
-- What follows from the verdict in a round of `run_task_pipeline`
-- (src/agent_harness/application/orchestrator.py).
use harness_system.Prelude.{◌+◌, String, Bool, List, Option, none, some, string_eq, if◌then◌else◌}
use harness_system.Domain.Enums.{
  FailureCategory, FailureCode, PendingActionKind, SubjectType, VerificationDecision,
}
use harness_system.Domain.Lifecycle.{LifecycleState}
use harness_system.Domain.Models.{
  PolicyGrants, RequestedCapabilities, ReworkContract, Run, WorkerResult,
}
use harness_system.Rework.{
  build_rework_contract, check_rework_budget, detect_no_progress, failed_criteria_ids_of,
}
use harness_system.Store.{insert_rework_contract}
use harness_system.Pipeline.Exec.{
  M, Event, pure, give, ◌>>=◌, ◌>>◌, lift, ask, draw, observe, insert,
}
use harness_system.Pipeline.Deps.{PipelineDeps, Message}
use harness_system.Pipeline.Gate.{
  advance, advance_pending, gate_policy, merge_requested_capabilities, return_failed,
}
use harness_system.Pipeline.Plan.{or_else, or_return}
use harness_system.Pipeline.Attempt.State.{Round, Setting, Verified, or_artifact, requested_by}

-- `if test: return ...`
unfoldable pub stop_if : Bool → M (Unit {0}) → M (Unit {0})
stop_if test m = if test then m else pure tt

module _ (deps : PipelineDeps) (correlation_id : String) (c : Setting) where
  -- PASS: the user decides.
  unfoldable pub finish : Verified → M Round
  finish v = do
    waiting ←
        advance_pending deps v.run LifecycleState.awaiting_final_approval correlation_id
          PendingActionKind.final_approval Message.final_approval_required
    approved ← ask (deps.decide_final_approval v.verified)
    observe (Event.final_answered v.verified approved)
    final ←
        advance deps waiting
          (if approved then LifecycleState.ready_for_merge else LifecycleState.rework_contracting)
          correlation_id
    give final

  -- `if rework_contract.requested_additional_capabilities is not None`
  unfoldable pub regate :
      Round
      → Run
      → ReworkContract
      → Option RequestedCapabilities
      → M (Run × RequestedCapabilities × PolicyGrants)
  regate r run rework none = pure (run, r.active_capabilities, r.active_grants)
  regate r run rework (some additional) = do
    let merged = merge_requested_capabilities r.active_capabilities additional
    gated ← gate_policy deps run correlation_id (record {
      subject_type = SubjectType.rework_contract;
      subject_id = rework.rework_id;
      subject_digest = rework.integrity_digest;
      requested_capabilities = merged;
      requested_scope = rework.effective_scope;
    })
    (gated_run, decision) ← or_return deps correlation_id gated
    pure (gated_run, merged, decision.grants)

  -- The two limits of the loop.
  unfoldable pub may_rework : Round → Run → List String → M (Unit {0})
  unfolding stop_if
  may_rework r run current_failed_ids = do
    stop_if (detect_no_progress r.previous_failed_ids current_failed_ids) (
        return_failed deps run correlation_id (record {
          stage = "VERIFYING";
          code = FailureCode.rework_exhausted;
          category = FailureCategory.domain;
          detail = Message.no_progress r.attempt_number current_failed_ids;
        }))
    or_else (check_rework_budget r.attempt_number c.contract.budget_request) (
        return_failed deps run correlation_id (record {
          stage = "VERIFYING";
          code = FailureCode.rework_exhausted;
          category = FailureCategory.domain;
          detail = Message.rework_exhausted r.attempt_number;
        }))

  -- The variables of the next round.
  unfoldable pub next_round :
      Round → Verified → ReworkContract → Run × RequestedCapabilities × PolicyGrants → M Round
  next_round r v rework_contract (gated, capabilities, grants) = do
    preparing ← advance deps gated LifecycleState.preparing_workspace correlation_id
    pure (record {
      run = preparing;
      budget_used = v.budget_used;
      baseline = (
        v.frozen_result.post_test_manifest,
        or_artifact v.frozen_result.post_test_artifact r.baseline.1,
      );
      active_capabilities = capabilities;
      active_grants = grants;
      rework_contract = some rework_contract;
      attempt_number = r.attempt_number + 1;
      previous_failed_ids = some (failed_criteria_ids_of v.verified.verification_result);
    })

  -- REWORK
  unfoldable pub rework : Round → Option WorkerResult → Verified → M Round
  unfolding may_rework regate next_round
  rework r worker_result v = do
    let current_failed_ids = failed_criteria_ids_of v.verified.verification_result
    may_rework r v.run current_failed_ids
    rework_id ← draw deps.new_id
    rework_contract ← lift (
        build_rework_contract deps.digests c.contract v.verified.verification_result (record {
          rework_id = rework_id;
          attempt_number = r.attempt_number;
          effective_scope = none;
          requested_additional_capabilities = requested_by worker_result;
        }))
    created_at ← draw deps.utc_now
    insert (insert_rework_contract rework_contract v.run.run_id)
    contracting ← advance deps v.run LifecycleState.rework_contracting correlation_id
    validating ← advance deps contracting LifecycleState.contract_validating correlation_id
    gated ← regate r validating rework_contract rework_contract.requested_additional_capabilities
    next_round r v rework_contract gated

  -- The branches on `accepted_decision`.
  unfoldable pub follow : Round → Option WorkerResult → Verified → VerificationDecision → M Round
  unfolding finish rework
  follow r worker_result v VerificationDecision.reject =
      return_failed deps v.run correlation_id (record {
        stage = "VERIFYING";
        code = FailureCode.test_failed;
        category = FailureCategory.domain;
        detail = Message.verification_rejected v.verified.verification_result.remaining_risks;
      })
  follow r worker_result v VerificationDecision.manual_review = do
    waiting ←
        advance_pending deps v.run LifecycleState.awaiting_manual_review correlation_id
          PendingActionKind.manual_review Message.review_required
    give waiting
  follow r worker_result v VerificationDecision.pass = finish v
  follow r worker_result v VerificationDecision.rework = rework r worker_result v
