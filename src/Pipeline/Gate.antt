-- ===== src/Pipeline/Gate.antt =====
-- `_gate_policy` of src/agent_harness/application/orchestrator.py, and the names of Gate/Steps.
mod Steps
unfoldable pub use Steps.*
use harness_system.Prelude.{ℕ, String, Bool, true, Option, none, some, if◌then◌else◌}
use harness_system.Domain.Enums.{
  FailureCategory, FailureCode, PendingActionKind, PolicyOutcome, SubjectType,
}
use harness_system.Domain.Lifecycle.{LifecycleState}
use harness_system.Domain.Models.{
  ApprovalDecision, PolicyDecision, RequestedCapabilities, Run, ScopeRules,
}
use harness_system.Store.{insert_policy_decision}
use harness_system.Policy.{
  ApprovalRequest, PolicyRequest, create_approval, evaluate_policy, resolve_decision_with_approval,
}
use harness_system.Pipeline.Exec.{M, Event, pure, ◌>>=◌, ◌>>◌, lift, ask, draw, observe, insert}
use harness_system.Pipeline.Deps.{PipelineDeps, Message}

module _ (deps : PipelineDeps) where
  -- The arguments of `_gate_policy` that vary.
  pub record Gating : Type 0 where
    pub subject_type : SubjectType
    pub subject_id : String
    pub subject_digest : String
    pub requested_capabilities : RequestedCapabilities
    pub requested_scope : ScopeRules

  unfoldable pub policy_request : Gating → String → ℕ → PolicyRequest
  policy_request g decision_id evaluated_at = record {
    decision_id = decision_id;
    subject_type = g.subject_type;
    subject_id = g.subject_id;
    subject_digest = g.subject_digest;
    requested_capabilities = g.requested_capabilities;
    requested_scope = g.requested_scope;
    evaluated_at = evaluated_at;
  }

  -- `"APPROVED" if approved else "REJECTED"`
  abbrev pub answer_of : Bool → ApprovalDecision
  answer_of approved = if approved then ApprovalDecision.approved else ApprovalDecision.rejected

  -- The failure of a gate, which returns no decision.
  unfoldable pub gate_failed :
      Run → String → FailureCode → Message → M (Run × Option PolicyDecision)
  unfolding fail
  gate_failed run correlation_id code detail = do
    failed ← fail deps run correlation_id (record {
      stage = "POLICY";
      code = code;
      category = FailureCategory.domain;
      detail = detail;
    })
    pure (failed, none)

  -- `if resolved_outcome is not PolicyOutcome.ALLOW`
  unfoldable pub gate_resolved :
      Run → String → PolicyDecision → PolicyOutcome → M (Run × Option PolicyDecision)
  unfolding gate_failed
  gate_resolved run correlation_id decision PolicyOutcome.allow = pure (run, some decision)
  gate_resolved run correlation_id decision _ =
      gate_failed run correlation_id FailureCode.policy_denied Message.approval_rejected

  -- The arguments of `create_approval`.
  unfoldable pub approval_request : String → Bool → ℕ → ℕ → ApprovalRequest
  approval_request approval_id approved requested_at decided_at = record {
    approval_id = approval_id;
    actor = "pipeline";
    decision_value = answer_of approved;
    rationale = "automated pipeline decision";
    requested_at = requested_at;
    decided_at = decided_at;
    expires_at = none;
    single_use = true;
    scope = none;
  }

  -- From the answer of the user on.
  unfoldable pub resolve : Run → String → PolicyDecision → Bool → M (Run × Option PolicyDecision)
  unfolding approval_request gate_resolved
  resolve run correlation_id decision approved = do
    requested_at ← draw deps.utc_now
    decided_at ← draw deps.utc_now
    approval_id ← draw deps.new_id
    approval ←
        lift
          (create_approval decision (approval_request approval_id approved requested_at decided_at))
    now ← draw deps.utc_now
    outcome ← lift (resolve_decision_with_approval decision approval now)
    gate_resolved run correlation_id decision outcome

  -- The human approval of a decision.
  unfoldable pub ask_approval : Run → String → PolicyDecision → M (Run × Option PolicyDecision)
  unfolding advance_pending resolve
  ask_approval run correlation_id decision = do
    waiting ←
        advance_pending deps run LifecycleState.awaiting_approval correlation_id
          PendingActionKind.approval (Message.approval_required decision.approval_requirements)
    approved ← ask (deps.decide_policy_approval decision)
    observe (Event.policy_answered decision approved)
    resolve waiting correlation_id decision approved

  -- The branches on `decision.outcome`.
  unfoldable pub gate_outcome :
      Run → String → PolicyDecision → PolicyOutcome → M (Run × Option PolicyDecision)
  unfolding gate_failed ask_approval
  gate_outcome run correlation_id decision PolicyOutcome.deny =
      gate_failed run correlation_id FailureCode.policy_hard_deny (Message.policy_denied decision)
  gate_outcome run correlation_id decision PolicyOutcome.require_approval =
      ask_approval run correlation_id decision
  gate_outcome run correlation_id decision _ = pure (run, some decision)

  -- `_gate_policy`
  unfoldable pub gate_policy : Run → String → Gating → M (Run × Option PolicyDecision)
  unfolding policy_request gate_outcome
  gate_policy run correlation_id g = do
    evaluated_at ← draw deps.utc_now
    decision_id ← draw deps.new_id
    decision ← lift (
        evaluate_policy deps.digests (policy_request g decision_id evaluated_at)
          deps.policy_ceiling)
    insert (insert_policy_decision decision run.run_id)
    gate_outcome run correlation_id decision decision.outcome
