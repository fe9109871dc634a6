-- ===== src/Pipeline/Progress/Gating.antt =====
-- The policy gate: `_gate_policy` of src/agent_harness/application/orchestrator.py. It lets a run
-- through with a decision that permits its grants, or fails it.
use harness_system.Prelude.{
  ◌≢◌, ◌+◌, String, ◌≡◌, refl, inl, inr, Bool, true, false, ◌∷◌, Option, none, some, arith, ◌==◌,
  string_eq,
}
use harness_system.Exceptions.{ok}
use harness_system.Domain.Enums.{FailureCode, PolicyOutcome}
use harness_system.Domain.Lifecycle.{LifecycleState, state_eq}
use harness_system.Domain.Models.{Approval, PolicyDecision, Run}
use harness_system.Transitions.{can_transition, is_failed, requires_pending_action}
use harness_system.Store.{insert_policy_decision}
use harness_system.Store.Records.{insert_policy_decision-Inserts}
use harness_system.Policy.{
  ApprovalRequest, approval_outcome, is_deny, PolicyRequest, create_approval, evaluate_policy,
}
use harness_system.Policy.Approvals.{resolve_decision-create_approval}
use harness_system.Policy.Outcome.{evaluate_policy-outcome}
use harness_system.Pipeline.Exec.{World, Event, pure, give, continue, ◌>>=◌, lift, draw}
use harness_system.Pipeline.Exec.Ends.{Ends-bind}
use harness_system.Pipeline.Deps.{PipelineDeps, Message}
use harness_system.Pipeline.Gate.{
  Gating, answer_of, approval_request, resolve, ask_approval, gate_failed, gate_outcome,
  gate_policy, gate_resolved, policy_request,
}
use harness_system.Pipeline.Plan.{or_return}
use harness_system.Pipeline.Grants.{IsPermitted, newest}
use harness_system.Pipeline.Progress.Stations.{
  At, At-tick, Reached, Stage, Stage-bind, Stage-draw, Stage-lift, Stage-observe,
}
use harness_system.Pipeline.Progress.Edges.{advance_pending-Stage, fail-Stage}
use harness_system.Pipeline.Progress.Calls.{ask-Stage, insert-Stage}

module _ (deps : PipelineDeps) (run_id : String) where
  -- The run may go on to PREPARING_WORKSPACE.
  pub record MayPrepare (run : Run) (w : World) : Type 0 where
    pub state : LifecycleState
    pub there : At deps run_id state run w
    pub edge : can_transition state LifecycleState.preparing_workspace ≡ true

  -- The two results of a gate.
  abbrev pub Gated : Run × Option PolicyDecision → World → Type 0
  Gated (run, none) w = At deps run_id LifecycleState.failed run w
  Gated (run, some d) w = MayPrepare run w × IsPermitted deps w.history d.grants

  gate_failed-Stage :
      (run : Run) (cid : String) (code : FailureCode) (d : Message) (state : LifecycleState)
      (w : World)
      → At deps run_id state run w
      → can_transition state LifecycleState.failed ≡ true
      → Stage deps run_id Gated (gate_failed deps run cid code d w)
  unfolding gate_failed pure
  gate_failed-Stage run cid code d state w a edge =
      Ends-bind _ _ _ Gated _ _ w (fail-Stage deps run_id run cid _ state w a edge)
        (λ failed v (b, same). b)

  -- The approval that is created for an answer.
  created :
      (d : PolicyDecision) (q : ApprovalRequest)
      → is_deny d.outcome ≡ false
      → (q.rationale == "") ≡ false
      → (approval : Approval) × (create_approval d q ≡ ok approval)
  unfolding create_approval
  created d q asked rational = (
    record {
      approval_id = q.approval_id;
      subject_type = d.subject_type;
      subject_id = d.subject_id;
      subject_digest = d.subject_digest;
      policy_decision_id = d.decision_id;
      policy_decision_digest = d.integrity_digest;
      actor = q.actor;
      decision = q.decision_value;
      scope = elim q.scope [ none ↦ d.approval_requirements | some scope ↦ scope ];
      requested_at = q.requested_at;
      decided_at = q.decided_at;
      expires_at = q.expires_at;
      single_use = q.single_use;
      rationale = q.rationale;
    },
    rw (asked, rational) refl,
  )

  -- After the answer of the user the gate goes by that answer.
  resolve-Stage :
      (run : Run) (cid : String) (d : PolicyDecision) (approved : Bool) (w : World)
      → is_deny d.outcome ≡ false
      → At deps run_id LifecycleState.awaiting_approval run w
      → (approved ≡ true → IsPermitted deps w.history d.grants)
      → Stage deps run_id Gated (resolve deps run cid d approved w)
  unfolding resolve ◌>>=◌ continue draw approval_request lift
  resolve-Stage run cid d approved w asked a permits =
      let q =
        approval_request deps (deps.new_id (w.tick + 1 + 1)) approved (deps.utc_now w.tick)
          (deps.utc_now (w.tick + 1)) in
      let (approval, made) = created d q asked refl in
      let resolved =
        resolve_decision-create_approval d q approval (deps.utc_now (w.tick + 1 + 1 + 1)) made
          refl in
      rw (made, lift) (rw (resolved, lift) (by_answer approved permits))
    where
      later :
          At deps run_id LifecycleState.awaiting_approval run
            (record w { tick = w.tick + 1 + 1 + 1 + 1 })
      later = record {
        named = a.named;
        state_fits = a.state_fits;
        row = a.row;
        only = a.only;
        covered = a.covered;
      }

      by_answer :
          (b : Bool)
          → (b ≡ true → IsPermitted deps w.history d.grants)
          → Stage deps run_id Gated (
              gate_resolved deps run cid d
                (approval_outcome (answer_of deps b))
                (record w { tick = w.tick + 1 + 1 + 1 + 1 }))
      by_answer true permits =
          unfold gate_resolved pure can_transition in
          (
            record { state = LifecycleState.awaiting_approval; there = later; edge = refl },
            permits refl,
          )
      by_answer false permits =
          unfold gate_resolved can_transition in
          gate_failed-Stage run cid FailureCode.policy_denied Message.approval_rejected
            LifecycleState.awaiting_approval _ later refl

  never_manual :
      (request : PolicyRequest) (d : PolicyDecision)
      → evaluate_policy deps.digests request deps.policy_ceiling ≡ ok d
      → d.outcome ≢ PolicyOutcome.manual_review
  never_manual request d evaluated same =
      let (e, (sealed, told)) = evaluate_policy-outcome deps.digests request deps.policy_ceiling in
      ground (arith, told, sealed)

  ask_approval-Stage :
      (run : Run) (cid : String) (d : PolicyDecision) (request : PolicyRequest) (w : World)
      → evaluate_policy deps.digests request deps.policy_ceiling ≡ ok d
      → d.outcome ≡ PolicyOutcome.require_approval
      → At deps run_id LifecycleState.contract_validating run w
      → Stage deps run_id Gated (ask_approval deps run cid d w)
  unfolding ask_approval can_transition is_failed requires_pending_action
  ask_approval-Stage run cid d request w evaluated asks a =
      Stage-bind deps run_id (Reached deps run_id LifecycleState.awaiting_approval w) Gated _ _ w
        (advance_pending-Stage deps run_id run LifecycleState.awaiting_approval cid _ _
          LifecycleState.contract_validating w a refl refl refl)
        (λ waiting v b.
          Stage-bind deps run_id
            (λ approved u. At deps run_id LifecycleState.awaiting_approval waiting u) Gated _ _ v
            (ask-Stage deps run_id _ (deps.decide_policy_approval d) v b.0.covered
              (λ approved. At-tick deps (v.tick + 1) b.0))
            (λ approved u c.
              Stage-observe deps run_id Gated (Event.policy_answered d approved) _ u (
                resolve-Stage waiting cid d approved
                  (record u { history = Event.policy_answered d approved ∷ u.history })
                  (rw asks refl)
                  (record {
                    named = c.named;
                    state_fits = c.state_fits;
                    row = c.row;
                    only = c.only;
                    covered = (tt, c.covered);
                  })
                  (λ said. record {
                    decision = d;
                    request = request;
                    evaluated = evaluated;
                    granted = refl;
                    approved = inr (rw said newest);
                  }))))

  gate_outcome-Stage :
      (run : Run) (cid : String) (d : PolicyDecision) (request : PolicyRequest) (o : PolicyOutcome)
      (w : World)
      → evaluate_policy deps.digests request deps.policy_ceiling ≡ ok d
      → d.outcome ≡ o
      → At deps run_id LifecycleState.contract_validating run w
      → Stage deps run_id Gated (gate_outcome deps run cid d o w)
  unfolding gate_outcome pure can_transition
  gate_outcome-Stage run cid d request PolicyOutcome.deny w evaluated same a =
      gate_failed-Stage run cid _ _ LifecycleState.contract_validating w a refl
  gate_outcome-Stage run cid d request PolicyOutcome.require_approval w evaluated same a =
      ask_approval-Stage run cid d request w evaluated same a
  gate_outcome-Stage run cid d request PolicyOutcome.allow w evaluated same a = (
    record { state = LifecycleState.contract_validating; there = a; edge = refl },
    record {
      decision = d;
      request = request;
      evaluated = evaluated;
      granted = refl;
      approved = inl same;
    },
  )
  gate_outcome-Stage run cid d request PolicyOutcome.manual_review w evaluated same a =
      absurd (never_manual request d evaluated same)

  -- A gate raises only for a key, and lets a run through only with permitted grants.
  pub gate_policy-Stage :
      (run : Run) (cid : String) (g : Gating deps) (w : World)
      → At deps run_id LifecycleState.contract_validating run w
      → Stage deps run_id Gated (gate_policy deps run cid g w)
  unfolding gate_policy
  gate_policy-Stage run cid g w a =
      let request = policy_request deps g (deps.new_id (w.tick + 1)) (deps.utc_now w.tick) in
      let (d, (evaluated, told)) =
        evaluate_policy-outcome deps.digests request deps.policy_ceiling in
      let v : World = record w { tick = w.tick + 1 + 1 } in
      Stage-draw deps run_id Gated deps.utc_now _ w (
        Stage-draw deps run_id Gated deps.new_id _ (record w { tick = w.tick + 1 })
          (Stage-lift deps run_id Gated _ d _ v evaluated (
            Stage-bind deps run_id
              (λ u. Reached deps run_id LifecycleState.contract_validating v run) Gated _ _ v
              (insert-Stage deps run_id (insert_policy_decision d run.run_id)
                LifecycleState.contract_validating run v
                (insert_policy_decision-Inserts d run.run_id w.store)
                (At-tick deps (w.tick + 1 + 1) a))
              (λ u x b. gate_outcome-Stage run cid d request d.outcome x evaluated refl b.0))))

  -- `if decision is None: return run`
  pub or_return-Stage :
      (cid : String) (gated : Run × Option PolicyDecision) (w : World)
      → Gated gated w
      → Stage deps run_id
          (λ (run, d) v. MayPrepare run v × IsPermitted deps v.history d.grants)
          (or_return deps cid gated w)
  unfolding or_return give pure
  or_return-Stage cid (run, some d) w g = g
  or_return-Stage cid (run, none) w a = record {
    named = a.named;
    row = a.row;
    settled = rw (a.state_fits) refl;
    mergeable = λ ready. cc (a.state_fits);
    covered = a.covered;
  }
