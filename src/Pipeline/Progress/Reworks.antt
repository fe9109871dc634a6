-- ===== src/Pipeline/Progress/Reworks.antt =====
-- What follows a verdict in the loop of `run_task_pipeline`
-- (src/agent_harness/application/orchestrator.py): the end of the run, or the variables of the next
-- round.
use harness_system.Prelude.{
  ℕ, ◌+◌, String, ◌≡◌, refl, ◌∙◌, ◌⊎◌, inl, inr, List, Option, none, some, arith, sym, ap, ◌≤◌,
  Bool-cases,
}
use harness_system.Exceptions.{Result, ok, raised, validation_error}
use harness_system.Domain.Enums.{PendingActionKind, VerificationDecision}
use harness_system.Domain.Lifecycle.{LifecycleState}
use harness_system.Domain.Models.{
  PolicyGrants, RequestedCapabilities, ReworkContract, Run, WorkerResult,
}
use harness_system.Domain.Validation.Scope.{is_scope_subset_refl}
use harness_system.Transitions.{can_transition, is_failed, requires_pending_action}
use harness_system.Store.Records.{insert_rework_contract-Inserts}
use harness_system.Checks.{VerifiedVerification, verified_verification}
use harness_system.Checks.Accepted.{accepted_decision-cases}
use harness_system.Rework.{check_rework_budget, detect_no_progress, failed_criteria_ids_of}
use harness_system.Rework.Guards.{build_rework_contract-refusal}
use harness_system.Pipeline.Exec.{World, M, pure, give, lift, throw, continue, ◌>>=◌}
use harness_system.Pipeline.Deps.{PipelineDeps, Message}
use harness_system.Pipeline.Attempt.{
  Round, Setting, Verified, follow, may_rework, next_round, regate, rework, stop_if,
}
use harness_system.Pipeline.Grants.{IsPermitted}
use harness_system.Pipeline.Progress.Stations.{
  At, At-tick, Reached, Stage, Stage-bind, Stage-draw, Stage-lift,
}
use harness_system.Pipeline.Progress.Edges.{
  advance-Stage, advance_pending-Stage, return_failed-Stage,
}
use harness_system.Pipeline.Progress.Calls.{insert-Stage}
use harness_system.Pipeline.Progress.Gating.{Gated, MayPrepare, gate_policy-Stage, or_return-Stage}
use harness_system.Pipeline.Progress.Handlers.{or_else-Stage}
use harness_system.Pipeline.Progress.Work.{Permitted}
use harness_system.Pipeline.Progress.Verdicts.{Judged, finish-Stage}

module _ (deps : PipelineDeps) (run_id cid : String) (c : Setting) where
  abbrev pub Ready : Round → World → Type 0
  Ready r w = Permitted deps run_id cid c LifecycleState.preparing_workspace r r.run w

  -- The next round is ready, and the contract allows one more attempt.
  abbrev pub IsNext : Round → Round → World → Type 0
  IsNext r next w =
      Ready next w
      × (next.attempt_number ≡ r.attempt_number + 1)
      × (r.attempt_number ≤ c.contract.budget_request.max_rework_iterations)

  within_limit :
      (n : ℕ)
      → check_rework_budget n c.contract.budget_request ≡ ok tt
      → n ≤ c.contract.budget_request.max_rework_iterations
  unfolding check_rework_budget
  within_limit n h = ground arith

  may_rework-Stage :
      (r : Round) (run : Run) (ids : List String) (w : World)
      → At deps run_id LifecycleState.verifying run w
      → Stage deps run_id
          (λ u v.
            Reached deps run_id LifecycleState.verifying w run v
            × (r.attempt_number ≤ c.contract.budget_request.max_rework_iterations))
          (may_rework deps cid c r run ids w)
  unfolding may_rework stop_if pure can_transition
  may_rework-Stage r run ids w a =
      let state = LifecycleState.verifying in
      Stage-bind deps run_id (λ u v. Reached deps run_id state w run v) _ _ _ w
        (elim (Bool-cases (detect_no_progress r.previous_failed_ids ids)) [
          | inl stuck ↦ rw stuck (return_failed-Stage deps run_id _ run cid _ state w a refl)
          | inr moving ↦ rw moving (a, refl)
        ])
        (λ u v b.
          or_else-Stage deps run_id
            (λ u x.
              Reached deps run_id state w run x
              × (r.attempt_number ≤ c.contract.budget_request.max_rework_iterations))
            (check_rework_budget r.attempt_number c.contract.budget_request) _ v
            (λ enough. (b, within_limit r.attempt_number enough))
            (λ e failed. return_failed-Stage deps run_id _ run cid _ state v b.0 refl))

  regate-Stage :
      (r : Round) (run : Run) (next : ReworkContract) (asked : Option RequestedCapabilities)
      (w : World)
      → At deps run_id LifecycleState.contract_validating run w
      → IsPermitted deps w.history r.active_grants
      → Stage deps run_id
          (λ (gated, capabilities, grants) v.
            MayPrepare deps run_id gated v × IsPermitted deps v.history grants)
          (regate deps cid c r run next asked w)
  unfolding regate pure can_transition
  regate-Stage r run next none w a permitted =
      (record { state = LifecycleState.contract_validating; there = a; edge = refl }, permitted)
  regate-Stage r run next (some additional) w a permitted =
      let Q : Run × RequestedCapabilities × PolicyGrants → World → Type 0 =
        λ g v. MayPrepare deps run_id g.0 v × IsPermitted deps v.history g.2 in
      Stage-bind deps run_id (Gated deps run_id) Q _ _ w
        (gate_policy-Stage deps run_id run cid _ w a)
        (λ gated v b.
          Stage-bind deps run_id
            (λ (g, d) x. MayPrepare deps run_id g x × IsPermitted deps x.history d.grants) Q _ _ v
            (or_return-Stage deps run_id cid gated v b) (λ passed x h. h))

  -- The verdict that is followed is the Verifier's own, unless it is a PASS.
  decided :
      (r : Round) (v : Verified) (w : World)
      → Judged deps run_id cid c r v w
      → v.verified.accepted_decision ≡ VerificationDecision.rework
      → v.verified.verification_result.decision ≡ VerificationDecision.rework
  unfolding verified_verification
  decided r v w j same =
      let (result, usage, made) = j.judged in
      elim (accepted_decision-cases c.contract v.frozen_result result usage) [
        | inl kept ↦
            ap (λ (x : VerifiedVerification). x.verification_result.decision) made
            ∙ (sym kept
                ∙ (sym (ap (λ (x : VerifiedVerification). x.accepted_decision) made) ∙ same))
        | inr (claimed, changed) ↦ absurd (
            review-not-rework (
              sym changed
              ∙ (sym (ap (λ (x : VerifiedVerification). x.accepted_decision) made) ∙ same)))
      ]
    where
      review-not-rework : VerificationDecision.manual_review ≡ VerificationDecision.rework → ⊥
      review-not-rework h = cc

  -- A malformed rework contract is refused.
  made-Stage :
      {A B : Type 0} (Q : B → World → Type 0) (made : Result A) (k : A → M B) (run : Run)
      (w : World)
      → At deps run_id LifecycleState.verifying run w
      → ((a : A) × (made ≡ ok a)) ⊎ (made ≡ raised validation_error)
      → ((a : A) → Stage deps run_id Q (k a w))
      → Stage deps run_id Q ((lift made >>= k) w)
  unfolding ◌>>=◌ continue lift throw
  made-Stage Q made k run w a (inl (x, same)) rest =
      Stage-lift deps run_id Q made x k w same (rest x)
  made-Stage Q made k run w a (inr same) rest = rw same (refl, a.covered)

  -- The rest of a rework, from the second gate on.
  regated-Stage :
      (r : Round) (v : Verified) (next : ReworkContract)
      → r.attempt_number ≤ c.contract.budget_request.max_rework_iterations
      → (run : Run) (w : World) → At deps run_id LifecycleState.contract_validating run w
      → IsPermitted deps w.history r.active_grants
      → Stage deps run_id (IsNext r) (
          (regate deps cid c r run next next.requested_additional_capabilities
              >>= next_round deps cid c r v next)
            w)
  unfolding next_round pure is_failed requires_pending_action
  regated-Stage r v next more run w a permitted =
      let Q : Round → World → Type 0 = IsNext r in
      Stage-bind deps run_id
        (λ (gated, capabilities, grants) x.
          MayPrepare deps run_id gated x × IsPermitted deps x.history grants)
        Q _ _ w (regate-Stage r run next next.requested_additional_capabilities w a permitted)
        (λ g x (may, allowed).
          Stage-bind deps run_id (Reached deps run_id LifecycleState.preparing_workspace x) Q _ _ x
            (advance-Stage deps run_id g.0 LifecycleState.preparing_workspace cid may.state x
              may.there may.edge refl refl)
            (λ preparing y b. ((b.0, rw (b.1) allowed), refl, more)))

  rework-Stage :
      (r : Round) (report : Option WorkerResult) (v : Verified) (w : World)
      → Judged deps run_id cid c r v w
      → v.verified.verification_result.decision ≡ VerificationDecision.rework
      → Stage deps run_id (IsNext r) (rework deps cid c r report v w)
  unfolding rework pure can_transition is_failed requires_pending_action
  rework-Stage r report v w j decision =
      let state = LifecycleState.verifying in
      let limit = c.contract.budget_request.max_rework_iterations in
      let result = v.verified.verification_result in
      let Q : Round → World → Type 0 = IsNext r in
      Stage-bind deps run_id
        (λ u x. Reached deps run_id state w v.run x × (r.attempt_number ≤ limit)) Q _ _ w
        (may_rework-Stage r v.run (failed_criteria_ids_of result) w j.there.0)
        (λ u x (b, more). Stage-draw deps run_id Q deps.new_id _ x (
          made-Stage Q _ _ v.run (record x { tick = x.tick + 1 }) (At-tick deps (x.tick + 1) b.0)
            (build_rework_contract-refusal deps.digests c.contract result _ decision
              (is_scope_subset_refl c.contract.scope))
            (λ next.
              Stage-draw deps run_id Q deps.utc_now _ (record x { tick = x.tick + 1 })
                (Stage-bind deps run_id
                  (λ u y. At deps run_id state v.run y × (y.history ≡ x.history)) Q _ _ _
                  (insert-Stage deps run_id _ state v.run (record x { tick = x.tick + 1 + 1 })
                    (insert_rework_contract-Inserts next v.run.run_id x.store)
                    (At-tick deps (x.tick + 1 + 1) b.0))
                  (λ u y d.
                    Stage-bind deps run_id (Reached deps run_id LifecycleState.rework_contracting y)
                      Q _ _ y
                      (advance-Stage deps run_id v.run LifecycleState.rework_contracting cid state y
                        d.0 refl refl refl)
                      (λ contracting y' e.
                        Stage-bind deps run_id
                          (Reached deps run_id LifecycleState.contract_validating y') Q _ _ y'
                          (advance-Stage deps run_id contracting LifecycleState.contract_validating
                            cid LifecycleState.rework_contracting y' e.0 refl refl refl)
                          (λ validating z f.
                            regated-Stage r v next more validating z f.0
                              (rw (f.1, e.1, d.1, b.1) j.there.1))))))))

  pub follow-Stage :
      (r : Round) (report : Option WorkerResult) (v : Verified) (d : VerificationDecision)
      (w : World)
      → Judged deps run_id cid c r v w
      → v.verified.accepted_decision ≡ d
      → Stage deps run_id (IsNext r) (follow deps cid c r report v d w)
  unfolding follow can_transition is_failed requires_pending_action give
  follow-Stage r report v VerificationDecision.reject w j same =
      return_failed-Stage deps run_id _ v.run cid _ LifecycleState.verifying w j.there.0 refl
  follow-Stage r report v VerificationDecision.manual_review w j same =
      let state = LifecycleState.awaiting_manual_review in
      Stage-bind deps run_id (Reached deps run_id state w) (IsNext r) _ _ w
        (advance_pending-Stage deps run_id v.run state cid PendingActionKind.manual_review
          Message.review_required LifecycleState.verifying w j.there.0 refl refl refl)
        (λ waiting x b. record {
          named = b.0.named;
          row = b.0.row;
          settled = rw (b.0.state_fits) refl;
          mergeable = λ ready. cc (b.0.state_fits);
          covered = b.0.covered;
        })
  follow-Stage r report v VerificationDecision.pass w j same =
      finish-Stage deps run_id cid c (IsNext r) r v w j same
  follow-Stage r report v VerificationDecision.rework w j same =
      rework-Stage r report v w j (decided r v w j same)
