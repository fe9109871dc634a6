-- ===== src/Pipeline/Progress/Verdicts.antt =====
-- The Verifier's turn in a round of the loop of `run_task_pipeline`
-- (src/agent_harness/application/orchestrator.py), and the end of a round whose verdict is a PASS.
use harness_system.Prelude.{
  ◌+◌, String, ◌≡◌, refl, ◌⊎◌, inl, inr, Bool, true, false, List, [], ◌∷◌, Option, sym,
  if◌then◌else◌,
}
use harness_system.Exceptions.{Exception, verification_service}
use harness_system.Domain.Enums.{AgentRole, PendingActionKind, VerificationDecision}
use harness_system.Domain.Lifecycle.{LifecycleState}
use harness_system.Domain.Models.{BudgetUsage, Run, UsageRecord, VerificationResult}
use harness_system.Transitions.{can_transition, is_failed, requires_pending_action}
use harness_system.Store.Records.{insert_verification_result-Inserts}
use harness_system.Execution.Frozen.{FrozenValidationResult}
use harness_system.Checks.{VerifiedVerification, verified_verification}
use harness_system.Checks.Accepted.{accepted_decision-IsAccepted}
use harness_system.Pipeline.Exec.{Event, World, pure, give, throw, ◌>>=◌}
use harness_system.Pipeline.Exec.Ends.{Yields-bind}
use harness_system.Pipeline.Deps.{PipelineDeps, Message}
use harness_system.Pipeline.Gate.{advance}
use harness_system.Pipeline.Attempt.{Round, Setting, Verified, finish, on_unusable, verify}
use harness_system.Pipeline.Grants.{Extends, IsPermitted, IsPermitted-extends, newest}
use harness_system.Pipeline.Progress.Quiet.{quiet_rules, is_expected}
use harness_system.Pipeline.Progress.Freezing.{IsChecked}
use harness_system.Pipeline.Progress.Verifying.{run_verification-IsQuiet, run_verification-Yields}
use harness_system.Pipeline.Progress.Stations.{
  At, At-tick, Reached, Stage, Stage-bind, Stage-draw, Stage-observe,
}
use harness_system.Pipeline.Progress.Edges.{
  advance-Stage, advance_pending-Stage, return_failed-Stage,
}
use harness_system.Pipeline.Progress.Calls.{ask-Stage, insert-Stage}
use harness_system.Pipeline.Progress.Handlers.{Stays, catch-Stage, within_budget-Stage}
use harness_system.Pipeline.Progress.Work.{IsValidated, Permitted, Permitted-stays}

module _ (deps : PipelineDeps) (run_id cid : String) (c : Setting) where
  -- The verdict is the re-check of a result of the Verifier on the frozen result.
  abbrev pub IsJudged : FrozenValidationResult → VerifiedVerification → Type 0
  IsJudged frozen verified =
      (result : VerificationResult) × (usage : Option UsageRecord) × (verified
        ≡ verified_verification c.contract frozen result usage)

  -- A round with a verdict.
  pub record Judged (r : Round) (v : Verified) (w : World) : Type 0 where
    pub there : Permitted deps run_id cid c LifecycleState.verifying r v.run w
    pub checked : IsChecked deps r.active_grants.path_rules v.frozen_result
    pub judged : IsJudged v.frozen_result v.verified

  on_unusable-Stage :
      {A : Type 0} (Q : A → World → Type 0) (run : Run) (e : Exception) (w : World)
      → At deps run_id LifecycleState.verifying run w
      → ((is_expected e ≡ true) ⊎ (e ≡ verification_service))
      → Stage deps run_id Q (on_unusable deps cid c run e w)
  unfolding on_unusable throw can_transition
  on_unusable-Stage Q run verification_service w a why =
      return_failed-Stage deps run_id Q run cid _ LifecycleState.verifying w a refl
  on_unusable-Stage Q run e w a (inl expected) = (expected, a.covered)
  on_unusable-Stage Q run e w a (inr same) = cc

  pub verify-Stage :
      (r : Round) (used : BudgetUsage) (run : Run) (frozen : FrozenValidationResult) (w : World)
      → IsValidated deps run_id cid c r (run, frozen) w
      → Stage deps run_id (Judged r) (verify deps cid c r used (run, frozen) w)
  unfolding verify pure can_transition is_failed requires_pending_action
  verify-Stage r used run frozen w ((a, permitted), checked) =
      let state = LifecycleState.verifying in
      Stage-bind deps run_id (Reached deps run_id state w) (Judged r) _ _ w
        (advance-Stage deps run_id run state cid LifecycleState.host_validating w a refl refl refl)
        (λ verifying v b.
          Stage-bind deps run_id (λ u x. Reached deps run_id state v verifying x) (Judged r) _ _ v
            (within_budget-Stage deps run_id cid verifying used r.active_grants.budgets "VERIFYING"
              AgentRole.verifier state v b.0 refl)
            (λ u x d.
              let allowed : IsPermitted deps x.history r.active_grants = rw (d.1, b.1) permitted in
              Stage-bind deps run_id
                (λ verified y.
                  Stays deps run_id state verifying x verified y × IsJudged frozen verified)
                (Judged r) _ _ x
                (catch-Stage deps run_id (IsJudged frozen) verification_service _ _ state verifying
                  x d.0 (search (quiet_rules, run_verification-IsQuiet))
                  (Yields-bind (IsJudged frozen) _ _
                    (λ now. run_verification-Yields deps [] c.contract frozen _))
                  (λ e y f why. on_unusable-Stage _ verifying e y f why))
                (λ verified y e. Stage-draw deps run_id (Judged r) deps.utc_now _ y (
                  Stage-bind deps run_id
                    (λ u z. At deps run_id state verifying z × (z.history ≡ y.history)) (Judged r) _
                    _ _
                    (insert-Stage deps run_id _ state verifying (record y { tick = y.tick + 1 })
                      (insert_verification_result-Inserts verified.verification_result
                        verifying.run_id y.store)
                      (At-tick deps (y.tick + 1) e.0.0))
                    (λ u z g. record {
                      there = (
                        g.0,
                        rw (g.1) (
                            (Permitted-stays deps run_id cid c state r verifying x y allowed
                              e.0).1),
                      );
                      checked = checked;
                      judged = e.1;
                    })))))

  -- The answer of the user ends the pipeline, for a merge only if it is yes.
  answered-Stage :
      {A : Type 0} (Q : A → World → Type 0) (r : Round) (v : Verified) (waiting : Run)
      (past : List Event) (approved : Bool) (w : World)
      → IsPermitted deps past r.active_grants
      → IsChecked deps r.active_grants.path_rules v.frozen_result
      → IsJudged v.frozen_result v.verified
      → v.verified.accepted_decision ≡ VerificationDecision.pass
      → Extends past w.history
      → w.history ≡ Event.final_answered v.verified approved ∷ past
      → At deps run_id LifecycleState.awaiting_final_approval waiting w
      → Stage deps run_id Q (
          (advance deps waiting
                (if approved
                  then LifecycleState.ready_for_merge
                  else LifecycleState.rework_contracting)
                cid
              >>= give)
            w)
  unfolding can_transition is_failed requires_pending_action give
  answered-Stage Q r v waiting past true w permitted checked (result, usage, same) pass extends seen
        a =
      Stage-bind deps run_id (Reached deps run_id LifecycleState.ready_for_merge w) Q _ _ w
        (advance-Stage deps run_id waiting LifecycleState.ready_for_merge cid
          LifecycleState.awaiting_final_approval w a refl refl refl)
        (λ final x b. record {
          named = b.0.named;
          row = b.0.row;
          settled = rw (b.0.state_fits) refl;
          mergeable = λ ready. record {
            contract = c.contract;
            frozen = v.frozen_result;
            result = result;
            usage = usage;
            grants = r.active_grants;
            accepted =
                (accepted_decision-IsAccepted c.contract v.frozen_result result usage).0
                  (rw (sym same) pass);
            permitted =
                rw (b.1)
                  (IsPermitted-extends deps past w.history r.active_grants extends permitted);
            checked = checked;
            approved = rw (b.1, seen, same) newest;
          };
          covered = b.0.covered;
        })
  answered-Stage Q r v waiting past false w permitted checked judged pass extends seen a =
      Stage-bind deps run_id (Reached deps run_id LifecycleState.rework_contracting w) Q _ _ w
        (advance-Stage deps run_id waiting LifecycleState.rework_contracting cid
          LifecycleState.awaiting_final_approval w a refl refl refl)
        (λ final x b. record {
          named = b.0.named;
          row = b.0.row;
          settled = rw (b.0.state_fits) refl;
          mergeable = λ ready. cc (b.0.state_fits);
          covered = b.0.covered;
        })

  pub finish-Stage :
      (Q : Round → World → Type 0) (r : Round) (v : Verified) (w : World)
      → Judged r v w
      → v.verified.accepted_decision ≡ VerificationDecision.pass
      → Stage deps run_id Q (finish deps cid c v w)
  unfolding finish can_transition is_failed requires_pending_action
  finish-Stage Q r v w j pass =
      let state = LifecycleState.awaiting_final_approval in
      Stage-bind deps run_id (Reached deps run_id state w) Q _ _ w
        (advance_pending-Stage deps run_id v.run state cid PendingActionKind.final_approval
          Message.final_approval_required LifecycleState.verifying w j.there.0 refl refl refl)
        (λ waiting x b.
          Stage-bind deps run_id
            (λ approved y. At deps run_id state waiting y × (y.history ≡ w.history)) Q _ _ x
            (ask-Stage deps run_id
              (λ approved y. At deps run_id state waiting y × (y.history ≡ w.history))
              (deps.decide_final_approval v.verified) x b.0.covered
              (λ approved. (At-tick deps (x.tick + 1) b.0, b.1)))
            (λ approved y e.
              let event = Event.final_answered v.verified approved in
              Stage-observe deps run_id Q event _ y (
                answered-Stage Q r v waiting y.history approved
                  (record y { history = event ∷ y.history }) (rw (e.1) j.there.1) j.checked j.judged
                  pass (event ∷ [], refl) refl
                  (record {
                    named = e.0.named;
                    state_fits = e.0.state_fits;
                    row = e.0.row;
                    only = e.0.only;
                    covered = (tt, e.0.covered);
                  }))))
