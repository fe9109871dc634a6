-- ===== src/Pipeline/Progress/Loop.antt =====
-- The loop of `run_task_pipeline` (src/agent_harness/application/orchestrator.py), and what comes
-- before it.
use Prim.Native.String.{◌++◌ as append}
use harness_system.Prelude.{ℕ, zero, suc, ◌+◌, String, ◌≡◌, refl, arith, ◌≤◌}
use harness_system.Domain.Lifecycle.{LifecycleState}
use harness_system.Domain.Models.{Run, Task}
use harness_system.Providers.Protocol.{replied}
use harness_system.Pipeline.Exec.{World}
use harness_system.Pipeline.Deps.{PipelineDeps}
use harness_system.Pipeline.Plan.{Planned, Workspace}
use harness_system.Pipeline.Attempt.{Round, Setting, attempt}
use harness_system.Pipeline.Run.{first_round, rounds, run_task_pipeline, setting_of}
use harness_system.Pipeline.Progress.Stations.{At, Stage, Stage-bind}
use harness_system.Pipeline.Progress.Planning.{
  IsPlanned, accept_contract-Stage, plan-Stage, prepare_workspace-Stage, resolve_repository-Stage,
}
use harness_system.Pipeline.Progress.Work.{IsValidated, Permitted, execute-Stage, validate-Stage}
use harness_system.Pipeline.Progress.Verdicts.{Judged, verify-Stage}
use harness_system.Pipeline.Progress.Reworks.{IsNext, Ready, follow-Stage}

module _ (deps : PipelineDeps) (run_id cid : String) where
  attempt-Stage :
      (c : Setting) (r : Round) (w : World)
      → Ready deps run_id cid c r w
      → Stage deps run_id (IsNext deps run_id cid c r) (attempt deps cid c r w)
  unfolding attempt
  attempt-Stage c r w ready =
      let Q : Round → World → Type 0 = IsNext deps run_id cid c r in
      Stage-bind deps run_id
        (λ executed v. Permitted deps run_id cid c LifecycleState.executing r executed.run v) Q _ _
        w (execute-Stage deps run_id cid c r w ready)
        (λ executed v a.
          Stage-bind deps run_id (IsValidated deps run_id cid c r) Q _ _ v
            (validate-Stage deps run_id cid c r executed.run v a)
            (λ checked x b.
              Stage-bind deps run_id (Judged deps run_id cid c r) Q _ _ x
                (verify-Stage deps run_id cid c r executed.budget_used checked.0 checked.1 x b)
                (λ verified y j.
                  follow-Stage deps run_id cid c r executed.worker_result verified
                    verified.verified.accepted_decision y j refl)))

  none_left : (limit n : ℕ) → n ≤ limit + 1 → limit + 2 ≤ 0 + n → ⊥
  none_left limit n bound enough = omega arith

  -- As many rounds are enough as the contract still allows reworks, and one more.
  rounds-Stage :
      (fuel : ℕ) (c : Setting) (r : Round) (w : World)
      → Ready deps run_id cid c r w
      → r.attempt_number ≤ c.contract.budget_request.max_rework_iterations + 1
      → c.contract.budget_request.max_rework_iterations + 2 ≤ fuel + r.attempt_number
      → Stage deps run_id (λ u v. ⊥) (rounds deps fuel cid c r w)
  unfolding rounds
  rounds-Stage zero c r w ready bound enough = absurd (none_left _ r.attempt_number bound enough)
  rounds-Stage (suc fuel) c r w ready bound enough =
      let more = rounds-Stage fuel c in
      Stage-bind deps run_id (IsNext deps run_id cid c r) (λ u v. ⊥) _ _ w
        (attempt-Stage c r w ready)
        (λ next v (ready', counted, below).
          more next v ready' (omega (arith, counted, below)) (omega (arith, counted, enough)))

  rounds_after-Stage :
      (task : Task) (p : Planned) (ws : Workspace) (w : World)
      → IsPlanned deps run_id p w
      → Stage deps run_id
          (λ u v. ⊥)
          (rounds deps
            (suc p.contract.budget_request.max_rework_iterations)
            cid
            (setting_of task p ws)
            (first_round p ws)
            w)
  rounds_after-Stage task p ws w planned =
      rounds-Stage _ (setting_of task p ws) (first_round p ws) w planned (omega arith) (omega arith)

-- A run in CREATED, in a repository that can be resolved, is settled or raises what is expected.
pub run_task_pipeline-Stage :
    (deps : PipelineDeps) (run : Run) (task : Task) (text : String) (sha fingerprint : String)
    (w : World)
    → At deps run.run_id LifecycleState.created run w
    → deps.rev_parse w.tick ≡ replied sha
    → deps.compute_repository_fingerprint (w.tick + 1) ≡ replied fingerprint
    → Stage deps run.run_id (λ u v. ⊥) (run_task_pipeline deps run task text w)
unfolding run_task_pipeline
run_task_pipeline-Stage deps run task text sha fingerprint w a known known_too =
    let id = run.run_id in
    let cid = append "run-" run.run_id in
    let Q : Unit {0} → World → Type 0 = λ u v. ⊥ in
    Stage-bind deps id (λ repository v. At deps id LifecycleState.created run v) Q _ _ w
      (resolve_repository-Stage deps id cid run sha fingerprint w known known_too a)
      (λ repository v b.
        Stage-bind deps id (λ planned x. At deps id LifecycleState.planning planned.0 x) Q _ _ v
          (plan-Stage deps id cid run task text v b)
          (λ planned x d.
            Stage-bind deps id (IsPlanned deps id) Q _ _ x
              (accept_contract-Stage deps id cid task repository planned.0 planned.1 planned.2 x d)
              (λ p y e.
                Stage-bind deps id (λ ws z. IsPlanned deps id p z) Q _ _ y
                  (prepare_workspace-Stage deps id cid p y e)
                  (λ ws z f. rounds_after-Stage deps id cid task p ws z f))))
