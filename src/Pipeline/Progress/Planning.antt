-- ===== src/Pipeline/Progress/Planning.antt =====
-- The stages before the loop (src/agent_harness/application/orchestrator.py), from PLANNING to a
-- workspace.
use harness_system.Prelude.{◌+◌, String, ◌≡◌, refl, Option, none, some}
use harness_system.Exceptions.{outside, pipeline_timeout}
use harness_system.Domain.Enums.{AgentRole, ProtocolStatus}
use harness_system.Domain.Lifecycle.{LifecycleState, state_eq}
use harness_system.Domain.Models.{BudgetUsage, PolicyGrants, Run, Task, TaskContract}
use harness_system.Transitions.{can_transition, is_failed, requires_pending_action}
use harness_system.Store.Records.{insert_task_contract-Inserts}
use harness_system.Providers.Protocol.{replied}
use harness_system.Pipeline.Exec.{World, pure, handle, catch, ◌>>=◌, continue, ask, lift}
use harness_system.Pipeline.Exec.Ends.{Ends-map}
use harness_system.Pipeline.Deps.{PipelineDeps}
use harness_system.Pipeline.Gate.{advance}
use harness_system.Pipeline.Plan.{
  Planned, resolve_repository, invoke_planner, planner_output, valid_contract, plan,
  accept_contract, prepare_workspace,
}
use harness_system.Pipeline.Grants.{IsPermitted, IsPermitted-extends}
use harness_system.Pipeline.Progress.Quiet.{quiet_rules}
use harness_system.Pipeline.Progress.Turns.{invoke_role-IsQuiet}
use harness_system.Pipeline.Progress.Stations.{
  At, At-tick, IsRaised, IsSettled, Reached, Stage, Stage-bind, Stage-draw,
}
use harness_system.Pipeline.Progress.Edges.{advance-Stage, return_failed-Stage}
use harness_system.Pipeline.Progress.Handlers.{
  Stays, Yields-any, catch-Stage, on_timeout-Stage, within_budget-Stage,
}
use harness_system.Pipeline.Progress.Calls.{ask-Stage, insert-Stage}
use harness_system.Pipeline.Progress.Gating.{Gated, MayPrepare, gate_policy-Stage, or_return-Stage}

module _ (deps : PipelineDeps) (run_id : String) where
  -- The repository can be resolved: git answers both questions.
  pub resolve_repository-Stage :
      (cid : String) (run : Run) (sha fingerprint : String) (w : World)
      → deps.rev_parse w.tick ≡ replied sha
      → deps.compute_repository_fingerprint (w.tick + 1) ≡ replied fingerprint
      → At deps run_id LifecycleState.created run w
      → Stage deps run_id
          (λ r v. At deps run_id LifecycleState.created run v)
          (resolve_repository deps cid run w)
  unfolding resolve_repository catch handle ◌>>=◌ continue ask lift
  resolve_repository-Stage cid run sha fingerprint w known known_too a =
      rw (known, known_too) (At-tick deps (w.tick + 1 + 1) a)

  planner_output-Stage :
      (cid : String) (run : Run) (status : ProtocolStatus) (output : Option String) (w : World)
      → At deps run_id LifecycleState.planning run w
      → Stage deps run_id
          (λ o v. At deps run_id LifecycleState.planning run v)
          (planner_output deps cid run status output w)
  unfolding planner_output pure can_transition
  planner_output-Stage cid run ProtocolStatus.succeeded (some output) w a = a
  planner_output-Stage cid run status _ w a =
      return_failed-Stage deps run_id _ run cid _ LifecycleState.planning w a refl

  valid_contract-Stage :
      (cid : String) (run : Run) (parsed : Option TaskContract) (w : World)
      → At deps run_id LifecycleState.contract_validating run w
      → Stage deps run_id
          (λ c v. At deps run_id LifecycleState.contract_validating run v)
          (valid_contract deps cid run parsed w)
  unfolding valid_contract pure can_transition
  valid_contract-Stage cid run (some contract) w a = a
  valid_contract-Stage cid run none w a =
      return_failed-Stage deps run_id _ run cid _ LifecycleState.contract_validating w a refl

  planner-not-worker : (P : Type 0) → AgentRole.planner ≡ AgentRole.worker → P
  planner-not-worker P same = cc

  invoke_planner-Stage :
      (cid : String) (run : Run) (task : Task) (text : String) (w : World)
      → At deps run_id LifecycleState.planning run w
      → Stage deps run_id
          (λ r v. Stays deps run_id LifecycleState.planning run w r v × Unit {0})
          (invoke_planner deps cid run task text w)
  unfolding invoke_planner can_transition
  invoke_planner-Stage cid run task text w a =
      catch-Stage deps run_id (λ r. Unit) pipeline_timeout _ _ LifecycleState.planning run w a
        (search (quiet_rules, invoke_role-IsQuiet, planner-not-worker)) (Yields-any _)
        (λ e v b why.
          on_timeout-Stage deps run_id _ cid run "PLANNING" AgentRole.planner
            deps.policy_ceiling.budget_ceiling LifecycleState.planning e v b refl why)

  pub plan-Stage :
      (cid : String) (run : Run) (task : Task) (text : String) (w : World)
      → At deps run_id LifecycleState.created run w
      → Stage deps run_id
          (λ planned v. At deps run_id LifecycleState.planning planned.0 v)
          (plan deps cid run task text w)
  unfolding plan can_transition is_failed requires_pending_action pure
  plan-Stage cid run task text w a =
      let Q : (Run × BudgetUsage × String) → World → Type 0 =
        λ planned v. At deps run_id LifecycleState.planning planned.0 v in
      Stage-bind deps run_id (Reached deps run_id LifecycleState.planning w) Q _ _ w
        (advance-Stage deps run_id run LifecycleState.planning cid LifecycleState.created w a refl
          refl refl)
        (λ planning v b.
          Stage-bind deps run_id (λ u x. Reached deps run_id LifecycleState.planning v planning x) Q
            _ _ v
            (within_budget-Stage deps run_id cid planning run.budget_used
              deps.policy_ceiling.budget_ceiling "PLANNING" AgentRole.planner
              LifecycleState.planning v b.0 refl)
            (λ u x c.
              Stage-bind deps run_id
                (λ r y. Stays deps run_id LifecycleState.planning planning x r y × Unit {0}) Q _ _ x
                (invoke_planner-Stage cid planning task text x c.0)
                (λ result y d.
                  Stage-bind deps run_id (λ o z. At deps run_id LifecycleState.planning planning z)
                    Q _ _ y
                    (planner_output-Stage cid planning result.protocol_status
                      result.structured_output y d.0.0)
                    (λ output z e. e))))

  -- The contract is accepted, and its grants are permitted.
  abbrev pub IsPlanned : Planned → World → Type 0
  IsPlanned p v =
      At deps run_id LifecycleState.preparing_workspace p.run v
      × IsPermitted deps v.history p.decision.grants

  -- From the gate to PREPARING_WORKSPACE.
  pub prepare-Stage :
      (cid : String) (run : Run) (grants : PolicyGrants) (w : World)
      → MayPrepare deps run_id run w × IsPermitted deps w.history grants
      → Stage deps run_id
          (λ r v.
            At deps run_id LifecycleState.preparing_workspace r v
            × IsPermitted deps v.history grants)
          (advance deps run LifecycleState.preparing_workspace cid w)
  unfolding is_failed requires_pending_action
  prepare-Stage cid run grants w (may, permitted) =
      Ends-map (IsSettled deps run_id) (IsRaised deps)
        (Reached deps run_id LifecycleState.preparing_workspace w) _ _
        (advance-Stage deps run_id run LifecycleState.preparing_workspace cid may.state w may.there
          may.edge refl refl)
        (λ r v b. (b.0, rw (b.1) permitted))

  pub accept_contract-Stage :
      (cid : String) (task : Task) (repository : String × String) (run : Run) (used : BudgetUsage)
      (output : String) (w : World)
      → At deps run_id LifecycleState.planning run w
      → Stage deps run_id IsPlanned (accept_contract deps cid task repository (run, used, output) w)
  unfolding accept_contract can_transition is_failed requires_pending_action pure
  accept_contract-Stage cid task repository run used output w a =
      let S = λ (r : Run) (v : World). At deps run_id LifecycleState.contract_validating r v in
      Stage-bind deps run_id (Reached deps run_id LifecycleState.contract_validating w) IsPlanned _
        _ w
        (advance-Stage deps run_id run LifecycleState.contract_validating cid
          LifecycleState.planning w a refl refl refl)
        (λ validating v b.
          Stage-draw deps run_id IsPlanned (deps.parse_task_contract output task.task_id run.run_id)
            _ v
            (Stage-bind deps run_id (λ c x. S validating x) IsPlanned _ _ _
              (valid_contract-Stage cid validating
                (deps.parse_task_contract output task.task_id run.run_id v.tick)
                (record v { tick = v.tick + 1 }) (At-tick deps (v.tick + 1) b.0))
              (λ proposed x c. Stage-draw deps run_id IsPlanned deps.utc_now _ x (
                Stage-bind deps run_id (λ u y. S validating y × (y.history ≡ x.history)) IsPlanned _
                  _ _
                  (insert-Stage deps run_id _ LifecycleState.contract_validating validating
                    (record x { tick = x.tick + 1 })
                    (insert_task_contract-Inserts _ run.run_id x.store)
                    (At-tick deps (x.tick + 1) c))
                  (λ u y d.
                    Stage-bind deps run_id (Gated deps run_id) IsPlanned _ _ y
                      (gate_policy-Stage deps run_id validating cid _ y d.0)
                      (λ gated z g.
                        Stage-bind deps run_id
                          (λ (r, d) v.
                            MayPrepare deps run_id r v × IsPermitted deps v.history d.grants)
                          IsPlanned _ _ z (or_return-Stage deps run_id cid gated z g)
                          (λ passed z' h.
                            Stage-bind deps run_id
                              (λ r v.
                                At deps run_id LifecycleState.preparing_workspace r v
                                × IsPermitted deps v.history passed.1.grants)
                              IsPlanned _ _ z' (prepare-Stage cid passed.0 passed.1.grants z' h)
                              (λ preparing z'' k. k))))))))

  pub prepare_workspace-Stage :
      (cid : String) (p : Planned) (w : World)
      → IsPlanned p w
      → Stage deps run_id (λ ws v. IsPlanned p v) (prepare_workspace deps cid p w)
  unfolding prepare_workspace can_transition pure
  prepare_workspace-Stage cid p w (a, permitted) =
      let state = LifecycleState.preparing_workspace in
      Stage-bind deps run_id (λ lease v. Stays deps run_id state p.run w lease v × Unit {0})
        (λ ws v. IsPlanned p v) _ _ w
        (catch-Stage deps run_id (λ lease. Unit) outside _ _ state p.run w a (search quiet_rules)
          (Yields-any _)
          (λ e v b why. return_failed-Stage deps run_id _ p.run cid _ state v b refl))
        (λ lease v b.
          Stage-bind deps run_id (λ baseline x. IsPlanned p x) (λ ws x. IsPlanned p x) _ _ v
            (ask-Stage deps run_id (λ baseline x. IsPlanned p x) deps.freeze_manifest v
              b.0.0.covered
              (λ baseline. (
                At-tick deps (v.tick + 1) b.0.0,
                IsPermitted-extends deps w.history v.history p.decision.grants b.0.1 permitted,
              )))
            (λ baseline x c. c))
