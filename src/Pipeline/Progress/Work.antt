-- ===== src/Pipeline/Progress/Work.antt =====
-- The Worker's turn and the frozen result in a round of the loop of `run_task_pipeline`
-- (src/agent_harness/application/orchestrator.py).
use harness_system.Prelude.{
  ◌+◌, String, ◌≡◌, refl, inl, inr, List, Option, some, Bool-cases, ◌==◌, string_eq,
}
use harness_system.Exceptions.{outside, pipeline_timeout}
use harness_system.Domain.Enums.{AgentRole, ProtocolStatus}
use harness_system.Domain.Lifecycle.{LifecycleState}
use harness_system.Domain.Models.{Run}
use harness_system.Transitions.{can_transition, is_failed, requires_pending_action}
use harness_system.Execution.Frozen.{FrozenValidationResult}
use harness_system.Providers.Protocol.{AgentRunResult}
use harness_system.Pipeline.Exec.{Event, World, pure, draw}
use harness_system.Pipeline.Deps.{PipelineDeps}
use harness_system.Pipeline.Attempt.{
  Executed, Round, Setting, execute, invoke_worker, read_report, validate,
}
use harness_system.Pipeline.Gate.{claude_tool_ids_for}
use harness_system.Pipeline.Grants.{Extends, IsPermitted, IsPermitted-extends}
use harness_system.Pipeline.Progress.Quiet.{quiet_rules}
use harness_system.Pipeline.Progress.Freezing.{
  IsChecked, freeze_and_validate-IsQuiet, freeze_and_validate-Yields,
}
use harness_system.Pipeline.Progress.Turns.{invoke_role-IsQuiet}
use harness_system.Pipeline.Progress.Stations.{At, At-tick, Reached, Stage, Stage-bind, Stage-draw}
use harness_system.Pipeline.Progress.Edges.{advance-Stage}
use harness_system.Pipeline.Progress.Handlers.{
  Stays, Yields-any, catch-Stage, on_timeout-Stage, quiet-Stage, within_budget-Stage,
}

module _ (deps : PipelineDeps) (run_id cid : String) (c : Setting) where
  -- The run stands in a state, and the grants of the round are permitted.
  abbrev pub Permitted : LifecycleState → Round → Run → World → Type 0
  Permitted state r run w = At deps run_id state run w × IsPermitted deps w.history r.active_grants

  -- An action after which the history extends the one before leaves the grants permitted.
  pub Permitted-stays :
      (state : LifecycleState) (r : Round) (run : Run) (w v : World)
      → IsPermitted deps w.history r.active_grants
      → At deps run_id state run v × Extends w.history v.history
      → Permitted state r run v
  Permitted-stays state r run w v permitted (there, extends) =
      (there, IsPermitted-extends deps w.history v.history r.active_grants extends permitted)

  read_report-Stage :
      (r : Round) (run : Run) (result : AgentRunResult) (status : ProtocolStatus)
      (output : Option String) (w : World)
      → Permitted LifecycleState.executing r run w
      → Stage deps run_id
          (λ report v. Permitted LifecycleState.executing r run v)
          (read_report deps cid c result status output w)
  unfolding read_report pure draw
  read_report-Stage r run result ProtocolStatus.succeeded (some output) w (a, permitted) =
      elim (Bool-cases (output == "{}")) [
        | inl blank ↦ rw blank (a, permitted)
        | inr filled ↦ rw filled (At-tick deps (w.tick + 1) a, permitted)
      ]
  read_report-Stage r run result status _ w h = h

  invoke_worker-Stage :
      (r : Round) (run : Run) (w : World)
      → Permitted LifecycleState.executing r run w
      → Stage deps run_id
          (λ result v. Stays deps run_id LifecycleState.executing run w result v × Unit {0})
          (invoke_worker deps cid c run r w)
  unfolding invoke_worker can_transition
  invoke_worker-Stage r run w (a, permitted) =
      let covers : (history : List Event)
          → Extends w.history history
          → AgentRole.worker ≡ AgentRole.worker
          → IsPermitted deps history r.active_grants
            × (claude_tool_ids_for r.active_grants ≡ claude_tool_ids_for r.active_grants) =
        λ history extends same.
          (IsPermitted-extends deps w.history history r.active_grants extends permitted, refl) in
      catch-Stage deps run_id (λ result. Unit) pipeline_timeout _ _ LifecycleState.executing run w a
        (search (quiet_rules, invoke_role-IsQuiet, covers)) (Yields-any _)
        (λ e v b why.
          on_timeout-Stage deps run_id _ cid run "EXECUTING" AgentRole.worker
            r.active_grants.budgets LifecycleState.executing e v b refl why)

  pub execute-Stage :
      (r : Round) (w : World)
      → Permitted LifecycleState.preparing_workspace r r.run w
      → Stage deps run_id
          (λ executed v. Permitted LifecycleState.executing r executed.run v)
          (execute deps cid c r w)
  unfolding execute pure can_transition is_failed requires_pending_action
  execute-Stage r w (a, permitted) =
      let Q : Executed → World → Type 0 =
        λ executed v. Permitted LifecycleState.executing r executed.run v in
      Stage-bind deps run_id (Reached deps run_id LifecycleState.executing w) Q _ _ w
        (advance-Stage deps run_id r.run LifecycleState.executing cid
          LifecycleState.preparing_workspace w a refl refl refl)
        (λ run v b.
          Stage-bind deps run_id (λ u x. Reached deps run_id LifecycleState.executing v run x) Q _ _
            v
            (within_budget-Stage deps run_id cid run r.budget_used r.active_grants.budgets
              "EXECUTING" AgentRole.worker LifecycleState.executing v b.0 refl)
            (λ u x d.
              let allowed : IsPermitted deps x.history r.active_grants = rw (d.1, b.1) permitted in
              Stage-bind deps run_id
                (λ result y. Stays deps run_id LifecycleState.executing run x result y × Unit {0}) Q
                _ _ x (invoke_worker-Stage r run x (d.0, allowed))
                (λ result y e.
                  Stage-bind deps run_id (λ report z. Permitted LifecycleState.executing r run z) Q
                    _ _ y
                    (read_report-Stage r run result result.protocol_status result.structured_output
                      y (Permitted-stays _ r _ x y allowed e.0))
                    (λ report z f. f))))

  -- The frozen result has been judged by the scope of the grants.
  abbrev pub IsValidated : Round → Run × FrozenValidationResult → World → Type 0
  IsValidated r (run, frozen) w =
      Permitted LifecycleState.host_validating r run w
      × IsChecked deps r.active_grants.path_rules frozen

  pub validate-Stage :
      (r : Round) (run : Run) (w : World)
      → Permitted LifecycleState.executing r run w
      → Stage deps run_id (IsValidated r) (validate deps cid c r run w)
  unfolding validate pure can_transition is_failed requires_pending_action
  validate-Stage r run w (a, permitted) =
      let Q : Run × FrozenValidationResult → World → Type 0 = IsValidated r in
      Stage-bind deps run_id (Reached deps run_id LifecycleState.freezing_result w) Q _ _ w
        (advance-Stage deps run_id run LifecycleState.freezing_result cid LifecycleState.executing w
          a refl refl refl)
        (λ freezing v b.
          Stage-bind deps run_id (Reached deps run_id LifecycleState.host_validating v) Q _ _ v
            (advance-Stage deps run_id freezing LifecycleState.host_validating cid
              LifecycleState.freezing_result v b.0 refl refl refl)
            (λ validating x d.
              let allowed : IsPermitted deps x.history r.active_grants = rw (d.1, b.1) permitted in
              Stage-draw deps run_id Q deps.utc_now _ x (
                Stage-bind deps run_id
                  (λ frozen y.
                    Stays deps run_id LifecycleState.host_validating validating x frozen y
                    × IsChecked deps r.active_grants.path_rules frozen)
                  Q _ _ (record x { tick = x.tick + 1 })
                  (quiet-Stage deps run_id (IsChecked deps r.active_grants.path_rules) _
                    LifecycleState.host_validating validating (record x { tick = x.tick + 1 })
                    (At-tick deps (x.tick + 1) d.0)
                    (freeze_and_validate-IsQuiet deps x.history outside _ _ _ _ _)
                    (freeze_and_validate-Yields deps _ _ _ _ _))
                  (λ frozen y e. (Permitted-stays _ r _ x y allowed e.0, e.1)))))
