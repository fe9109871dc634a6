-- ===== src/Pipeline/Progress/Edges.antt =====
-- The transitions of a run between two stations: `_fail` and `_advance` of
-- src/agent_harness/application/orchestrator.py.
use harness_system.Prelude.{◌+◌, String, ◌≡◌, refl, inl, inr, true, false, Option, none}
use harness_system.Domain.Enums.{PendingActionKind}
use harness_system.Domain.Lifecycle.{LifecycleState, state_eq}
use harness_system.Domain.Models.{FailureRecord, PendingAction, Run}
use harness_system.Transitions.{can_transition, is_failed, requires_pending_action, updated_run}
use harness_system.Transitions.Laws.{IsLegal}
use harness_system.Store.Fresh.{apply_transition-fresh, committed-row}
use harness_system.Pipeline.Exec.{World, pure, give, continue, ◌>>=◌, draw, transact, on_store}
use harness_system.Pipeline.Exec.Ends.{Ends-bind}
use harness_system.Pipeline.Deps.{PipelineDeps, Message}
use harness_system.Pipeline.Gate.{
  Failing, advance, advance_pending, fail, move, orchestrator_request, return_failed,
}
use harness_system.Pipeline.Progress.Stations.{At, Stage}

module _ (deps : PipelineDeps) (run_id : String) where
  -- A legal transition of a run that stands in its row leads to the next station.
  move-Stage :
      (run : Run) (target : LifecycleState) (cid : String) (failure : Option FailureRecord)
      (pending : Option PendingAction) (state : LifecycleState) (w : World)
      → At deps run_id state run w
      → IsLegal run target failure pending
      → Stage deps run_id
          (λ run' v. At deps run_id target run' v × (v.history ≡ w.history))
          (move deps run target cid failure pending w)
  unfolding move ◌>>=◌ continue draw transact on_store pure orchestrator_request updated_run
  move-Stage run target cid failure pending state w a legal =
      let q =
        orchestrator_request deps run target cid failure pending (deps.utc_now w.tick)
          (deps.new_id (w.tick + 1)) in
      elim (apply_transition-fresh deps.digests q w.store run a.row refl legal a.only) [
        | inr bad ↦ rw bad (refl, a.covered)
        | inl good ↦
            let (row, only) = committed-row deps.digests q w.store run a.row refl legal a.only in
            rw good (
              record {
                named = a.named;
                state_fits = refl;
                row = row;
                only = only;
                covered = a.covered;
              },
              refl,
            )
      ]

  pub fail-Stage :
      (run : Run) (cid : String) (f : Failing) (state : LifecycleState) (w : World)
      → At deps run_id state run w
      → can_transition state LifecycleState.failed ≡ true
      → Stage deps run_id
          (λ run' v. At deps run_id LifecycleState.failed run' v × (v.history ≡ w.history))
          (fail deps run cid f w)
  unfolding fail ◌>>=◌ continue draw is_failed requires_pending_action
  fail-Stage run cid f state w a edge =
      move-Stage run LifecycleState.failed cid _ none state _
        (record {
          named = a.named;
          state_fits = a.state_fits;
          row = a.row;
          only = a.only;
          covered = a.covered;
        })
        (record { edge = rw (a.state_fits) edge; failure_fits = refl; pending_fits = refl })

  -- A failed run is a result, whatever was expected instead.
  pub return_failed-Stage :
      {A : Type 0} (Q : A → World → Type 0) (run : Run) (cid : String) (f : Failing)
      (state : LifecycleState) (w : World)
      → At deps run_id state run w
      → can_transition state LifecycleState.failed ≡ true
      → Stage deps run_id Q (return_failed deps run cid f w)
  unfolding return_failed give
  return_failed-Stage Q run cid f state w a edge =
      Ends-bind _ _ _ Q _ _ w (fail-Stage run cid f state w a edge) (λ failed v (b, same). record {
        named = b.named;
        row = b.row;
        settled = rw (b.state_fits) refl;
        mergeable = λ ready. cc (b.state_fits);
        covered = b.covered;
      })

  pub advance-Stage :
      (run : Run) (target : LifecycleState) (cid : String) (state : LifecycleState) (w : World)
      → At deps run_id state run w
      → can_transition state target ≡ true
      → is_failed target ≡ false
      → requires_pending_action target ≡ false
      → Stage deps run_id
          (λ run' v. At deps run_id target run' v × (v.history ≡ w.history))
          (advance deps run target cid w)
  unfolding advance
  advance-Stage run target cid state w a edge succeeds waits =
      move-Stage run target cid none none state w a (record {
        edge = rw (a.state_fits) edge;
        failure_fits = rw succeeds;
        pending_fits = rw waits;
      })

  pub advance_pending-Stage :
      (run : Run) (target : LifecycleState) (cid : String) (kind : PendingActionKind) (d : Message)
      (state : LifecycleState) (w : World)
      → At deps run_id state run w
      → can_transition state target ≡ true
      → is_failed target ≡ false
      → requires_pending_action target ≡ true
      → Stage deps run_id
          (λ run' v. At deps run_id target run' v × (v.history ≡ w.history))
          (advance_pending deps run target cid kind d w)
  unfolding advance_pending ◌>>=◌ continue draw
  advance_pending-Stage run target cid kind d state w a edge succeeds waits =
      move-Stage run target cid none _ state _
        (record {
          named = a.named;
          state_fits = a.state_fits;
          row = a.row;
          only = a.only;
          covered = a.covered;
        })
        (record {
          edge = rw (a.state_fits) edge;
          failure_fits = rw succeeds;
          pending_fits = rw waits;
        })
