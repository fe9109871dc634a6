-- ===== src/Pipeline/Progress/Calls.antt =====
-- The calls of the pipeline to the outside and to the audit tables
-- (src/agent_harness/application/orchestrator.py).
use harness_system.Prelude.{ℕ, ◌+◌, String, ◌≡◌, refl, inl, inr, string_eq}
use harness_system.Exceptions.{Result}
use harness_system.Domain.Lifecycle.{LifecycleState, state_eq}
use harness_system.Domain.Models.{Run}
use harness_system.Store.{Store, get_run}
use harness_system.Store.Records.{Inserts}
use harness_system.Providers.Protocol.{Reply, replied, incapable, broken, result_of}
use harness_system.Pipeline.Exec.{World, pure, throw, lift, ask, insert, transact, on_store}
use harness_system.Pipeline.Deps.{PipelineDeps}
use harness_system.Pipeline.Grants.{AllCovered}
use harness_system.Pipeline.Progress.Stations.{At, Stage}

module _ (deps : PipelineDeps) (run_id : String) where
  -- An answer from outside, or an expected exception.
  pub ask-Stage :
      {A : Type 0} (Q : A → World → Type 0) (f : ℕ → Reply A) (w : World)
      → AllCovered deps w.history
      → ((a : A) → Q a (record w { tick = w.tick + 1 }))
      → Stage deps run_id Q (ask f w)
  unfolding ask
  ask-Stage {A} Q f w covered q = answer (f w.tick)
    where
      answer :
          (r : Reply A) → Stage deps run_id Q (lift (result_of r) (record w { tick = w.tick + 1 }))
      answer (replied a) = unfold lift pure in q a
      answer Reply.late = unfold lift throw in (refl, covered)
      answer incapable = unfold lift throw in (refl, covered)
      answer broken = unfold lift throw in (refl, covered)

  -- An INSERT leaves the run where it is.
  pub insert-Stage :
      (f : Store → Result Store) (state : LifecycleState) (run : Run) (w : World)
      → Inserts w.store (f w.store)
      → At deps run_id state run w
      → Stage deps run_id (λ u v. At deps run_id state run v × (v.history ≡ w.history)) (insert f w)
  unfolding insert transact on_store get_run
  insert-Stage f state run w inserts a = elim inserts [
    | inr bad ↦ rw bad (refl, a.covered)
    | inl (t, good, same) ↦ rw good (
      record {
        named = a.named;
        state_fits = a.state_fits;
        row = rw (same.runs) a.row;
        only = rw (same.runs) a.only;
        covered = a.covered;
      },
      refl,
    )
  ]
