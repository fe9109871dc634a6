-- ===== src/Pipeline/Outcome.antt =====
-- What a caller of `run_task_pipeline` (src/agent_harness/application/orchestrator.py) can rely on.
use harness_system.Prelude.{◌+◌, String, ◌≡◌, refl, ◌⊎◌, inl, inr, true, [], some}
use harness_system.Exceptions.{Exception}
use harness_system.Domain.Lifecycle.{LifecycleState}
use harness_system.Domain.Models.{Run, Task}
use harness_system.Store.{get_run}
use harness_system.Store.Fresh.{HasOneRow}
use harness_system.Providers.Protocol.{replied}
use harness_system.Pipeline.Exec.{World, Step, done, returned, threw}
use harness_system.Pipeline.Deps.{PipelineDeps}
use harness_system.Pipeline.Run.{run_task_pipeline}
use harness_system.Pipeline.Grants.{AllCovered}
use harness_system.Pipeline.Progress.Quiet.{is_expected}
use harness_system.Pipeline.Progress.Stations.{Stage, is_settled}
use harness_system.Pipeline.Progress.Loop.{run_task_pipeline-Stage}

abbrev pub Over : {A : Type 0} → PipelineDeps → String → Step A × World → Type 0
Over deps id x =
    ((final : Run) × (v : World) × (x ≡ (returned final, v))
      × (is_settled final.state ≡ true)
      × (final.run_id ≡ id)
      × (get_run v.store final.run_id ≡ some final))
    ⊎ ((e : Exception) × (v : World) × (x ≡ (threw e, v)) × (is_expected e ≡ true))

over :
    {A : Type 0} (deps : PipelineDeps) (id : String) (x : Step A × World)
    → Stage deps id (λ u v. ⊥) x
    → Over deps id x
over deps id (done u, v) h = absurd h
over deps id (returned final, v) h = inl (final, v, refl, h.settled, h.named, h.row)
over deps id (threw e, v) h = inr (e, v, refl, h.0)

covered :
    {A : Type 0} (deps : PipelineDeps) (id : String) (x : Step A × World)
    → Stage deps id (λ u v. ⊥) x
    → AllCovered deps x.1.history
covered deps id (done u, v) h = absurd h
covered deps id (returned final, v) h = h.covered
covered deps id (threw e, v) h = h.1

module _ (deps : PipelineDeps) (run : Run) (task : Task) (user_request_text : String)
    (sha fingerprint : String) (w : World) (at_start : run.state ≡ LifecycleState.created)
    (row : get_run w.store run.run_id ≡ some run) (only : HasOneRow w.store run.run_id)
    (fresh : w.history ≡ []) (resolved : deps.rev_parse w.tick ≡ replied sha)
    (known : deps.compute_repository_fingerprint (w.tick + 1) ≡ replied fingerprint) where
  staged : Stage deps run.run_id (λ u v. ⊥) (run_task_pipeline deps run task user_request_text w)
  staged =
      run_task_pipeline-Stage deps run task user_request_text sha fingerprint w
        (record {
          named = refl;
          state_fits = at_start;
          row = row;
          only = only;
          covered = rw fresh tt;
        })
        resolved known

  -- For a new run whose one row is in the table, in a repository that git resolves: the pipeline
  -- comes to an end. It returns this run as its row then is, in FAILED, AWAITING_MANUAL_REVIEW,
  -- REWORK_CONTRACTING or READY_FOR_MERGE, or it raises an exception of what it calls, of a taken
  -- key or of a malformed record, and never one for an illegal transition or an outdated version.
  pub run_task_pipeline-Over :
      Over deps run.run_id (run_task_pipeline deps run task user_request_text w)
  run_task_pipeline-Over = over deps run.run_id _ staged

  -- For a new run whose one row is in the table, in a repository that git resolves: whenever the
  -- pipeline invokes the Worker, it is with the grants of a decision of the policy that allows them,
  -- or that a user has approved before, and with just the tools for the access that they grant.
  pub run_task_pipeline-AllCovered :
      AllCovered deps (run_task_pipeline deps run task user_request_text w).1.history
  run_task_pipeline-AllCovered = covered deps run.run_id _ staged
