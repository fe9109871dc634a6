-- ===== src/Pipeline/Progress/Stations.antt =====
-- Where a run stands between two statements of the pipeline
-- (src/agent_harness/application/orchestrator.py).
use harness_system.Prelude.{ℕ, ◌+◌, String, ◌≡◌, Bool, true, false, List, ◌∷◌, Option, some}
use harness_system.Exceptions.{Exception, Result, ok}
use harness_system.Domain.Lifecycle.{LifecycleState, state_eq}
use harness_system.Domain.Models.{PolicyGrants, Run, TaskContract, UsageRecord, VerificationResult}
use harness_system.Store.{get_run}
use harness_system.Store.Fresh.{HasOneRow}
use harness_system.Execution.Frozen.{FrozenValidationResult}
use harness_system.Checks.{verified_verification}
use harness_system.Checks.Accepted.{IsAccepted}
use harness_system.Pipeline.Exec.{World, Event, Step, M, continue, ◌>>=◌, draw, lift, observe}
use harness_system.Pipeline.Exec.Ends.{Ends, Ends-bind}
use harness_system.Pipeline.Deps.{PipelineDeps}
use harness_system.Pipeline.Grants.{AllCovered, IsPermitted, Occurs}
use harness_system.Pipeline.Progress.Quiet.{IsCalm, is_expected}
use harness_system.Pipeline.Progress.Freezing.{IsChecked}

-- The states in which `run_task_pipeline` leaves a run to its caller.
abbrev pub is_settled : LifecycleState → Bool
is_settled LifecycleState.failed = true
is_settled LifecycleState.awaiting_manual_review = true
is_settled LifecycleState.rework_contracting = true
is_settled LifecycleState.ready_for_merge = true
is_settled _ = false

module _ (deps : PipelineDeps) where
  -- What a merge rests on: a PASS of the Verifier that the Harness has found sound for a contract and
  -- a frozen result, no change of which violates the scope that policy has permitted, and a user who
  -- was shown this verdict and approved.
  pub record IsMergeable (history : List Event) : Type 0 where
    pub contract : TaskContract
    pub frozen : FrozenValidationResult
    pub result : VerificationResult
    pub usage : Option UsageRecord
    pub grants : PolicyGrants
    pub accepted : IsAccepted contract frozen result
    pub permitted : IsPermitted deps history grants
    pub checked : IsChecked deps grants.path_rules frozen
    pub approved :
        Occurs
          (Event.final_answered (verified_verification contract frozen result usage) true)
          history

  -- The run stands in the state, in the one row of its table.
  pub record At (run_id : String) (state : LifecycleState) (run : Run) (w : World) : Type 0 where
    pub named : run.run_id ≡ run_id
    pub state_fits : run.state ≡ state
    pub row : get_run w.store run.run_id ≡ some run
    pub only : HasOneRow w.store run.run_id
    pub covered : AllCovered deps w.history

  -- The pipeline has returned the run.
  pub record IsSettled (run_id : String) (run : Run) (w : World) : Type 0 where
    pub named : run.run_id ≡ run_id
    pub row : get_run w.store run.run_id ≡ some run
    pub settled : is_settled run.state ≡ true
    pub mergeable : run.state ≡ LifecycleState.ready_for_merge → IsMergeable w.history
    pub covered : AllCovered deps w.history

  -- The pipeline has raised.
  abbrev pub IsRaised : Exception → World → Type 0
  IsRaised e w = (is_expected e ≡ true) × AllCovered deps w.history

  abbrev pub Stage : {A : Type 0} → String → (A → World → Type 0) → Step A × World → Type 0
  Stage run_id Q = Ends (IsSettled run_id) IsRaised Q

  -- The next station, with nothing added to the history.
  abbrev pub Reached : String → LifecycleState → World → Run → World → Type 0
  Reached run_id state w run v = At run_id state run v × (v.history ≡ w.history)

  pub At-tick :
      {run_id : String} {state : LifecycleState} {run : Run} {w : World} (n : ℕ)
      → At run_id state run w
      → At run_id state run (record w { tick = n })
  At-tick n a = record {
    named = a.named;
    state_fits = a.state_fits;
    row = a.row;
    only = a.only;
    covered = a.covered;
  }

  -- The first statement and the rest.
  pub Stage-bind :
      {A B : Type 0} (run_id : String) (P : A → World → Type 0) (Q : B → World → Type 0) (m : M A)
      (k : A → M B) (w : World)
      → Stage run_id P (m w)
      → ((a : A) (v : World) → P a v → Stage run_id Q (k a v))
      → Stage run_id Q ((m >>= k) w)
  Stage-bind run_id P Q m k w first rest =
      Ends-bind (IsSettled run_id) IsRaised P Q m k w first rest

  pub Stage-draw :
      {A B : Type 0} (run_id : String) (Q : B → World → Type 0) (f : ℕ → A) (k : A → M B)
      (w : World)
      → Stage run_id Q (k (f w.tick) (record w { tick = w.tick + 1 }))
      → Stage run_id Q ((draw f >>= k) w)
  unfolding ◌>>=◌ continue draw
  Stage-draw run_id Q f k w h = h

  pub Stage-observe :
      {B : Type 0} (run_id : String) (Q : B → World → Type 0) (e : Event) (k : Unit {0} → M B)
      (w : World)
      → Stage run_id Q (k tt (record w { history = e ∷ w.history }))
      → Stage run_id Q ((observe e >>= k) w)
  unfolding ◌>>=◌ continue observe
  Stage-observe run_id Q e k w h = h

  pub Stage-lift :
      {A B : Type 0} (run_id : String) (Q : B → World → Type 0) (r : Result A) (a : A) (k : A → M B)
      (w : World)
      → r ≡ ok a
      → Stage run_id Q (k a w)
      → Stage run_id Q ((lift r >>= k) w)
  unfolding ◌>>=◌ continue lift
  Stage-lift run_id Q r a k w same h = rw same h

  pub At-calm :
      {run_id : String} {state : LifecycleState} {run : Run} {past : List Event} {late : Exception}
      {w v : World}
      → At run_id state run w
      → IsCalm deps past late w.store v
      → At run_id state run v
  At-calm a c = record {
    named = a.named;
    state_fits = a.state_fits;
    row = rw (c.same) a.row;
    only = rw (c.same) a.only;
    covered = c.covered;
  }
