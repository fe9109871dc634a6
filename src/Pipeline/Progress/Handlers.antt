-- ===== src/Pipeline/Progress/Handlers.antt =====
-- The handlers and the budget checks of src/agent_harness/application/orchestrator.py: what a stage
-- does with the exceptions of the turns in it.
use harness_system.Prelude.{String, ◌≡◌, refl, ◌⊎◌, inl, inr, true, []}
use harness_system.Exceptions.{Exception, Result, ok, raised, outside, pipeline_timeout}
use harness_system.Domain.Enums.{AgentRole}
use harness_system.Domain.Lifecycle.{LifecycleState, state_eq}
use harness_system.Domain.Models.{BudgetRequest, BudgetUsage, Run}
use harness_system.Transitions.{can_transition}
use harness_system.Usage.{check_budget}
use harness_system.Pipeline.Exec.{World, Step, M, done, returned, threw, pure, throw, handle, catch}
use harness_system.Pipeline.Exec.Ends.{Ends, Ends-Yields, Yields}
use harness_system.Pipeline.Deps.{PipelineDeps}
use harness_system.Pipeline.Plan.{or_else, within_budget, on_timeout}
use harness_system.Pipeline.Grants.{Extends}
use harness_system.Pipeline.Progress.Quiet.{IsCalm, IsQuiet, is_expected}
use harness_system.Pipeline.Progress.Stations.{At, At-calm, Reached, Stage}
use harness_system.Pipeline.Progress.Edges.{return_failed-Stage}

-- Nothing is said of the value.
pub Yields-any : {A : Type 0} (m : M A) → Yields (λ a. Unit {0}) m
Yields-any {A} m = record { at = λ w. whatever (m w) }
  where
    whatever : (x : Step A × World) → Ends (λ r v. Unit {0}) (λ e v. Unit {0}) (λ a v. Unit {0}) x
    whatever (done a, v) = tt
    whatever (returned r, v) = tt
    whatever (threw e, v) = tt

module _ (deps : PipelineDeps) (run_id : String) where
  -- The run stays where it is while something quiet is done.
  abbrev pub Stays : {A : Type 0} → LifecycleState → Run → World → A → World → Type 0
  Stays state run w a v = At deps run_id state run v × Extends w.history v.history

  -- `try: m except: h` round a quiet action.
  pub catch-Stage :
      {A : Type 0} (P : A → Type 0) (late : Exception) (m : M A) (h : Exception → M A)
      (state : LifecycleState) (run : Run) (w : World)
      → At deps run_id state run w
      → IsQuiet deps w.history late m
      → Yields P m
      → ((e : Exception) (v : World)
          → At deps run_id state run v
          → ((is_expected e ≡ true) ⊎ (e ≡ late))
          → Stage deps run_id (λ a u. Stays state run w a u × P a) (h e v))
      → Stage deps run_id (λ a v. Stays state run w a v × P a) (catch m h w)
  unfolding catch
  catch-Stage {A} P late m h state run w a quiet yields handler = caught (m w) (
      Ends-Yields _ _ _ P m w
        (quiet.at w.store w (record { same = refl; covered = a.covered; extends = ([], refl) }))
        yields)
    where
      caught :
          (x : Step A × World)
          → Ends
              (λ r v. ⊥)
              (λ e v. ((is_expected e ≡ true) ⊎ (e ≡ late)) × IsCalm deps w.history late w.store v)
              (λ b v. IsCalm deps w.history late w.store v × P b)
              x
          → Stage deps run_id (λ b v. Stays state run w b v × P b) (handle h x)
      caught (done b, v) (calm, p) = unfold handle in ((At-calm deps a calm, calm.extends), p)
      caught (returned r, v) k = absurd k
      caught (threw e, v) (why, calm) = unfold handle in handler e v (At-calm deps a calm) why

  -- A quiet action with no handler.
  pub quiet-Stage :
      {A : Type 0} (P : A → Type 0) (m : M A) (state : LifecycleState) (run : Run) (w : World)
      → At deps run_id state run w
      → IsQuiet deps w.history outside m
      → Yields P m
      → Stage deps run_id (λ a v. Stays state run w a v × P a) (m w)
  quiet-Stage {A} P m state run w a quiet yields = seen (m w) (
      Ends-Yields _ _ _ P m w
        (quiet.at w.store w (record { same = refl; covered = a.covered; extends = ([], refl) }))
        yields)
    where
      seen :
          (x : Step A × World)
          → Ends
              (λ r v. ⊥)
              (λ e v.
                ((is_expected e ≡ true) ⊎ (e ≡ outside)) × IsCalm deps w.history outside w.store v)
              (λ b v. IsCalm deps w.history outside w.store v × P b)
              x
          → Stage deps run_id (λ b v. Stays state run w b v × P b) x
      seen (done b, v) (calm, p) = ((At-calm deps a calm, calm.extends), p)
      seen (returned r, v) k = absurd k
      seen (threw e, v) (inl expected, calm) = (expected, calm.covered)
      seen (threw e, v) (inr same, calm) = (rw same refl, calm.covered)

  pub or_else-Stage :
      (Q : Unit {0} → World → Type 0) (r : Result (Unit {0})) (h : M (Unit {0})) (w : World)
      → (r ≡ ok tt → Q tt w)
      → ((e : Exception) → r ≡ raised e → Stage deps run_id Q (h w))
      → Stage deps run_id Q (or_else r h w)
  unfolding or_else pure
  or_else-Stage Q (ok u) h w passed failed = passed refl
  or_else-Stage Q (raised e) h w passed failed = failed e refl

  pub within_budget-Stage :
      (cid : String) (run : Run) (used : BudgetUsage) (ceiling : BudgetRequest) (stage : String)
      (role : AgentRole) (state : LifecycleState) (w : World)
      → At deps run_id state run w
      → can_transition state LifecycleState.failed ≡ true
      → Stage deps run_id
          (λ u v. Reached deps run_id state w run v)
          (within_budget deps cid run used ceiling stage role w)
  unfolding within_budget
  within_budget-Stage cid run used ceiling stage role state w a edge =
      or_else-Stage (λ u v. Reached deps run_id state w run v) (check_budget used ceiling) _ w
        (λ enough. (a, refl))
        (λ e failed. return_failed-Stage deps run_id _ run cid _ state w a edge)

  -- A turn that is late fails the run; other exceptions go on.
  pub on_timeout-Stage :
      {A : Type 0} (Q : A → World → Type 0) (cid : String) (run : Run) (stage : String)
      (role : AgentRole) (budget : BudgetRequest) (state : LifecycleState) (e : Exception)
      (v : World)
      → At deps run_id state run v
      → can_transition state LifecycleState.failed ≡ true
      → ((is_expected e ≡ true) ⊎ (e ≡ pipeline_timeout))
      → Stage deps run_id Q (on_timeout deps cid run stage role budget e v)
  unfolding on_timeout throw
  on_timeout-Stage Q cid run stage role budget state pipeline_timeout v a edge why =
      return_failed-Stage deps run_id Q run cid _ state v a edge
  on_timeout-Stage Q cid run stage role budget state e v a edge (inl expected) =
      (expected, a.covered)
  on_timeout-Stage Q cid run stage role budget state e v a edge (inr same) = cc
