-- ===== src/Pipeline/Ledgers.antt =====
-- The rows and the journals of the runs across `run_task_pipeline`
-- (src/agent_harness/application/orchestrator.py), for any run and however the pipeline ends.
use harness_system.Prelude.{String, ◌≡◌, inl, inr}
use harness_system.Exceptions.{Result, ok}
use harness_system.Domain.Models.{Run, Task}
use harness_system.Domain.Digests.{Digests}
use harness_system.Store.{Store, get_run, journal_of}
use harness_system.Store.Journal.{IsConsistent, apply_transition-IsConsistent}
use harness_system.Store.Records.{
  Inserts, SameRuns, insert_policy_decision-Inserts, insert_rework_contract-Inserts,
  insert_task_contract-Inserts, insert_verification_result-Inserts,
}
use harness_system.Pipeline.Exec.{World}
use harness_system.Pipeline.Exec.Moves.{IsStable}
use harness_system.Pipeline.Deps.{PipelineDeps}
use harness_system.Pipeline.Run.{run_task_pipeline}
use harness_system.Pipeline.Moves.Rounds.{run_task_pipeline-Moves}

same_runs : (s t : Store) (r : Result Store) → Inserts s r → r ≡ ok t → SameRuns s t
same_runs s t r (inl (u, good, same)) made = let e : u ≡ t = cc (good, made) in rw (← e) same
same_runs s t r (inr bad) made = cc (bad, made)

module _ (digests : Digests) where
  -- The rows and the journals of all runs agree.
  abbrev pub IsSound : Store → Type 0
  IsSound s = (i : String) → IsConsistent digests s i

  SameRuns-IsConsistent :
      (s t : Store) (i : String)
      → SameRuns s t
      → IsConsistent digests s i
      → IsConsistent digests t i
  unfolding journal_of get_run
  SameRuns-IsConsistent s t i same c = record {
    hash = c.hash;
    state = c.state;
    journal = rw (same.journal_entries) c.journal;
    row = rw (same.runs, same.journal_entries) c.row;
    no_row = rw (same.runs, same.journal_entries) c.no_row;
  }

  inserted-IsSound :
      (s t : Store) (r : Result Store) → Inserts s r → r ≡ ok t → IsSound s → IsSound t
  inserted-IsSound s t r inserts made all i =
      SameRuns-IsConsistent s t i (same_runs s t r inserts made) (all i)

  IsSound-IsStable : IsStable digests (λ v w. IsSound v.store → IsSound w.store)
  IsSound-IsStable = record {
    same = λ w all. all;
    chain = λ u v w f g all. g (f all);
    ticked = λ w n all. all;
    prompted = λ w ref text all. all;
    invoked = λ w q all. all;
    policy = λ w d b all. all;
    final = λ w v b all. all;
    session = λ v w role f. f;
    transition = λ w q all i. apply_transition-IsConsistent digests q w.store i all;
    contract = λ w c id t made.
        inserted-IsSound w.store t _ (insert_task_contract-Inserts c id w.store) made;
    decision = λ w d id t made.
        inserted-IsSound w.store t _ (insert_policy_decision-Inserts d id w.store) made;
    result = λ w v id t made.
        inserted-IsSound w.store t _ (insert_verification_result-Inserts v id w.store) made;
    rework = λ w r id t made.
        inserted-IsSound w.store t _ (insert_rework_contract-Inserts r id w.store) made;
  }

module _ (deps : PipelineDeps) (run : Run) (task : Task) (user_request_text : String)
    (w : World) where
  -- Where the rows and the journals of all runs agree, they agree after the pipeline, however it
  -- ends: each journal is an unbroken hash chain that walks the transition table to the state of the
  -- row, and the version of the row counts its entries.
  pub run_task_pipeline-IsSound :
      IsSound deps.digests w.store
      → IsSound deps.digests (run_task_pipeline deps run task user_request_text w).1.store
  run_task_pipeline-IsSound =
      (run_task_pipeline-Moves deps _ (IsSound-IsStable deps.digests) run task user_request_text).at
        w
