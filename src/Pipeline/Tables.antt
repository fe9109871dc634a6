-- ===== src/Pipeline/Tables.antt =====
-- The tables that `run_task_pipeline` (src/agent_harness/application/orchestrator.py) writes to, for
-- any run and however the pipeline ends.
use harness_system.Prelude.{
  String, ◌≡◌, refl, inl, inr, List, [], ◌∷◌, ◌++◌, append_assoc, append-nil, sym, arith,
}
use harness_system.Exceptions.{ok}
use harness_system.Domain.Models.{
  PolicyDecision, ReworkContract, Run, Task, TaskContract, VerificationResult,
}
use harness_system.Domain.Digests.{Digests}
use harness_system.Store.{
  Request, Store, apply_transition, insert_policy_decision, insert_rework_contract,
  insert_task_contract, insert_verification_result,
}
use harness_system.Store.Effect.{apply_transition-cases}
use harness_system.Pipeline.Exec.{World}
use harness_system.Pipeline.Exec.Moves.{IsStable}
use harness_system.Pipeline.Deps.{PipelineDeps}
use harness_system.Pipeline.Run.{run_task_pipeline}
use harness_system.Pipeline.Moves.Rounds.{run_task_pipeline-Moves}

-- The tables that are written once: nothing is taken out of them or changed in them.
abbrev pub StartsWith : {A : Type 0} → List A → List A → Type 0
StartsWith {A} old new = (more : List A) × (new ≡ old ++ more)

StartsWith-chain :
    {A : Type 0} (xs ys zs : List A) → StartsWith xs ys → StartsWith ys zs → StartsWith xs zs
StartsWith-chain xs ys zs (m, p) (n, q) = (m ++ n, rw (q, p, append_assoc))

StartsWith-refl : {A : Type 0} (xs : List A) → StartsWith xs xs
StartsWith-refl xs = ([], sym (append-nil xs))

pub record Grows (s t : Store) : Type 0 where
  pub journal_entries : StartsWith s.journal_entries t.journal_entries
  pub failure_records : StartsWith s.failure_records t.failure_records
  pub task_contracts : StartsWith s.task_contracts t.task_contracts
  pub policy_decisions : StartsWith s.policy_decisions t.policy_decisions
  pub verification_results : StartsWith s.verification_results t.verification_results
  pub rework_contracts : StartsWith s.rework_contracts t.rework_contracts

Grows-refl : (s : Store) → Grows s s
Grows-refl s = record {
  journal_entries = StartsWith-refl s.journal_entries;
  failure_records = StartsWith-refl s.failure_records;
  task_contracts = StartsWith-refl s.task_contracts;
  policy_decisions = StartsWith-refl s.policy_decisions;
  verification_results = StartsWith-refl s.verification_results;
  rework_contracts = StartsWith-refl s.rework_contracts;
}

Grows-chain : (s t u : Store) → Grows s t → Grows t u → Grows s u
Grows-chain s t u a b = record {
  journal_entries = StartsWith-chain _ _ _ a.journal_entries b.journal_entries;
  failure_records = StartsWith-chain _ _ _ a.failure_records b.failure_records;
  task_contracts = StartsWith-chain _ _ _ a.task_contracts b.task_contracts;
  policy_decisions = StartsWith-chain _ _ _ a.policy_decisions b.policy_decisions;
  verification_results = StartsWith-chain _ _ _ a.verification_results b.verification_results;
  rework_contracts = StartsWith-chain _ _ _ a.rework_contracts b.rework_contracts;
}

module _ (s t : Store) (id : String) where
  insert_task_contract-Grows : (m : TaskContract) → insert_task_contract m id s ≡ ok t → Grows s t
  unfolding insert_task_contract
  insert_task_contract-Grows m made =
      let rows : t ≡ record s {
        task_contracts = s.task_contracts ++ record { run_id = id; model = m } ∷ [];
      } =
        ground arith in
      rw rows (record {
        journal_entries = StartsWith-refl _;
        failure_records = StartsWith-refl _;
        task_contracts = (_, refl);
        policy_decisions = StartsWith-refl _;
        verification_results = StartsWith-refl _;
        rework_contracts = StartsWith-refl _;
      })

  insert_policy_decision-Grows :
      (m : PolicyDecision) → insert_policy_decision m id s ≡ ok t → Grows s t
  unfolding insert_policy_decision
  insert_policy_decision-Grows m made =
      let rows : t ≡ record s {
        policy_decisions = s.policy_decisions ++ record { run_id = id; model = m } ∷ [];
      } =
        ground arith in
      rw rows (record {
        journal_entries = StartsWith-refl _;
        failure_records = StartsWith-refl _;
        task_contracts = StartsWith-refl _;
        policy_decisions = (_, refl);
        verification_results = StartsWith-refl _;
        rework_contracts = StartsWith-refl _;
      })

  insert_verification_result-Grows :
      (m : VerificationResult) → insert_verification_result m id s ≡ ok t → Grows s t
  unfolding insert_verification_result
  insert_verification_result-Grows m made =
      let rows : t ≡ record s {
        verification_results = s.verification_results ++ record { run_id = id; model = m } ∷ [];
      } =
        ground arith in
      rw rows (record {
        journal_entries = StartsWith-refl _;
        failure_records = StartsWith-refl _;
        task_contracts = StartsWith-refl _;
        policy_decisions = StartsWith-refl _;
        verification_results = (_, refl);
        rework_contracts = StartsWith-refl _;
      })

  insert_rework_contract-Grows :
      (m : ReworkContract) → insert_rework_contract m id s ≡ ok t → Grows s t
  unfolding insert_rework_contract
  insert_rework_contract-Grows m made =
      let rows : t ≡ record s {
        rework_contracts = s.rework_contracts ++ record { run_id = id; model = m } ∷ [];
      } =
        ground arith in
      rw rows (record {
        journal_entries = StartsWith-refl _;
        failure_records = StartsWith-refl _;
        task_contracts = StartsWith-refl _;
        policy_decisions = StartsWith-refl _;
        verification_results = StartsWith-refl _;
        rework_contracts = (_, refl);
      })

apply_transition-Grows :
    (digests : Digests) (q : Request) (s : Store) → Grows s (apply_transition digests q s).1
apply_transition-Grows digests q s = elim (apply_transition-cases digests q s) [
  | inr (e, bad) ↦ rw bad (Grows-refl s)
  | inl (current, a, good) ↦ rw good (record {
    journal_entries = (_, refl);
    failure_records = (_, refl);
    task_contracts = StartsWith-refl _;
    policy_decisions = StartsWith-refl _;
    verification_results = StartsWith-refl _;
    rework_contracts = StartsWith-refl _;
  })
]

Grows-IsStable : (digests : Digests) → IsStable digests (λ v w. Grows v.store w.store)
Grows-IsStable digests = record {
  same = λ w. Grows-refl w.store;
  chain = λ u v w. Grows-chain u.store v.store w.store;
  ticked = λ w n. Grows-refl w.store;
  prompted = λ w ref text. Grows-refl w.store;
  invoked = λ w q. Grows-refl w.store;
  policy = λ w d b. Grows-refl w.store;
  final = λ w v b. Grows-refl w.store;
  session = λ v w role f. f;
  transition = λ w q. apply_transition-Grows digests q w.store;
  contract = λ w c id t made. insert_task_contract-Grows w.store t id c made;
  decision = λ w d id t made. insert_policy_decision-Grows w.store t id d made;
  result = λ w v id t made. insert_verification_result-Grows w.store t id v made;
  rework = λ w r id t made. insert_rework_contract-Grows w.store t id r made;
}

module _ (deps : PipelineDeps) (run : Run) (task : Task) (user_request_text : String)
    (w : World) where
  -- However the pipeline ends, it has only appended to the journal, the failure records, the task
  -- contracts, the policy decisions, the verification results and the rework contracts: every record
  -- that was there before is still there, unchanged and in its place.
  pub run_task_pipeline-Grows :
      Grows w.store (run_task_pipeline deps run task user_request_text w).1.store
  run_task_pipeline-Grows =
      (run_task_pipeline-Moves deps _ (Grows-IsStable deps.digests) run task user_request_text).at w
