-- ===== src/Store/Records.antt =====
-- The INSERTs into the audit tables (src/agent_harness/persistence/sqlite.py): each changes its own
-- table, or raises because the key is taken or the run is missing.
use harness_system.Prelude.{
  String, ◌≡◌, refl, ◌⊎◌, inl, inr, List, [], ◌∷◌, ◌++◌, any, Bool-cases, ◌==◌, string_eq,
}
use harness_system.Exceptions.{integrity_error, Result, ok, raised}
use harness_system.Domain.Models.{PolicyDecision, ReworkContract, TaskContract, VerificationResult}
use harness_system.Store.{
  Audit, Store, has_run, insert_audit, insert_policy_decision, insert_rework_contract,
  insert_task_contract, insert_verification_result,
}

-- The tables but for one audit table.
pub record SameRuns (s t : Store) : Type 0 where
  pub runs : t.runs ≡ s.runs
  pub journal_entries : t.journal_entries ≡ s.journal_entries
  pub failure_records : t.failure_records ≡ s.failure_records

-- The statement succeeds and leaves the runs and their journals alone, or raises for a key.
abbrev pub Inserts : Store → Result Store → Type 0
Inserts s r = ((t : Store) × (r ≡ ok t) × SameRuns s t) ⊎ (r ≡ raised integrity_error)

insert_audit-cases :
    {A : Type 0} (key : A → String) (id : String) (model : A) (s : Store) (rows : List (Audit A))
    → ((more : List (Audit A)) × (insert_audit key id model s rows ≡ ok more))
      ⊎ (insert_audit key id model s rows ≡ raised integrity_error)
insert_audit-cases key id model s rows =
    let taken = any (λ r. key r.model == key model) rows in
    elim (Bool-cases taken) [
      | inl there ↦ inr (rw there refl)
      | inr free ↦ elim (Bool-cases (has_run s id)) [
        | inl run ↦ inl (rows ++ record { run_id = id; model = model } ∷ [], rw (free, run) refl)
        | inr none ↦ inr (rw (free, none) refl)
      ]
    ]

pub insert_task_contract-Inserts :
    (m : TaskContract) (id : String) (s : Store) → Inserts s (insert_task_contract m id s)
unfolding insert_task_contract
insert_task_contract-Inserts m id s =
    elim (insert_audit-cases (λ (c : TaskContract). c.contract_id) id m s s.task_contracts) [
      | inl (rows, good) ↦ rw good (
          inl (
            record s { task_contracts = rows },
            refl,
            record { runs = refl; journal_entries = refl; failure_records = refl },
          ))
      | inr bad ↦ rw bad (inr refl)
    ]

pub insert_policy_decision-Inserts :
    (m : PolicyDecision) (id : String) (s : Store) → Inserts s (insert_policy_decision m id s)
unfolding insert_policy_decision
insert_policy_decision-Inserts m id s =
    elim (insert_audit-cases (λ (c : PolicyDecision). c.decision_id) id m s s.policy_decisions) [
      | inl (rows, good) ↦ rw good (
          inl (
            record s { policy_decisions = rows },
            refl,
            record { runs = refl; journal_entries = refl; failure_records = refl },
          ))
      | inr bad ↦ rw bad (inr refl)
    ]

pub insert_verification_result-Inserts :
    (m : VerificationResult) (id : String) (s : Store)
    → Inserts s (insert_verification_result m id s)
unfolding insert_verification_result
insert_verification_result-Inserts m id s =
    elim (insert_audit-cases (λ (c : VerificationResult). c.verification_id) id m s
      s.verification_results) [
        | inl (rows, good) ↦ rw good (
            inl (
              record s { verification_results = rows },
              refl,
              record { runs = refl; journal_entries = refl; failure_records = refl },
            ))
        | inr bad ↦ rw bad (inr refl)
      ]

pub insert_rework_contract-Inserts :
    (m : ReworkContract) (id : String) (s : Store) → Inserts s (insert_rework_contract m id s)
unfolding insert_rework_contract
insert_rework_contract-Inserts m id s =
    elim (insert_audit-cases (λ (c : ReworkContract). c.rework_id) id m s s.rework_contracts) [
      | inl (rows, good) ↦ rw good (
          inl (
            record s { rework_contracts = rows },
            refl,
            record { runs = refl; journal_entries = refl; failure_records = refl },
          ))
      | inr bad ↦ rw bad (inr refl)
    ]
