-- ===== src/Recovery.antt =====
-- The startup scan: src/agent_harness/application/recovery.py. The random identifiers and the texts
-- that describe a stale run are arguments, one of each for every run.
pub mod Reconcile
use Prim.Native.String.{◌++◌ as append}
use harness_system.Prelude.{
  ℕ, ◌+◌, String, Bool, List, [], ◌∷◌, ◌++◌, Option, none, some, ltb, if◌then◌else◌, member,
}
use harness_system.Exceptions.{Result, ok, raised}
use harness_system.Domain.Enums.{ActorType, FailureCategory, FailureCode, PendingActionKind}
use harness_system.Domain.Lifecycle.{
  LifecycleState, planning, contract_validating, preparing_workspace, executing, freezing_result,
  host_validating, verifying, rework_contracting, recovery_required, failed, state_eq, value,
}
use harness_system.Domain.Models.{Run, FailureRecord, PendingAction}
use harness_system.Domain.Digests.{Digests}
use harness_system.Transitions.{TransitionOutcome}
use harness_system.Store.{Store, Request, list_runs_by_states, apply_transition}

-- `RECOVERABLE_STATES`
abbrev pub recoverable_states : List LifecycleState
recoverable_states = preparing_workspace ∷ executing ∷ freezing_result ∷ host_validating ∷ []

-- `STALE_NO_RECOVERY_PATH_STATES`
abbrev pub stale_no_recovery_path_states : List LifecycleState
stale_no_recovery_path_states = planning ∷ contract_validating ∷ verifying ∷ rework_contracting ∷ []

abbrev pub candidate_states : List LifecycleState
candidate_states = recoverable_states ++ stale_no_recovery_path_states

-- The arguments of the scan, with what is random or text.
pub record Scan : Type 0 where
  pub now : ℕ
  pub stale_after : ℕ
  pub journal_entry_id_of : Run → String
  pub failure_id_of : Run → String
  pub description_of : Run → String

-- "RECOVERY_REQUIRED" or "FAILED"
pub data RecoveryAction : Type 0 where
  to_recovery_required to_failed : RecoveryAction

pub record RecoveryOutcome : Type 0 where
  pub run_id : String
  pub stale_state : LifecycleState
  pub action : RecoveryAction
  pub resulting_run : Run

pub record RecoveryReport : Type 0 where
  pub scanned_at : ℕ
  pub outcomes : List RecoveryOutcome

-- run.updated_at > now - stale_after
unfoldable pub is_recent : Scan → Run → Bool
is_recent scan run = ltb scan.now (run.updated_at + scan.stale_after)

-- `stale_state in RECOVERABLE_STATES`
abbrev pub is_recoverable : Run → Bool
is_recoverable run = member run.state recoverable_states

abbrev pub recovery_decision : Scan → Run → PendingAction
recovery_decision scan run = record {
  kind = PendingActionKind.recovery_decision;
  description = scan.description_of run;
  requested_at = scan.now;
}

abbrev pub timeout_failure : Scan → Run → FailureRecord
timeout_failure scan run = record {
  failure_id = scan.failure_id_of run;
  run_id = run.run_id;
  task_id = none;
  stage = value run.state;
  code = FailureCode.run_timeout;
  category = FailureCategory.infrastructure;
  retriable = Bool.true;
  sanitized_detail = scan.description_of run;
  artifact_refs = [];
  occurred_at = scan.now;
}

-- The arguments of the call of `apply_transition`, in the two branches.
unfoldable pub recovery_request : Scan → Run → Request
recovery_request scan run = record {
  run_id = run.run_id;
  target = if is_recoverable run then LifecycleState.recovery_required else LifecycleState.failed;
  now = scan.now;
  expected_state_version = run.state_version;
  actor_type = ActorType.harness;
  actor_id = "recovery-coordinator";
  correlation_id = append "recovery-scan-" run.run_id;
  event_type = none;
  failure = if is_recoverable run then none else some (timeout_failure scan run);
  pending_action = if is_recoverable run then some (recovery_decision scan run) else none;
  journal_entry_id = scan.journal_entry_id_of run;
}

abbrev pub outcome_of : Run → TransitionOutcome → RecoveryOutcome
outcome_of run outcome = record {
  run_id = run.run_id;
  stale_state = run.state;
  action =
      if is_recoverable run then RecoveryAction.to_recovery_required else RecoveryAction.to_failed;
  resulting_run = outcome.run;
}

-- `outcomes.append(...)` before the rest of the loop.
abbrev pub prepend :
    RecoveryOutcome → Result (List RecoveryOutcome) × Store → Result (List RecoveryOutcome) × Store
prepend outcome (ok outcomes, s) = (ok (outcome ∷ outcomes), s)
prepend outcome (raised e, s) = (raised e, s)

module _ (digests : Digests) (scan : Scan) where
  -- The loop over the rows that were listed. An exception ends it; what is committed stays.
  unfoldable pub recover_all : List Run → Store → Result (List RecoveryOutcome) × Store
  recover_all [] s = (ok [], s)
  recover_all (run ∷ runs) s = elim (is_recent scan run) [
    | Bool.true ↦ recover_all runs s
    | Bool.false ↦
        let (result, t) = apply_transition digests (recovery_request scan run) s in
        elim result [
          | ok outcome ↦ prepend (outcome_of run outcome) (recover_all runs t)
          | raised e ↦ (raised e, t)
        ]
  ]

  abbrev pub report_of : Result (List RecoveryOutcome) × Store → Result RecoveryReport × Store
  report_of (ok outcomes, s) = (ok (record { scanned_at = scan.now; outcomes = outcomes }), s)
  report_of (raised e, s) = (raised e, s)

  unfoldable pub run_recovery_scan : Store → Result RecoveryReport × Store
  unfolding recover_all
  run_recovery_scan s = report_of (recover_all (list_runs_by_states s candidate_states) s)
