-- ===== src/Tests/Runs.antt =====
-- Runs in a store: the transitions, the journal and the startup scan.
use harness_system.Prelude.{String, ◌≡◌, refl, ◌⊎◌, true, false, [], ◌∷◌, none, some, any, member}
use harness_system.Exceptions.{Exception, ok, raised, concurrent_modification}
use harness_system.Domain.Lifecycle.{
  planning, executing, preparing_workspace, awaiting_final_approval, ready_for_merge, state_eq,
}
use harness_system.Domain.Models.{Run}
use harness_system.Transitions.{
  can_transition, is_terminal, transition_run, updated_run, is_failed, requires_pending_action,
}
use harness_system.Transitions.Laws.{IsLegal, transition_run_of_IsLegal, transition_run-IsLegal}
use harness_system.Transitions.Graph.{
  Walk, Reaches, last, move, ready_for_merge-reachable, Walk-awaiting_final_approval,
  Walk-preparing_workspace,
}
use harness_system.Store.{
  Store, Request, empty, get_run, list_runs_by_states, insert_run, apply_transition, has_run,
}
use harness_system.Store.Effect.{Accepts, accepted, committed, apply_transition-cases}
use harness_system.Store.Journal.{
  IsConsistent, empty-IsConsistent, insert_run-IsConsistent, apply_transition-IsConsistent,
}
use harness_system.Store.Locking.{apply_transition-once, serve, terminal-serve}
use harness_system.Recovery.{Scan, candidate_states, run_recovery_scan, recovery_request}
use harness_system.Recovery.Reconcile.{
  is_stale, recovery_request-IsLegal, run_recovery_scan-IsConsistent, run_recovery_scan-other,
}
use harness_system.Tests.Data.{digests, run_1, cancelled_run, one_run, start_planning}

one_run-inserted : insert_run run_1 empty ≡ ok one_run
unfolding insert_run has_run
one_run-inserted = refl

one_run-IsConsistent : (i : String) → IsConsistent digests one_run i
one_run-IsConsistent i =
    insert_run-IsConsistent digests run_1 empty one_run i one_run-inserted refl refl
      (empty-IsConsistent digests)

insert_run-IsConsistent_example : IsConsistent digests one_run "run-1"
insert_run-IsConsistent_example =
    insert_run-IsConsistent digests run_1 empty one_run "run-1" one_run-inserted refl refl
      (empty-IsConsistent digests)

apply_transition-IsConsistent_example :
    IsConsistent digests (apply_transition digests start_planning one_run).1 "run-1"
apply_transition-IsConsistent_example =
    apply_transition-IsConsistent digests start_planning one_run "run-1" one_run-IsConsistent

apply_transition-cases_example :
    ((current : Run) × Accepts digests start_planning one_run current
      × (apply_transition digests start_planning one_run ≡ (
        ok (accepted start_planning current),
        committed digests start_planning one_run current,
      )))
    ⊎ ((e : Exception) × (apply_transition digests start_planning one_run ≡ (raised e, one_run)))
apply_transition-cases_example = apply_transition-cases digests start_planning one_run

planned :
    apply_transition digests start_planning one_run
    ≡ (ok (accepted start_planning run_1), committed digests start_planning one_run run_1)
unfolding apply_transition get_run transition_run is_terminal can_transition is_failed
    requires_pending_action harness_system.Store.insert_journal_entry harness_system.Store.new_entry
    harness_system.Store.is_row harness_system.Store.insert_failure
planned = refl

apply_transition-once_example :
    apply_transition digests start_planning (committed digests start_planning one_run run_1)
    ≡ (raised concurrent_modification, committed digests start_planning one_run run_1)
apply_transition-once_example =
    apply_transition-once digests start_planning start_planning one_run
      (committed digests start_planning one_run run_1) (accepted start_planning run_1) planned refl
      refl

one_cancelled : Store
one_cancelled = record empty { runs = cancelled_run ∷ [] }

cancelled_row : get_run one_cancelled "run-1" ≡ some cancelled_run
unfolding one_cancelled get_run
cancelled_row = refl

cancelled_ends : is_terminal cancelled_run.state ≡ true
unfolding is_terminal
cancelled_ends = refl

terminal-serve_example :
    get_run (serve digests (start_planning ∷ start_planning ∷ []) one_cancelled) "run-1"
    ≡ some cancelled_run
terminal-serve_example =
    terminal-serve digests (start_planning ∷ start_planning ∷ []) one_cancelled "run-1"
      cancelled_run cancelled_row cancelled_ends

executing_goes_on : is_terminal executing ≡ false
unfolding is_terminal
executing_goes_on = refl

ready_for_merge-reachable_example : Reaches executing ready_for_merge
ready_for_merge-reachable_example = ready_for_merge-reachable executing executing_goes_on

approval-Walk :
    Walk awaiting_final_approval ready_for_merge (awaiting_final_approval ∷ ready_for_merge ∷ [])
unfolding can_transition
approval-Walk = move refl last

Walk-awaiting_final_approval_example :
    member awaiting_final_approval (awaiting_final_approval ∷ ready_for_merge ∷ []) ≡ true
Walk-awaiting_final_approval_example = Walk-awaiting_final_approval approval-Walk (λ e. cc)

executing-Walk : Walk preparing_workspace executing (preparing_workspace ∷ executing ∷ [])
unfolding can_transition
executing-Walk = move refl last

Walk-preparing_workspace_example :
    member preparing_workspace (preparing_workspace ∷ executing ∷ []) ≡ true
Walk-preparing_workspace_example = Walk-preparing_workspace executing-Walk (λ e. cc)

planning-IsLegal : IsLegal run_1 planning none none
unfolding can_transition is_failed requires_pending_action
planning-IsLegal = record { edge = refl; failure_fits = refl; pending_fits = refl }

transition_run-IsLegal_example :
    IsLegal run_1 planning none none
    × ((accepted start_planning run_1).run ≡ updated_run run_1 planning 20)
transition_run-IsLegal_example =
    transition_run-IsLegal run_1 planning 20 none none (accepted start_planning run_1)
      (transition_run_of_IsLegal run_1 planning 20 none none planning-IsLegal)

abbrev scan : Scan
scan = record {
  now = 5000;
  stale_after = 1000;
  journal_entry_id_of = λ r. r.run_id;
  failure_id_of = λ r. r.run_id;
  description_of = λ r. "stale";
}

run_recovery_scan-IsConsistent_example :
    IsConsistent digests (run_recovery_scan digests scan one_run).1 "run-1"
run_recovery_scan-IsConsistent_example =
    run_recovery_scan-IsConsistent digests scan one_run "run-1" one_run-IsConsistent

nothing_stale :
    any (is_stale digests scan "run-1") (list_runs_by_states one_run candidate_states) ≡ false
unfolding list_runs_by_states
nothing_stale = refl

run_recovery_scan-other_example :
    get_run (run_recovery_scan digests scan one_run).1 "run-1" ≡ get_run one_run "run-1"
run_recovery_scan-other_example = run_recovery_scan-other digests scan one_run "run-1" nothing_stale

abbrev executing_run : Run
executing_run = record run_1 { state = executing }

recovery_request-IsLegal_example :
    let q = recovery_request scan executing_run in
    IsLegal executing_run q.target q.failure q.pending_action
recovery_request-IsLegal_example = recovery_request-IsLegal scan executing_run refl
