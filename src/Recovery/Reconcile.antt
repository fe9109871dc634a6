-- ===== src/Recovery/Reconcile.antt =====
-- What the startup scan (src/agent_harness/application/recovery.py) does to the runs of the store.
use harness_system.Prelude.{
  String, ◌≡◌, refl, ◌⊎◌, ◌∙◌, inl, inr, Bool, true, false, not, ◌&&◌, List, [], ◌∷◌, arith, any,
  member, ◌==◌, string_eq, Bool-cases,
}
use harness_system.Exceptions.{Result, ok, raised, Result-cases}
use harness_system.Domain.Lifecycle.{state_eq}
use harness_system.Domain.Models.{Run}
use harness_system.Domain.Digests.{Digests}
use harness_system.Transitions.{can_transition, is_failed, requires_pending_action}
use harness_system.Transitions.Laws.{IsLegal}
use harness_system.Store.{Store, Request, get_run, list_runs_by_states, apply_transition}
use harness_system.Store.Effect.{apply_transition-cases}
use harness_system.Store.Journal.{IsConsistent, apply_transition-IsConsistent}
use harness_system.Store.Locking.{get_run-committed}
use harness_system.Recovery.{
  Scan, candidate_states, is_recent, recovery_request, recover_all, run_recovery_scan,
  RecoveryOutcome, prepend, outcome_of, report_of,
}

-- The transition that the scan requests for a run in a candidate state is legal.
pub recovery_request-IsLegal :
    (scan : Scan) (run : Run)
    → member run.state candidate_states ≡ true
    → let q = recovery_request scan run in IsLegal run q.target q.failure q.pending_action
unfolding recovery_request can_transition is_failed requires_pending_action
recovery_request-IsLegal scan run h = record {
  edge = ground arith;
  failure_fits = ground arith;
  pending_fits = ground arith;
}

module _ (digests : Digests) (scan : Scan) where
  another :
      (run : Run) (run_id : String)
      → (run.run_id == run_id) ≡ false
      → ((recovery_request scan run).run_id == run_id) ≡ false
  unfolding recovery_request
  another run run_id h = h

  apply_transition-other :
      (q : Request) (s : Store) (run_id : String)
      → (q.run_id == run_id) ≡ false
      → get_run (apply_transition digests q s).1 run_id ≡ get_run s run_id
  apply_transition-other q s run_id h = elim (apply_transition-cases digests q s) [
    | inr (e, bad) ↦ rw bad refl
    | inl (current, accepts, done) ↦
        rw done (rw (get_run-committed digests q s current run_id accepts) (rw h refl))
  ]

  -- The scan treats the run.
  abbrev pub is_stale : String → Run → Bool
  is_stale run_id run = run.run_id == run_id && not (is_recent scan run)

  prepend-store :
      (o : RecoveryOutcome) (r : Result (List RecoveryOutcome) × Store) → (prepend o r).1 ≡ r.1
  prepend-store o (ok outcomes, s) = refl
  prepend-store o (raised e, s) = refl

  -- The store after the first run of the list, and after the rest.
  recover_all-cases :
      (run : Run) (runs : List Run) (s : Store)
      → let t = (apply_transition digests (recovery_request scan run) s).1 in
        let after = (recover_all digests scan (run ∷ runs) s).1 in
        ((is_recent scan run ≡ true) × (after ≡ (recover_all digests scan runs s).1))
        ⊎ ((is_recent scan run ≡ false)
            × ((after ≡ (recover_all digests scan runs t).1) ⊎ (after ≡ t)))
  unfolding recover_all
  recover_all-cases run runs s =
      let q = recovery_request scan run in
      elim (Bool-cases (is_recent scan run)) [
        | inl recent ↦ inl (recent, rw (recent, recover_all) refl)
        | inr stale ↦ inr (
          stale,
          elim (Result-cases (apply_transition digests q s).0) [
            | inl (o, done) ↦ inl (
                rw (stale, done, recover_all)
                  (prepend-store (outcome_of run o)
                    (recover_all digests scan runs (apply_transition digests q s).1)))
            | inr (e, bad) ↦ inr (rw (stale, bad, recover_all) refl)
          ],
        )
      ]

  recover_all-other :
      (runs : List Run) (s : Store) (run_id : String)
      → any (is_stale run_id) runs ≡ false
      → get_run (recover_all digests scan runs s).1 run_id ≡ get_run s run_id
  unfolding recover_all
  recover_all-other [] s run_id h = refl
  recover_all-other (run ∷ runs) s run_id h =
      let q = recovery_request scan run in
      let t = (apply_transition digests q s).1 in
      elim (recover_all-cases run runs s) [
        | inl (recent, same) ↦ rw same (recover_all-other runs s run_id (ground arith))
        | inr (stale, after) ↦
            let kept = apply_transition-other q s run_id (another run run_id (ground arith)) in
            elim after [
              | inl same ↦ rw same (recover_all-other runs t run_id (ground arith) ∙ kept)
              | inr same ↦ rw same kept
            ]
      ]

  recover_all-IsConsistent :
      (runs : List Run) (s : Store) (run_id : String)
      → ((i : String) → IsConsistent digests s i)
      → IsConsistent digests (recover_all digests scan runs s).1 run_id
  unfolding recover_all
  recover_all-IsConsistent [] s run_id h = h run_id
  recover_all-IsConsistent (run ∷ runs) s run_id h =
      let q = recovery_request scan run in
      let t = (apply_transition digests q s).1 in
      let next = λ (i : String). apply_transition-IsConsistent digests q s i h in
      elim (recover_all-cases run runs s) [
        | inl (recent, same) ↦ rw same (recover_all-IsConsistent runs s run_id h)
        | inr (stale, inl same) ↦ rw same (recover_all-IsConsistent runs t run_id next)
        | inr (stale, inr same) ↦ rw same (next run_id)
      ]

  report_of-store : (r : Result (List RecoveryOutcome) × Store) → (report_of digests scan r).1 ≡ r.1
  report_of-store (ok outcomes, s) = refl
  report_of-store (raised e, s) = refl

  -- Whatever the scan returns or raises, the journal and the row of every run still agree.
  pub run_recovery_scan-IsConsistent :
      (s : Store) (run_id : String)
      → ((i : String) → IsConsistent digests s i)
      → IsConsistent digests (run_recovery_scan digests scan s).1 run_id
  unfolding run_recovery_scan
  run_recovery_scan-IsConsistent s run_id h =
      rw report_of-store
        (recover_all-IsConsistent (list_runs_by_states s candidate_states) s run_id h)

  -- The scan leaves the row of a run as it is when the run is not in a candidate state or has been
  -- updated recently.
  pub run_recovery_scan-other :
      (s : Store) (run_id : String)
      → any (is_stale run_id) (list_runs_by_states s candidate_states) ≡ false
      → get_run (run_recovery_scan digests scan s).1 run_id ≡ get_run s run_id
  unfolding run_recovery_scan
  run_recovery_scan-other s run_id h =
      rw report_of-store (recover_all-other (list_runs_by_states s candidate_states) s run_id h)
