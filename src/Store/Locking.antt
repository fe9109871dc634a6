-- ===== src/Store/Locking.antt =====
-- The row of a run under `apply_transition` (src/agent_harness/persistence/sqlite.py): what a
-- commit writes, which requests are stale after it, and that a terminal run never changes.
use harness_system.Prelude.{
  ℕ, String, ◌≡◌, refl, inl, inr, List, [], ◌∷◌, some, arith, Bool, true, false, Bool-cases, ◌==◌,
  ==_iff, ==_refl, ◌≢◌, string_eq, find, if◌then◌else◌,
}
use harness_system.Exceptions.{ok, raised, concurrent_modification}
use harness_system.Domain.Models.{Run}
use harness_system.Domain.Digests.{Digests}
use harness_system.Transitions.{TransitionOutcome, updated_run, is_terminal}
use harness_system.Transitions.Laws.{terminal-can_transition}
use harness_system.Store.{
  Store, Request, get_run, is_row, set_columns, update_rows, apply_transition,
}
use harness_system.Store.Effect.{Accepts, committed, apply_transition-cases}

abbrev has_id : String → Run → Bool
has_id run_id r = r.run_id == run_id

module _ (run_id : String) (v : ℕ) (new : Run) where
  find-update_rows_self :
      (rs : List Run) (current : Run)
      → find (has_id run_id) rs ≡ some current
      → current.state_version ≡ v
      → find (has_id run_id) (update_rows (is_row run_id v) new rs) ≡ some (set_columns new current)
  unfolding update_rows is_row
  find-update_rows_self [] current h e = cc
  find-update_rows_self (r ∷ rs) current h e = ground (arith, find-update_rows_self rs current)

  find-update_rows_other :
      (j : String) (rs : List Run)
      → (run_id == j) ≡ false
      → find (has_id j) (update_rows (is_row run_id v) new rs) ≡ find (has_id j) rs
  unfolding update_rows is_row
  find-update_rows_other j [] h = refl
  find-update_rows_other j (r ∷ rs) h =
      ground (arith, find-update_rows_other j rs, ==_iff r.run_id run_id)

module _ (digests : Digests) where
  -- A commit replaces the row of its run, and no other row.
  pub get_run-committed :
      (q : Request) (s : Store) (current : Run) (j : String)
      → Accepts digests q s current
      → get_run (committed digests q s current) j
        ≡ (if q.run_id == j then some (updated_run current q.target q.now) else get_run s j)
  unfolding get_run updated_run
  get_run-committed q s current j h =
      let new = updated_run current q.target q.now in
      elim (Bool-cases (q.run_id == j)) [
        | inl same ↦
            let e : q.run_id ≡ j = (==_iff q.run_id j).0 same in
            rw (same, ← e)
              (find-update_rows_self q.run_id q.expected_state_version new s.runs current h.read
                h.fresh)
        | inr other ↦
            rw other (find-update_rows_other q.run_id q.expected_state_version new j s.runs other)
      ]

  -- A request whose expected version is not the persisted one is refused, and changes nothing.
  pub apply_transition-stale :
      (q : Request) (s : Store) (current : Run)
      → get_run s q.run_id ≡ some current
      → current.state_version ≢ q.expected_state_version
      → apply_transition digests q s ≡ (raised concurrent_modification, s)
  unfolding apply_transition
  apply_transition-stale q s current read stale = rw read (ground (arith, stale))

  -- Of two requests made with the same expected version, the second is refused once the first has
  -- been committed.
  pub apply_transition-once :
      (first second : Request) (s t : Store) (outcome : TransitionOutcome)
      → apply_transition digests first s ≡ (ok outcome, t)
      → second.run_id ≡ first.run_id
      → second.expected_state_version ≡ first.expected_state_version
      → apply_transition digests second t ≡ (raised concurrent_modification, t)
  unfolding updated_run
  apply_transition-once first second s t outcome done same_run same_version =
      elim (apply_transition-cases digests first s) [
        | inr (e, bad) ↦ cc
        | inl (current, accepts, good) ↦
            let new = updated_run current first.target first.now in
            let tables : t ≡ committed digests first s current = cc in
            let read : get_run t second.run_id ≡ some new = rw (
              tables,
              same_run,
              get_run-committed first s current first.run_id accepts,
              ==_refl first.run_id,
            ) in
            apply_transition-stale second t new read (λ e. omega (arith, accepts.fresh))
      ]

  -- The store after a sequence of requests, by any callers, in the order in which they are served.
  pub serve : List Request → Store → Store
  serve [] s = s
  serve (q ∷ qs) s = serve qs (apply_transition digests q s).1

  terminal-apply_transition :
      (q : Request) (s : Store) (run_id : String) (r : Run)
      → get_run s run_id ≡ some r
      → is_terminal r.state ≡ true
      → get_run (apply_transition digests q s).1 run_id ≡ some r
  terminal-apply_transition q s run_id r read terminal = elim (apply_transition-cases digests q s) [
    | inr (e, bad) ↦ rw bad read
    | inl (current, accepts, good) ↦
        rw (good, get_run-committed q s current run_id accepts)
          (ground (arith, terminal-can_transition r.state q.target, ==_iff q.run_id run_id))
  ]

  -- Whatever is requested afterwards, the row of a run in a terminal state stays as it is.
  pub terminal-serve :
      (qs : List Request) (s : Store) (run_id : String) (r : Run)
      → get_run s run_id ≡ some r
      → is_terminal r.state ≡ true
      → get_run (serve qs s) run_id ≡ some r
  unfolding serve
  terminal-serve [] s run_id r read terminal = read
  terminal-serve (q ∷ qs) s run_id r read terminal =
      terminal-serve qs (apply_transition digests q s).1 run_id r
        (terminal-apply_transition q s run_id r read terminal) terminal
