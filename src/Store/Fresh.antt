-- ===== src/Store/Fresh.antt =====
-- A legal request with the version of the row (`apply_transition` of
-- src/agent_harness/persistence/sqlite.py): it is served, unless an identifier is used twice.
use harness_system.Prelude.{
  ℕ, String, ◌≡◌, refl, ◌⊎◌, inl, inr, Bool, List, [], ◌∷◌, some, arith, ◌==◌, ==_refl, string_eq,
  eqb_iff, find, filter, length,
}
use harness_system.Exceptions.{ok, raised, integrity_error}
use harness_system.Domain.Models.{Run}
use harness_system.Domain.Digests.{Digests}
use harness_system.Transitions.{updated_run}
use harness_system.Transitions.Laws.{IsLegal, transition_run_of_IsLegal}
use harness_system.Store.{
  Store, Request, get_run, is_row, update_rows, transition_body, apply_transition,
}
use harness_system.Store.Effect.{
  Accepts, accepted, appended, committed, insert_failure-cases, insert_journal_entry-cases, updated,
}
use harness_system.Store.Locking.{get_run-committed}

abbrev pub has_id : String → Run → Bool
has_id run_id r = r.run_id == run_id

-- The table has one row of the run, as its primary key demands.
abbrev pub HasOneRow : Store → String → Type 0
HasOneRow s run_id = length (filter (has_id run_id) s.runs) ≡ 1

no_row-is_row :
    (run_id : String) (v : ℕ) (rs : List Run)
    → length (filter (has_id run_id) rs) ≡ 0
    → length (filter (is_row run_id v) rs) ≡ 0
unfolding is_row
no_row-is_row run_id v [] h = refl
no_row-is_row run_id v (r ∷ rs) h = ground (arith, no_row-is_row run_id v rs)

one_row-is_row :
    (run_id : String) (rs : List Run) (current : Run)
    → find (has_id run_id) rs ≡ some current
    → length (filter (has_id run_id) rs) ≡ 1
    → length (filter (is_row run_id current.state_version) rs) ≡ 1
unfolding is_row
one_row-is_row run_id [] current f h = cc
one_row-is_row run_id (r ∷ rs) current f h = ground (
  arith,
  one_row-is_row run_id rs current,
  no_row-is_row run_id current.state_version rs,
  eqb_iff current.state_version current.state_version,
)

length-update_rows :
    (run_id j : String) (v : ℕ) (new : Run) (rs : List Run)
    → length (filter (has_id j) (update_rows (is_row run_id v) new rs))
      ≡ length (filter (has_id j) rs)
unfolding update_rows
length-update_rows run_id j v new [] = refl
length-update_rows run_id j v new (r ∷ rs) = ground (arith, length-update_rows run_id j v new rs)

module _ (digests : Digests) (q : Request) (s : Store) (current : Run)
    (read : get_run s q.run_id ≡ some current)
    (fresh : current.state_version ≡ q.expected_state_version) where
  one_row :
      HasOneRow s q.run_id → length (filter (is_row q.run_id q.expected_state_version) s.runs) ≡ 1
  unfolding get_run
  one_row only = rw (← fresh) (one_row-is_row q.run_id s.runs current read only)

  -- The request commits, or one of its two identifiers is taken.
  pub apply_transition-fresh :
      IsLegal current q.target q.failure q.pending_action
      → HasOneRow s q.run_id
      → (apply_transition digests q s ≡ (ok (accepted q current), committed digests q s current))
        ⊎ (apply_transition digests q s ≡ (raised integrity_error, s))
  unfolding apply_transition transition_body
  apply_transition-fresh legal only =
      rw
        (
          read,
          (eqb_iff _ _).1 fresh,
          transition_run_of_IsLegal current q.target q.now q.failure q.pending_action legal,
        )
        (elim (insert_journal_entry-cases (appended digests q s current) s) [
          | inl bad ↦ rw bad (inr refl)
          | inr good ↦
              rw (good, (eqb_iff _ _).1 (one_row only))
                (elim (insert_failure-cases q.failure (updated digests q s current)) [
                  | inl bad ↦ rw bad (inr refl)
                  | inr kept ↦ rw kept (inl refl)
                ])
        ])

  -- The row after the commit, which is still the only one of its run.
  pub committed-row :
      IsLegal current q.target q.failure q.pending_action
      → HasOneRow s q.run_id
      → (get_run (committed digests q s current) q.run_id
          ≡ some (updated_run current q.target q.now))
        × HasOneRow (committed digests q s current) q.run_id
  committed-row legal only =
      let a : Accepts digests q s current = record {
        read = read;
        fresh = fresh;
        legal = legal;
        one_row = one_row only;
      } in
      (
        rw (get_run-committed digests q s current q.run_id a, ==_refl q.run_id),
        rw length-update_rows only,
      )
