-- ===== src/Store/Effect.antt =====
-- The effect of `apply_transition` (src/agent_harness/persistence/sqlite.py) on every table.
use harness_system.Prelude.{
  ◌≡◌, refl, ◌⊎◌, inl, inr, List, [], ◌∷◌, ◌++◌, append-nil, Option, none, some, arith, eqb_iff,
  Option-cases, Bool-cases, eqb, length, filter,
}
use harness_system.Exceptions.{
  Exception, integrity_error, Result, ok, raised, concurrent_modification, run_not_found,
}
use harness_system.Domain.Models.{Run, FailureRecord, JournalEntry}
use harness_system.Domain.Digests.{Digests}
use harness_system.Transitions.{TransitionOutcome, updated_run}
use harness_system.Transitions.Laws.{IsLegal, transition_run-cases}
use harness_system.Store.{
  Store, Request, get_run, journal_of, latest, new_entry, insert_journal_entry, insert_failure,
  insert_failure_record, is_row, update_rows, transition_body, apply_transition,
}

abbrev pub given : Option FailureRecord → List FailureRecord
given none = []
given (some failure) = failure ∷ []

pub insert_journal_entry-cases :
    (e : JournalEntry) (s : Store)
    → (insert_journal_entry e s ≡ raised integrity_error)
      ⊎ (insert_journal_entry e s ≡ ok (record s { journal_entries = s.journal_entries ++ e ∷ [] }))
unfolding insert_journal_entry
insert_journal_entry-cases e s = ground arith

pub insert_failure-cases :
    (f : Option FailureRecord) (s : Store)
    → (insert_failure f s ≡ raised integrity_error)
      ⊎ (insert_failure f s ≡ ok (record s { failure_records = s.failure_records ++ given f }))
unfolding insert_failure insert_failure_record
insert_failure-cases none s = inr (rw append-nil)
insert_failure-cases (some f) s = ground arith

-- The outcome of a request that is accepted at the row `current`.
abbrev pub accepted : Request → Run → TransitionOutcome
accepted q current = record {
  run = updated_run current q.target q.now;
  pending_action = q.pending_action;
  failure = q.failure;
}

module _ (digests : Digests) where
  -- The entry that the request appends to the journal of its run.
  abbrev pub appended : Request → Store → Run → JournalEntry
  appended q s current =
      new_entry digests q current (accepted q current) (latest (journal_of s q.run_id))

  -- The tables after the request: one row updated, one entry and the given failure appended.
  abbrev pub committed : Request → Store → Run → Store
  committed q s current = record s {
    runs =
        update_rows (is_row q.run_id q.expected_state_version) (updated_run current q.target q.now)
          s.runs;
    journal_entries = s.journal_entries ++ appended q s current ∷ [];
    failure_records = s.failure_records ++ given q.failure;
  }

  -- The tables before the given failure is inserted.
  abbrev pub updated : Request → Store → Run → Store
  updated q s current = record s {
    runs =
        update_rows (is_row q.run_id q.expected_state_version) (updated_run current q.target q.now)
          s.runs;
    journal_entries = s.journal_entries ++ appended q s current ∷ [];
  }

  -- What a request that is accepted has found.
  pub record Accepts (q : Request) (s : Store) (current : Run) : Type 0 where
    pub read : get_run s q.run_id ≡ some current
    pub fresh : current.state_version ≡ q.expected_state_version
    pub legal : IsLegal current q.target q.failure q.pending_action
    pub one_row : length (filter (is_row q.run_id q.expected_state_version) s.runs) ≡ 1

  abbrev Ended : Request → Store → Run → Result (TransitionOutcome × Store) → Type 0
  Ended q s current result =
      (Accepts q s current × (result ≡ ok (accepted q current, committed q s current)))
      ⊎ ((e : Exception) × (result ≡ raised e))

  transition_body-cases :
      (q : Request) (s : Store) (current : Run)
      → get_run s q.run_id ≡ some current
      → Ended q s current (transition_body digests q s (some current))
  unfolding transition_body
  transition_body-cases q s current read =
      elim (Bool-cases (eqb current.state_version q.expected_state_version)) [
        | inr stale ↦ rw stale (inr (concurrent_modification, refl))
        | inl fresh ↦
            rw fresh
              (elim (transition_run-cases current q.target q.now q.failure q.pending_action) [
                | inr (e, bad) ↦ rw bad (inr (e, refl))
                | inl (legal, done) ↦
                    rw done (elim (insert_journal_entry-cases (appended q s current) s) [
                      | inl bad ↦ rw bad (inr (integrity_error, refl))
                      | inr good ↦
                          rw good
                            (elim (Bool-cases (
                              eqb
                                (length (filter (is_row q.run_id q.expected_state_version) s.runs))
                                1)) [
                                  | inr many ↦ rw many (inr (concurrent_modification, refl))
                                  | inl one ↦
                                      rw one
                                        (elim (insert_failure-cases q.failure
                                          (updated q s current)) [
                                            | inl bad ↦ rw bad (inr (integrity_error, refl))
                                            | inr kept ↦ rw kept (
                                                inl (
                                                  record {
                                                    read = read;
                                                    fresh = (eqb_iff _ _).0 fresh;
                                                    legal = legal;
                                                    one_row = (eqb_iff _ _).0 one;
                                                  },
                                                  refl,
                                                ))
                                          ])
                                ])
                    ])
              ])
      ]

  -- A call either commits, with exactly the tables of `committed`, or raises and leaves every table
  -- as it was.
  pub apply_transition-cases :
      (q : Request) (s : Store)
      → ((current : Run) × Accepts q s current
          × (apply_transition digests q s ≡ (ok (accepted q current), committed q s current)))
        ⊎ ((e : Exception) × (apply_transition digests q s ≡ (raised e, s)))
  unfolding apply_transition
  apply_transition-cases q s = elim (Option-cases (get_run s q.run_id)) [
    | inl missing ↦ rw missing (inr (run_not_found, refl))
    | inr (current, read) ↦ elim (transition_body-cases q s current read) [
      | inl (accepts, done) ↦ inl (current, accepts, rw (read, done))
      | inr (e, bad) ↦ inr (e, rw (read, bad))
    ]
  ]
