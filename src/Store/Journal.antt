-- ===== src/Store/Journal.antt =====
-- The journal of a run (src/agent_harness/persistence/sqlite.py, `apply_transition`): a hash chain
-- numbered without gaps, whose states walk the transition table to the state of the row.
use harness_system.Prelude.{
  ◌≤◌, String, ◌≡◌, refl, sym, ap, subst, ◌∙◌, inl, inr, List, [], ◌∷◌, ◌++◌, Option, none, some,
  arith, true, false, Bool-cases, ◌==◌, ==_iff, ==_refl, string_eq, if◌then◌else◌, filter-append,
  append-nil, length, length-append, find-none_of_any, find-snoc_hit, find-snoc_miss,
}
use harness_system.Exceptions.{ok}
use harness_system.Domain.Lifecycle.{LifecycleState, created}
use harness_system.Domain.Models.{JournalEntry, Run}
use harness_system.Domain.Digests.{Digests, journal_entry_digest}
use harness_system.Transitions.{updated_run, can_transition}
use harness_system.Store.{
  Store, empty, Request, get_run, journal_of, latest, hash_of, next_sequence, insert_run, has_run,
  new_entry, apply_transition,
}
use harness_system.Store.Effect.{Accepts, appended, committed, apply_transition-cases}
use harness_system.Store.Locking.{get_run-committed}

module _ (digests : Digests) where
  -- A journal with the hash of its newest entry and the state that it leads to: entries are numbered
  -- from 0, each names the hash of the one before and carries its own digest, and each records a move
  -- of the transition table from the state that the one before led to.
  pub data IsJournal : List JournalEntry → Option String → LifecycleState → Type 0 where
    start : IsJournal [] none created
    extend :
        {es : List JournalEntry} {hash : Option String} {state : LifecycleState}
        → IsJournal es hash state
        → (e : JournalEntry) (next : LifecycleState) → e.sequence ≡ length es
        → e.previous_entry_hash ≡ hash
        → e.entry_hash ≡ journal_entry_digest digests e
        → e.state_before ≡ some state
        → e.state_after ≡ some next
        → can_transition state next ≡ true
        → IsJournal (es ++ e ∷ []) (some e.entry_hash) next

latest-snoc :
    (es : List JournalEntry) (e : JournalEntry)
    → next_sequence (latest es) ≤ e.sequence
    → latest (es ++ e ∷ []) ≡ some e
unfolding latest
latest-snoc [] e h = refl
latest-snoc (x ∷ es) e h = ground (arith, latest-snoc es e)

module _ (digests : Digests) where
  IsJournal-latest :
      {es : List JournalEntry} {hash : Option String} {state : LifecycleState}
      → IsJournal digests es hash state
      → (hash_of (latest es) ≡ hash) × (next_sequence (latest es) ≡ length es)
  unfolding latest
  IsJournal-latest start = (refl, refl)
  IsJournal-latest (extend {es = es} j e next seq prev own before after edge) =
      let newest : latest (es ++ e ∷ []) ≡ some e =
        latest-snoc es e (omega (arith, (IsJournal-latest j).1)) in
      (rw newest, rw newest (omega (arith, length-append es (e ∷ []))))

  -- The tables agree about one run: its journal is well formed and leads to the state of its row, whose
  -- version counts the entries; a run with no row has no entry.
  pub record IsConsistent (s : Store) (run_id : String) : Type 0 where
    pub hash : Option String
    pub state : LifecycleState
    pub journal : IsJournal digests (journal_of s run_id) hash state
    pub row :
        (r : Run)
        → get_run s run_id ≡ some r
        → (r.state ≡ state) × (r.state_version ≡ length (journal_of s run_id))
    pub no_row : get_run s run_id ≡ none → journal_of s run_id ≡ []

  journal_of-committed :
      (q : Request) (s : Store) (current : Run) (j : String)
      → journal_of (committed digests q s current) j ≡ (
          if q.run_id == j
          then journal_of s j ++ appended digests q s current ∷ []
          else journal_of s j)
  unfolding journal_of new_entry
  journal_of-committed q s current j =
      filter-append (λ (e : JournalEntry). e.run_id == j) s.journal_entries _
      ∙ ground (arith, append-nil (journal_of s j))

  -- The entry that a commit appends extends a well-formed journal.
  appended-IsJournal :
      (q : Request) (s : Store) (current : Run)
      → Accepts digests q s current
      → IsConsistent s q.run_id
      → IsJournal digests
          (journal_of s q.run_id ++ appended digests q s current ∷ [])
          (some (appended digests q s current).entry_hash)
          q.target
  unfolding new_entry
  appended-IsJournal q s current a c =
      let (hash_fits, seq_fits) = IsJournal-latest c.journal in
      extend c.journal (appended digests q s current) q.target seq_fits hash_fits refl
        (ap some (c.row current a.read).0) refl (rw (← (c.row current a.read).0) a.legal.edge)

  module _ (q : Request) (s : Store) (current : Run) (a : Accepts digests q s current) where
    committed-IsConsistent_self :
        IsConsistent s q.run_id → IsConsistent (committed digests q s current) q.run_id
    unfolding updated_run
    committed-IsConsistent_self c =
        let self = ==_refl q.run_id in
        let entry = appended digests q s current in
        let entries : journal_of (committed digests q s current) q.run_id
            ≡ journal_of s q.run_id ++ entry ∷ [] =
          rw (journal_of-committed q s current q.run_id, self) in
        let row : get_run (committed digests q s current) q.run_id
            ≡ some (updated_run current q.target q.now) =
          rw (get_run-committed digests q s current q.run_id a, self) in
        let (old_state, old_version) = c.row current a.read in
        record {
          hash = some entry.entry_hash;
          state = q.target;
          journal = rw entries (appended-IsJournal q s current a c);
          row = λ r read. (
            ground (arith, row, read),
            rw entries (
                ground (
                  arith,
                  row,
                  read,
                  old_version,
                  length-append (journal_of s q.run_id) (entry ∷ []),
                )),
          );
          no_row = λ missing. ground (arith, row, missing);
        }

    committed-IsConsistent_other :
        (j : String)
        → (q.run_id == j) ≡ false
        → IsConsistent s j
        → IsConsistent (committed digests q s current) j
    committed-IsConsistent_other j other c =
        let entries : journal_of (committed digests q s current) j ≡ journal_of s j =
          rw (journal_of-committed q s current j, other) in
        let row : get_run (committed digests q s current) j ≡ get_run s j =
          rw (get_run-committed digests q s current j a, other) in
        record {
          hash = c.hash;
          state = c.state;
          journal = rw entries c.journal;
          row = λ r read. rw entries (c.row r (sym row ∙ read));
          no_row = λ missing. entries ∙ c.no_row (sym row ∙ missing);
        }

  -- A call keeps the tables consistent, for every run and whether it commits or raises.
  pub apply_transition-IsConsistent :
      (q : Request) (s : Store) (run_id : String)
      → ((i : String) → IsConsistent s i)
      → IsConsistent (apply_transition digests q s).1 run_id
  apply_transition-IsConsistent q s run_id all = elim (apply_transition-cases digests q s) [
    | inr (e, bad) ↦ rw bad (all run_id)
    | inl (current, a, good) ↦ rw good (elim (Bool-cases (q.run_id == run_id)) [
      | inl same ↦
          subst (IsConsistent (committed digests q s current)) ((==_iff q.run_id run_id).0 same)
            (committed-IsConsistent_self q s current a (all q.run_id))
      | inr other ↦ committed-IsConsistent_other q s current a run_id other (all run_id)
    ])
  ]

  pub empty-IsConsistent : (run_id : String) → IsConsistent empty run_id
  unfolding get_run journal_of
  empty-IsConsistent run_id = record {
    hash = none;
    state = created;
    journal = start;
    row = λ r read. cc;
    no_row = λ missing. refl;
  }

  module _ (run : Run) (s : Store) (new : has_run s run.run_id ≡ false) where
    abbrev inserted : Store
    inserted = record s { runs = s.runs ++ run ∷ [] }

    get_run-inserted_self : get_run inserted run.run_id ≡ some run
    unfolding get_run has_run
    get_run-inserted_self = find-snoc_hit _ s.runs run new (==_refl run.run_id)

    get_run-none : get_run s run.run_id ≡ none
    unfolding get_run has_run
    get_run-none = find-none_of_any _ s.runs new

    get_run-inserted_other :
        (j : String) → (run.run_id == j) ≡ false → get_run inserted j ≡ get_run s j
    unfolding get_run
    get_run-inserted_other j other = find-snoc_miss _ s.runs run other

    inserted-IsConsistent_self :
        run.state ≡ created
        → run.state_version ≡ 0
        → IsConsistent s run.run_id
        → IsConsistent inserted run.run_id
    unfolding journal_of
    inserted-IsConsistent_self at_start version c =
        let entries : journal_of s run.run_id ≡ [] = c.no_row get_run-none in
        record {
          hash = none;
          state = created;
          journal = rw entries start;
          row = λ r read.
              let same : r ≡ run = cc (get_run-inserted_self) in
              rw (same, entries) (at_start, version);
          no_row = λ missing. entries;
        }

    inserted-IsConsistent_other :
        (j : String) → (run.run_id == j) ≡ false → IsConsistent s j → IsConsistent inserted j
    unfolding journal_of
    inserted-IsConsistent_other j other c =
        let row = get_run-inserted_other j other in
        record {
          hash = c.hash;
          state = c.state;
          journal = c.journal;
          row = λ r read. c.row r (sym row ∙ read);
          no_row = λ missing. c.no_row (sym row ∙ missing);
        }

  -- A new run enters in `CREATED`, with version 0 and no history.
  pub insert_run-IsConsistent :
      (run : Run) (s t : Store) (run_id : String)
      → insert_run run s ≡ ok t
      → run.state ≡ created
      → run.state_version ≡ 0
      → ((i : String) → IsConsistent s i)
      → IsConsistent t run_id
  unfolding insert_run
  insert_run-IsConsistent run s t run_id done at_start version all =
      let new : has_run s run.run_id ≡ false = ground arith in
      let tables : t ≡ record s { runs = s.runs ++ run ∷ [] } = ground arith in
      rw tables (elim (Bool-cases (run.run_id == run_id)) [
        | inl same ↦
            subst (IsConsistent (inserted run s new)) ((==_iff run.run_id run_id).0 same)
              (inserted-IsConsistent_self run s new at_start version (all run.run_id))
        | inr other ↦ inserted-IsConsistent_other run s new run_id other (all run_id)
      ])
