-- ===== src/Store.antt =====
-- The SQLite store: src/agent_harness/persistence/sqlite.py over the tables of
-- src/agent_harness/persistence/migrations.py. A table is the list of its rows in the order of
-- insertion, and a row is the record that it encodes. A statement that breaks a primary key, a
-- unique or a foreign key raises `integrity_error`. Random identifiers and times are arguments.
pub mod Effect
pub mod Fresh
pub mod Records
pub mod Journal
pub mod Locking
use Prim.Native.String.{◌++◌ as append}
use harness_system.Prelude.{
  ℕ, suc, ◌+◌, String, Bool, true, false, not, ◌&&◌, List, [], ◌∷◌, ◌++◌, map, Option, none, some,
  ◌==◌, string_eq, eqb, ltb, if◌then◌else◌, any, filter, find, length, member,
}
use harness_system.Exceptions.{
  run_not_found, concurrent_modification, integrity_error, Result, ok, raised, ◌>>=◌, ◌>>◌,
  raise_if,
}
use harness_system.Domain.Enums.{ActorType}
use harness_system.Domain.Lifecycle.{LifecycleState, state_eq, value}
use harness_system.Domain.Models.{
  Run, FailureRecord, PendingAction, Payload, JournalEntry, TaskContract, PolicyDecision,
  VerificationResult, ReworkContract,
}
use harness_system.Domain.Digests.{Digests, placeholder_digest, journal_entry_digest}
use harness_system.Transitions.{TransitionOutcome, transition_run}

-- A row of one of the four audit tables: the record and the run that it belongs to.
pub record Audit (A : Type 0) : Type 0 where
  pub run_id : String
  pub model : A

pub record Store : Type 0 where
  pub runs : List Run
  pub journal_entries : List JournalEntry
  pub failure_records : List FailureRecord
  pub task_contracts : List (Audit TaskContract)
  pub policy_decisions : List (Audit PolicyDecision)
  pub verification_results : List (Audit VerificationResult)
  pub rework_contracts : List (Audit ReworkContract)

abbrev pub empty : Store
empty = record {
  runs = [];
  journal_entries = [];
  failure_records = [];
  task_contracts = [];
  policy_decisions = [];
  verification_results = [];
  rework_contracts = [];
}

-- SELECT * FROM runs WHERE run_id = ?
unfoldable pub get_run : Store → String → Option Run
get_run s run_id = find (λ r. r.run_id == run_id) s.runs

-- Whether a foreign key to `runs` holds.
unfoldable pub has_run : Store → String → Bool
has_run s run_id = any (λ r. r.run_id == run_id) s.runs

unfoldable pub insert_run : Run → Store → Result Store
unfolding has_run
insert_run run s =
    if has_run s run.run_id
    then raised integrity_error
    else ok (record s { runs = s.runs ++ run ∷ [] })

-- SELECT * FROM runs WHERE state IN (...)
unfoldable pub list_runs_by_states : Store → List LifecycleState → List Run
list_runs_by_states s states = filter (λ r. member r.state states) s.runs

-- The rows of `list_journal_entries`, in the order of insertion.
unfoldable pub journal_of : Store → String → List JournalEntry
journal_of s run_id = filter (λ e. e.run_id == run_id) s.journal_entries

abbrev later : JournalEntry → Option JournalEntry → JournalEntry
later e none = e
later e (some best) = if ltb e.sequence best.sequence then best else e

-- ORDER BY sequence DESC LIMIT 1
unfoldable pub latest : List JournalEntry → Option JournalEntry
latest [] = none
latest (e ∷ es) = some (later e (latest es))

abbrev pub hash_of : Option JournalEntry → Option String
hash_of none = none
hash_of (some e) = some e.entry_hash

-- COALESCE(MAX(sequence), -1) + 1
abbrev pub next_sequence : Option JournalEntry → ℕ
next_sequence none = 0
next_sequence (some e) = e.sequence + 1

unfoldable pub insert_journal_entry : JournalEntry → Store → Result Store
unfolding has_run
insert_journal_entry entry s = do
  raise_if (any (λ e. e.journal_entry_id == entry.journal_entry_id) s.journal_entries)
      integrity_error
  raise_if (any (λ e. e.run_id == entry.run_id && eqb e.sequence entry.sequence) s.journal_entries)
      integrity_error
  raise_if (not (has_run s entry.run_id)) integrity_error
  ok (record s { journal_entries = s.journal_entries ++ entry ∷ [] })

unfoldable pub insert_failure_record : FailureRecord → Store → Result Store
unfolding has_run
insert_failure_record failure s = do
  raise_if (any (λ f. f.failure_id == failure.failure_id) s.failure_records) integrity_error
  raise_if (not (has_run s failure.run_id)) integrity_error
  ok (record s { failure_records = s.failure_records ++ failure ∷ [] })

-- WHERE run_id = ? AND state_version = ?
unfoldable pub is_row : String → ℕ → Run → Bool
is_row run_id state_version r = r.run_id == run_id && eqb r.state_version state_version

-- The columns that the UPDATE of `apply_transition` sets.
abbrev pub set_columns : Run → Run → Run
set_columns new r = record r {
  state = new.state;
  state_version = new.state_version;
  disposition = new.disposition;
  updated_at = new.updated_at;
}

unfoldable pub update_rows : (Run → Bool) → Run → List Run → List Run
update_rows matches new [] = []
update_rows matches new (r ∷ rs) =
    (if matches r then set_columns new r else r) ∷ update_rows matches new rs

-- `insert_failure_record` where a failure is given.
unfoldable pub insert_failure : Option FailureRecord → Store → Result Store
insert_failure none s = ok s
insert_failure (some failure) s = insert_failure_record failure s

-- An INSERT into one of the four audit tables: the key is the table's primary key.
abbrev pub insert_audit :
    {A : Type 0} → (A → String) → String → A → Store → List (Audit A) → Result (List (Audit A))
insert_audit key run_id model s rows = do
  raise_if (any (λ r. key r.model == key model) rows) integrity_error
  raise_if (not (has_run s run_id)) integrity_error
  ok (rows ++ record { run_id = run_id; model = model } ∷ [])

unfoldable pub insert_task_contract : TaskContract → String → Store → Result Store
unfolding has_run
insert_task_contract contract run_id s = do
  rows ← insert_audit (λ (c : TaskContract). c.contract_id) run_id contract s s.task_contracts
  ok (record s { task_contracts = rows })

unfoldable pub insert_policy_decision : PolicyDecision → String → Store → Result Store
unfolding has_run
insert_policy_decision decision run_id s = do
  rows ← insert_audit (λ (d : PolicyDecision). d.decision_id) run_id decision s s.policy_decisions
  ok (record s { policy_decisions = rows })

unfoldable pub insert_verification_result : VerificationResult → String → Store → Result Store
unfolding has_run
insert_verification_result result run_id s = do
  rows ←
      insert_audit (λ (v : VerificationResult). v.verification_id) run_id result s
        s.verification_results
  ok (record s { verification_results = rows })

unfoldable pub insert_rework_contract : ReworkContract → String → Store → Result Store
unfolding has_run
insert_rework_contract rework run_id s = do
  rows ← insert_audit (λ (r : ReworkContract). r.rework_id) run_id rework s s.rework_contracts
  ok (record s { rework_contracts = rows })

abbrev pub failure_id_of : Option FailureRecord → Option String
failure_id_of none = none
failure_id_of (some failure) = some failure.failure_id

-- The arguments of `apply_transition`, with the time and the identifier of the new entry.
pub record Request : Type 0 where
  pub run_id : String
  pub target : LifecycleState
  pub now : ℕ
  pub expected_state_version : ℕ
  pub actor_type : ActorType
  pub actor_id : String
  pub correlation_id : String
  pub event_type : Option String
  pub failure : Option FailureRecord
  pub pending_action : Option PendingAction
  pub journal_entry_id : String

-- event_type or f"TRANSITION_{target.value}"; an empty text counts as absent.
unfoldable pub event_type_of : Option String → LifecycleState → String
event_type_of none target = append "TRANSITION_" (value target)
event_type_of (some event_type) target =
    if event_type == "" then append "TRANSITION_" (value target) else event_type

module _ (digests : Digests) where
  -- The draft entry, and its hash.
  unfoldable pub draft_entry :
      Request → Run → TransitionOutcome → Option JournalEntry → JournalEntry
  draft_entry q current outcome previous = record {
    sequence = next_sequence previous;
    journal_entry_id = q.journal_entry_id;
    run_id = q.run_id;
    timestamp_utc = q.now;
    event_type = event_type_of q.event_type q.target;
    actor_type = q.actor_type;
    actor_id = q.actor_id;
    correlation_id = q.correlation_id;
    state_before = some current.state;
    state_after = some q.target;
    state_version = outcome.run.state_version;
    payload_json = record {
      pending_action = q.pending_action;
      failure_id = failure_id_of q.failure;
    };
    artifact_refs = [];
    previous_entry_hash = hash_of previous;
    entry_hash = placeholder_digest;
  }

  unfoldable pub new_entry : Request → Run → TransitionOutcome → Option JournalEntry → JournalEntry
  unfolding draft_entry
  new_entry q current outcome previous =
      let draft = draft_entry q current outcome previous in
      record draft { entry_hash = journal_entry_digest digests draft }

  -- The statements between BEGIN IMMEDIATE and COMMIT, with the row that was read.
  unfoldable pub transition_body : Request → Store → Option Run → Result (TransitionOutcome × Store)
  transition_body q s none = raised run_not_found
  transition_body q s (some current) = do
    raise_if (not (eqb current.state_version q.expected_state_version)) concurrent_modification
    outcome ← transition_run current q.target q.now q.failure q.pending_action
    journalled ←
        insert_journal_entry (new_entry q current outcome (latest (journal_of s q.run_id))) s
    let matches = is_row q.run_id q.expected_state_version
    raise_if (not (eqb (length (filter matches journalled.runs)) 1)) concurrent_modification
    stored ←
        insert_failure q.failure
          (record journalled { runs = update_rows matches outcome.run journalled.runs })
    ok (outcome, stored)

  -- COMMIT keeps the new tables; after an exception ROLLBACK restores the old ones.
  unfoldable pub commit_or_rollback :
      Store → Result (TransitionOutcome × Store) → Result TransitionOutcome × Store
  commit_or_rollback s (ok (outcome, stored)) = (ok outcome, stored)
  commit_or_rollback s (raised e) = (raised e, s)

  unfoldable pub apply_transition : Request → Store → Result TransitionOutcome × Store
  unfolding transition_body commit_or_rollback
  apply_transition q s = commit_or_rollback s (transition_body q s (get_run s q.run_id))
