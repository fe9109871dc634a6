-- ===== src/Lib.antt =====
-- A model of the Harness (src/agent_harness): a control plane that drives a coding task through a
-- planner, a worker and a verifier, none of which it trusts.
--
-- The parts and their files:
-- - Prelude models nothing of the program: Boolean tests, lists, sets and integers.
-- - Exceptions: the exceptions of all parts as one type, and Result.
-- - Domain: src/agent_harness/domain. Domain/Enums and Domain/Lifecycle are enums.py, Domain/Models is
--   models.py, Domain/Digests is compute_model_digest of digests.py, Domain/Validation is
--   validation.py.
-- - Transitions: src/agent_harness/application/transitions.py, the table TRANSITIONS and
--   transition_run.
-- - Store: src/agent_harness/persistence/sqlite.py over the tables of persistence/migrations.py. The
--   state is a record of tables; apply_transition reads and writes it as one transaction, and calls
--   transition_run.
-- - Policy: src/agent_harness/policy, evaluate_policy, create_approval and
--   resolve_decision_with_approval. The last calls validate_approval_binding of Domain.
-- - Execution: src/agent_harness/execution. Execution/Manifest is diff_manifests and
--   find_test_mutations of validation.py, Execution/ScopeGuard is scope_guard.py, Execution/Frozen is
--   FrozenValidationResult of evidence.py.
-- - Usage: src/agent_harness/application/usage.py.
-- - Checks: the re-check of the Verifier's claim in src/agent_harness/application/verification.py,
--   which joins the checks of Domain, the scope violations of Execution and its own.
-- - Rework: src/agent_harness/application/rework.py, build_rework_contract and its guards.
-- - Recovery: run_recovery_scan of src/agent_harness/application/recovery.py over Store.
-- - Providers/Protocol: the requests, results and operations of src/agent_harness/providers/protocol.py
--   that a pipeline uses.
-- - Pipeline: run_task_pipeline of src/agent_harness/application/orchestrator.py, with what it calls of
--   verification.py and of execution/evidence.py. Exec is the state that its actions pass on (the
--   tables, the registered prompts, the history of what was done outside) with exceptions, early
--   returns and finally; Deps is PipelineDeps; Invoke is _invoke_role; Gate is _advance, _fail and
--   _gate_policy; Plan is what comes before the loop, Attempt one round of the loop, Freeze
--   freeze_and_validate, Verify run_verification, and Run puts them together. Exec/Moves and Moves
--   hold for every run and every answer; Exec/Ends and Progress follow a new run from station to
--   station; Outcome, Ledgers, Sessions, Tables and Unresolved say what a caller relies on.
-- - Providers/Protocol: the requests, results and operations of src/agent_harness/providers/protocol.py
--   that a pipeline uses.
-- - Pipeline: run_task_pipeline of src/agent_harness/application/orchestrator.py, with what it calls of
--   verification.py and of execution/evidence.py. Exec is the state that its actions pass on (the
--   tables, the registered prompts, the history of what was done outside) with exceptions, early
--   returns and finally; Deps is PipelineDeps; Invoke is _invoke_role; Gate is _advance, _fail and
--   _gate_policy; Plan is what comes before the loop, Attempt one round of the loop, Freeze
--   freeze_and_validate, Verify run_verification, and Run puts them together. Exec/Moves and Moves
--   hold for every run and every answer; Exec/Ends and Progress follow a new run from station to
--   station; Outcome, Ledgers, Sessions, Tables and Unresolved say what a caller relies on.
-- - Providers/Protocol: the requests, results and operations of src/agent_harness/providers/protocol.py
--   that a pipeline uses. Providers/Events: normalize_events of providers/event_stream.py.
-- - Pipeline: run_task_pipeline of src/agent_harness/application/orchestrator.py, with what it calls of
--   verification.py and of execution/evidence.py. Exec is the state that its actions pass on (the
--   tables, the registered prompts, the history of what was done outside) with exceptions, early
--   returns and finally; Deps is PipelineDeps; Invoke is _invoke_role; Gate is _advance, _fail and
--   _gate_policy; Plan is what comes before the loop, Attempt one round of the loop, Freeze
--   freeze_and_validate, Verify run_verification, and Run puts them together. Exec/Moves and Moves
--   hold for every run and every answer; Exec/Ends and Progress follow a new run from station to
--   station; Outcome, Ledgers, Sessions, Tables and Unresolved say what a caller relies on.
-- - Providers/Protocol: the requests, results and operations of src/agent_harness/providers/protocol.py
--   that a pipeline uses.
-- - Pipeline: run_task_pipeline of src/agent_harness/application/orchestrator.py, with what it calls of
--   verification.py and of execution/evidence.py. Exec is the state that its actions pass on (the
--   tables, the registered prompts, the history of what was done outside) with exceptions, early
--   returns and finally; Deps is PipelineDeps; Invoke is _invoke_role; Gate is _advance, _fail and
--   _gate_policy; Plan is what comes before the loop, Attempt one round of the loop, Freeze
--   freeze_and_validate, Verify run_verification, and Run puts them together. Exec/Moves and Moves
--   hold for every run and every answer; Exec/Ends and Progress follow a new run from station to
--   station; Outcome, Ledgers, Sessions, Tables and Unresolved say what a caller relies on.
-- - Providers/Protocol: the requests, results and operations of src/agent_harness/providers/protocol.py
--   that a pipeline uses.
-- - Pipeline: run_task_pipeline of src/agent_harness/application/orchestrator.py, with what it calls of
--   verification.py and of execution/evidence.py. Exec is the state that its actions pass on (the
--   tables, the registered prompts, the history of what was done outside) with exceptions, early
--   returns and finally; Deps is PipelineDeps; Invoke is _invoke_role; Gate is _advance, _fail and
--   _gate_policy; Plan is what comes before the loop, Attempt one round of the loop, Freeze
--   freeze_and_validate, Verify run_verification, and Run puts them together. Exec/Moves and Moves
--   hold for every run and every answer; Exec/Ends and Progress follow a new run from station to
--   station; Outcome, Ledgers, Sessions, Tables and Unresolved say what a caller relies on.
-- - Tests: concrete values, with the theorems applied to them.
--
-- Parameters: the digest of each kind of record (canonical JSON and SHA-256), the matching of regular
-- expressions (re), fnmatch, and the identifiers and times that the code draws. The operations below
-- the pipeline take these as arguments. The pipeline asks for them, and for all that git, the file
-- system, the providers, pydantic and the users answer: the fields of PipelineDeps are functions of
-- the number of the question, so that any two answers may differ, and a Reply is an answer, a timeout,
-- a missing capability or another exception. The reading of a JSON text is such an answer too.
-- A time is a number of microseconds and a cost a number of millionths of a dollar. A message is a
-- constructor with what it reports, and render writes it out. A Python set is a list read by its
-- members, sorted where the code sorts it; the iteration over a set in no fixed order is taken sorted.
-- Times, sizes and counts are natural numbers without a bound, as Python's integers are.
--
-- All recursions are structural but the loop of the pipeline, which is given one round more than the
-- reworks that the contract allows; the second result says that this is enough, since a
-- pipeline that used up its rounds would have neither returned nor raised.
--
-- Not modelled: the adapters of the providers, the MCP gateway, the command line, the texts of the
-- prompts, and what reads or writes files, processes, git or sandboxes. One pipeline has the tables to
-- itself.
pub mod Prelude
pub mod Exceptions
pub mod Domain
pub mod Transitions
pub mod Store
pub mod Policy
pub mod Execution
pub mod Usage
pub mod Checks
pub mod Rework
pub mod Recovery
pub mod Providers
pub mod Pipeline
pub mod Tests
