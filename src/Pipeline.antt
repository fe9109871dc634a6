-- ===== src/Pipeline.antt =====
-- The pipeline of one task: src/agent_harness/application/orchestrator.py, with `run_verification`
-- of src/agent_harness/application/verification.py and `freeze_and_validate` of
-- src/agent_harness/execution/evidence.py, which it calls.
pub mod Exec
pub mod Deps
pub mod Invoke
pub mod Freeze
pub mod Verify
pub mod Gate
pub mod Plan
pub mod Attempt
pub mod Run
pub mod Moves
pub mod Grants
pub mod Progress
pub mod Merge
pub mod Outcome
pub mod Unresolved
pub mod Ledgers
pub mod Sessions
pub mod Tables
