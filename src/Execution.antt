-- ===== src/Execution.antt =====
-- What the Harness observes of a worktree: src/agent_harness/execution.
pub mod Manifest
pub mod ScopeGuard
pub mod Frozen
