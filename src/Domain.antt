-- ===== src/Domain.antt =====
-- The contract kernel: src/agent_harness/domain.
pub mod Enums
pub mod Lifecycle
pub mod Models
pub mod Digests
pub mod Validation
