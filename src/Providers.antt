-- ===== src/Providers.antt =====
-- The provider-neutral interface: src/agent_harness/providers.
pub mod Protocol
pub mod Events
