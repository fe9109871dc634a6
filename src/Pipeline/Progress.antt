-- ===== src/Pipeline/Progress.antt =====
-- Where the pipeline gets to (src/agent_harness/application/orchestrator.py): the states that it goes
-- through, what it raises, and what a result rests on.
pub mod Quiet
pub mod Turns
pub mod Freezing
pub mod Verifying
pub mod Stations
pub mod Edges
pub mod Calls
pub mod Gating
pub mod Handlers
pub mod Planning
pub mod Work
pub mod Verdicts
pub mod Reworks
pub mod Loop
