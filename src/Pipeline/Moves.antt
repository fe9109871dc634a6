-- ===== src/Pipeline/Moves.antt =====
-- What relates the worlds before and after every single step of the pipeline relates them before and
-- after the whole of it (src/agent_harness/application/orchestrator.py): one lemma for each function.
pub mod Turns
pub mod Gates
pub mod Stages
pub mod Rounds
