-- ===== src/Domain/Models.antt =====
-- The records of src/agent_harness/domain/models.py. `schema_version` is the constant "1.0" of
-- every record and is left out. A time is a number of microseconds, an estimated cost a number of
-- micro-dollars, so that sums are exact where the source adds floats.
mod Contracts
mod Policies
mod Runs
mod Verification
mod Evidence
mod Workers
pub use Contracts.*
pub use Policies.*
pub use Runs.*
pub use Verification.*
pub use Evidence.*
pub use Workers.*
