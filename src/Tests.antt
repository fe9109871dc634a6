-- ===== src/Tests.antt =====
-- Concrete runs, policies, contracts and manifests, and the theorems applied to them.
mod Data
mod Runs
mod Events
mod Pipeline
mod Policies
mod Results
