-- ===== src/Tests.antt =====
-- Runs of the model, and the theorems at concrete inputs.
pub mod Fixtures
pub mod Everything
pub mod Runs
pub mod Instances
pub mod Sessions
pub mod Reports
pub mod Histograms
pub mod Fleets
pub mod Loaders
pub mod Seeding
pub mod Signatures
pub mod Rounds
pub mod Processes
