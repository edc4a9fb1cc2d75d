-- ===== src/Checks.antt =====
-- Runs of the modelled code on concrete data, and the theorems applied there.
pub mod Queue
pub mod Routing
pub mod Stepping
pub mod Texts
pub mod Assessing
pub mod Correlating
pub mod Querying
pub mod Accounts
pub mod Scheduling
pub mod Pacing
pub mod Contributing
pub mod Reviewing
