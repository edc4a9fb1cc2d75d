-- ===== src/Storage.antt =====
-- internal/storage: the tables of the refresh queue, as records of rows.
pub mod Clock
pub mod Rows
pub mod Jobs
pub mod Generation
pub mod RouteAttempts
pub mod Users
pub mod Auth
pub mod Schedules
pub mod Ancillary
