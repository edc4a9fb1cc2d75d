-- ===== src/Refresh.antt =====
-- internal/refresh: the scheduler of durable repository refreshes.
pub mod Exec
pub mod Scheduler
