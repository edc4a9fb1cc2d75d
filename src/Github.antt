-- ===== src/Github.antt =====
-- internal/githubapp: failure classification and the router over credential profiles.
pub mod Failure
pub mod Router
pub mod Reviews
