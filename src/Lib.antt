-- ===== src/Lib.antt =====
-- Maintainer Cockpit: how open pull requests are collected from GitHub.
--
-- The program refreshes each repository by a durable job. A job is queued in refresh_jobs, claimed by
-- the scheduler, and worked off in small steps: the discovery of the open pull requests, their
-- hydration in batches of twenty, the collection of progress, and the publication. Between the steps
-- the work is staged in refresh_generations. Every request to GitHub is dispatched over the ordered
-- profiles of the repository's owner, and leaves a trail of attempts, which the store keeps. A published
-- pull request is assessed by deterministic rules, and listed by queries with cursors. The open pull
-- requests of a collection are sent to a model in bounded requests, and the groups that it infers are
-- validated against what was sent. Cron schedules start the operations, a paced queue collects public
-- evidence of authors, and OAuth flows and sessions let users sign in.
--
-- Files:
--   Prelude        lists, tests, texts and results over the native numbers
--   Github.Failure internal/githubapp/failure.go, the error types of client.go, and the categories
--                  of router.go; Failure.Metadata is BoundedFailureMetadata
--   Github.Router  the routing of internal/githubapp/router.go; Router.Setup is NewRouter,
--                  Router.Chain and Router.Success hold theorems
--   Github.Reviews reviewState of internal/githubapp/client.go
--   Storage.Clock  formatTime of internal/storage/store.go
--   Storage.Rows   the rows of the tables
--   Storage.Jobs   refresh_jobs of internal/storage/store.go; its child modules hold theorems
--   Storage.Generation  internal/storage/refresh_generation.go; Generation.Batches is
--                  PublishRefreshGenerationBatch, the other child modules hold theorems
--   Storage.RouteAttempts  ReplaceRouteAttempts of internal/storage/store.go, and
--                  storageRouteAttempts of internal/refresh/scheduler.go; Accepted and Lookups hold
--                  theorems
--   Storage.Schedules  the table schedule_dispatches of internal/storage/periodic.go
--   Storage.Users  the tables of what belongs to users; Storage.Auth is internal/storage/auth.go
--                  with RunRetention's deletes of these tables (operations.go),
--                  Auth.Commands its operations in sequence; Flows, Sessions, Deletion and Audit
--                  hold theorems
--   Storage.Ancillary  the queue of public author evidence of internal/storage/author_evidence.go and
--                  store.go; Ancillary.Pacing holds its theorem
--   Contribution   the types and policies of internal/contribution/contribution.go;
--                  Contribution.Evaluating is Evaluate; Contribution.Levels and Contribution.Opens
--                  hold theorems
--   Correlation    the types of internal/correlation/correlation.go, Correlation.Texts its texts;
--                  Correlation.Requests is BuildRequests, Correlation.Known is KnownSources,
--                  Correlation.Validation is ValidateResponse; their child modules hold theorems
--   Periodic       internal/periodic/coordinator.go and parse.go; its child modules hold theorems
--   Quality        internal/quality/quality.go; Quality.Rules are its rules and Assess,
--                  Quality.Levels and Quality.Rules.Strong hold theorems
--   Query          internal/query/query.go; Query.Cursors holds its theorem
--   Refresh.Exec   store calls in sequence
--   Refresh.Scheduler  internal/refresh/scheduler.go; Scheduler.Outcomes says what a failure may do,
--                  its other child modules hold theorems
--   Checks         the theorems at concrete data
--
-- A table is the list of its rows in the order of their ids, and the last id given out. A store
-- operation takes the table and answers it with the result; a transaction that fails answers the table
-- as it was. A time is a count of seconds and nanoseconds; a stored one is its text, and the queries
-- that compare stored times do so in the order of these texts (stored_le), which is the order of the
-- times from one second to the next, but not within a second. Identifiers and counts are natural numbers:
-- the guards `<= 0` of the source are tests for zero. JSON columns hold the value that is encoded.
--
-- Parameters: what the collector and the clock answer, the tables of published pull requests
-- (Publication of Storage.Generation.Batches), regular expressions and texts of the standard library
-- (Texts of Quality.Rules, Library of Query), strings.ToLower and ToUpper, the decoder and the digests of Correlation,
-- and the cron library and the dispatches of Periodic. sort.Slice is an insertion sort, which leaves
-- elements with one key in their order. No fuel is used: every loop runs over a list or a bound.
--
-- Not modelled: HTTP, JSON and SQL as such, logs, telemetry, the HTTP server, and the parts of
-- the program that no file above names.
pub mod Checks
pub mod Contribution
pub mod Correlation
pub mod Github
pub mod Periodic
pub mod Prelude
pub mod Quality
pub mod Query
pub mod Refresh
pub mod Storage
