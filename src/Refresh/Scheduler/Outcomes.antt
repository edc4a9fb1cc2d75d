-- ===== src/Refresh/Scheduler/Outcomes.antt =====
-- What becomes of a job and of its staged work when a collection fails, row by row and in plain
-- numbers, without the operations of internal/refresh/scheduler.go and of the store.
use maintainer_cockpit.Prelude.{
  Pairwise, ℕ, zero, suc, ◌+◌, ◌*◌, ◌<◌, String, Option, none, some, ◌≡◌, ◌≢◌, ◌⊎◌, ◌==◌,
  if◌then◌else◌, Result, ok,
}
use maintainer_cockpit.Github.Failure.{
  FailureCategory, primary_rate_limited, secondary_rate_limited, github_unavailable,
  operation_timeout, GoError, is_incomplete, category_text,
}
use maintainer_cockpit.Github.Failure.Metadata.{bounded_failure_metadata}
use maintainer_cockpit.Storage.Clock.{Instant}
use maintainer_cockpit.Storage.Rows.{StoreError, RefreshJob, queued, running, completed, Generation}
use maintainer_cockpit.Storage.Generation.{find_generation}
use maintainer_cockpit.Storage.Generation.Batches.{Publication}
use maintainer_cockpit.Refresh.Scheduler.{
  State, Environment, Health, HealthState, refresh_failed, refresh_incomplete,
}

-- A category after which the collection may be tried again later.
abbrev pub IsTemporary : FailureCategory → Type 0
IsTemporary c =
    (c ≡ primary_rate_limited)
    ⊎ (c ≡ secondary_rate_limited)
    ⊎ (c ≡ github_unavailable)
    ⊎ (c ≡ operation_timeout)

-- Less than 24 hours of 3,600 seconds after a time.
abbrev pub IsRecent : Instant → Instant → Type 0
IsRecent now discovered =
    now.seconds * 1_000_000_000 + now.nanos
    < (discovered.seconds + 24 * 3_600) * 1_000_000_000 + discovered.nanos

-- The minutes to wait, by the retries before this one.
abbrev pub backoff : ℕ → ℕ
backoff zero = 1
backoff (suc zero) = 2
backoff (suc (suc zero)) = 4
backoff (suc (suc (suc zero))) = 8
backoff (suc (suc (suc (suc n)))) = 16

-- A row of the job that runs.
abbrev pub RunsAs : ℕ → RefreshJob → Type 0
RunsAs id x = (x.id ≡ id) × (x.status ≡ running)

-- The running row of the job waits again, for some minutes from `now`; the others are as they were.
abbrev pub IsRequeued : ℕ → Instant → ℕ → RefreshJob → RefreshJob → Type 0
IsRequeued id now minutes x y =
    (RunsAs id x
      × (y.status ≡ queued)
      × (y.scheduled_for.seconds ≡ now.seconds + 60 * minutes)
      × (y.scheduled_for.nanos ≡ now.nanos)
      × (y.started_at ≡ none)
      × (y.id ≡ x.id)
      × (y.repository ≡ x.repository)
      × (y.forced ≡ x.forced))
    ⊎ (¬ RunsAs id x × (y ≡ x))

-- The row of the job is completed at `now`; the others are as they were.
abbrev pub IsFinished : ℕ → Instant → RefreshJob → RefreshJob → Type 0
IsFinished id now x y =
    ((x.id ≡ id)
      × (y.status ≡ completed)
      × (y.finished_at ≡ some now)
      × (y.id ≡ x.id)
      × (y.repository ≡ x.repository))
    ⊎ ((x.id ≢ id) × (y ≡ x))

-- The repository's health says how the attempt ended; the others are as they were.
abbrev pub IsReported : String → HealthState → String → Instant → Health → Health → Type 0
IsReported repository state message at x y =
    ((x.repository ≡ repository)
      × (y.repository ≡ repository)
      × (y.state ≡ state)
      × (y.last_attempt ≡ some at)
      × (y.message ≡ message))
    ⊎ ((x.repository ≢ repository) × (y ≡ x))

module _ (P : Publication) (job : RefreshJob) (env : Environment P) (e : GoError)
    (s : State P) where
  -- The job waits, and the health and the published tables are as they were.
  abbrev pub JobWaits : ℕ → Result StoreError (Unit {0}) × State P → Type 0
  JobWaits minutes (reply, s') =
      (reply ≡ ok tt)
      × Pairwise (IsRequeued job.id env.now minutes) s.jobs.rows s'.jobs.rows
      × (s'.health ≡ s.health)
      × (s'.tables ≡ s.tables)

  -- The staged work of the job is kept, with one more retry and the failure noted; the work of other
  -- jobs is as it was.
  abbrev pub KeepsWork : Generation → State P → Type 0
  KeepsWork g s' =
      (g' : Generation) × ((k : ℕ)
        → find_generation k s'.generations.rows
          ≡ (if k == job.id then some g' else find_generation k s.generations.rows))
      × (g'.retry_count ≡ g.retry_count + 1)
      × (g'.items ≡ g.items)
      × (g'.phase ≡ g.phase)
      × (g'.discovered_at ≡ g.discovered_at)
      × (g'.failure_category ≡ category_text (bounded_failure_metadata e).category)

  -- The staged work of the job is dropped, the job completed and the failure reported.
  abbrev pub GivesUp : Result StoreError (Unit {0}) × State P → Type 0
  GivesUp (reply, s') =
      (reply ≡ ok tt)
      × Pairwise (IsFinished job.id env.now) s.jobs.rows s'.jobs.rows
      × ((k : ℕ)
          → find_generation k s'.generations.rows
            ≡ (if k == job.id then none else find_generation k s.generations.rows))
      × Pairwise
          (IsReported job.repository
            (if is_incomplete e then refresh_incomplete else refresh_failed)
            (if is_incomplete e then "GitHub refresh was incomplete." else "GitHub refresh failed.")
            env.attempted_at)
          s.health s'.health
      × (s'.tables ≡ s.tables)

  -- What the failure of a collection leads to, without and with staged work of the job.
  abbrev pub Outcome : Option Generation → Result StoreError (Unit {0}) × State P → Type 0
  Outcome none r =
      (IsTemporary (bounded_failure_metadata e).category
        × JobWaits 1 r
        × (r.1.generations ≡ s.generations))
      ⊎ (¬ IsTemporary (bounded_failure_metadata e).category × GivesUp r)
  Outcome (some g) r =
      (IsTemporary (bounded_failure_metadata e).category
        × IsRecent env.read_at g.discovered_at
        × JobWaits (backoff g.retry_count) r
        × KeepsWork g r.1)
      ⊎ ((¬ (
            IsTemporary (bounded_failure_metadata e).category
            × IsRecent env.read_at g.discovered_at))
          × GivesUp r)
