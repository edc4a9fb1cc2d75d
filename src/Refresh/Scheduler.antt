-- ===== src/Refresh/Scheduler.antt =====
-- internal/refresh/scheduler.go: one claimed job is processed for one bounded unit of work, then
-- requeued or completed. What a call reads from outside (the clock, the collector's replies, the
-- route-attempt tables, the cached pull requests) is the record `Environment`; the tables of
-- published pull requests are the `Publication` of the store. Logs and telemetry are left out.
pub mod Claims
pub mod Outcomes
pub mod Phases
pub mod Progress
pub mod Retries
pub mod RowEffects
use maintainer_cockpit.Prelude.{
  ℕ, suc, ◌+◌, ◌-◌, ◌*◌, ◌^◌, String, Bool, true, false, not, Option, none, some, List, [], ◌∷◌,
  ◌&&◌, ◌||◌, ◌==◌, ltb, min, str_eq, Result, ok, err, if◌then◌else◌, length, map,
}
use maintainer_cockpit.Github.Failure.{
  FailureCategory, primary_rate_limited, secondary_rate_limited, github_unavailable,
  operation_timeout, GoError, category_text, is_incomplete,
}
use maintainer_cockpit.Github.Failure.Metadata.{bounded_failure_metadata}
use maintainer_cockpit.Storage.Clock.{Instant}
use maintainer_cockpit.Storage.Rows.{
  StoreError, hydration_count_mismatch, generation_not_complete, RefreshJob, Phase, hydrating,
  progress, publishing, CacheOutcome, hit, miss, bypass, ContextLimit, Item, Generation,
}
use maintainer_cockpit.Storage.Jobs.{
  JobTable, claim_refresh, complete_refresh_job, requeue_refresh_job,
}
use maintainer_cockpit.Storage.Generation.{
  Discovery, GenerationTable, LoadedGeneration, load_refresh_generation,
  load_refresh_generation_batch, delete_refresh_generation, start_refresh_generation,
  reconcile_refresh_generation_discovery, load_staged_refresh_pull_requests,
  advance_refresh_generation, record_refresh_generation_retry,
}
use maintainer_cockpit.Storage.Generation.Batches.{
  Staged, Publication, publish_refresh_generation_batch,
}
use maintainer_cockpit.Refresh.Exec.{Exec, pure, raise, lift, reads, ◌>>=◌, ◌>>◌}

-- The states of repository_refreshes that RecordRefreshResult writes.
pub data HealthState : Type 0 where
  refresh_stale refresh_running refresh_failed refresh_incomplete : HealthState

-- repository_refreshes
pub record Health : Type 0 where
  pub repository : String
  pub state : HealthState
  pub last_attempt : Option Instant
  pub message : String

-- A pull request's input fingerprint.
pub record Fingerprint : Type 0 where
  pub version : String
  pub value : String

abbrev pub refresh_hydration_batch_size : ℕ
refresh_hydration_batch_size = 20

-- Nanoseconds since the zero time.
abbrev pub nanoseconds : Instant → ℕ
nanoseconds t = t.seconds * 1_000_000_000 + t.nanos

abbrev pub add_minutes : ℕ → Instant → Instant
add_minutes k t = record t { seconds = t.seconds + 60 * k }

-- now.Sub(discoveredAt) < 24 hours
abbrev pub within_day : Instant → Instant → Bool
within_day now discovered = ltb (nanoseconds now) (nanoseconds discovered + 86_400 * 1_000_000_000)

-- The categories of handlePhasedFailure's `retryable`.
unfoldable pub is_retryable : FailureCategory → Bool
is_retryable primary_rate_limited = true
is_retryable secondary_rate_limited = true
is_retryable github_unavailable = true
is_retryable operation_timeout = true
is_retryable _ = false

-- `1 << min(retries-1, 4)` minutes; the store's count is at least 1.
abbrev pub retry_minutes : ℕ → ℕ
retry_minutes retries = 2 ^ min (retries - 1) 4

abbrev pub same_bool : Bool → Bool → Bool
same_bool true b = b
same_bool false b = not b

-- UPDATE repository_refreshes … WHERE repository = ?
abbrev pub record_health : String → HealthState → Instant → String → List Health → List Health
record_health r state at message [] = []
record_health r state at message (h ∷ hs) =
    let rest = record_health r state at message hs in
    (if str_eq h.repository r
      then record h { state = state; last_attempt = some at; message = message }
      else h)
    ∷ rest

module _ (P : Publication) where
  open P use {PullRequest, Tables}

  -- One hydrated pull request with its JSON and its fingerprint.
  pub record Hydrated : Type 0 where
    pub pull_request : PullRequest
    pub payload : String
    pub fingerprint : Fingerprint

  pub record State : Type 0 where
    pub jobs : JobTable
    pub generations : GenerationTable
    pub health : List Health
    pub tables : Tables

  pub record Environment : Type 0 where
    -- the last s.now().UTC() of a step, for its requeue or completion, and the time of the claim
    pub now : Instant
    pub attempted_at : Instant
    -- the s.now().UTC() before it: of a discovery, of a published batch, or of the 24 hours' test of
    -- handlePhasedFailure
    pub read_at : Instant
    -- parentContext.Err() != nil
    pub context_done : Bool
    -- persistPhaseAttempts
    pub persist_attempts : Result StoreError (Unit {0})
    -- RepositoryProgressCollectedAt
    pub progress_since : Result StoreError Instant
    pub discover : Result GoError (List (ℕ × List String) × List ContextLimit)
    pub hydrate : List Item → Result GoError (List Hydrated)
    -- the JSON of the collected progress
    pub collect_progress : Result GoError String
    -- cachedPullRequests
    pub cached : Result StoreError (ℕ → Option Fingerprint)
    -- publishSnapshot, and whether the repository was published
    pub publish_snapshot :
        Bool → LoadedGeneration → List Item → Tables → Result StoreError Bool × Tables

  unfoldable pub on_jobs : {A : Type 0} → (JobTable → Result StoreError A × JobTable) → Exec State A
  on_jobs f s = ((f s.jobs).0, record s { jobs = (f s.jobs).1 })

  unfoldable pub on_generations :
      {A : Type 0} → (GenerationTable → Result StoreError A × GenerationTable) → Exec State A
  on_generations f s = ((f s.generations).0, record s { generations = (f s.generations).1 })

  unfoldable pub requeue : RefreshJob → Instant → Exec State (Unit {0})
  unfolding on_jobs
  requeue job at = on_jobs (requeue_refresh_job job.id at)

  unfoldable pub complete : RefreshJob → Instant → Exec State (Unit {0})
  unfolding on_jobs
  complete job at = on_jobs (λ t. (ok tt, complete_refresh_job job.id at t))

  unfoldable pub forget : RefreshJob → Exec State (Unit {0})
  unfolding on_generations
  forget job = on_generations (λ t. (ok tt, delete_refresh_generation job.id t))

  -- RecordRefreshResult
  unfoldable pub record_result : RefreshJob → HealthState → Instant → String → Exec State (Unit {0})
  record_result job state at message s =
      (ok tt, record s { health = record_health job.repository state at message s.health })

  -- The end of handlePhasedFailure: the job is given up and the staged work dropped.
  unfoldable pub give_up : RefreshJob → Environment → GoError → Exec State (Unit {0})
  unfolding record_result forget complete
  give_up job env e = do
    if is_incomplete e
        then record_result job refresh_incomplete env.attempted_at "GitHub refresh was incomplete."
        else record_result job refresh_failed env.attempted_at "GitHub refresh failed."
    forget job
    complete job env.now

  unfoldable pub retry : RefreshJob → Environment → GoError → Exec State (Unit {0})
  unfolding on_generations requeue
  retry job env e = do
    let m = bounded_failure_metadata e
    retries ← on_generations (
        record_refresh_generation_retry job.id (category_text m.category) m.detail m.remediation
          m.phase)
    requeue job (add_minutes (retry_minutes retries) env.now)

  -- handlePhasedFailure with a live context.
  unfoldable pub failure_with :
      RefreshJob → Environment → GoError → Bool → Option Generation → Exec State (Unit {0})
  unfolding retry give_up requeue
  failure_with job env e true none = requeue job (add_minutes 1 env.now)
  failure_with job env e true (some g) =
      if within_day env.read_at g.discovered_at then retry job env e else give_up job env e
  failure_with job env e false g = give_up job env e

  -- handlePhasedFailure
  unfoldable pub handle_phased_failure :
      RefreshJob → Environment → GoError → Option Generation → Exec State (Unit {0})
  unfolding failure_with is_retryable
  handle_phased_failure job env e g =
      if env.context_done
      then pure tt
      else failure_with job env e (is_retryable (bounded_failure_metadata e).category) g

  unfoldable pub discovery_of :
      Environment → Instant → List (ℕ × List String) × List ContextLimit → Discovery
  discovery_of env since (members, limits) = record {
    members = members;
    limits = limits;
    discovered_at = env.read_at;
    progress_since = since;
  }

  unfoldable pub store_discovery :
      RefreshJob → Environment → Option Generation → Discovery → Exec State (Unit {0})
  unfolding on_generations
  store_discovery job env none d s = on_generations (start_refresh_generation job d s.jobs.rows) s
  store_discovery job env (some g) d s =
      on_generations (reconcile_refresh_generation_discovery job.id d) s

  -- What follows the reply of the collector.
  unfoldable pub discovered :
      RefreshJob
      → Environment
      → Option Generation
      → Result GoError (List (ℕ × List String) × List ContextLimit)
      → Exec State (Unit {0})
  unfolding handle_phased_failure discovery_of store_discovery requeue
  discovered job env g (err e) = handle_phased_failure job env e g
  discovered job env g (ok found) = do
    since ← lift env.progress_since
    store_discovery job env g (discovery_of env since found)
    requeue job env.now

  -- The discovery of a new generation, or the rediscovery of the one at hand.
  unfoldable pub process_discovery :
      RefreshJob → Environment → Option Generation → Exec State (Unit {0})
  unfolding discovered
  process_discovery job env g = do lift env.persist_attempts; discovered job env g env.discover

  same_fingerprint : Fingerprint → Option Fingerprint → Bool
  same_fingerprint f none = false
  same_fingerprint f (some g) = str_eq f.version g.version && str_eq f.value g.value

  -- The cache outcome of a hydrated pull request.
  unfoldable pub outcome_of : Bool → (ℕ → Option Fingerprint) → ℕ → Fingerprint → CacheOutcome
  unfolding same_fingerprint
  outcome_of forced cached n f =
      if forced then bypass else if same_fingerprint f (cached n) then hit else miss

  -- memberships[number]
  abbrev pub memberships : ℕ → List Item → List String
  memberships n [] = []
  memberships n (x ∷ xs) =
      let rest = memberships n xs in if x.number == n then x.collection_ids else rest

  abbrev pub staged_of : RefreshJob → (ℕ → Option Fingerprint) → List Item → Hydrated → Staged
  staged_of job cached batch h =
      let n = P.number h.pull_request in
      record {
        number = n;
        collection_ids = memberships n batch;
        payload = h.payload;
        fingerprint_version = h.fingerprint.version;
        fingerprint = h.fingerprint.value;
        cache_outcome = outcome_of job.forced cached n h.fingerprint;
      }

  abbrev pub published_of : List Item → Hydrated → PullRequest
  published_of batch h =
      P.with_collections (memberships (P.number h.pull_request) batch) h.pull_request

  unfoldable pub on_batch :
      RefreshJob → Environment → List Staged → List PullRequest → Exec State (Unit {0})
  on_batch job env staged published s =
      let (r, t, w) =
        publish_refresh_generation_batch P job.id staged published env.read_at s.generations
          s.tables in
      (r, record s { generations = t; tables = w })

  -- processHydrationBatch behind the collection of a batch that is not empty.
  unfoldable pub publish_hydrated :
      RefreshJob
      → Environment
      → List Item
      → (ℕ → Option Fingerprint)
      → List Hydrated
      → Exec State (Unit {0})
  unfolding on_batch outcome_of requeue
  publish_hydrated job env batch cached hs = do
    let staged = map (staged_of job cached batch) hs
    if length staged == length batch
        then (do on_batch job env staged (map (published_of batch) hs); requeue job env.now)
        else raise hydration_count_mismatch

  unfoldable pub no_cache : ℕ → Option Fingerprint
  no_cache n = none

  unfoldable pub hydrated :
      RefreshJob
      → Environment
      → Generation
      → List Item
      → (ℕ → Option Fingerprint)
      → Result GoError (List Hydrated)
      → Exec State (Unit {0})
  unfolding publish_hydrated handle_phased_failure
  hydrated job env g batch cached (err e) = handle_phased_failure job env e (some g)
  hydrated job env g batch cached (ok hs) = publish_hydrated job env batch cached hs

  unfoldable pub hydrate_batch :
      RefreshJob → Environment → Generation → List Item → Exec State (Unit {0})
  unfolding hydrated on_generations requeue no_cache
  hydrate_batch job env g [] = do
    on_generations (advance_refresh_generation job.id hydrating progress "")
    requeue job env.now
  hydrate_batch job env g (x ∷ xs) = do
    cached ← lift (if job.forced then ok no_cache else env.cached)
    let reply = env.hydrate (x ∷ xs)
    lift env.persist_attempts
    hydrated job env g (x ∷ xs) cached reply

  -- processHydrationBatch
  unfoldable pub process_hydration : RefreshJob → Environment → Generation → Exec State (Unit {0})
  unfolding hydrate_batch
  process_hydration job env g = do
    batch ←
        reads (λ s. load_refresh_generation_batch job.id refresh_hydration_batch_size s.generations)
    hydrate_batch job env g batch

  unfoldable pub progress_collected :
      RefreshJob → Environment → Generation → Result GoError String → Exec State (Unit {0})
  unfolding handle_phased_failure on_generations requeue
  progress_collected job env g (err e) = handle_phased_failure job env e (some g)
  progress_collected job env g (ok payload) = do
    on_generations (advance_refresh_generation job.id progress publishing payload)
    requeue job env.now

  unfoldable pub process_progress : RefreshJob → Environment → Generation → Exec State (Unit {0})
  unfolding progress_collected
  process_progress job env g = do
    lift env.persist_attempts
    progress_collected job env g env.collect_progress

  unfoldable pub on_snapshot :
      RefreshJob → Environment → LoadedGeneration → List Item → Exec State Bool
  on_snapshot job env g items s =
      let (r, w) = env.publish_snapshot job.forced g items s.tables in (r, record s { tables = w })

  unfoldable pub process_publishing :
      RefreshJob → Environment → LoadedGeneration → Exec State (Unit {0})
  unfolding on_snapshot complete
  process_publishing job env g = do
    items ← reads (λ s. ok (load_staged_refresh_pull_requests job.id s.generations))
    if length items == g.completed_count && g.pending == 0
        then (do published ← on_snapshot job env g items; complete job env.now)
        else raise generation_not_complete

  -- `switch generation.Phase`
  unfoldable pub process_phase :
      Phase → RefreshJob → Environment → LoadedGeneration → Exec State (Unit {0})
  unfolding process_hydration process_progress process_publishing
  process_phase hydrating job env g = process_hydration job env g.generation
  process_phase progress job env g = process_progress job env g.generation
  process_phase publishing job env g = process_publishing job env g

  -- A generation of the other force is dropped.
  unfoldable pub reload :
      RefreshJob → Option LoadedGeneration → Exec State (Option LoadedGeneration)
  unfolding forget
  reload job none = pure none
  reload job (some g) =
      if same_bool g.generation.forced job.forced then pure (some g) else (do forget job; pure none)

  unfoldable pub dispatch :
      RefreshJob → Environment → Option LoadedGeneration → Exec State (Unit {0})
  unfolding process_discovery process_phase
  dispatch job env none = process_discovery job env none
  dispatch job env (some g) =
      if g.generation.rediscovery_requested
      then process_discovery job env (some g.generation)
      else process_phase g.generation.phase job env g

  -- processPhased
  unfoldable pub process_phased : RefreshJob → Environment → Exec State (Unit {0})
  unfolding reload dispatch
  process_phased job env = do
    found ← reads (λ s. ok (load_refresh_generation job.id s.generations))
    g ← reload job found
    dispatch job env g

  -- process, without its logs and its telemetry
  unfoldable pub process : RefreshJob → Environment → Exec State (Unit {0})
  unfolding process_phased record_result
  process job env = do record_result job refresh_running env.attempted_at ""; process_phased job env

-- The claims of RunOnce: at most `concurrency` jobs, until none is due.
unfoldable pub claim_jobs : ℕ → Instant → JobTable → List RefreshJob × JobTable
claim_jobs ℕ.zero now t = ([], t)
claim_jobs (suc n) now t = elim (claim_refresh now t).0 [
  | none ↦ ([], (claim_refresh now t).1)
  | some j ↦ let (js, t') = claim_jobs n now (claim_refresh now t).1 in (j ∷ js, t')
]
