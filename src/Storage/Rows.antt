-- ===== src/Storage/Rows.antt =====
-- The rows of refresh_jobs, refresh_generations and refresh_generation_pull_requests, and the
-- errors of the operations on them (internal/storage/store.go, refresh_generation.go).
use maintainer_cockpit.Prelude.{ℕ, String, Bool, Option, List}
use maintainer_cockpit.Storage.Clock.{Instant}

-- One constructor for each error that the modelled operations return.
pub data StoreError : Type 0 where
  repository_not_configured : String → StoreError
  missing_discovery job_changed missing_job missing_generation no_collection_time : StoreError
  invalid_number batch_size_not_positive batch_mismatch : StoreError
  invalid_pull_request : ℕ → StoreError
  incomplete_hydration not_published wrong_repository not_pending : ℕ → StoreError
  not_in_phase not_running : StoreError
  hydration_count_mismatch generation_not_complete : StoreError
  store_unavailable : StoreError
  publication_failed : StoreError
  invalid_operation : StoreError
  invalid_attempt : ℕ → StoreError

-- refresh_jobs.status
pub data JobStatus : Type 0 where
  queued running completed : JobStatus

-- refresh_jobs
pub record RefreshJob : Type 0 where
  pub id : ℕ
  pub repository : String
  pub status : JobStatus
  pub scheduled_for : Instant
  pub started_at : Option Instant
  pub finished_at : Option Instant
  pub forced : Bool

-- refresh_generations.phase
pub data Phase : Type 0 where
  hydrating progress publishing : Phase

-- The cache outcomes RefreshCacheHit, RefreshCacheMiss, RefreshCacheBypass, and any other text.
pub data CacheOutcome : Type 0 where
  hit miss bypass other_outcome : CacheOutcome

-- storage.ContextLimit
pub record ContextLimit : Type 0 where
  pub scope : String
  pub reason : String
  pub collected : ℕ
  pub total : ℕ

-- refresh_generation_pull_requests, without its generation's id. A pending row has an empty payload.
pub record Item : Type 0 where
  pub number : ℕ
  pub collection_ids : List String
  pub is_completed : Bool
  pub payload : String
  pub fingerprint_version : String
  pub fingerprint : String
  pub cache_outcome : Option CacheOutcome

-- refresh_generations, with its pull requests in the order of their numbers.
pub record Generation : Type 0 where
  pub id : ℕ
  pub refresh_job_id : ℕ
  pub repository : String
  pub phase : Phase
  pub forced : Bool
  pub discovered_at : Instant
  pub progress_since : Option Instant
  pub limits : List ContextLimit
  pub progress_payload : String
  pub rediscovery_requested : Bool
  pub retry_count : ℕ
  pub failure_category : String
  pub failure_detail : String
  pub failure_remediation : String
  pub failure_phase : String
  pub created_at : Instant
  pub items : List Item
