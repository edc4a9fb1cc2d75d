-- ===== src/Storage/Generation.antt =====
-- internal/storage/refresh_generation.go: the durable coordinator of one refresh job. The table is
-- a list of rows; a failed transaction leaves it as it was. The encodings of limits, memberships
-- and times as JSON and text are not modelled: the rows hold the values.
pub mod Batches
pub mod Counts
pub mod Hydrating
pub mod Invariant
pub mod Publishing
pub mod Reconcile
use maintainer_cockpit.Prelude.{
  ℕ, zero, suc, ◌+◌, String, Bool, true, false, not, Option, none, some, List, [], ◌∷◌, ◌++◌, ◌&&◌,
  ◌||◌, ◌==◌, ltb, leb, str_eq, Result, ok, err, if◌then◌else◌, map, keep, count, length, take,
  ◌>>=◌, ◌>>◌, reject,
}
use maintainer_cockpit.Storage.Clock.{Instant, is_zero}
use maintainer_cockpit.Storage.Rows.{
  StoreError, missing_discovery, job_changed, missing_job, missing_generation, no_collection_time,
  invalid_number, batch_size_not_positive, batch_mismatch, incomplete_hydration, not_published,
  wrong_repository, not_pending, not_in_phase, JobStatus, running, RefreshJob, Phase, hydrating,
  progress, publishing, CacheOutcome, hit, miss, bypass, other_outcome, ContextLimit, Item,
  Generation,
}
use maintainer_cockpit.Storage.Jobs.{is_running}

-- RefreshGenerationDiscovery; `members` is the map from pull request numbers to collection ids.
pub record Discovery : Type 0 where
  pub members : List (ℕ × List String)
  pub limits : List ContextLimit
  pub discovered_at : Instant
  pub progress_since : Instant

-- refresh_generations with its AUTOINCREMENT sequence; refresh_job_id is UNIQUE.
pub record GenerationTable : Type 0 where
  pub rows : List Generation
  pub sequence : ℕ

abbrev pub same_phase : Phase → Phase → Bool
same_phase hydrating hydrating = true
same_phase progress progress = true
same_phase publishing publishing = true
same_phase _ _ = false

-- A pending row of refresh_generation_pull_requests, with the columns' defaults.
abbrev pub pending_item : ℕ → List String → Item
pending_item n ids = record {
  number = n;
  collection_ids = ids;
  is_completed = false;
  payload = "";
  fingerprint_version = "";
  fingerprint = "";
  cache_outcome = none;
}

-- INSERT of a discovered pull request, ON CONFLICT(generation_id, number) DO UPDATE SET
-- collection_ids_json; the rows stay in the order of their primary key.
unfoldable pub upsert_item : ℕ → List String → List Item → List Item
upsert_item n ids [] = pending_item n ids ∷ []
upsert_item n ids (x ∷ xs) =
    let rest = upsert_item n ids xs in
    if x.number == n
    then record x { collection_ids = ids } ∷ xs
    else if ltb n x.number
    then pending_item n ids ∷ x ∷ xs
    else x ∷ rest

unfoldable pub upsert_items : List (ℕ × List String) → List Item → List Item
unfolding upsert_item
upsert_items [] xs = xs
upsert_items ((n, ids) ∷ ms) xs = upsert_items ms (upsert_item n ids xs)

unfoldable pub has_number : ℕ → List (ℕ × List String) → Bool
has_number n [] = false
has_number n ((m, ids) ∷ ms) = let rest = has_number n ms in if m == n then true else rest

-- `if number <= 0`
abbrev any_zero : List (ℕ × List String) → Bool
any_zero [] = false
any_zero ((m, ids) ∷ ms) = let rest = any_zero ms in if m == 0 then true else rest

-- A stored checkpoint: NULL for the zero time.
abbrev pub since : Instant → Option Instant
since t = if is_zero t then none else some t

unfoldable pub find_generation : ℕ → List Generation → Option Generation
find_generation job [] = none
find_generation job (g ∷ gs) =
    let rest = find_generation job gs in if g.refresh_job_id == job then some g else rest

-- DELETE FROM refresh_generations WHERE refresh_job_id = ?; the pull requests go with their
-- generation (ON DELETE CASCADE).
unfoldable pub delete_refresh_generation : ℕ → GenerationTable → GenerationTable
delete_refresh_generation job t = record t {
  rows = keep (λ g. not (g.refresh_job_id == job)) t.rows;
}

-- UPDATE refresh_generations … WHERE refresh_job_id = ?
unfoldable pub update_generation : ℕ → (Generation → Generation) → List Generation → List Generation
update_generation job f [] = []
update_generation job f (g ∷ gs) =
    (if g.refresh_job_id == job then f g else g) ∷ update_generation job f gs

abbrev pub new_generation : ℕ → ℕ → String → Bool → Discovery → Generation
new_generation id job repository forced d = record {
  id = id;
  refresh_job_id = job;
  repository = repository;
  phase = hydrating;
  forced = forced;
  discovered_at = d.discovered_at;
  progress_since = since d.progress_since;
  limits = d.limits;
  progress_payload = "";
  rediscovery_requested = false;
  retry_count = 0;
  failure_category = "";
  failure_detail = "";
  failure_remediation = "";
  failure_phase = "";
  created_at = d.discovered_at;
  items = upsert_items d.members [];
}

find_job : ℕ → List RefreshJob → Option RefreshJob
find_job id [] = none
find_job id (j ∷ js) = let rest = find_job id js in if j.id == id then some j else rest

unfoldable pub start_found :
    RefreshJob
    → Discovery
    → GenerationTable
    → Option RefreshJob
    → Result StoreError (Unit {0}) × GenerationTable
unfolding delete_refresh_generation
start_found job d t none = (err missing_job, t)
start_found job d t (some row) =
    if not (str_eq row.repository job.repository) || not (is_running row.status)
    then (err job_changed, t)
    else if any_zero d.members
    then (err invalid_number, t)
    else (let cleared = delete_refresh_generation job.id t in
        (
          ok tt,
          record {
            rows =
                cleared.rows
                ++ new_generation (suc t.sequence) job.id job.repository row.forced d ∷ [];
            sequence = suc t.sequence;
          },
        ))

-- StartRefreshGeneration. The numbers are inserted in ascending order, which the ordered insertion
-- of `upsert_items` gives for any order of the map.
unfoldable pub start_refresh_generation :
    RefreshJob
    → Discovery
    → List RefreshJob
    → GenerationTable
    → Result StoreError (Unit {0}) × GenerationTable
unfolding start_found find_job
start_refresh_generation job d jobs t =
    if job.id == 0 || str_eq job.repository "" || is_zero d.discovered_at
    then (err missing_discovery, t)
    else start_found job d t (find_job job.id jobs)

-- The rows that stay when rediscovery deletes the closed pull requests.
abbrev pub still_open : List (ℕ × List String) → Item → Bool
still_open members x = has_number x.number members

-- What ReconcileRefreshGenerationDiscovery writes to a generation.
abbrev pub reconciled : Discovery → Generation → Generation
reconciled d g = record g {
  phase = hydrating;
  discovered_at = d.discovered_at;
  progress_since = since d.progress_since;
  limits = d.limits;
  progress_payload = "";
  rediscovery_requested = false;
  retry_count = 0;
  failure_category = "";
  failure_detail = "";
  failure_remediation = "";
  failure_phase = "";
  items = upsert_items d.members (keep (still_open d.members) g.items);
}

abbrev is_some : Option Generation → Bool
is_some none = false
is_some (some g) = true

-- ReconcileRefreshGenerationDiscovery
unfoldable pub reconcile_refresh_generation_discovery :
    ℕ → Discovery → GenerationTable → Result StoreError (Unit {0}) × GenerationTable
unfolding find_generation update_generation
reconcile_refresh_generation_discovery job d t =
    if is_zero d.discovered_at
    then (err no_collection_time, t)
    else if not (is_some (find_generation job t.rows))
    then (err missing_generation, t)
    else if any_zero d.members
    then (err invalid_number, t)
    else (ok tt, record t { rows = update_generation job (reconciled d) t.rows })

abbrev pub is_pending : Item → Bool
is_pending x = not x.is_completed

abbrev pub has_outcome : CacheOutcome → Item → Bool
has_outcome hit x = elim x.cache_outcome [ some (hit) ↦ true | _ ↦ false ]
has_outcome miss x = elim x.cache_outcome [ some (miss) ↦ true | _ ↦ false ]
has_outcome bypass x = elim x.cache_outcome [ some (bypass) ↦ true | _ ↦ false ]
has_outcome other_outcome x = elim x.cache_outcome [ some (other_outcome) ↦ true | _ ↦ false ]

-- RefreshGeneration as LoadRefreshGeneration returns it: the row and the counts of its pull requests.
pub record LoadedGeneration : Type 0 where
  pub generation : Generation
  pub pending : ℕ
  pub completed_count : ℕ
  pub cache_hits : ℕ
  pub cache_misses : ℕ
  pub cache_bypasses : ℕ

unfoldable pub loaded : Generation → LoadedGeneration
loaded g = record {
  generation = g;
  pending = count is_pending g.items;
  completed_count = count (λ x. x.is_completed) g.items;
  cache_hits = count (has_outcome hit) g.items;
  cache_misses = count (has_outcome miss) g.items;
  cache_bypasses = count (has_outcome bypass) g.items;
}

-- LoadRefreshGeneration
unfoldable pub load_refresh_generation : ℕ → GenerationTable → Option LoadedGeneration
unfolding find_generation loaded
load_refresh_generation job t = elim (find_generation job t.rows) [
  | none ↦ none
  | some g ↦ some (loaded g)
]

unfoldable pub batch_of : ℕ → Option Generation → List Item
batch_of limit none = []
batch_of limit (some g) =
    if same_phase g.phase hydrating then take limit (keep is_pending g.items) else []

-- LoadRefreshGenerationBatch: the first pending pull requests of a hydrating generation.
unfoldable pub load_refresh_generation_batch :
    ℕ → ℕ → GenerationTable → Result StoreError (List Item)
unfolding batch_of find_generation
load_refresh_generation_batch job limit t =
    if limit == 0
    then err batch_size_not_positive
    else ok (batch_of limit (find_generation job t.rows))

completed_items : Option Generation → List Item
completed_items none = []
completed_items (some g) = keep (λ x. x.is_completed) g.items

-- LoadStagedRefreshPullRequests
unfoldable pub load_staged_refresh_pull_requests : ℕ → GenerationTable → List Item
unfolding completed_items find_generation
load_staged_refresh_pull_requests job t = completed_items (find_generation job t.rows)

abbrev pub clear_failure : Generation → Generation
clear_failure g = record g {
  retry_count = 0;
  failure_category = "";
  failure_detail = "";
  failure_remediation = "";
  failure_phase = "";
}

-- CASE WHEN length(payload) > 0 THEN payload ELSE progress_payload END
abbrev pub advanced_to : Phase → String → Generation → Generation
advanced_to phase payload g = record (clear_failure g) {
  phase = phase;
  progress_payload = if str_eq payload "" then g.progress_payload else payload;
}

unfoldable pub in_phase : Phase → Option Generation → Bool
in_phase from none = false
in_phase from (some g) = same_phase g.phase from

-- AdvanceRefreshGeneration
unfoldable pub advance_refresh_generation :
    ℕ → Phase → Phase → String → GenerationTable → Result StoreError (Unit {0}) × GenerationTable
unfolding in_phase find_generation update_generation
advance_refresh_generation job from to payload t =
    if in_phase from (find_generation job t.rows)
    then (ok tt, record t { rows = update_generation job (advanced_to to payload) t.rows })
    else (err not_in_phase, t)

abbrev pub retried : String → String → String → String → Generation → Generation
retried category detail remediation phase g = record g {
  retry_count = g.retry_count + 1;
  failure_category = category;
  failure_detail = detail;
  failure_remediation = remediation;
  failure_phase = phase;
}

retries_of : Option Generation → Result StoreError ℕ
retries_of none = err missing_generation
retries_of (some g) = ok (g.retry_count + 1)

-- RecordRefreshGenerationRetry: the count after the increment. With no row the update changes
-- nothing and the query fails.
unfoldable pub record_refresh_generation_retry :
    ℕ → String → String → String → String → GenerationTable → Result StoreError ℕ × GenerationTable
unfolding retries_of find_generation update_generation
record_refresh_generation_retry job category detail remediation phase t = (
  retries_of (find_generation job t.rows),
  record t { rows = update_generation job (retried category detail remediation phase) t.rows },
)
