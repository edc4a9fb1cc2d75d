-- ===== src/Storage/Generation/Batches.antt =====
-- PublishRefreshGenerationBatch of internal/storage/refresh_generation.go: one hydrated batch is
-- staged and published in one transaction. The rows of the published pull requests
-- (upsertPullRequestRow, replacePullRequestFiles, replacePullRequestContext, writeAuthorHistory,
-- the collection memberships, writeQualityAssessment) are the parameter `Publication`.
use maintainer_cockpit.Prelude.{
  ℕ, String, Bool, true, false, not, Option, none, some, List, [], ◌∷◌, ◌&&◌, ◌||◌, ◌==◌, str_eq,
  Result, ok, err, if◌then◌else◌, length, ◌>>=◌, ◌>>◌, reject,
}
use maintainer_cockpit.Storage.Clock.{Instant}
use maintainer_cockpit.Storage.Rows.{
  StoreError, batch_mismatch, invalid_number, invalid_pull_request, missing_generation,
  incomplete_hydration, not_published, wrong_repository, not_pending, publication_failed, hydrating,
  CacheOutcome, other_outcome, Item, Generation,
}
use maintainer_cockpit.Storage.Generation.{
  GenerationTable, same_phase, find_generation, update_generation, is_pending, clear_failure,
}

-- Pull requests as the store publishes them, and the tables that it publishes them to. A write is
-- `none` where it fails, and the transaction with it.
pub record Publication : Type 1 where
  pub PullRequest : Type 0
  pub Tables : Type 0
  pub number : PullRequest → ℕ
  pub repository : PullRequest → String
  -- normalizePullRequest
  pub normalize : PullRequest → Option PullRequest
  -- sets CollectionIDs
  pub with_collections : List String → PullRequest → PullRequest
  pub write_rows : PullRequest → Tables → Option Tables
  pub write_quality : List PullRequest → Instant → Tables → Option Tables

-- StagedRefreshPullRequest
pub record Staged : Type 0 where
  pub number : ℕ
  pub collection_ids : List String
  pub payload : String
  pub fingerprint_version : String
  pub fingerprint : String
  pub cache_outcome : CacheOutcome

abbrev known_outcome : CacheOutcome → Bool
known_outcome other_outcome = false
known_outcome _ = true

-- The row of a staged pull request once it is completed.
abbrev pub completed_item : Staged → Item → Item
completed_item s x = record x {
  is_completed = true;
  payload = s.payload;
  fingerprint_version = s.fingerprint_version;
  fingerprint = s.fingerprint;
  cache_outcome = some s.cache_outcome;
}

-- UPDATE … SET status = 'completed' … WHERE number = ? AND status = 'pending'; `none` where no row
-- is affected.
unfoldable pub complete_item : Staged → List Item → Option (List Item)
complete_item s [] = none
complete_item s (x ∷ xs) =
    let rest = complete_item s xs in
    if x.number == s.number && is_pending x
    then some (completed_item s x ∷ xs)
    else elim rest [ none ↦ none | some ys ↦ some (x ∷ ys) ]

-- The job's generation if it is hydrating.
unfoldable pub hydrating_generation : ℕ → GenerationTable → Option Generation
unfolding find_generation
hydrating_generation job t = elim (find_generation job t.rows) [
  | none ↦ none
  | some g ↦ if same_phase g.phase hydrating then some g else none
]

abbrev pub with_items : List Item → Generation → Generation
with_items xs g = record g { items = xs }

abbrev pub from_option {ℓ} : {A : Type ℓ} → StoreError → Option A → Result StoreError A
from_option e none = err e
from_option e (some a) = ok a

module _ (P : Publication) where
  open P use {PullRequest, Tables}

  -- What the transaction carries from one item to the next.
  pub record Batch : Type 0 where
    pub table : GenerationTable
    pub tables : Tables
    pub published : List PullRequest

  -- published[number]: the last pull request of the number, since later ones replace it.
  unfoldable pub find_published : ℕ → List PullRequest → Option PullRequest
  find_published n [] = none
  find_published n (p ∷ ps) = elim (find_published n ps) [
    | some q ↦ some q
    | none ↦ if P.number p == n then some p else none
  ]

  -- A write through the pointer published[number].
  unfoldable pub replace_published : ℕ → PullRequest → List PullRequest → List PullRequest
  unfolding find_published
  replace_published n q [] = []
  replace_published n q (p ∷ ps) =
      let rest = replace_published n q ps in
      elim (find_published n ps) [
        | some _ ↦ p ∷ rest
        | none ↦ if P.number p == n then q ∷ ps else p ∷ ps
      ]

  -- The checks of the pull requests in front of the transaction.
  unfoldable pub normalize_all : List PullRequest → Result StoreError (List PullRequest)
  normalize_all [] = ok []
  normalize_all (p ∷ ps) = do
    reject (P.number p == 0) invalid_number
    q ← from_option (invalid_pull_request (P.number p)) (P.normalize p)
    qs ← normalize_all ps
    ok (q ∷ qs)

  abbrev is_incomplete_item : Staged → Bool
  is_incomplete_item s =
      s.number == 0
      || str_eq s.payload ""
      || str_eq s.fingerprint_version ""
      || str_eq s.fingerprint ""
      || not (known_outcome s.cache_outcome)

  abbrev collections_of : Staged → PullRequest → PullRequest
  collections_of s p = elim s.collection_ids [ [] ↦ p | id ∷ ids ↦ P.with_collections (id ∷ ids) p ]

  -- One round of `for _, item := range items`.
  unfoldable pub publish_item : ℕ → Staged → Batch → Result StoreError Batch
  unfolding find_published replace_published hydrating_generation complete_item update_generation
  publish_item job s b = do
    reject (is_incomplete_item s) (incomplete_hydration s.number)
    p ← from_option (not_published s.number) (find_published s.number b.published)
    g ← from_option missing_generation (hydrating_generation job b.table)
    reject (not (str_eq (P.repository p) g.repository)) (wrong_repository s.number)
    let q = collections_of s p
    w ← from_option publication_failed (P.write_rows q b.tables)
    xs ← from_option (not_pending s.number) (complete_item s g.items)
    ok (record {
      table = record b.table { rows = update_generation job (with_items xs) b.table.rows };
      tables = w;
      published = replace_published s.number q b.published;
    })

  unfoldable pub publish_items : ℕ → List Staged → Batch → Result StoreError Batch
  unfolding publish_item
  publish_items job [] b = ok b
  publish_items job (s ∷ ss) b = do b' ← publish_item job s b; publish_items job ss b'

  unfoldable pub batch_transaction :
      ℕ
      → List Staged
      → List PullRequest
      → Instant
      → GenerationTable
      → Tables
      → Result StoreError (GenerationTable × Tables)
  unfolding normalize_all publish_items update_generation
  batch_transaction job items prs at t w = do
    reject (not (length items == length prs)) batch_mismatch
    ps ← normalize_all prs
    b ← publish_items job items (record { table = t; tables = w; published = ps })
    w' ← from_option publication_failed (P.write_quality b.published at b.tables)
    ok (record b.table { rows = update_generation job clear_failure b.table.rows }, w')

  unfoldable pub commit_batch :
      GenerationTable
      → Tables
      → Result StoreError (GenerationTable × Tables)
      → Result StoreError (Unit {0}) × GenerationTable × Tables
  commit_batch t w (err e) = (err e, t, w)
  commit_batch t w (ok (t', w')) = (ok tt, t', w')

  -- PublishRefreshGenerationBatch
  unfoldable pub publish_refresh_generation_batch :
      ℕ
      → List Staged
      → List PullRequest
      → Instant
      → GenerationTable
      → Tables
      → Result StoreError (Unit {0}) × GenerationTable × Tables
  unfolding batch_transaction commit_batch
  publish_refresh_generation_batch job items prs at t w =
      commit_batch t w (batch_transaction job items prs at t w)
