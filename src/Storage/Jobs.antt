-- ===== src/Storage/Jobs.antt =====
-- The durable refresh queue: the operations on refresh_jobs of internal/storage/store.go
-- (EnqueueRefreshWithForce, ClaimRefresh, CompleteRefreshJob, RecoverRefreshJobs) and
-- RequeueRefreshJob of refresh_generation.go. A failed transaction leaves the table as it was.
pub mod Claims
pub mod Invariant
pub mod Order
pub mod Runs
use maintainer_cockpit.Prelude.{
  ℕ, suc, ◌+◌, String, Bool, true, false, Option, none, some, List, [], ◌∷◌, ◌++◌, ◌&&◌, ◌==◌, leb,
  str_eq, Result, ok, err, if◌then◌else◌, map,
}
use maintainer_cockpit.Storage.Clock.{Instant, stored_le}
use maintainer_cockpit.Storage.Rows.{
  StoreError, repository_not_configured, not_running, JobStatus, queued, running, completed,
  RefreshJob,
}

-- refresh_jobs with its AUTOINCREMENT sequence.
pub record JobTable : Type 0 where
  pub rows : List RefreshJob
  pub sequence : ℕ

-- status IN ('queued', 'running')
abbrev pub is_active : JobStatus → Bool
is_active completed = false
is_active _ = true

abbrev pub is_queued : JobStatus → Bool
is_queued queued = true
is_queued _ = false

abbrev pub is_running : JobStatus → Bool
is_running running = true
is_running _ = false

-- An active row for the repository.
abbrev pub active_for : String → RefreshJob → Bool
active_for repository j = is_active j.status && str_eq j.repository repository

unfoldable pub has_active : String → List RefreshJob → Bool
has_active repository [] = false
has_active repository (j ∷ js) =
    let rest = has_active repository js in if active_for repository j then true else rest

-- INSERT OR IGNORE under the unique index refresh_jobs_one_active, and whether a row was inserted.
unfoldable pub insert_or_ignore : String → Instant → Bool → JobTable → Bool × JobTable
unfolding has_active
insert_or_ignore repository at forced t = if has_active repository t.rows then (false, t) else (
  true,
  record {
    rows =
        t.rows
        ++ record {
          id = suc t.sequence;
          repository = repository;
          status = queued;
          scheduled_for = at;
          started_at = none;
          finished_at = none;
          forced = forced;
        }
          ∷ [];
    sequence = suc t.sequence;
  },
)

-- UPDATE refresh_jobs SET forced = 1 of the repository's active rows
abbrev pub force_row : String → RefreshJob → RefreshJob
force_row repository j = if active_for repository j then record j { forced = true } else j

-- EnqueueRefreshWithForce; `configured` tells the repositories of an active collection.
unfoldable pub enqueue_refresh_with_force :
    (String → Bool) → String → Instant → Bool → JobTable → Result StoreError Bool × JobTable
unfolding insert_or_ignore
enqueue_refresh_with_force configured repository at forced t =
    if configured repository
    then (let (added, t') = insert_or_ignore repository at forced t in
        (ok added, if forced then record t' { rows = map (force_row repository) t'.rows } else t'))
    else (err (repository_not_configured repository), t)

-- EnqueueRefresh
unfoldable pub enqueue_refresh :
    (String → Bool) → String → Instant → JobTable → Result StoreError Bool × JobTable
unfolding enqueue_refresh_with_force
enqueue_refresh configured repository at t =
    enqueue_refresh_with_force configured repository at false t

-- status = 'queued' AND scheduled_for <= now
abbrev pub is_due : Instant → RefreshJob → Bool
is_due now j = is_queued j.status && stored_le j.scheduled_for now

-- ORDER BY scheduled_for, id
abbrev pub before : RefreshJob → RefreshJob → Bool
before j k =
    if stored_le j.scheduled_for k.scheduled_for
    then (if stored_le k.scheduled_for j.scheduled_for then leb j.id k.id else true)
    else false

abbrev better : RefreshJob → Option RefreshJob → RefreshJob
better j none = j
better j (some k) = if before j k then j else k

-- The row that the query of ClaimRefresh selects.
unfoldable pub next_due : Instant → List RefreshJob → Option RefreshJob
next_due now [] = none
next_due now (j ∷ js) =
    let rest = next_due now js in if is_due now j then some (better j rest) else rest

-- UPDATE … SET status = 'running', started_at = now WHERE id = ? AND status = 'queued'
abbrev pub start_row : ℕ → Instant → RefreshJob → RefreshJob
start_row id now j =
    if j.id == id && is_queued j.status
    then record j { status = running; started_at = some now }
    else j

-- ClaimRefresh: the claimed job as it was selected, or none.
claim_selected : Instant → JobTable → Option RefreshJob → Option RefreshJob × JobTable
claim_selected now t none = (none, t)
claim_selected now t (some j) = (some j, record t { rows = map (start_row j.id now) t.rows })

unfoldable pub claim_refresh : Instant → JobTable → Option RefreshJob × JobTable
unfolding next_due claim_selected
claim_refresh now t = claim_selected now t (next_due now t.rows)

-- UPDATE … SET status = 'completed', finished_at = at WHERE id = ?
abbrev pub finish_row : ℕ → Instant → RefreshJob → RefreshJob
finish_row id at j =
    if j.id == id then record j { status = completed; finished_at = some at } else j

-- CompleteRefreshJob
unfoldable pub complete_refresh_job : ℕ → Instant → JobTable → JobTable
complete_refresh_job id at t = record t { rows = map (finish_row id at) t.rows }

-- RecoverRefreshJobs
abbrev pub recover_row : RefreshJob → RefreshJob
recover_row j = if is_running j.status then record j { status = queued; started_at = none } else j

unfoldable pub recover_refresh_jobs : JobTable → JobTable
recover_refresh_jobs t = record t { rows = map recover_row t.rows }

-- WHERE id = ? AND status = 'running'
abbrev pub runs : ℕ → RefreshJob → Bool
runs id j = j.id == id && is_running j.status

abbrev pub requeue_row : ℕ → Instant → RefreshJob → RefreshJob
requeue_row id at j =
    if runs id j then record j { status = queued; scheduled_for = at; started_at = none } else j

-- RowsAffected is 1 exactly if a row with the id runs: the id is the primary key.
unfoldable pub is_running_job : ℕ → List RefreshJob → Bool
is_running_job id [] = false
is_running_job id (j ∷ js) = let rest = is_running_job id js in if runs id j then true else rest

-- RequeueRefreshJob
unfoldable pub requeue_refresh_job :
    ℕ → Instant → JobTable → Result StoreError (Unit {0}) × JobTable
unfolding is_running_job
requeue_refresh_job id at t =
    if is_running_job id t.rows
    then (ok tt, record t { rows = map (requeue_row id at) t.rows })
    else (err not_running, t)
