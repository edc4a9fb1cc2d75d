-- ===== src/Storage/Ancillary.antt =====
-- The shared queue of public author evidence: ancillary_author_jobs, ancillary_queue and authors
-- (internal/storage/author_evidence.go and store.go).
pub mod Pacing
use maintainer_cockpit.Prelude.{
  ℕ, suc, ◌+◌, ℤ, same_int, String, Bool, true, false, not, Option, none, some, List, [], ◌∷◌, ◌++◌,
  ◌&&◌, ◌||◌, map, count, ◌==◌, leb, if◌then◌else◌, Result, ok, err,
}
use maintainer_cockpit.Storage.Clock.{Instant, stored_le}
use maintainer_cockpit.Storage.Rows.{JobStatus, queued, running, completed}

-- ancillary_author_jobs
pub record AncillaryJob : Type 0 where
  pub id : ℕ
  pub author_id : ℤ
  pub login : String
  pub status : JobStatus
  pub scheduled_for : Instant
  pub started_at : Option Instant
  pub finished_at : Option Instant

-- authors.ancillary_status
pub data AncillaryStatus : Type 0 where
  pending complete failed : AncillaryStatus

-- authors; recent_activity is a JSON text
pub record AuthorRow : Type 0 where
  pub id : ℤ
  pub login : String
  pub account_created_at : Option Instant
  pub history_complete : Bool
  pub recent_activity : String
  pub collected_at : Instant
  pub ancillary_status : AncillaryStatus
  pub ancillary_collected_at : Option Instant
  pub ancillary_attempted_at : Option Instant
  pub ancillary_error : String

-- The tables; next_attempt_at is the one row of ancillary_queue.
pub record AncillaryTables : Type 0 where
  pub jobs : List AncillaryJob
  pub sequence : ℕ
  pub next_attempt_at : Option Instant
  pub authors : List AuthorRow

-- The facts that a successful collection stores, the activity as JSON.
pub record Collected : Type 0 where
  pub account_created_at : Instant
  pub recent_activity : String

pub data AncillaryError : Type 0 where
  collection_not_found : AncillaryError

-- AncillaryRequestInterval in seconds
abbrev pub ancillary_request_interval : ℕ
ancillary_request_interval = 65

abbrev pub is_active : JobStatus → Bool
is_active queued = true
is_active running = true
is_active completed = false

abbrev pub is_running : JobStatus → Bool
is_running running = true
is_running _ = false

abbrev pub is_queued : JobStatus → Bool
is_queued queued = true
is_queued _ = false

-- The unique index ancillary_author_jobs_active.
abbrev pub has_active_job : ℤ → List AncillaryJob → Bool
has_active_job author [] = false
has_active_job author (j ∷ js) =
    (is_active j.status && same_int j.author_id author) || has_active_job author js

-- INSERT OR IGNORE of one selected author: how many rows were added, and the tables.
unfoldable pub insert_job : Instant → ℤ × String → ℕ × AncillaryTables → ℕ × AncillaryTables
insert_job now (author, login) (added, t) = if has_active_job author t.jobs then (added, t) else (
  suc added,
  record t {
    jobs =
        t.jobs
        ++ record {
          id = suc t.sequence;
          author_id = author;
          login = login;
          status = queued;
          scheduled_for = now;
          started_at = none;
          finished_at = none;
        }
          ∷ [];
    sequence = suc t.sequence;
  },
)

unfoldable pub insert_jobs : Instant → List (ℤ × String) → ℕ × AncillaryTables → ℕ × AncillaryTables
unfolding insert_job
insert_jobs now [] x = x
insert_jobs now (a ∷ rest) x = insert_jobs now rest (insert_job now a x)

abbrev mark_pending : List AncillaryJob → AuthorRow → AuthorRow
mark_pending jobs a =
    if has_active_job a.id jobs then record a { ancillary_status = pending } else a

-- EnqueueAncillaryAuthorRefresh: whether the collection is there and active, and the different
-- authors of its pull requests in the order of their last collection, are read from other tables.
unfoldable pub enqueue_ancillary_author_refresh :
    Option Bool
    → List (ℤ × String)
    → Instant
    → AncillaryTables
    → Result AncillaryError ℕ × AncillaryTables
unfolding insert_jobs
enqueue_ancillary_author_refresh (some true) authors now t =
    let (added, t') = insert_jobs now authors (0, t) in
    (ok added, record t' { authors = map (mark_pending t'.jobs) t'.authors })
enqueue_ancillary_author_refresh active authors now t = (err collection_not_found, t)

abbrev pub is_later : Option Instant → Instant → Bool
is_later none now = false
is_later (some next) now = not (stored_le next now)

-- The check of claimEvidenceJob for this table.
abbrev pub blocked : Instant → AncillaryTables → Bool
blocked now t = is_later t.next_attempt_at now || not (count (λ j. is_running j.status) t.jobs == 0)

-- ORDER BY scheduled_for, id
abbrev before : AncillaryJob → AncillaryJob → Bool
before j k =
    if stored_le j.scheduled_for k.scheduled_for
    then (if stored_le k.scheduled_for j.scheduled_for then leb j.id k.id else true)
    else false

abbrev sooner : AncillaryJob → Option AncillaryJob → AncillaryJob
sooner j none = j
sooner j (some k) = if before j k then j else k

-- The row that the query of claimEvidenceJob selects.
unfoldable pub next_job : Instant → List AncillaryJob → Option AncillaryJob
next_job now [] = none
next_job now (j ∷ js) =
    let rest = next_job now js in
    if is_queued j.status && stored_le j.scheduled_for now then some (sooner j rest) else rest

abbrev start_job : ℕ → Instant → AncillaryJob → AncillaryJob
start_job id now j =
    if j.id == id && is_queued j.status
    then record j { status = running; started_at = some now }
    else j

abbrev pub after_interval : Instant → Instant
after_interval now = record now { seconds = now.seconds + ancillary_request_interval }

-- ClaimAncillaryAuthorEvidence with claimEvidenceJob
unfoldable pub claim_ancillary_author_evidence :
    Instant → AncillaryTables → Option AncillaryJob × AncillaryTables
unfolding next_job
claim_ancillary_author_evidence now t =
    if blocked now t then (none, t) else elim (next_job now t.jobs) [
      | none ↦ (none, t)
      | some job ↦ (
        some job,
        record t {
          jobs = map (start_job job.id now) t.jobs;
          next_attempt_at = some (after_interval now);
          authors =
              map
                (λ a.
                  if same_int a.id job.author_id
                  then record a { ancillary_attempted_at = some now }
                  else a)
                t.authors;
        },
      )
    ]

-- ON CONFLICT DO UPDATE SET next_attempt_at = MAX(next_attempt_at, excluded.next_attempt_at)
abbrev pub later_attempt : Option Instant → Instant → Instant
later_attempt none at = at
later_attempt (some next) at = if stored_le next at then at else next

-- RequeueAncillaryAuthorEvidence
unfoldable pub requeue_ancillary_author_evidence :
    AncillaryJob → Instant → Instant → String → AncillaryTables → AncillaryTables
requeue_ancillary_author_evidence job now retry_at detail t = record t {
  jobs =
      map
        (λ j.
          if j.id == job.id && is_running j.status
          then record j { status = queued; scheduled_for = retry_at; finished_at = none }
          else j)
        t.jobs;
  authors =
      map
        (λ a.
          if same_int a.id job.author_id
          then record a {
            ancillary_status = pending;
            ancillary_attempted_at = some now;
            ancillary_error = detail;
          }
          else a)
        t.authors;
  next_attempt_at = some (later_attempt t.next_attempt_at retry_at);
}

abbrev settled : Option Collected → Instant → AuthorRow → AuthorRow
settled (some facts) at a = record a {
  account_created_at = some facts.account_created_at;
  recent_activity = facts.recent_activity;
  history_complete = true;
  collected_at = at;
  ancillary_status = complete;
  ancillary_collected_at = some at;
  ancillary_attempted_at = some at;
  ancillary_error = "";
}
settled none at a = record a {
  ancillary_status = failed;
  ancillary_attempted_at = some at;
  ancillary_error = "Public author collection failed.";
}

-- CompleteAncillaryAuthorEvidence, with the facts or after an error
unfoldable pub complete_ancillary_author_evidence :
    AncillaryJob → Option Collected → Instant → AncillaryTables → AncillaryTables
complete_ancillary_author_evidence job facts at t = record t {
  authors = map (λ a. if same_int a.id job.author_id then settled facts at a else a) t.authors;
  jobs =
      map
        (λ j. if j.id == job.id then record j { status = completed; finished_at = some at } else j)
        t.jobs;
}

-- RecoverEvidenceJobs, of this table
unfoldable pub recover_evidence_jobs : AncillaryTables → AncillaryTables
recover_evidence_jobs t = record t {
  jobs =
      map (λ j. if is_running j.status then record j { status = queued; started_at = none } else j)
        t.jobs;
}

-- AncillaryQueueDepth
unfoldable pub ancillary_queue_depth : AncillaryTables → ℕ
ancillary_queue_depth t = count (λ j. is_queued j.status) t.jobs
