-- ===== src/Checks/Stepping.antt =====
-- The scheduler on one repository with two open pull requests.
use maintainer_cockpit.Prelude.{
  Any, ℕ, ◌+◌, ◌-◌, true, false, none, some, List, [], ◌∷◌, ◌≡◌, refl, map, arith, ok, length, keep,
  count, Bool-cases, inl, inr, subst, ◌==◌,
}
use maintainer_cockpit.Github.Failure.{deadline_exceeded}
use maintainer_cockpit.Storage.Clock.{Instant}
use maintainer_cockpit.Storage.Rows.{
  RefreshJob, running, Phase, hydrating, publishing, miss, Item, Generation,
}
use maintainer_cockpit.Storage.Jobs.{
  JobTable, is_running_job, requeue_refresh_job, complete_refresh_job,
}
use maintainer_cockpit.Storage.Jobs.Invariant.{IsValid}
use maintainer_cockpit.Storage.Generation.{
  Discovery, GenerationTable, LoadedGeneration, loaded, find_generation, pending_item, is_pending,
  reconciled, record_refresh_generation_retry, delete_refresh_generation, find_generation,
}
use maintainer_cockpit.Storage.Generation.Batches.{
  Publication, Staged, completed_item, publish_refresh_generation_batch,
}
use maintainer_cockpit.Storage.Generation.Counts.{
  HasPending, HasProgress, publish_refresh_generation_batch-pending,
}
use maintainer_cockpit.Storage.Generation.Reconcile.{
  find_item, members_of, rediscovered, reconciled-find_item,
}
use maintainer_cockpit.Storage.Generation.Invariant.{TableOk, IsCoherent}
use maintainer_cockpit.Refresh.Exec.{◌>>=◌}
use maintainer_cockpit.Refresh.Scheduler.{
  State, Environment, Hydrated, Fingerprint, refresh_stale, process, handle_phased_failure,
  process_publishing, on_snapshot, complete, process_hydration,
}
use maintainer_cockpit.Refresh.Scheduler.Phases.{IsCoherentState, process-IsCoherentState}
use maintainer_cockpit.Refresh.Scheduler.Retries.{handle_phased_failure-Outcome}
use maintainer_cockpit.Refresh.Scheduler.Outcomes.{Outcome, RunsAs}
use maintainer_cockpit.Refresh.Scheduler.Progress.{
  process_publishing-complete, process_hydration-pending,
}

-- A pull request by its number, and tables that list the published ones.
abbrev publication : Publication
publication = record {
  PullRequest = ℕ;
  Tables = List ℕ;
  number = λ p. p;
  repository = λ p. "acme/tool";
  normalize = λ p. some p;
  with_collections = λ ids p. p;
  write_rows = λ p ps. some (p ∷ ps);
  write_quality = λ ps at ws. some ws;
}

abbrev noon : Instant
noon = record { seconds = 43_200; nanos = 0 }

abbrev job : RefreshJob
job = record {
  id = 1;
  repository = "acme/tool";
  status = running;
  scheduled_for = noon;
  started_at = some noon;
  finished_at = none;
  forced = false;
}

abbrev in_phase_with : Phase → List Item → Generation
in_phase_with ph items = record {
  id = 1;
  refresh_job_id = 1;
  repository = "acme/tool";
  phase = ph;
  forced = false;
  discovered_at = noon;
  progress_since = none;
  limits = [];
  progress_payload = "";
  rediscovery_requested = false;
  retry_count = 2;
  failure_category = "";
  failure_detail = "";
  failure_remediation = "";
  failure_phase = "";
  created_at = noon;
  items = items;
}

abbrev two_open : Generation
two_open = in_phase_with hydrating (pending_item 4 ("ui" ∷ []) ∷ pending_item 9 ("ui" ∷ []) ∷ [])

abbrev staged : Staged
staged = record {
  number = 9;
  collection_ids = "ui" ∷ [];
  payload = "payload";
  fingerprint_version = "v1";
  fingerprint = "abc";
  cache_outcome = miss;
}

abbrev all_done : Generation
all_done = in_phase_with publishing (completed_item staged (pending_item 9 ("ui" ∷ [])) ∷ [])

abbrev table_of : Generation → GenerationTable
table_of g = record { rows = g ∷ []; sequence = 1 }

abbrev state_of : Generation → State publication
state_of g = record {
  jobs = record { rows = job ∷ []; sequence = 1 };
  generations = table_of g;
  health =
      record { repository = "acme/tool"; state = refresh_stale; last_attempt = none; message = "" }
      ∷ [];
  tables = [];
}

abbrev fingerprint : Fingerprint
fingerprint = record { version = "v1"; value = "abc" }

abbrev hydrated_item : Item → Hydrated publication
hydrated_item x = record { pull_request = x.number; payload = "payload"; fingerprint = fingerprint }

abbrev environment : Environment publication
environment = record {
  now = noon;
  attempted_at = noon;
  read_at = noon;
  context_done = false;
  persist_attempts = ok tt;
  progress_since = ok noon;
  discover = ok ((4, "ui" ∷ []) ∷ [], []);
  hydrate = λ items. ok (map hydrated_item items);
  collect_progress = ok "progress";
  cached = ok (λ n. none);
  publish_snapshot = λ forced g items w. (ok true, 9 ∷ w);
}

jobs_IsValid : IsValid (record { rows = job ∷ []; sequence = 1 })
unfolding maintainer_cockpit.Storage.Jobs.has_active
jobs_IsValid = (omega arith, refl, λ _. refl, tt)

two_open-IsCoherent : IsCoherent two_open
two_open-IsCoherent = record { in_order = ((omega arith, tt), (tt, tt)); hydrated = λ h. cc }

all_done-IsCoherent : IsCoherent all_done
all_done-IsCoherent = record { in_order = (tt, tt); hydrated = λ h. refl }

one-TableOk : (g : Generation) → IsCoherent g → TableOk (table_of g)
unfolding find_generation
one-TableOk g v = record {
  at = λ n g' h. elim (Bool-cases (g.refresh_job_id == n)) [
    | inl e ↦ let same : g ≡ g' = ground arith in subst IsCoherent same v
    | inr e ↦ absurd (ground arith)
  ];
}

two_open-IsCoherentState : IsCoherentState publication (state_of two_open)
two_open-IsCoherentState = record {
  jobs_ok = jobs_IsValid;
  generations_ok = one-TableOk two_open two_open-IsCoherent;
}

all_done-IsCoherentState : IsCoherentState publication (state_of all_done)
all_done-IsCoherentState = record {
  jobs_ok = jobs_IsValid;
  generations_ok = one-TableOk all_done all_done-IsCoherent;
}

process-IsCoherentState_example :
    IsCoherentState publication (process publication job environment (state_of two_open)).1
process-IsCoherentState_example =
    process-IsCoherentState publication job environment (state_of two_open) two_open-IsCoherentState

two_open_found : find_generation 1 (state_of two_open).generations.rows ≡ some two_open
unfolding find_generation
two_open_found = refl

all_done_found : find_generation 1 (state_of all_done).generations.rows ≡ some all_done
unfolding find_generation
all_done_found = refl

process_publishing-complete_example :
    process_publishing publication job environment (loaded all_done) (state_of all_done)
    ≡ (on_snapshot publication job environment
            (loaded all_done)
            (keep (λ x. x.is_completed) all_done.items)
          >>= λ _. complete publication job environment.now)
        (state_of all_done)
process_publishing-complete_example =
    process_publishing-complete publication job environment (state_of all_done) all_done
      all_done-IsCoherentState all_done_found refl

hydration_succeeds :
    (process_hydration publication job environment two_open (state_of two_open)).0 ≡ ok tt
unfolding process_hydration ◌>>=◌
    maintainer_cockpit.Storage.Generation.load_refresh_generation_batch
    publish_refresh_generation_batch requeue_refresh_job
hydration_succeeds = refl

process_hydration-pending_example :
    HasProgress 1
      (process_hydration publication job environment two_open (state_of two_open)).1.generations
      two_open.items
      (count is_pending two_open.items - 20)
process_hydration-pending_example =
    process_hydration-pending publication job environment (state_of two_open) two_open
      two_open_found refl (omega arith) (λ b. (map hydrated_item b, refl)) hydration_succeeds

batch_published :
    (publish_refresh_generation_batch publication 1
      (staged ∷ [])
      (9 ∷ [])
      noon
      (table_of two_open)
      []).0
    ≡ ok tt
unfolding publish_refresh_generation_batch
batch_published = refl

publish_refresh_generation_batch-pending_example :
    (m : ℕ) × (2 ≡ length (staged ∷ []) + m)
    × HasPending 1
        (publish_refresh_generation_batch publication 1
          (staged ∷ [])
          (9 ∷ [])
          noon
          (table_of two_open)
          []).1
        m
publish_refresh_generation_batch-pending_example =
    publish_refresh_generation_batch-pending publication 1 (staged ∷ []) (9 ∷ []) noon
      (table_of two_open) [] 2 (two_open, two_open_found, refl, refl) batch_published

abbrev one_left : Discovery
one_left = record {
  members = (9, "api" ∷ []) ∷ [];
  limits = [];
  discovered_at = noon;
  progress_since = noon;
}

reconciled-find_item_example :
    find_item 9 (reconciled one_left two_open).items
    ≡ rediscovered 9 (members_of 9 one_left.members) (find_item 9 two_open.items)
reconciled-find_item_example =
    reconciled-find_item one_left two_open 9 ((omega arith, tt), (tt, tt))

job_runs : Any (RunsAs 1) (state_of two_open).jobs.rows
job_runs = inl (refl, refl)

handle_phased_failure-Outcome_example :
    Outcome publication job environment deadline_exceeded (state_of two_open) (some two_open) (
      handle_phased_failure publication job environment deadline_exceeded
        (some two_open)
        (state_of two_open))
handle_phased_failure-Outcome_example =
    handle_phased_failure-Outcome publication job environment deadline_exceeded (state_of two_open)
      (some two_open) refl two_open_found job_runs
