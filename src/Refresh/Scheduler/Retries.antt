-- ===== src/Refresh/Scheduler/Retries.antt =====
-- handlePhasedFailure of internal/refresh/scheduler.go on every branch: the job waits for a bounded
-- time, or it ends.
use maintainer_cockpit.Prelude.{
  ℕ, Bool, true, false, Option, none, some, ◌≡◌, refl, arith, ok, Bool-cases, inl, inr, map,
  map-Pairwise, Any,
}
use maintainer_cockpit.Github.Failure.{GoError, is_incomplete, category_text}
use maintainer_cockpit.Github.Failure.Metadata.{bounded_failure_metadata}
use maintainer_cockpit.Storage.Rows.{RefreshJob, Generation}
use maintainer_cockpit.Storage.Jobs.{
  requeue_row, finish_row, is_running_job, requeue_refresh_job, complete_refresh_job,
}
use maintainer_cockpit.Storage.Generation.{
  find_generation, update_generation, retried, record_refresh_generation_retry,
  delete_refresh_generation,
}
use maintainer_cockpit.Storage.Generation.Batches.{Publication}
use maintainer_cockpit.Refresh.Exec.{◌>>=◌}
use maintainer_cockpit.Refresh.Scheduler.{
  State, Environment, is_retryable, within_day, add_minutes, handle_phased_failure, requeue,
  on_jobs, on_generations, give_up, retry, record_result, complete, forget, failure_with,
}
use maintainer_cockpit.Refresh.Scheduler.Outcomes.{
  backoff, RunsAs, IsFinished, JobWaits, KeepsWork, GivesUp, Outcome,
}
use maintainer_cockpit.Refresh.Scheduler.RowEffects.{
  retryable-IsTemporary, not_IsTemporary, retry_minutes-backoff, Any-is_running_job,
  requeue_row-IsRequeued, finish_row-IsFinished, record_health-IsReported, find_generation-delete,
  find_generation-update_any,
}

module _ (P : Publication) (job : RefreshJob) (env : Environment P) (e : GoError)
    (s : State P) where
  give_up-GivesUp : GivesUp P job env e s (give_up P job env e s)
  unfolding give_up record_result complete forget on_jobs on_generations ◌>>=◌ complete_refresh_job
      delete_refresh_generation
  give_up-GivesUp =
      let jobs =
        map-Pairwise (IsFinished job.id env.now) (finish_row job.id env.now) s.jobs.rows
          (finish_row-IsFinished job.id env.now) in
      let work = λ (k : ℕ). find_generation-delete job.id k s.generations.rows in
      elim (Bool-cases (is_incomplete e)) [
        | inl i ↦ rw i (refl, jobs, work, record_health-IsReported _ _ _ _ s.health, refl)
        | inr i ↦ rw i (refl, jobs, work, record_health-IsReported _ _ _ _ s.health, refl)
      ]

  requeue-JobWaits :
      (m : ℕ)
      → Any (RunsAs job.id) s.jobs.rows
      → JobWaits P job env e s m (requeue P job (add_minutes m env.now) s)
  unfolding requeue on_jobs requeue_refresh_job
  requeue-JobWaits m h = rw (Any-is_running_job job.id s.jobs.rows h) (
    refl,
    map-Pairwise _ (requeue_row job.id (add_minutes m env.now)) s.jobs.rows
        (requeue_row-IsRequeued job.id m env.now),
    refl,
    refl,
  )

  abbrev noted : Generation → Generation
  noted =
      let m = bounded_failure_metadata e in
      retried (category_text m.category) m.detail m.remediation m.phase

  retry_result :
      (g : Generation)
      → find_generation job.id s.generations.rows ≡ some g
      → is_running_job job.id s.jobs.rows ≡ true
      → retry P job env e s ≡ (
        ok tt,
        record s {
          jobs = record s.jobs {
            rows =
                map (requeue_row job.id (add_minutes (backoff g.retry_count) env.now)) s.jobs.rows;
          };
          generations = record s.generations {
            rows = update_generation job.id noted s.generations.rows;
          };
        },
      )
  unfolding retry on_generations requeue on_jobs record_refresh_generation_retry requeue_refresh_job
      ◌>>=◌
  retry_result g found active = rw (found, active) (rw (retry_minutes-backoff g.retry_count) refl)

  retry-KeepsWork :
      (g : Generation)
      → find_generation job.id s.generations.rows ≡ some g
      → Any (RunsAs job.id) s.jobs.rows
      → JobWaits P job env e s (backoff g.retry_count) (retry P job env e s)
        × KeepsWork P job env e s g (retry P job env e s).1
  retry-KeepsWork g found active =
      rw (retry_result g found (Any-is_running_job job.id s.jobs.rows active)) (
        (
          refl,
          map-Pairwise _ (requeue_row job.id (add_minutes (backoff g.retry_count) env.now))
              s.jobs.rows (requeue_row-IsRequeued job.id (backoff g.retry_count) env.now),
          refl,
          refl,
        ),
        (
          noted g,
          λ k.
              ground
                (arith, find_generation-update_any job.id k noted s.generations.rows (λ x. refl)),
          refl,
          refl,
          refl,
          refl,
          refl,
        ),
      )

  failed :
      (g : Option Generation) (b : Bool)
      → is_retryable (bounded_failure_metadata e).category ≡ b
      → find_generation job.id s.generations.rows ≡ g
      → Any (RunsAs job.id) s.jobs.rows
      → Outcome P job env e s g (failure_with P job env e b g s)
  unfolding failure_with
  failed none true t found active = inl (
    retryable-IsTemporary (bounded_failure_metadata e).category t,
    requeue-JobWaits 1 active,
    refl,
  )
  failed (some g) true t found active = elim (Bool-cases (within_day env.read_at g.discovered_at)) [
    | inl d ↦
        let (waits, keeps) = retry-KeepsWork g found active in
        rw d (
          inl (
            retryable-IsTemporary (bounded_failure_metadata e).category t,
            ground arith,
            waits,
            keeps,
          ))
    | inr d ↦ rw d (inr (λ h. let recent = h.1 in ground arith, give_up-GivesUp))
  ]
  failed none false t found active =
      inr (not_IsTemporary (bounded_failure_metadata e).category t, give_up-GivesUp)
  failed (some g) false t found active =
      inr (λ h. not_IsTemporary (bounded_failure_metadata e).category t h.0, give_up-GivesUp)

  -- In a live context, where the job runs and `g` is its staged work, a failed collection ends in one
  -- of two ways. The job waits exactly if the failure is a rate limit, an unavailable GitHub or a
  -- timeout, and there is no staged work or it was discovered less than 24 hours before: for one
  -- minute without staged work, and else, by the retries so far, for 1, 2, 4, 8 and from then on 16
  -- minutes, with the work kept, one more retry counted, and the health left as it is. On every other
  -- failure the work is dropped, the job completed, and the repository's health says failed, or
  -- incomplete where the error does. The published tables, and the rows of other jobs and
  -- repositories, are as they were.
  pub handle_phased_failure-Outcome :
      (g : Option Generation)
      → env.context_done ≡ false
      → find_generation job.id s.generations.rows ≡ g
      → Any (RunsAs job.id) s.jobs.rows
      → Outcome P job env e s g (handle_phased_failure P job env e g s)
  unfolding handle_phased_failure
  handle_phased_failure-Outcome g live found active =
      rw live (failed g (is_retryable (bounded_failure_metadata e).category) refl found active)
