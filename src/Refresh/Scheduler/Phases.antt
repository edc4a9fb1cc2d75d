-- ===== src/Refresh/Scheduler/Phases.antt =====
-- Processing a job keeps the queue valid and the generations coherent.
use maintainer_cockpit.Prelude.{
  ℕ, String, Bool, true, false, Option, none, some, List, [], ◌∷◌, ◌≡◌, refl, arith, Result, ok,
  err,
}
use maintainer_cockpit.Github.Failure.{GoError}
use maintainer_cockpit.Storage.Clock.{Instant}
use maintainer_cockpit.Storage.Rows.{
  StoreError, RefreshJob, Phase, hydrating, progress, publishing, ContextLimit, Item, Generation,
}
use maintainer_cockpit.Storage.Jobs.Invariant.{IsValid}
use maintainer_cockpit.Storage.Jobs.Runs.{QueueCall, step, step-IsValid}
use maintainer_cockpit.Storage.Generation.{
  Discovery, LoadedGeneration, load_refresh_generation_batch, same_phase,
  advance_refresh_generation, record_refresh_generation_retry,
}
use maintainer_cockpit.Storage.Generation.Batches.{Publication, Staged}
use maintainer_cockpit.Storage.Generation.Invariant.{
  TableOk, delete-TableOk, start_refresh_generation-TableOk,
  reconcile_refresh_generation_discovery-TableOk, advance_refresh_generation-TableOk,
  record_refresh_generation_retry-TableOk,
}
use maintainer_cockpit.Storage.Generation.Publishing.{
  publish_refresh_generation_batch-TableOk, empty_batch-pending,
}
use maintainer_cockpit.Refresh.Exec.{Exec, continue, ◌>>=◌}
use maintainer_cockpit.Refresh.Exec.Rules.{Preserves, bind-after, preservation}
use maintainer_cockpit.Refresh.Scheduler.{
  State, Environment, Hydrated, Fingerprint, on_generations, requeue, complete, forget,
  record_result, HealthState, give_up, retry, failure_with, handle_phased_failure,
  process_discovery, discovered, store_discovery, publish_hydrated, on_batch, hydrated,
  hydrate_batch, process_hydration, process_progress, progress_collected, process_publishing,
  on_snapshot, process_phase, reload, dispatch, process_phased, process,
  refresh_hydration_batch_size, on_jobs,
}

not_hydrating : (ph : Phase) → same_phase ph progress ≡ true → same_phase ph hydrating ≡ false
not_hydrating ph h = ground arith

module _ (P : Publication) where
  -- The queue is valid, and the generations of the state are coherent.
  pub record IsCoherentState (s : State P) : Type 0 where
    pub jobs_ok : IsValid s.jobs
    pub generations_ok : TableOk s.generations

  abbrev pub Keeps : {A : Type 0} → Exec (State P) A → Type 0
  Keeps m = Preserves IsCoherentState m

  requeue-Keeps : (job : RefreshJob) (at : Instant) → Keeps (requeue P job at)
  unfolding requeue on_jobs step
  requeue-Keeps job at = record {
    after = λ s v. record {
      jobs_ok = step-IsValid (λ r. true) s.jobs (QueueCall.requeue job.id at) v.jobs_ok;
      generations_ok = v.generations_ok;
    };
  }

  complete-Keeps : (job : RefreshJob) (at : Instant) → Keeps (complete P job at)
  unfolding complete on_jobs step
  complete-Keeps job at = record {
    after = λ s v. record {
      jobs_ok = step-IsValid (λ r. true) s.jobs (QueueCall.complete job.id at) v.jobs_ok;
      generations_ok = v.generations_ok;
    };
  }

  record_result-Keeps :
      (job : RefreshJob) (h : HealthState) (at : Instant) (m : String)
      → Keeps (record_result P job h at m)
  unfolding record_result
  record_result-Keeps job h at m = record {
    after = λ s v. record { jobs_ok = v.jobs_ok; generations_ok = v.generations_ok };
  }

  on_snapshot-Keeps :
      (job : RefreshJob) (env : Environment P) (g : LoadedGeneration) (items : List Item)
      → Keeps (on_snapshot P job env g items)
  unfolding on_snapshot
  on_snapshot-Keeps job env g items = record {
    after = λ s v. record { jobs_ok = v.jobs_ok; generations_ok = v.generations_ok };
  }

  forget-Keeps : (job : RefreshJob) → Keeps (forget P job)
  unfolding forget on_generations
  forget-Keeps job = record {
    after = λ s v. record {
      jobs_ok = v.jobs_ok;
      generations_ok = delete-TableOk job.id s.generations v.generations_ok;
    };
  }

  record_retry-Keeps :
      (job : ℕ) (a b c d : String)
      → Keeps (on_generations P (record_refresh_generation_retry job a b c d))
  unfolding on_generations
  record_retry-Keeps job a b c d = record {
    after = λ s v. record {
      jobs_ok = v.jobs_ok;
      generations_ok =
          record_refresh_generation_retry-TableOk job a b c d s.generations v.generations_ok;
    };
  }

  store_discovery-Keeps :
      (job : RefreshJob) (env : Environment P) (g : Option Generation) (d : Discovery)
      → Keeps (store_discovery P job env g d)
  unfolding store_discovery
  store_discovery-Keeps job env none d = record {
    after = λ s v. record {
      jobs_ok = v.jobs_ok;
      generations_ok =
          start_refresh_generation-TableOk job d s.jobs.rows s.generations v.generations_ok;
    };
  }
  store_discovery-Keeps job env (some g) d = record {
    after = λ s v. record {
      jobs_ok = v.jobs_ok;
      generations_ok =
          reconcile_refresh_generation_discovery-TableOk job.id d s.generations v.generations_ok;
    };
  }

  on_batch-Keeps :
      (job : RefreshJob) (env : Environment P) (ss : List Staged) (ps : List P.PullRequest)
      → Keeps (on_batch P job env ss ps)
  unfolding on_batch
  on_batch-Keeps job env ss ps = record {
    after = λ s v. record {
      jobs_ok = v.jobs_ok;
      generations_ok =
          publish_refresh_generation_batch-TableOk P job.id ss ps env.read_at s.generations s.tables
            v.generations_ok;
    };
  }

  ruleset table_rules = (
    preservation, requeue-Keeps, complete-Keeps, record_result-Keeps, on_snapshot-Keeps,
    forget-Keeps, record_retry-Keeps, store_discovery-Keeps, on_batch-Keeps,
  )

  give_up-Keeps :
      (job : RefreshJob) (env : Environment P) (e : GoError) → Keeps (give_up P job env e)
  unfolding give_up
  give_up-Keeps job env e = search table_rules

  retry-Keeps : (job : RefreshJob) (env : Environment P) (e : GoError) → Keeps (retry P job env e)
  unfolding retry
  retry-Keeps job env e = search table_rules

  failure_with-Keeps :
      (job : RefreshJob) (env : Environment P) (e : GoError) (b : Bool) (g : Option Generation)
      → Keeps (failure_with P job env e b g)
  unfolding failure_with
  failure_with-Keeps job env e true none = search table_rules
  failure_with-Keeps job env e true (some g) =
      search (table_rules, retry-Keeps job env e, give_up-Keeps job env e)
  failure_with-Keeps job env e false g = give_up-Keeps job env e

  handle_phased_failure-Keeps :
      (job : RefreshJob) (env : Environment P) (e : GoError) (g : Option Generation)
      → Keeps (handle_phased_failure P job env e g)
  unfolding handle_phased_failure
  handle_phased_failure-Keeps job env e g = search (table_rules, failure_with-Keeps)

  discovered-Keeps :
      (job : RefreshJob) (env : Environment P) (g : Option Generation)
      (r : Result GoError (List (ℕ × List String) × List ContextLimit))
      → Keeps (discovered P job env g r)
  unfolding discovered
  discovered-Keeps job env g (err e) = handle_phased_failure-Keeps job env e g
  discovered-Keeps job env g (ok found) = search table_rules

  process_discovery-Keeps :
      (job : RefreshJob) (env : Environment P) (g : Option Generation)
      → Keeps (process_discovery P job env g)
  unfolding process_discovery
  process_discovery-Keeps job env g = search (table_rules, discovered-Keeps)

  hydrated-Keeps :
      (job : RefreshJob) (env : Environment P) (g : Generation) (batch : List Item)
      (cached : ℕ → Option Fingerprint) (r : Result GoError (List (Hydrated P)))
      → Keeps (hydrated P job env g batch cached r)
  unfolding hydrated publish_hydrated
  hydrated-Keeps job env g batch cached (err e) = handle_phased_failure-Keeps job env e (some g)
  hydrated-Keeps job env g batch cached (ok hs) = search table_rules

  hydrate_batch-Keeps :
      (job : RefreshJob) (env : Environment P) (g : Generation) (x : Item) (xs : List Item)
      → Keeps (hydrate_batch P job env g (x ∷ xs))
  unfolding hydrate_batch
  hydrate_batch-Keeps job env g x xs = search (table_rules, hydrated-Keeps)

  -- The advance behind an empty batch: nothing is pending then.
  finish_hydration-after :
      (job : RefreshJob) (env : Environment P) (g : Generation) (s : State P)
      → load_refresh_generation_batch job.id refresh_hydration_batch_size s.generations ≡ ok []
      → IsCoherentState s
      → IsCoherentState (hydrate_batch P job env g [] s).1
  unfolding hydrate_batch
  finish_hydration-after job env g s empty v =
      bind-after (on_generations P (advance_refresh_generation job.id hydrating progress ""))
        (λ _. requeue P job env.now) s
        (unfold on_generations in
          record {
            jobs_ok = v.jobs_ok;
            generations_ok =
                advance_refresh_generation-TableOk job.id hydrating progress "" s.generations
                  (λ h found ph. empty_batch-pending job.id 19 s.generations h empty found ph)
                  v.generations_ok;
          })
        (λ _. requeue-Keeps job env.now)

  loaded_batch-after :
      (job : RefreshJob) (env : Environment P) (g : Generation) (s : State P)
      (r : Result StoreError (List Item))
      → load_refresh_generation_batch job.id refresh_hydration_batch_size s.generations ≡ r
      → IsCoherentState s
      → IsCoherentState (continue r (hydrate_batch P job env g) s).1
  loaded_batch-after job env g s (err e) q v = v
  loaded_batch-after job env g s (ok []) q v = finish_hydration-after job env g s q v
  loaded_batch-after job env g s (ok (x ∷ xs)) q v = (hydrate_batch-Keeps job env g x xs).after s v

  process_hydration-Keeps :
      (job : RefreshJob) (env : Environment P) (g : Generation)
      → Keeps (process_hydration P job env g)
  unfolding process_hydration ◌>>=◌
  process_hydration-Keeps job env g = record {
    after = λ s v. loaded_batch-after job env g s _ refl v;
  }

  -- Behind the progress phase nothing is pending, since only a hydrating generation has such work.
  finish_progress-Keeps :
      (job : RefreshJob) (payload : String)
      → Keeps (on_generations P (advance_refresh_generation job.id progress publishing payload))
  unfolding on_generations
  finish_progress-Keeps job payload = record {
    after = λ s v. record {
      jobs_ok = v.jobs_ok;
      generations_ok =
          advance_refresh_generation-TableOk job.id progress publishing payload s.generations
            (λ h found ph. (v.generations_ok.at job.id h found).hydrated (not_hydrating h.phase ph))
            v.generations_ok;
    };
  }

  progress_collected-Keeps :
      (job : RefreshJob) (env : Environment P) (g : Generation) (r : Result GoError String)
      → Keeps (progress_collected P job env g r)
  unfolding progress_collected
  progress_collected-Keeps job env g (err e) = handle_phased_failure-Keeps job env e (some g)
  progress_collected-Keeps job env g (ok payload) = search (table_rules, finish_progress-Keeps)

  process_phase-Keeps :
      (ph : Phase) (job : RefreshJob) (env : Environment P) (g : LoadedGeneration)
      → Keeps (process_phase P ph job env g)
  unfolding process_phase process_progress process_publishing
  process_phase-Keeps hydrating job env g = process_hydration-Keeps job env g.generation
  process_phase-Keeps progress job env g = search (table_rules, progress_collected-Keeps)
  process_phase-Keeps publishing job env g = search table_rules

  reload-Keeps : (job : RefreshJob) (o : Option LoadedGeneration) → Keeps (reload P job o)
  unfolding reload
  reload-Keeps job none = search table_rules
  reload-Keeps job (some g) = search table_rules

  dispatch-Keeps :
      (job : RefreshJob) (env : Environment P) (o : Option LoadedGeneration)
      → Keeps (dispatch P job env o)
  unfolding dispatch
  dispatch-Keeps job env none = process_discovery-Keeps job env none
  dispatch-Keeps job env (some g) =
      search (table_rules, process_discovery-Keeps, process_phase-Keeps)

  process_phased-Keeps : (job : RefreshJob) (env : Environment P) → Keeps (process_phased P job env)
  unfolding process_phased
  process_phased-Keeps job env = search (table_rules, reload-Keeps, dispatch-Keeps)

  process-Keeps : (job : RefreshJob) (env : Environment P) → Keeps (process P job env)
  unfolding process
  process-Keeps job env = search (table_rules, process_phased-Keeps)

  -- Whatever the collector and the store's other tables answer, processing a job, failing or not,
  -- keeps the queue's ids distinct with at most one active job for a repository, every generation's
  -- pull requests in key order, and pending pull requests in hydrating generations only.
  pub process-IsCoherentState :
      (job : RefreshJob) (env : Environment P) (s : State P)
      → IsCoherentState s
      → IsCoherentState (process P job env s).1
  process-IsCoherentState job env s v = (process-Keeps job env).after s v
