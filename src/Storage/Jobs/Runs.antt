-- ===== src/Storage/Jobs/Runs.antt =====
-- Any sequence of operations on the queue.
use maintainer_cockpit.Prelude.{
  ℕ, String, Bool, Option, none, some, List, [], ◌∷◌, Bool-cases, inl, inr,
}
use maintainer_cockpit.Storage.Clock.{Instant}
use maintainer_cockpit.Storage.Rows.{RefreshJob}
use maintainer_cockpit.Storage.Jobs.{
  JobTable, enqueue_refresh_with_force, next_due, claim_refresh, claim_selected, start_row,
  finish_row, complete_refresh_job, recover_row, recover_refresh_jobs, is_running_job, requeue_row,
  requeue_refresh_job,
}
use maintainer_cockpit.Storage.Jobs.Invariant.{
  IsValid, RowsOk-map, start_row-KeepsRow, finish_row-KeepsRow, recover_row-KeepsRow,
  requeue_row-KeepsRow, enqueue_refresh_with_force-IsValid,
}

-- A call of one operation by any caller.
pub data QueueCall : Type 0 where
  enqueue : String → Instant → Bool → QueueCall
  claim : Instant → QueueCall
  complete : ℕ → Instant → QueueCall
  requeue : ℕ → Instant → QueueCall
  recover : QueueCall

unfoldable pub step : (String → Bool) → JobTable → QueueCall → JobTable
step configured t (enqueue r at forced) = (enqueue_refresh_with_force configured r at forced t).1
step configured t (claim now) = (claim_refresh now t).1
step configured t (complete id at) = complete_refresh_job id at t
step configured t (requeue id at) = (requeue_refresh_job id at t).1
step configured t recover = recover_refresh_jobs t

unfoldable pub run : (String → Bool) → JobTable → List QueueCall → JobTable
run configured t [] = t
run configured t (c ∷ cs) = run configured (step configured t c) cs

abbrev pub empty_table : JobTable
empty_table = record { rows = []; sequence = 0 }

claim_selected-IsValid :
    (now : Instant) (t : JobTable) (o : Option RefreshJob)
    → IsValid t
    → IsValid (claim_selected now t o).1
unfolding claim_selected
claim_selected-IsValid now t none v = v
claim_selected-IsValid now t (some j) v =
    RowsOk-map (start_row j.id now) (start_row-KeepsRow j.id now) t.sequence t.rows v

pub step-IsValid :
    (configured : String → Bool) (t : JobTable) (c : QueueCall)
    → IsValid t
    → IsValid (step configured t c)
unfolding step claim_refresh complete_refresh_job requeue_refresh_job recover_refresh_jobs
step-IsValid configured t (enqueue r at forced) v =
    enqueue_refresh_with_force-IsValid configured r at forced t v
step-IsValid configured t (claim now) v = claim_selected-IsValid now t (next_due now t.rows) v
step-IsValid configured t (complete id at) v =
    RowsOk-map (finish_row id at) (finish_row-KeepsRow id at) t.sequence t.rows v
step-IsValid configured t (requeue id at) v = elim (Bool-cases (is_running_job id t.rows)) [
  | inl runs ↦
      rw (runs, step)
        (RowsOk-map (requeue_row id at) (requeue_row-KeepsRow id at) t.sequence t.rows v)
  | inr idle ↦ rw (idle, step) v
]
step-IsValid configured t recover v =
    RowsOk-map recover_row recover_row-KeepsRow t.sequence t.rows v

-- After any sequence of requests, claims, completions, requeues and recoveries, from a valid
-- table, the ids of the jobs are distinct and no repository has two active jobs.
pub run-IsValid :
    (configured : String → Bool) (t : JobTable) (cs : List QueueCall)
    → IsValid t
    → IsValid (run configured t cs)
unfolding run
run-IsValid configured t [] v = v
run-IsValid configured t (c ∷ cs) v =
    run-IsValid configured (step configured t c) cs (step-IsValid configured t c v)
