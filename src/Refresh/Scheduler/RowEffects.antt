-- ===== src/Refresh/Scheduler/RowEffects.antt =====
-- What the operations that internal/refresh/scheduler.go calls on a failure do to each row: the health
-- record of RecordRefreshResult, the jobs of RequeueRefreshJob and CompleteRefreshJob, and the lookups
-- of generations after their updates.
use maintainer_cockpit.Prelude.{
  ℕ, zero, suc, ◌+◌, ◌-◌, min, String, true, false, not, none, List, [], ◌∷◌, ◌≡◌, refl, arith,
  if◌then◌else◌, Bool-cases, inl, inr, ◌==◌, keep, Pairwise, Any, eq_iff, str_eq,
}
use maintainer_cockpit.Github.Failure.{
  FailureCategory, route_missing, route_ambiguous, installation_missing, installation_suspended,
  repository_not_granted, permission_missing, credential_invalid, public_capability_missing,
  primary_rate_limited, secondary_rate_limited, github_unavailable, operation_timeout,
  operation_canceled, storage, unknown,
}
use maintainer_cockpit.Storage.Clock.{Instant}
use maintainer_cockpit.Storage.Rows.{RefreshJob, JobStatus, queued, running, completed, Generation}
use maintainer_cockpit.Storage.Jobs.{is_running, runs, requeue_row, finish_row, is_running_job}
use maintainer_cockpit.Storage.Generation.{find_generation, update_generation}
use maintainer_cockpit.Storage.Generation.Counts.{map_option}
use maintainer_cockpit.Refresh.Scheduler.{
  Health, HealthState, is_retryable, retry_minutes, add_minutes, record_health,
}
use maintainer_cockpit.Refresh.Scheduler.Outcomes.{
  IsTemporary, backoff, RunsAs, IsRequeued, IsFinished, IsReported,
}

pub retryable-IsTemporary : (c : FailureCategory) → is_retryable c ≡ true → IsTemporary c
unfolding is_retryable
retryable-IsTemporary route_missing h = cc
retryable-IsTemporary route_ambiguous h = cc
retryable-IsTemporary installation_missing h = cc
retryable-IsTemporary installation_suspended h = cc
retryable-IsTemporary repository_not_granted h = cc
retryable-IsTemporary permission_missing h = cc
retryable-IsTemporary credential_invalid h = cc
retryable-IsTemporary public_capability_missing h = cc
retryable-IsTemporary primary_rate_limited h = inl refl
retryable-IsTemporary secondary_rate_limited h = inr (inl refl)
retryable-IsTemporary github_unavailable h = inr (inr (inl refl))
retryable-IsTemporary operation_timeout h = inr (inr (inr refl))
retryable-IsTemporary operation_canceled h = cc
retryable-IsTemporary storage h = cc
retryable-IsTemporary unknown h = cc

pub not_IsTemporary : (c : FailureCategory) → is_retryable c ≡ false → ¬ IsTemporary c
unfolding is_retryable
not_IsTemporary c h (inl e) = cc (rw e at h)
not_IsTemporary c h (inr (inl e)) = cc (rw e at h)
not_IsTemporary c h (inr (inr (inl e))) = cc (rw e at h)
not_IsTemporary c h (inr (inr (inr e))) = cc (rw e at h)

pub retry_minutes-backoff : (n : ℕ) → retry_minutes (n + 1) ≡ backoff n
retry_minutes-backoff zero = omega arith
retry_minutes-backoff (suc zero) = omega arith
retry_minutes-backoff (suc (suc zero)) = omega arith
retry_minutes-backoff (suc (suc (suc zero))) = omega arith
retry_minutes-backoff (suc (suc (suc (suc n)))) =
    let full : min (suc (suc (suc (suc n))) + 1 - 1) 4 ≡ 4 = omega arith in rw full refl

is_running-true : (st : JobStatus) → is_running st ≡ true → st ≡ running
is_running-true queued h = cc
is_running-true running h = refl
is_running-true completed h = cc

runs-RunsAs : (id : ℕ) (x : RefreshJob) → runs id x ≡ true → RunsAs id x
runs-RunsAs id x h = (ground arith, is_running-true x.status (ground arith))

RunsAs-runs : (id : ℕ) (x : RefreshJob) → RunsAs id x → runs id x ≡ true
RunsAs-runs id x h = rw h.1 (ground arith)

pub Any-is_running_job :
    (id : ℕ) (js : List RefreshJob) → Any (RunsAs id) js → is_running_job id js ≡ true
unfolding is_running_job
Any-is_running_job id [] h = absurd h
Any-is_running_job id (j ∷ js) (inl k) = let r = RunsAs-runs id j k in ground arith
Any-is_running_job id (j ∷ js) (inr k) = ground (arith, Any-is_running_job id js k)

pub requeue_row-IsRequeued :
    (id m : ℕ) (now : Instant) (x : RefreshJob)
    → IsRequeued id now m x (requeue_row id (add_minutes m now) x)
requeue_row-IsRequeued id m now x = elim (Bool-cases (runs id x)) [
  | inl e ↦ rw e (inl (runs-RunsAs id x e, refl, refl, refl, refl, refl, refl, refl))
  | inr e ↦ rw e (inr (λ h. let r = RunsAs-runs id x h in cc, refl))
]

pub finish_row-IsFinished :
    (id : ℕ) (now : Instant) (x : RefreshJob) → IsFinished id now x (finish_row id now x)
finish_row-IsFinished id now x = elim (Bool-cases (x.id == id)) [
  | inl e ↦ rw e (inl (ground arith, refl, refl, refl, refl))
  | inr e ↦ rw e (inr (λ h. ground arith, refl))
]

pub record_health-IsReported :
    (r : String) (st : HealthState) (m : String) (at : Instant) (hs : List Health)
    → Pairwise (IsReported r st m at) hs (record_health r st at m hs)
record_health-IsReported r st m at [] = tt
record_health-IsReported r st m at (h ∷ hs) = (
  elim (Bool-cases (str_eq h.repository r)) [
    | inl e ↦
        let own : h.repository ≡ r = ground (arith, eq_iff h.repository r) in
        rw e (inl (own, own, refl, refl, refl))
    | inr e ↦ rw e (inr (λ k. ground (arith, eq_iff h.repository r), refl))
  ],
  record_health-IsReported r st m at hs,
)

pub find_generation-delete :
    (job k : ℕ) (gs : List Generation)
    → find_generation k (keep (λ g. not (g.refresh_job_id == job)) gs)
      ≡ (if k == job then none else find_generation k gs)
unfolding find_generation
find_generation-delete job k [] = ground arith
find_generation-delete job k (g ∷ gs) = ground (arith, find_generation-delete job k gs)

pub find_generation-update_any :
    (job k : ℕ) (f : Generation → Generation) (gs : List Generation)
    → ((g : Generation) → (f g).refresh_job_id ≡ g.refresh_job_id)
    → find_generation k (update_generation job f gs)
      ≡ (if k == job then map_option f (find_generation job gs) else find_generation k gs)
unfolding find_generation update_generation
find_generation-update_any job k f [] h = ground arith
find_generation-update_any job k f (g ∷ gs) h =
    ground (arith, h g, find_generation-update_any job k f gs h)
