-- ===== src/Refresh/Scheduler/Claims.antt =====
-- The jobs that one round of RunOnce claims.
use maintainer_cockpit.Prelude.{
  ℕ, zero, suc, ◌≤◌, List, [], ◌∷◌, ◌≢◌, arith, All, length, Option-cases, inl, inr,
}
use maintainer_cockpit.Storage.Clock.{Instant}
use maintainer_cockpit.Storage.Rows.{RefreshJob}
use maintainer_cockpit.Storage.Jobs.{JobTable, claim_refresh}
use maintainer_cockpit.Storage.Jobs.Claims.{
  NotQueued, claim_refresh-NotQueued, claim_refresh-NotQueued_self, NotQueued-not_claimed,
}
use maintainer_cockpit.Refresh.Scheduler.{claim_jobs}

abbrev pub DistinctIds : List RefreshJob → Type 0
DistinctIds [] = Unit
DistinctIds (j ∷ js) = All (λ k. k.id ≢ j.id) js × DistinctIds js

claim_jobs_avoid :
    (n : ℕ) (now : Instant) (t : JobTable) (id : ℕ)
    → NotQueued id t.rows
    → All (λ k. k.id ≢ id) (claim_jobs n now t).0
unfolding claim_jobs
claim_jobs_avoid zero now t id h = tt
claim_jobs_avoid (suc n) now t id h = elim (Option-cases (claim_refresh now t).0) [
  | inl e ↦ rw (e, claim_jobs) tt
  | inr (j, e) ↦
      rw (e, claim_jobs)
        (
          NotQueued-not_claimed now t id j h e,
          claim_jobs_avoid n now (claim_refresh now t).1 id (claim_refresh-NotQueued now t id h),
        )
]

-- One round of RunOnce claims no job twice, and no more jobs than the configured concurrency.
pub claim_jobs-DistinctIds :
    (n : ℕ) (now : Instant) (t : JobTable)
    → DistinctIds (claim_jobs n now t).0 × (length (claim_jobs n now t).0 ≤ n)
unfolding claim_jobs
claim_jobs-DistinctIds zero now t = (tt, omega arith)
claim_jobs-DistinctIds (suc n) now t = elim (Option-cases (claim_refresh now t).0) [
  | inl e ↦ rw (e, claim_jobs) (tt, omega arith)
  | inr (j, e) ↦
      let (distinct, few) = claim_jobs-DistinctIds n now (claim_refresh now t).1 in
      rw (e, claim_jobs)
        (
          (
            claim_jobs_avoid n now (claim_refresh now t).1 j.id
                (claim_refresh-NotQueued_self now t j e),
            distinct,
          ),
          omega arith,
        )
]
