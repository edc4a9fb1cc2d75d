-- ===== src/Checks/Queue.antt =====
-- A run of the queue of refresh jobs, and times of one second.
use maintainer_cockpit.Prelude.{
  ◌≤◌, String, Bool, true, false, List, [], ◌∷◌, ◌≡◌, refl, length, arith,
}
use maintainer_cockpit.Storage.Clock.{Instant, stored_le, whole_second_not_stored_le}
use maintainer_cockpit.Storage.Jobs.{JobTable, claim_refresh}
use maintainer_cockpit.Storage.Jobs.Invariant.{IsValid}
use maintainer_cockpit.Storage.Jobs.Runs.{
  QueueCall, enqueue, claim, recover, run, empty_table, run-IsValid,
}
use maintainer_cockpit.Storage.Jobs.Claims.{IsClaim, claim_refresh-IsClaim}
use maintainer_cockpit.Refresh.Scheduler.{claim_jobs}
use maintainer_cockpit.Refresh.Scheduler.Claims.{DistinctIds, claim_jobs-DistinctIds}

abbrev noon : Instant
noon = record { seconds = 43_200; nanos = 0 }

abbrev later : Instant
later = record { seconds = 43_260; nanos = 5 }

abbrev calls : List QueueCall
calls = enqueue "acme/tool" noon false ∷ claim noon ∷ enqueue "acme/site" noon true ∷ recover ∷ []

abbrev every : String → Bool
every r = true

abbrev table : JobTable
table = run every empty_table calls

run-IsValid_example : IsValid (run every empty_table calls)
run-IsValid_example = run-IsValid every empty_table calls tt

claim_refresh-IsClaim_example : IsClaim later table (claim_refresh later table)
claim_refresh-IsClaim_example = claim_refresh-IsClaim later table

claim_jobs-DistinctIds_example :
    DistinctIds (claim_jobs 3 later table).0 × (length (claim_jobs 3 later table).0 ≤ 3)
claim_jobs-DistinctIds_example = claim_jobs-DistinctIds 3 later table

-- Both jobs are claimed.
both_claimed : length (claim_jobs 3 later table).0 ≡ 2
unfolding claim_jobs run claim_refresh maintainer_cockpit.Storage.Jobs.Runs.step
    maintainer_cockpit.Storage.Jobs.recover_refresh_jobs
    maintainer_cockpit.Storage.Jobs.enqueue_refresh_with_force stored_le
both_claimed = refl

whole_second_not_stored_le_example :
    (stored_le (record { seconds = 43_260; nanos = 0 }) (record { seconds = 43_260; nanos = 5 })
      ≡ false)
    × (stored_le (record { seconds = 43_260; nanos = 5 }) (record { seconds = 43_260; nanos = 0 })
        ≡ true)
whole_second_not_stored_le_example = whole_second_not_stored_le 43_260 5 (omega arith)
