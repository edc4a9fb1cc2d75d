-- ===== src/Checks/Scheduling.antt =====
-- Two cron entries, the first of which is due.
use maintainer_cockpit.Prelude.{
  suc, arith, ◌||◌, ℕ, ◌+◌, String, true, Option, none, [], ◌∷◌, map, ◌≡◌, refl, ok,
}
use mathlib.Core.List.{cons≢nil}
use maintainer_cockpit.Storage.Clock.{Instant, is_zero, zero_time, earlier}
use maintainer_cockpit.Periodic.{
  ScheduledEntry, Coordinator, World, next_time, take_due, run_due, initialize, plan_next,
}
use maintainer_cockpit.Periodic.Waiting.{is_none, next_time-due}
use maintainer_cockpit.Periodic.Due.{call_of, due_at, through_failure, run_due-once}
use maintainer_cockpit.Periodic.Restart.{run_due_times, later_state, initialize-restart}

abbrev at : ℕ → Instant
at n = record { seconds = n; nanos = 0 }

-- A schedule is a number of seconds between two runs.
abbrev every : ℕ → Instant → Instant
every period t = record { seconds = t.seconds + suc period; nanos = 0 }

abbrev fails_never : ℕ → Instant → Option String
fails_never d t = none

abbrev github : ScheduledEntry ℕ ℕ
github = record {
  operation = "github";
  target = "";
  expression = "0 * * * *";
  dispatch = 0;
  schedule = 60;
  next = at 100;
}

abbrev correlation : ScheduledEntry ℕ ℕ
correlation = record github {
  operation = "correlation";
  target = "acme";
  schedule = 300;
  next = at 400;
}

abbrev coordinator : Coordinator ℕ ℕ
coordinator = record { entries = github ∷ correlation ∷ []; initialized = true }

abbrev empty_world : World
empty_world = record { schedules = []; calls = [] }

next_time-due_example :
    earlier (at 150) (next_time coordinator)
    ≡ is_none (take_due every (at 150) coordinator.entries).0
next_time-due_example = next_time-due every (at 150) coordinator cons≢nil (refl, (refl, tt))

every-later : (s : ℕ) → (is_zero (every s (at 150)) || earlier (at 150) (every s (at 150))) ≡ true
every-later s = ground arith

run_due-once_example :
    let (result, c', w') = run_due every fails_never (at 150) (coordinator, empty_world) in
    (w'.calls
      ≡ map
          (call_of (at 150))
          (through_failure fails_never (at 150) (due_at (at 150) coordinator.entries)))
    × (run_due every fails_never (at 150) (c', w') ≡ (ok tt, c', w'))
run_due-once_example = run_due-once every fails_never (at 150) coordinator empty_world every-later

started : (initialize every fails_never (at 10) (coordinator, empty_world)).0 ≡ ok tt
unfolding initialize
started = refl

initialize-restart_example :
    let w' : World =
      (run_due_times every fails_never (at 150 ∷ []) (
        later_state every fails_never
          (initialize every fails_never (at 10) (coordinator, empty_world)))).1 in
    initialize every fails_never (at 200) (coordinator, w') ≡ (
      ok tt,
      record { entries = plan_next every (at 200) coordinator.entries; initialized = true },
      w',
    )
initialize-restart_example =
    initialize-restart every fails_never (at 10) (at 200) (at 150 ∷ []) coordinator empty_world
      started

-- An entry without a next time hides the next times before it.
hidden_by_no_time :
    next_time
      (record coordinator { entries = github ∷ record correlation { next = zero_time } ∷ [] })
    ≡ zero_time
unfolding next_time
hidden_by_no_time = refl
