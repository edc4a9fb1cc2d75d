-- ===== src/Periodic/Restart.antt =====
-- A restart does not repeat the first dispatches.
use maintainer_cockpit.Prelude.{
  true, false, Option, none, some, List, [], ◌∷◌, ◌≡◌, refl, sym, ap, ◌∙◌, subst, ◌↔◌, All,
  All-weaken, Result, ok, err, String, inl, inr, Bool-cases, Option-cases, arith, eq_refl,
}
use maintainer_cockpit.Storage.Clock.{Instant}
use maintainer_cockpit.Storage.Schedules.{
  ScheduleRow, has_schedule, initialize_schedule, record_schedule_dispatch,
  has_schedule-record_schedule_dispatch,
}
use maintainer_cockpit.Periodic.{
  ScheduledEntry, Coordinator, World, PeriodicError, take_due, dispatch_due, run_due, bootstrap,
  plan_next, initialize, called, bootstrap_failed, dispatch_failed, unless_failed, if_first,
}

-- Every target has a row.
abbrev pub AllNoted : {D S : Type 0} → List (ScheduledEntry D S) → List ScheduleRow → Type 0
AllNoted es rows = All (λ e. has_schedule e.operation e.target rows ≡ true) es

-- Rows that have every target of other rows.
abbrev Extends : List ScheduleRow → List ScheduleRow → Type 0
Extends rows rows' = (o t : String) → has_schedule o t rows ≡ true → has_schedule o t rows' ≡ true

initialize_schedule-known :
    (o t : String) (now : Instant) (rows : List ScheduleRow)
    → has_schedule o t rows ≡ true
    → initialize_schedule o t now rows ≡ (false, rows)
unfolding initialize_schedule
initialize_schedule-known o t now rows h = rw h refl

initialize_schedule-new :
    (o t : String) (now : Instant) (rows : List ScheduleRow)
    → has_schedule o t rows ≡ false
    → initialize_schedule o t now rows
      ≡ (true, record { operation = o; target = t; last_dispatched_at = now } ∷ rows)
unfolding initialize_schedule
initialize_schedule-new o t now rows h = rw h refl

-- A new row keeps what was noted, and its target is noted.
new_row-Extends :
    (o t : String) (now : Instant) (rows : List ScheduleRow)
    → let rows' = record { operation = o; target = t; last_dispatched_at = now } ∷ rows in
      Extends rows rows' × (has_schedule o t rows' ≡ true)
unfolding has_schedule
new_row-Extends o t now rows = (λ o' t' h. ground arith, ground (arith, eq_refl o, eq_refl t))

module _ {D S : Type 0} (next_of : S → Instant → Instant)
    (failure : D → Instant → Option String) where
  abbrev pub later_state :
      Result PeriodicError (Unit {0}) × Coordinator D S × World → Coordinator D S × World
  later_state (r, c, w) = (c, w)

  -- Calls of RunDue at several times.
  unfoldable pub run_due_times : List Instant → Coordinator D S × World → Coordinator D S × World
  unfolding run_due
  run_due_times [] x = x
  run_due_times (now ∷ times) x = run_due_times times (later_state (run_due next_of failure now x))

  dispatch_due-Extends :
      (now : Instant) (es : List (ScheduledEntry D S)) (w : World)
      → Extends w.schedules (dispatch_due failure now es w).1.schedules
  unfolding dispatch_due
  dispatch_due-Extends now [] w o t h = h
  dispatch_due-Extends now (e ∷ es) w o t h =
      let noted = record_schedule_dispatch e.operation e.target now w.schedules in
      let kept : has_schedule o t noted ≡ true =
        has_schedule-record_schedule_dispatch o t e.operation e.target now w.schedules h in
      let after : World = called e now (record w { schedules = noted }) in
      elim (Option-cases (failure e.dispatch now)) [
        | inl k ↦
            subst
              (λ f.
                has_schedule o t
                  (unless_failed f (dispatch_failed e.operation) after
                    (dispatch_due failure now es)).1.schedules
                ≡ true)
              (sym k) (dispatch_due-Extends now es after o t kept)
        | inr (text, k) ↦
            subst
              (λ f.
                has_schedule o t
                  (unless_failed f (dispatch_failed e.operation) after
                    (dispatch_due failure now es)).1.schedules
                ≡ true)
              (sym k) kept
      ]

  run_due_times-Extends :
      (times : List Instant) (c : Coordinator D S) (w : World)
      → Extends w.schedules (run_due_times times (c, w)).1.schedules
  unfolding run_due_times run_due
  run_due_times-Extends [] c w o t h = h
  run_due_times-Extends (now ∷ times) c w o t h =
      run_due_times-Extends times _ _ o t
        (dispatch_due-Extends now (take_due next_of now c.entries).0 w o t h)

module _ {D S : Type 0} (failure : D → Instant → Option String) where
  -- The world after a target is noted for the first time.
  abbrev noted : Instant → ScheduledEntry D S → World → World
  noted now e w = record w {
    schedules =
        record { operation = e.operation; target = e.target; last_dispatched_at = now }
        ∷ w.schedules;
  }

  -- The three ways in which the loop of Initialize treats one target.
  bootstrap-known :
      (now : Instant) (e : ScheduledEntry D S) (es : List (ScheduledEntry D S)) (w : World)
      → has_schedule e.operation e.target w.schedules ≡ true
      → bootstrap failure now (e ∷ es) w ≡ bootstrap failure now es w
  unfolding bootstrap
  bootstrap-known now e es w k =
      ap (λ x. if_first failure now e x w (bootstrap failure now es))
        (initialize_schedule-known e.operation e.target now w.schedules k)

  bootstrap-new :
      (now : Instant) (e : ScheduledEntry D S) (es : List (ScheduledEntry D S)) (w : World)
      → has_schedule e.operation e.target w.schedules ≡ false
      → failure e.dispatch now ≡ none
      → bootstrap failure now (e ∷ es) w ≡ bootstrap failure now es (called e now (noted now e w))
  unfolding bootstrap
  bootstrap-new now e es w k l =
      ap (λ x. if_first failure now e x w (bootstrap failure now es))
        (initialize_schedule-new e.operation e.target now w.schedules k)
      ∙ ap
          (λ f.
            unless_failed f (bootstrap_failed e.operation) (called e now (noted now e w))
              (bootstrap failure now es))
          l

  bootstrap-failed :
      (now : Instant) (e : ScheduledEntry D S) (es : List (ScheduledEntry D S)) (w : World)
      (text : String)
      → has_schedule e.operation e.target w.schedules ≡ false
      → failure e.dispatch now ≡ some text
      → bootstrap failure now (e ∷ es) w
        ≡ (err (bootstrap_failed e.operation text), called e now (noted now e w))
  unfolding bootstrap
  bootstrap-failed now e es w text k l =
      ap (λ x. if_first failure now e x w (bootstrap failure now es))
        (initialize_schedule-new e.operation e.target now w.schedules k)
      ∙ ap
          (λ f.
            unless_failed f (bootstrap_failed e.operation) (called e now (noted now e w))
              (bootstrap failure now es))
          l

  -- Where every target has a row, nothing is dispatched and nothing changes.
  bootstrap-AllNoted :
      (now : Instant) (es : List (ScheduledEntry D S)) (w : World)
      → AllNoted es w.schedules
      → bootstrap failure now es w ≡ (ok tt, w)
  unfolding bootstrap
  bootstrap-AllNoted now [] w h = refl
  bootstrap-AllNoted now (e ∷ es) w h =
      bootstrap-known now e es w h.0 ∙ bootstrap-AllNoted now es w h.1

  -- A start that succeeds keeps every row and leaves one for every target.
  bootstrap-noted :
      (now : Instant) (es : List (ScheduledEntry D S)) (w : World)
      → (bootstrap failure now es w).0 ≡ ok tt
      → Extends w.schedules (bootstrap failure now es w).1.schedules
        × AllNoted es (bootstrap failure now es w).1.schedules
  unfolding bootstrap
  bootstrap-noted now [] w h = (λ o t k. k, tt)
  bootstrap-noted now (e ∷ es) w h =
      elim (Bool-cases (has_schedule e.operation e.target w.schedules)) [
        | inl k ↦
            let same = bootstrap-known now e es w k in
            let (more, all) = bootstrap-noted now es w (sym (ap (λ r. r.0) same) ∙ h) in
            subst (λ r. Extends w.schedules r.1.schedules × AllNoted (e ∷ es) r.1.schedules)
              (sym same) (more, (more e.operation e.target k, all))
        | inr k ↦ elim (Option-cases (failure e.dispatch now)) [
          | inl l ↦
              let same = bootstrap-new now e es w k l in
              let (more, all) =
                bootstrap-noted now es (called e now (noted now e w))
                  (sym (ap (λ r. r.0) same) ∙ h) in
              let (before, own) = new_row-Extends e.operation e.target now w.schedules in
              subst (λ r. Extends w.schedules r.1.schedules × AllNoted (e ∷ es) r.1.schedules)
                (sym same) (λ o t p. more o t (before o t p), (more e.operation e.target own, all))
          | inr (text, l) ↦
              let failed : Path (Result PeriodicError (Unit {0}))
                  (err (bootstrap_failed e.operation text)) (ok tt) =
                sym (ap (λ r. r.0) (bootstrap-failed now e es w text k l)) ∙ h in
              ground arith
        ]
      ]

module _ {D S : Type 0} (next_of : S → Instant → Instant)
    (failure : D → Instant → Option String) where
  planned_AllNoted :
      (now : Instant) (es : List (ScheduledEntry D S)) (rows : List ScheduleRow)
      → AllNoted (plan_next next_of now es) rows ↔ AllNoted es rows
  unfolding plan_next
  planned_AllNoted now [] rows = (λ h. h, λ h. h)
  planned_AllNoted now (e ∷ es) rows =
      let (there, back) = planned_AllNoted now es rows in
      (λ h. (h.0, there h.1), λ h. (h.0, back h.1))

  -- After an Initialize that succeeded and calls of RunDue at any times, an Initialize of the same
  -- entries (a restart) succeeds, dispatches nothing and leaves every row as it is.
  pub initialize-restart :
      (now now' : Instant) (times : List Instant) (c : Coordinator D S) (w : World)
      → (initialize next_of failure now (c, w)).0 ≡ ok tt
      → let w' : World =
          (run_due_times next_of failure times
            (later_state next_of failure (initialize next_of failure now (c, w)))).1 in
        initialize next_of failure now' (c, w')
        ≡ (ok tt, record { entries = plan_next next_of now' c.entries; initialized = true }, w')
  unfolding initialize
  initialize-restart now now' times c w h =
      let entries : List (ScheduledEntry D S) = plan_next next_of now c.entries in
      let w1 : World = (bootstrap failure now entries w).1 in
      let c1 : Coordinator D S = record { entries = entries; initialized = true } in
      let w' : World = (run_due_times next_of failure times (c1, w1)).1 in
      let first : AllNoted c.entries w1.schedules =
        (planned_AllNoted now c.entries w1.schedules).0
          (bootstrap-noted failure now entries w h).1 in
      let still : AllNoted c.entries w'.schedules =
        All-weaken _ _ c.entries
          (λ e k. run_due_times-Extends next_of failure times c1 w1 e.operation e.target k) first in
      ap
        (λ r. (r.0, record { entries = plan_next next_of now' c.entries; initialized = true }, r.1))
        (bootstrap-AllNoted failure now' (plan_next next_of now' c.entries) w'
          ((planned_AllNoted now' c.entries w'.schedules).1 still))
