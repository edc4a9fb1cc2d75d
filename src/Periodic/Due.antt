-- ===== src/Periodic/Due.antt =====
-- What is due is dispatched once.
use maintainer_cockpit.Prelude.{
  true, not, Option, none, some, List, [], ◌∷◌, ◌++◌, map, ◌||◌, ◌≡◌, refl, sym, ap, ◌∙◌, subst,
  keep, ok, String, inl, inr, if_both, Bool-cases, Option-cases,
}
use maintainer_cockpit.Storage.Clock.{Instant, is_zero, earlier}
use maintainer_cockpit.Storage.Schedules.{record_schedule_dispatch}
use maintainer_cockpit.Periodic.{
  ScheduledEntry, Coordinator, World, Call, take_due, dispatch_due, run_due, waits, called,
  unless_failed, dispatch_failed,
}

append_nil : {A : Type 0} (xs : List A) → xs ++ [] ≡ xs
append_nil [] = refl
append_nil (x ∷ xs) = ap (λ ys. x ∷ ys) (append_nil xs)

snoc_append :
    {A : Type 0} (xs : List A) (y : A) (zs : List A) → (xs ++ (y ∷ [])) ++ zs ≡ xs ++ (y ∷ zs)
snoc_append [] y zs = refl
snoc_append (x ∷ xs) y zs = ap (λ ws. x ∷ ws) (snoc_append xs y zs)

module _ {D S : Type 0} where
  abbrev pub call_of : Instant → ScheduledEntry D S → Call
  call_of now e = record { operation = e.operation; target = e.target; at = now }

  -- The entries that do not wait at a time.
  abbrev pub due_at : Instant → List (ScheduledEntry D S) → List (ScheduledEntry D S)
  due_at now es = keep (λ e. not (waits now e)) es

module _ {D S : Type 0} (next_of : S → Instant → Instant) where
  take_due-due_at :
      (now : Instant) (es : List (ScheduledEntry D S)) → (take_due next_of now es).0 ≡ due_at now es
  unfolding take_due
  take_due-due_at now [] = refl
  take_due-due_at now (e ∷ es) = elim (Bool-cases (waits now e)) [
    | inl k ↦ rw (k, keep) (take_due-due_at now es)
    | inr k ↦ rw (k, keep) (ap (λ ys. e ∷ ys) (take_due-due_at now es))
  ]

  take_due-waiting :
      (now : Instant) (e : ScheduledEntry D S) (es : List (ScheduledEntry D S))
      → waits now e ≡ true
      → take_due next_of now es ≡ ([], es)
      → take_due next_of now (e ∷ es) ≡ ([], e ∷ es)
  unfolding take_due
  take_due-waiting now e es k h = rw k (rw h refl)

  -- Next times after now leave nothing due.
  take_due-none :
      (now : Instant) (es : List (ScheduledEntry D S))
      → ((s : S) → (is_zero (next_of s now) || earlier now (next_of s now)) ≡ true)
      → take_due next_of now (take_due next_of now es).1 ≡ ([], (take_due next_of now es).1)
  unfolding take_due
  take_due-none now [] later = refl
  take_due-none now (e ∷ es) later =
      if_both {A = List (ScheduledEntry D S) × List (ScheduledEntry D S)}
        (λ p. take_due next_of now p.1 ≡ ([], p.1)) (waits now e)
        (λ k. take_due-waiting now e _ k (take_due-none now es later))
        (λ _.
          take_due-waiting now (record e { next = next_of e.schedule now }) _ (later e.schedule)
            (take_due-none now es later))

module _ {D S : Type 0} (failure : D → Instant → Option String) where
  abbrev cut_at :
      ScheduledEntry D S → Option String → List (ScheduledEntry D S) → List (ScheduledEntry D S)
  cut_at e (some text) rest = e ∷ []
  cut_at e none rest = e ∷ rest

  -- The entries up to the first one whose dispatch fails, that one included.
  unfoldable pub through_failure : Instant → List (ScheduledEntry D S) → List (ScheduledEntry D S)
  through_failure now [] = []
  through_failure now (e ∷ es) = cut_at e (failure e.dispatch now) (through_failure now es)

  dispatch_due-calls :
      (now : Instant) (es : List (ScheduledEntry D S)) (w : World)
      → (dispatch_due failure now es w).1.calls
        ≡ w.calls ++ map (call_of now) (through_failure now es)
  unfolding dispatch_due through_failure
  dispatch_due-calls now [] w = sym (append_nil w.calls)
  dispatch_due-calls now (e ∷ es) w =
      let after : World =
        called e now (record w {
          schedules = record_schedule_dispatch e.operation e.target now w.schedules;
        }) in
      let Claim : Option String → Type 0 = λ o.
        (unless_failed o (dispatch_failed e.operation) after (dispatch_due failure now es)).1.calls
        ≡ w.calls ++ map (call_of now) (cut_at e o (through_failure now es)) in
      elim (Option-cases (failure e.dispatch now)) [
        | inl k ↦ subst Claim (sym k) (
            dispatch_due-calls now es after
            ∙ snoc_append w.calls (call_of now e) (map (call_of now) (through_failure now es)))
        | inr (text, k) ↦ subst Claim (sym k) refl
      ]

module _ {D S : Type 0} (next_of : S → Instant → Instant)
    (failure : D → Instant → Option String) where
  -- Where a schedule's next time is later than the time it is asked for, RunDue dispatches the
  -- entries that do not wait, each once and in their order, up to the first one that fails; and
  -- a second RunDue at the same time succeeds, dispatches nothing and changes nothing.
  pub run_due-once :
      (now : Instant) (c : Coordinator D S) (w : World)
      → ((s : S) → (is_zero (next_of s now) || earlier now (next_of s now)) ≡ true)
      → let (result, c', w') = run_due next_of failure now (c, w) in
        (w'.calls
          ≡ w.calls ++ map (call_of now) (through_failure failure now (due_at now c.entries)))
        × (run_due next_of failure now (c', w') ≡ (ok tt, c', w'))
  unfolding run_due dispatch_due
  run_due-once now c w later = (
    dispatch_due-calls failure now (take_due next_of now c.entries).0 w
        ∙ ap (λ es. w.calls ++ map (call_of now) (through_failure failure now es))
            (take_due-due_at next_of now c.entries),
    rw (take_due-none next_of now c.entries later) refl,
  )
