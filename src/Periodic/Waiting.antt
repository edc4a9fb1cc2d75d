-- ===== src/Periodic/Waiting.antt =====
-- The time for which Run waits is the time at which something is due.
use maintainer_cockpit.Prelude.{
  Bool, true, false, List, [], ◌∷◌, ◌&&◌, ◌||◌, ◌≡◌, ◌≢◌, refl, sym, ap, ◌∙◌, All, arith,
  if◌then◌else◌, inl, inr, Bool-cases, if_both,
}
use maintainer_cockpit.Storage.Clock.{Instant, is_zero, zero_time, earlier}
use maintainer_cockpit.Periodic.{ScheduledEntry, Coordinator, next_from, next_time, take_due}

abbrev pub is_none : {A : Type 0} → List A → Bool
is_none [] = true
is_none (x ∷ xs) = false

-- The earlier one of two times is after now if both are.
earlier_least :
    (now a b : Instant)
    → earlier now (if earlier b a then b else a) ≡ (earlier now a && earlier now b)
earlier_least now a b = ground arith

and_assoc : (a b c : Bool) → ((a && b) && c) ≡ (a && (b && c))
and_assoc a b c = ground arith

module _ {D S : Type 0} (next_of : S → Instant → Instant) where
  take_due-first :
      (now : Instant) (e : ScheduledEntry D S) (es : List (ScheduledEntry D S))
      → is_zero e.next ≡ false
      → is_none (take_due next_of now (e ∷ es)).0
        ≡ (earlier now e.next && is_none (take_due next_of now es).0)
  unfolding take_due
  take_due-first now e es z = elim (Bool-cases (earlier now e.next)) [
    | inl k ↦ rw z (rw k refl)
    | inr k ↦ rw z (rw k refl)
  ]

  next_from-due :
      (now found : Instant) (es : List (ScheduledEntry D S))
      → is_zero found ≡ false
      → All (λ e. is_zero e.next ≡ false) es
      → earlier now (next_from found es)
        ≡ (earlier now found && is_none (take_due next_of now es).0)
  unfolding next_from take_due
  next_from-due now found [] z h = ground arith
  next_from-due now found (e ∷ es) z h =
      let found' : Instant = if earlier e.next found then e.next else found in
      let z' : is_zero found' ≡ false =
        if_both (λ t. is_zero t ≡ false) (earlier e.next found) (λ _. h.0) (λ _. z) in
      ap (λ b. earlier now (next_from (if b || earlier e.next found then e.next else found) es)) z
      ∙ next_from-due now found' es z' h.1
      ∙ ap (λ b. b && is_none (take_due next_of now es).0) (earlier_least now found e.next)
      ∙ and_assoc (earlier now found) (earlier now e.next) (is_none (take_due next_of now es).0)
      ∙ ap (λ b. earlier now found && b) (sym (take_due-first now e es h.0))

  from_first :
      (now : Instant) (es : List (ScheduledEntry D S))
      → es ≢ []
      → All (λ e. is_zero e.next ≡ false) es
      → earlier now (next_from zero_time es) ≡ is_none (take_due next_of now es).0
  unfolding next_from
  from_first now [] n h = absurd (n refl)
  from_first now (e ∷ es) n h =
      next_from-due now e.next es h.0 h.1 ∙ sym (take_due-first now e es h.0)

  -- Where there is an entry and every entry has a next time, something is due exactly from the time
  -- on that next gives, which is the one that Run waits for.
  pub next_time-due :
      (now : Instant) (c : Coordinator D S)
      → c.entries ≢ []
      → All (λ e. is_zero e.next ≡ false) c.entries
      → earlier now (next_time c) ≡ is_none (take_due next_of now c.entries).0
  unfolding next_time
  next_time-due now c some_entry h = from_first now c.entries some_entry h
