-- ===== src/Storage/Ancillary/Pacing.antt =====
-- Claims of public author evidence keep their distance in time.
use maintainer_cockpit.Prelude.{
  ℕ, ◌+◌, ◌≤◌, ℤ, String, Bool, true, false, Option, none, some, List, [], ◌∷◌, ◌≡◌, refl, sym, ap,
  ◌∙◌, ◌++◌, ◌⊎◌, subst, inl, inr, ltb, All, All-weaken, Bool-cases, Option-cases, arith, if_both,
  ||-false, not-false,
}
use maintainer_cockpit.Storage.Clock.{
  Instant, stored_le, format_time, text_le_total, text_le_trans, stored_le-seconds,
}
use maintainer_cockpit.Storage.Ancillary.{
  AncillaryJob, AncillaryTables, Collected, insert_job, insert_jobs,
  enqueue_ancillary_author_refresh, blocked, is_later, has_active_job, next_job, after_interval,
  claim_ancillary_author_evidence, later_attempt, requeue_ancillary_author_evidence,
  complete_ancillary_author_evidence, recover_evidence_jobs,
}

-- The operations of the queue.
pub data AncillaryCommand : Type 0 where
  enqueues : Option Bool → List (ℤ × String) → Instant → AncillaryCommand
  claims : Instant → AncillaryCommand
  requeues : AncillaryJob → Instant → Instant → String → AncillaryCommand
  completes : AncillaryJob → Option Collected → Instant → AncillaryCommand
  recovers : AncillaryCommand

-- The time of a claim that gave a job.
abbrev claim_time : Instant → Option AncillaryJob × AncillaryTables → List Instant × AncillaryTables
claim_time now (none, t) = ([], t)
claim_time now (some job, t) = (now ∷ [], t)

-- One operation: the time of the claim, if it is one that gave a job, and the tables.
unfoldable pub apply_ancillary : AncillaryCommand → AncillaryTables → List Instant × AncillaryTables
unfolding enqueue_ancillary_author_refresh claim_ancillary_author_evidence
    requeue_ancillary_author_evidence complete_ancillary_author_evidence recover_evidence_jobs
apply_ancillary (enqueues active authors now) t =
    ([], (enqueue_ancillary_author_refresh active authors now t).1)
apply_ancillary (claims now) t = claim_time now (claim_ancillary_author_evidence now t)
apply_ancillary (requeues job now retry_at detail) t =
    ([], requeue_ancillary_author_evidence job now retry_at detail t)
apply_ancillary (completes job facts at) t = ([], complete_ancillary_author_evidence job facts at t)
apply_ancillary recovers t = ([], recover_evidence_jobs t)

-- The times of the claims of a run, in their order.
unfoldable pub claim_times : List AncillaryCommand → AncillaryTables → List Instant
unfolding apply_ancillary
claim_times [] t = []
claim_times (c ∷ cs) t = let (times, t') = apply_ancillary c t in times ++ claim_times cs t'

-- Each later time is at least 65 seconds after, counted in whole seconds.
unfoldable pub Spaced : List Instant → Type 0
Spaced [] = Unit
Spaced (t ∷ ts) = All (λ u. t.seconds + 65 ≤ u.seconds) ts × Spaced ts

-- The queue is paused until a time at least.
abbrev Paused : Instant → AncillaryTables → Type 0
Paused b t = (n : Instant) × (t.next_attempt_at ≡ some n) × (stored_le b n ≡ true)

stored_le_refl : (a : Instant) → stored_le a a ≡ true
unfolding stored_le
stored_le_refl a = elim (text_le_total (format_time a) (format_time a)) [ inl h ↦ h | inr h ↦ h ]

stored_le_trans :
    (a b c : Instant) → stored_le a b ≡ true → stored_le b c ≡ true → stored_le a c ≡ true
unfolding stored_le
stored_le_trans a b c h k = text_le_trans (format_time a) (format_time b) (format_time c) h k

at_least : (t u : Instant) → stored_le (after_interval t) u ≡ true → t.seconds + 65 ≤ u.seconds
at_least t u h = elim (Bool-cases (ltb u.seconds (t.seconds + 65))) [
  | inl k ↦ ground (arith, (stored_le-seconds u (after_interval t) (ground arith)).1)
  | inr k ↦ ground arith
]

insert_job-next :
    (now : Instant) (author : ℤ × String) (x : ℕ × AncillaryTables)
    → (insert_job now author x).1.next_attempt_at ≡ x.1.next_attempt_at
unfolding insert_job
insert_job-next now (author, login) (added, t) =
    if_both {A = ℕ × AncillaryTables} (λ y. y.1.next_attempt_at ≡ t.next_attempt_at)
      (has_active_job author t.jobs) (λ _. refl) (λ _. refl)

insert_jobs-next :
    (now : Instant) (authors : List (ℤ × String)) (x : ℕ × AncillaryTables)
    → (insert_jobs now authors x).1.next_attempt_at ≡ x.1.next_attempt_at
unfolding insert_jobs
insert_jobs-next now [] x = refl
insert_jobs-next now (a ∷ rest) x =
    insert_jobs-next now rest (insert_job now a x) ∙ insert_job-next now a x

enqueue-next :
    (active : Option Bool) (authors : List (ℤ × String)) (now : Instant) (t : AncillaryTables)
    → (enqueue_ancillary_author_refresh active authors now t).1.next_attempt_at ≡ t.next_attempt_at
unfolding enqueue_ancillary_author_refresh
enqueue-next (some true) authors now t = insert_jobs-next now authors (0, t)
enqueue-next (some false) authors now t = refl
enqueue-next none authors now t = refl

-- A claim that gives a job is not before the pause ends, and starts the next pause.
claim_cases :
    (now : Instant) (t : AncillaryTables)
    → (claim_time now (claim_ancillary_author_evidence now t) ≡ ([], t))
      ⊎ ((blocked now t ≡ false)
          × ((claim_time now (claim_ancillary_author_evidence now t)).0 ≡ now ∷ [])
          × ((claim_time now (claim_ancillary_author_evidence now t)).1.next_attempt_at
              ≡ some (after_interval now)))
unfolding claim_ancillary_author_evidence
claim_cases now t = elim (Bool-cases (blocked now t)) [
  | inl k ↦ inl (rw k refl)
  | inr k ↦ elim (Option-cases (next_job now t.jobs)) [
    | inl l ↦ inl (rw k (rw l refl))
    | inr (job, l) ↦ inr (k, rw k (rw l refl), rw k (rw l refl))
  ]
]

later_attempt-Paused :
    (b n at : Instant) → stored_le b n ≡ true → stored_le b (later_attempt (some n) at) ≡ true
later_attempt-Paused b n at h =
    if_both (λ x. stored_le b x ≡ true) (stored_le n at) (λ k. stored_le_trans b n at h k) (λ _. h)

-- A claim during a pause waits for its end.
blocked-Paused :
    (b now : Instant) (t : AncillaryTables)
    → Paused b t
    → blocked now t ≡ false
    → stored_le b now ≡ true
blocked-Paused b now t (n, e, k) h =
    let ended : is_later t.next_attempt_at now ≡ false =
      (||-false (is_later t.next_attempt_at now) _ h).0 in
    let free : stored_le n now ≡ true =
      not-false (stored_le n now) (sym (ap (λ o. is_later o now) e) ∙ ended) in
    stored_le_trans b n now k free

interval_after : (now : Instant) → stored_le now (after_interval now) ≡ true
interval_after now = (stored_le-seconds now (after_interval now) (omega arith)).0

-- What one claim does to a run that goes on.
claims_run :
    (P : List Instant → Type 0) (now : Instant) (cs : List AncillaryCommand) (t : AncillaryTables)
    → P (claim_times cs t)
    → ((t' : AncillaryTables)
        → blocked now t ≡ false
        → t'.next_attempt_at ≡ some (after_interval now)
        → P (now ∷ claim_times cs t'))
    → P (claim_times (claims now ∷ cs) t)
unfolding claim_times apply_ancillary
claims_run P now cs t idle claimed =
    let x : List Instant × AncillaryTables =
      claim_time now (claim_ancillary_author_evidence now t) in
    elim (claim_cases now t) [
      | inl same ↦ subst (λ y. P (y.0 ++ claim_times cs y.1)) (sym same) idle
      | inr (k, times, next) ↦
          subst (λ ys. P (ys ++ claim_times cs x.1)) (sym times) (claimed x.1 k next)
    ]

claim_times-after :
    (b : Instant) (cs : List AncillaryCommand) (t : AncillaryTables)
    → Paused b t
    → All (λ u. stored_le b u ≡ true) (claim_times cs t)
unfolding claim_times apply_ancillary requeue_ancillary_author_evidence
    complete_ancillary_author_evidence recover_evidence_jobs
claim_times-after b [] t p = tt
claim_times-after b (enqueues active authors now ∷ cs) t (n, e, k) =
    claim_times-after b cs _ (n, enqueue-next active authors now t ∙ e, k)
claim_times-after b (claims now ∷ cs) t p =
    claims_run (All (λ u. stored_le b u ≡ true)) now cs t (claim_times-after b cs t p) (λ t' k next.
      let reached : stored_le b now ≡ true = blocked-Paused b now t p k in
      (
        reached,
        claim_times-after b cs t' (
          after_interval now,
          next,
          stored_le_trans b now (after_interval now) reached (interval_after now),
        ),
      ))
claim_times-after b (requeues job now retry_at detail ∷ cs) t (n, e, k) = claim_times-after b cs _ (
  later_attempt (some n) retry_at,
  ap (λ o. some (later_attempt o retry_at)) e,
  later_attempt-Paused b n retry_at k,
)
claim_times-after b (completes job facts at ∷ cs) t p = claim_times-after b cs _ p
claim_times-after b (recovers ∷ cs) t p = claim_times-after b cs _ p

-- Whatever the tables hold at first and whatever operations run: of two claims that give a job, the
-- later one is at least 65 seconds after the earlier one, counted in whole seconds.
pub claim_times-Spaced :
    (cs : List AncillaryCommand) (t : AncillaryTables) → Spaced (claim_times cs t)
unfolding claim_times apply_ancillary Spaced
claim_times-Spaced [] t = tt
claim_times-Spaced (enqueues active authors now ∷ cs) t = claim_times-Spaced cs _
claim_times-Spaced (claims now ∷ cs) t =
    claims_run Spaced now cs t (claim_times-Spaced cs t) (λ t' k next. (
      All-weaken _ _ (claim_times cs t') (λ u h. at_least now u h)
          (claim_times-after (after_interval now) cs t'
            (after_interval now, next, stored_le_refl (after_interval now))),
      claim_times-Spaced cs t',
    ))
claim_times-Spaced (requeues job now retry_at detail ∷ cs) t = claim_times-Spaced cs _
claim_times-Spaced (completes job facts at ∷ cs) t = claim_times-Spaced cs _
claim_times-Spaced (recovers ∷ cs) t = claim_times-Spaced cs _
