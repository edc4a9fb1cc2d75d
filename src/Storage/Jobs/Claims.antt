-- ===== src/Storage/Jobs/Claims.antt =====
-- What ClaimRefresh hands out: the queued job that is first in the order of the stored times, and no
-- job twice.
use maintainer_cockpit.Prelude.{
  ℕ, true, false, Option, none, some, List, [], ◌∷◌, All, Any, map, ◌≡◌, ◌≢◌, refl, arith, inl, inr,
  Option-cases, subst, ◌≤◌, ap, Pairwise, map-Pairwise, ◌⊎◌, Bool-cases, ◌==◌, ◌&&◌,
}
use maintainer_cockpit.Storage.Clock.{Instant, stored_le}
use maintainer_cockpit.Storage.Rows.{RefreshJob, JobStatus, queued, running, completed}
use maintainer_cockpit.Storage.Jobs.{
  JobTable, is_queued, is_due, before, next_due, start_row, claim_selected, claim_refresh,
}
use maintainer_cockpit.Storage.Jobs.Order.{
  IsFirst, next_due_first, next_due-none, claim_refresh_first,
}

is_queued-true : (st : JobStatus) → is_queued st ≡ true → st ≡ queued
is_queued-true queued h = refl
is_queued-true running h = cc
is_queued-true completed h = cc

-- The row is queued, and its stored time is a text not greater than the one of `now`.
abbrev pub IsWaiting : Instant → RefreshJob → Type 0
IsWaiting now k = (k.status ≡ queued) × (stored_le k.scheduled_for now ≡ true)

-- `j` has the smaller stored time, or the same one and no greater id.
abbrev pub Precedes : RefreshJob → RefreshJob → Type 0
Precedes j k =
    (stored_le j.scheduled_for k.scheduled_for ≡ true)
    × (stored_le k.scheduled_for j.scheduled_for ≡ true → j.id ≤ k.id)

-- A queued row of the id runs since `now`; the others are as they were.
abbrev pub IsStarted : ℕ → Instant → RefreshJob → RefreshJob → Type 0
IsStarted id now x y =
    ((x.id ≡ id) × (x.status ≡ queued) × (y ≡ record x { status = running; started_at = some now }))
    ⊎ (¬ ((x.id ≡ id) × (x.status ≡ queued)) × (y ≡ x))

start_row-IsStarted :
    (id : ℕ) (now : Instant) (x : RefreshJob) → IsStarted id now x (start_row id now x)
start_row-IsStarted id now x = elim (Bool-cases (x.id == id && is_queued x.status)) [
  | inl e ↦ rw e (inl (ground arith, is_queued-true x.status (ground arith), refl))
  | inr e ↦ rw e (inr (λ h. let queues = ap is_queued h.1 in ground arith, refl))
]

-- What a claim answers and the table it leaves.
abbrev pub IsClaim : Instant → JobTable → Option RefreshJob × JobTable → Type 0
IsClaim now t (none, t') = (t' ≡ t) × All (λ k. ¬ IsWaiting now k) t.rows
IsClaim now t (some j, t') =
    Any (λ k. k ≡ j) t.rows
    × IsWaiting now j
    × All (λ k. IsWaiting now k → Precedes j k) t.rows
    × Any (λ k. k ≡ record j { status = running; started_at = some now }) t'.rows
    × Pairwise (IsStarted j.id now) t.rows t'.rows

IsWaiting-is_due : (now : Instant) (k : RefreshJob) → IsWaiting now k → is_due now k ≡ true
IsWaiting-is_due now k h = rw h.0 h.1

before-Precedes : (j k : RefreshJob) → before j k ≡ true → Precedes j k
before-Precedes j k h = (ground arith, λ e. ground arith)

IsFirst-Precedes :
    (now : Instant) (j : RefreshJob) (js : List RefreshJob)
    → IsFirst now j js
    → All (λ k. IsWaiting now k → Precedes j k) js
IsFirst-Precedes now j [] h = tt
IsFirst-Precedes now j (k ∷ js) h =
    (λ w. before-Precedes j k (h.0 (IsWaiting-is_due now k w)), IsFirst-Precedes now j js h.1)

none-IsWaiting :
    (now : Instant) (js : List RefreshJob)
    → All (λ k. is_due now k ≡ false) js
    → All (λ k. ¬ IsWaiting now k) js
none-IsWaiting now [] h = tt
none-IsWaiting now (k ∷ js) h =
    (λ w. let due = IsWaiting-is_due now k w in ground arith, none-IsWaiting now js h.1)

started-Any :
    (now : Instant) (j : RefreshJob) (js : List RefreshJob)
    → j.status ≡ queued
    → Any (λ k. k ≡ j) js
    → Any
        (λ k. k ≡ record j { status = running; started_at = some now })
        (map (start_row j.id now) js)
started-Any now j [] w a = absurd a
started-Any now j (k ∷ js) w (inl e) = inl (ground (arith, ap (λ (x : RefreshJob). x.id) e))
started-Any now j (k ∷ js) w (inr a) = inr (started-Any now j js w a)

chosen-IsClaim :
    (now : Instant) (t : JobTable) (o : Option RefreshJob)
    → next_due now t.rows ≡ o
    → IsClaim now t (claim_selected now t o)
unfolding claim_selected
chosen-IsClaim now t none h = (refl, none-IsWaiting now t.rows (next_due-none now t.rows h))
chosen-IsClaim now t (some j) h =
    let (at, due, first) = next_due_first now t.rows j h in
    let waits : j.status ≡ queued = is_queued-true j.status (ground arith) in
    (
      at,
      (waits, ground arith),
      IsFirst-Precedes now j t.rows first,
      started-Any now j t.rows waits at,
      map-Pairwise (IsStarted j.id now) (start_row j.id now) t.rows (start_row-IsStarted j.id now),
    )

-- ClaimRefresh takes a row of the table that is queued and whose stored time is, as a text, not
-- greater than the one of the given time. Every other such row has a greater stored time, or the same
-- one and no smaller id. The row it takes is then in the table as running since the given time, and
-- no row that is not queued or has another id is changed. It takes none only where there is no such
-- row, and then changes nothing.
pub claim_refresh-IsClaim : (now : Instant) (t : JobTable) → IsClaim now t (claim_refresh now t)
unfolding claim_refresh
claim_refresh-IsClaim now t = chosen-IsClaim now t (next_due now t.rows) refl

-- No row of this id is queued.
abbrev pub NotQueued : ℕ → List RefreshJob → Type 0
NotQueued id js = All (λ r. r.id ≡ id → is_queued r.status ≡ false) js

NotQueued-start_same :
    (id : ℕ) (now : Instant) (js : List RefreshJob) → NotQueued id (map (start_row id now) js)
NotQueued-start_same id now [] = tt
NotQueued-start_same id now (j ∷ js) = (λ e. ground arith, NotQueued-start_same id now js)

NotQueued-start :
    (id i : ℕ) (now : Instant) (js : List RefreshJob)
    → NotQueued id js
    → NotQueued id (map (start_row i now) js)
NotQueued-start id i now [] h = tt
NotQueued-start id i now (j ∷ js) h = (λ e. ground arith, NotQueued-start id i now js h.1)

NotQueued-of_Any :
    (id : ℕ) (js : List RefreshJob) (j : RefreshJob)
    → NotQueued id js
    → Any (λ k. k ≡ j) js
    → j.id ≡ id
    → is_queued j.status ≡ false
NotQueued-of_Any id [] j h a e = absurd a
NotQueued-of_Any id (k ∷ js) j h (inl q) e = ground (arith, h.0)
NotQueued-of_Any id (k ∷ js) j h (inr q) e = NotQueued-of_Any id js j h.1 q e

-- A claimed job is no longer queued.
pub claim_refresh-NotQueued_self :
    (now : Instant) (t : JobTable) (j : RefreshJob)
    → (claim_refresh now t).0 ≡ some j
    → NotQueued j.id (claim_refresh now t).1.rows
unfolding claim_refresh claim_selected
claim_refresh-NotQueued_self now t j h = elim (Option-cases (next_due now t.rows)) [
  | inl e ↦ cc (rw (e, claim_selected) at h)
  | inr (k, e) ↦
      let same : k ≡ j = ground arith in
      rw (e, claim_selected)
        (subst (λ (x : RefreshJob). NotQueued x.id (map (start_row k.id now) t.rows)) same
          (NotQueued-start_same k.id now t.rows))
]

-- A claim queues nothing.
pub claim_refresh-NotQueued :
    (now : Instant) (t : JobTable) (id : ℕ)
    → NotQueued id t.rows
    → NotQueued id (claim_refresh now t).1.rows
unfolding claim_refresh
claim_refresh-NotQueued now t id h = elim (Option-cases (next_due now t.rows)) [
  | inl e ↦ rw (e, claim_selected) h
  | inr (k, e) ↦ rw (e, claim_selected) (NotQueued-start id k.id now t.rows h)
]

-- What is not queued is not claimed.
pub NotQueued-not_claimed :
    (now : Instant) (t : JobTable) (id : ℕ) (j : RefreshJob)
    → NotQueued id t.rows
    → (claim_refresh now t).0 ≡ some j
    → j.id ≢ id
NotQueued-not_claimed now t id j h c e =
    let (at, due, first) = claim_refresh_first now t j c in
    ground (arith, NotQueued-of_Any id t.rows j h at e)
