-- ===== src/Storage/Jobs/Order.antt =====
-- The row that the query of ClaimRefresh selects is the first one in the order of the stored times and
-- the ids. `is_due` and `before` compare the stored texts.
use maintainer_cockpit.Prelude.{
  true, false, none, some, List, [], ◌∷◌, All, Any, ◌≡◌, refl, arith, Bool-cases, inl, inr, ◌⊎◌,
  Option-cases, subst,
}
use maintainer_cockpit.Storage.Clock.{Instant, stored_le, format_time, text_le_total, text_le_trans}
use maintainer_cockpit.Storage.Rows.{RefreshJob}
use maintainer_cockpit.Storage.Jobs.{
  JobTable, is_due, before, better, next_due, claim_selected, claim_refresh,
}

stored_le_total : (a b : Instant) → (stored_le a b ≡ true) ⊎ (stored_le b a ≡ true)
unfolding stored_le
stored_le_total a b = text_le_total (format_time a) (format_time b)

stored_le_trans :
    (a b c : Instant) → stored_le a b ≡ true → stored_le b c ≡ true → stored_le a c ≡ true
unfolding stored_le
stored_le_trans a b c = text_le_trans (format_time a) (format_time b) (format_time c)

before_refl : (j : RefreshJob) → before j j ≡ true
before_refl j = ground (arith, stored_le_total j.scheduled_for j.scheduled_for)

before_total : (j k : RefreshJob) → before j k ≡ false → before k j ≡ true
before_total j k h = ground (arith, stored_le_total j.scheduled_for k.scheduled_for)

before_trans : (j k l : RefreshJob) → before j k ≡ true → before k l ≡ true → before j l ≡ true
before_trans j k l h h' = ground (
  arith,
  stored_le_trans j.scheduled_for k.scheduled_for l.scheduled_for,
  stored_le_trans l.scheduled_for j.scheduled_for k.scheduled_for,
  stored_le_trans k.scheduled_for l.scheduled_for j.scheduled_for,
)

-- Every job that passes `is_due` stands behind the chosen one.
abbrev pub IsFirst : Instant → RefreshJob → List RefreshJob → Type 0
IsFirst now j js = All (λ k. is_due now k ≡ true → before j k ≡ true) js

better-IsFirst :
    (now : Instant) (j k : RefreshJob) (js : List RefreshJob)
    → before j k ≡ true
    → IsFirst now k js
    → IsFirst now j js
better-IsFirst now j k [] b f = tt
better-IsFirst now j k (l ∷ js) b f =
    (λ due. before_trans j k l b (f.0 due), better-IsFirst now j k js b f.1)

none-IsFirst :
    (now : Instant) (j : RefreshJob) (js : List RefreshJob)
    → next_due now js ≡ none
    → IsFirst now j js
unfolding next_due
none-IsFirst now j [] h = tt
none-IsFirst now j (k ∷ js) h = elim (Bool-cases (is_due now k)) [
  | inl due ↦ cc (rw due at h)
  | inr not_due ↦ (λ due. cc, none-IsFirst now j js (rw not_due at h))
]

-- The job is one of the rows, due, and first among the due rows.
abbrev pub IsNext : Instant → List RefreshJob → RefreshJob → Type 0
IsNext now js j = Any (λ k. k ≡ j) js × (is_due now j ≡ true) × IsFirst now j js

IsNext-of_better :
    (now : Instant) (k m : RefreshJob) (js : List RefreshJob)
    → is_due now k ≡ true
    → IsNext now js m
    → IsNext now (k ∷ js) (better k (some m))
IsNext-of_better now k m js due (at, m_due, first) = elim (Bool-cases (before k m)) [
  | inl b ↦
      let chosen : k ≡ better k (some m) = rw b in
      subst (IsNext now (k ∷ js)) chosen
        (inl refl, due, (λ _. before_refl k, better-IsFirst now k m js b first))
  | inr b ↦
      let chosen : m ≡ better k (some m) = rw b in
      subst (IsNext now (k ∷ js)) chosen (inr at, m_due, (λ _. before_total k m b, first))
]

pub next_due_first :
    (now : Instant) (js : List RefreshJob) (j : RefreshJob)
    → next_due now js ≡ some j
    → IsNext now js j
unfolding next_due
next_due_first now [] j h = cc
next_due_first now (k ∷ js) j h = elim (Bool-cases (is_due now k)) [
  | inl due ↦ elim (Option-cases (next_due now js)) [
    | inl last ↦
        let chosen : k ≡ j = ground arith in
        subst (IsNext now (k ∷ js)) chosen
          (inl refl, due, (λ _. before_refl k, none-IsFirst now k js last))
    | inr (m, e) ↦
        let chosen : better k (some m) ≡ j = ground arith in
        subst (IsNext now (k ∷ js)) chosen
          (IsNext-of_better now k m js due (next_due_first now js m e))
  ]
  | inr not_due ↦
      let (at, due, first) = next_due_first now js j (rw not_due at h) in
      (inr at, due, (λ d. cc, first))
]

-- A claimed job is a row of the table that was queued and due, and it stands before every other due
-- row in the order of the stored times, ids last.
pub claim_refresh_first :
    (now : Instant) (t : JobTable) (j : RefreshJob)
    → (claim_refresh now t).0 ≡ some j
    → IsNext now t.rows j
unfolding claim_refresh claim_selected
claim_refresh_first now t j h = next_due_first now t.rows j (ground arith)

-- No row is selected only where none passes `is_due`.
pub next_due-none :
    (now : Instant) (js : List RefreshJob)
    → next_due now js ≡ none
    → All (λ k. is_due now k ≡ false) js
unfolding next_due
next_due-none now [] h = tt
next_due-none now (k ∷ js) h = elim (Bool-cases (is_due now k)) [
  | inl due ↦ cc (rw due at h)
  | inr not_due ↦ (not_due, next_due-none now js (rw not_due at h))
]
