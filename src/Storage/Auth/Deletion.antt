-- ===== src/Storage/Auth/Deletion.antt =====
-- What the deletion of personal data removes.
use maintainer_cockpit.Prelude.{
  ℤ, same_int, Bool, not, List, [], ◌∷◌, ◌≡◌, refl, ap, Bool-cases, inl, inr, keep, some, ◌++◌,
}
use maintainer_cockpit.Storage.Clock.{Instant}
use maintainer_cockpit.Storage.Users.{UserTables}
use maintainer_cockpit.Storage.Auth.{delete_personal_data}

-- After the deletion no row passes the test, and the rows that fail it are those of before.
abbrev pub OnlyOthers : {A : Type 0} → (A → Bool) → List A → List A → Type 0
OnlyOthers p before after =
    (keep p after ≡ []) × (keep (λ x. not (p x)) after ≡ keep (λ x. not (p x)) before)

keep-OnlyOthers :
    {A : Type 0} (p : A → Bool) (xs : List A) → OnlyOthers p xs (keep (λ x. not (p x)) xs)
keep-OnlyOthers p [] = (refl, refl)
keep-OnlyOthers p (x ∷ xs) =
    let (none_left, others) = keep-OnlyOthers p xs in
    elim (Bool-cases (p x)) [
      | inl e ↦ (rw (e, keep) none_left, rw (e, keep) others)
      | inr e ↦ (rw (e, keep) (rw e none_left), rw (e, keep) (rw e (ap (λ ys. x ∷ ys) others)))
    ]

-- DeletePersonalData removes the user's rows from the five tables, keeps every row of another user
-- and every flow as they were, and notes the deletion after the earlier audit events.
pub delete_personal_data-OnlyOthers :
    (user : ℤ) (now : Instant) (t : UserTables)
    → let t' = delete_personal_data user now t in
      OnlyOthers (λ r. same_int r.user_id user) t.important t'.important
      × OnlyOthers (λ r. same_int r.user_id user) t.hidden t'.hidden
      × OnlyOthers (λ r. same_int r.user_id user) t.goals t'.goals
      × OnlyOthers (λ r. same_int r.actor_id user) t.progress t'.progress
      × OnlyOthers (λ r. same_int r.user_id user) t.sessions t'.sessions
      × (t'.auth_flows ≡ t.auth_flows)
      × (t'.audit_events
          ≡ t.audit_events
            ++ record {
              occurred_at = now;
              event = "personal_data_deleted";
              user_id = some user;
              detail = "";
            }
              ∷ [])
unfolding delete_personal_data
delete_personal_data-OnlyOthers user now t = (
  keep-OnlyOthers _ t.important,
  keep-OnlyOthers _ t.hidden,
  keep-OnlyOthers _ t.goals,
  keep-OnlyOthers _ t.progress,
  keep-OnlyOthers _ t.sessions,
  refl,
  refl,
)
