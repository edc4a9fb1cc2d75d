-- ===== src/Storage/Auth.antt =====
-- internal/storage/auth.go: OAuth flows, sessions, personal data and audit events, and what
-- RunRetention of operations.go deletes of them. A failure of the
-- database itself is left out, so that each transaction commits; a key that is taken is an error.
pub mod Commands
pub mod Flows
pub mod Sessions
pub mod Deletion
pub mod Audit
use maintainer_cockpit.Prelude.{
  ℤ, below_one, same_int, String, Bool, true, false, not, Option, none, some, List, [], ◌∷◌, ◌++◌,
  ◌&&◌, ◌||◌, keep, str_eq, contains, is_member, ltb, byte_length, if◌then◌else◌, Result, ok, err,
  ◌>>◌, reject,
}
use maintainer_cockpit.Storage.Clock.{Instant, is_zero, stored_le}
use maintainer_cockpit.Storage.Users.{
  Session, AuthFlow, AuditEvent, ImportantRow, HiddenRow, GoalRow, ProgressRow, UserTables,
}

-- One constructor for each error.
pub data AuthError : Type 0 where
  missing_fields key_taken detail_too_long sensitive_detail : AuthError
  unsupported_event : String → AuthError

abbrev has_flow : String → List AuthFlow → Bool
has_flow id [] = false
has_flow id (f ∷ fs) = str_eq f.id id || has_flow id fs

abbrev has_session : String → List Session → Bool
has_session id [] = false
has_session id (s ∷ ss) = str_eq s.id id || has_session id ss

unfoldable pub create_auth_flow : AuthFlow → UserTables → Result AuthError UserTables
create_auth_flow flow t = do
  reject
      (str_eq flow.id ""
        || str_eq flow.state ""
        || str_eq flow.code_verifier ""
        || is_zero flow.expires_at)
      missing_fields
  reject (has_flow flow.id t.auth_flows) key_taken
  ok (record t { auth_flows = flow ∷ t.auth_flows })

-- The WHERE of ConsumeAuthFlow; `expires_at > now` compares stored texts.
abbrev pub consumable : String → String → Instant → AuthFlow → Bool
consumable id state now f =
    str_eq f.id id && str_eq f.state state && not (stored_le f.expires_at now)

abbrev pub first_where {ℓ} : {A : Type ℓ} → (A → Bool) → List A → Option A
first_where p [] = none
first_where p (x ∷ xs) = let rest = first_where p xs in if p x then some x else rest

-- DELETE … RETURNING: the matching rows go, the first one is returned
unfoldable pub consume_auth_flow :
    String → String → Instant → UserTables → Option AuthFlow × UserTables
consume_auth_flow id state now t = (
  first_where (consumable id state now) t.auth_flows,
  record t { auth_flows = keep (λ f. not (consumable id state now f)) t.auth_flows },
)

-- The clock is time.Now, for a session without a creation time.
unfoldable pub create_session : Instant → Session → UserTables → Result AuthError UserTables
create_session clock s t = do
  reject
      (str_eq s.id ""
        || below_one s.user_id
        || str_eq s.login ""
        || str_eq s.csrf_token ""
        || is_zero s.expires_at)
      missing_fields
  let stored = record s { created_at = if is_zero s.created_at then clock else s.created_at }
  reject (has_session s.id t.sessions) key_taken
  ok (record t { sessions = stored ∷ t.sessions })

abbrev pub valid_session : String → Instant → Session → Bool
valid_session id now s = str_eq s.id id && not (stored_le s.expires_at now)

unfoldable pub delete_session : String → UserTables → UserTables
delete_session id t = record t { sessions = keep (λ s. not (str_eq s.id id)) t.sessions }

-- A session that is missing or expired is deleted by its identity.
unfoldable pub get_session : String → Instant → UserTables → Option Session × UserTables
unfolding delete_session
get_session id now t =
    if str_eq id "" then (none, t) else elim (first_where (valid_session id now) t.sessions) [
      | some s ↦ (some s, t)
      | none ↦ (none, delete_session id t)
    ]

unfoldable pub delete_personal_data : ℤ → Instant → UserTables → UserTables
delete_personal_data user now t = record t {
  important = keep (λ r. not (same_int r.user_id user)) t.important;
  hidden = keep (λ r. not (same_int r.user_id user)) t.hidden;
  goals = keep (λ r. not (same_int r.user_id user)) t.goals;
  progress = keep (λ r. not (same_int r.actor_id user)) t.progress;
  sessions = keep (λ s. not (same_int s.user_id user)) t.sessions;
  audit_events =
      t.audit_events
      ++ record {
        occurred_at = now;
        event = "personal_data_deleted";
        user_id = some user;
        detail = "";
      }
        ∷ [];
}

-- `a < b` of two stored times
abbrev pub earlier_text : Instant → Instant → Bool
earlier_text a b = not (stored_le b a)

-- RunRetention of operations.go, on the tables of this file: `cutoff` is now.AddDate(0, -3, 0), and
-- `expired` tells the removed collections whose retention is over, which take their rows with them
-- (ON DELETE CASCADE).
unfoldable pub run_retention : (String → Bool) → Instant → Instant → UserTables → UserTables
run_retention expired cutoff now t = record t {
  important = keep (λ r. not (expired r.collection_id)) t.important;
  hidden = keep (λ r. not (expired r.collection_id)) t.hidden;
  goals = keep (λ r. not (expired r.collection_id)) t.goals;
  progress =
      keep (λ r. not (earlier_text r.occurred_at cutoff) && not (expired r.collection_id))
        t.progress;
  sessions = keep (λ s. not (stored_le s.expires_at now)) t.sessions;
  auth_flows = keep (λ f. not (stored_le f.expires_at now)) t.auth_flows;
}

abbrev pub allowed_events : List String
allowed_events =
    "authentication_succeeded" ∷ "authentication_denied" ∷ "authorization_denied" ∷ "logout"
    ∷ "personal_data_deleted" ∷ "reload_succeeded" ∷ "reload_failed" ∷ "policy_changed"
    ∷ "model_payload_accessed" ∷ "admin_refresh_requested" ∷ []

abbrev contains_any : String → List String → Bool
contains_any s [] = false
contains_any s (t ∷ ts) = contains s t || contains_any s ts

-- Whether a detail, in lower case, names a sensitive category.
unfoldable pub is_sensitive : String → Bool
unfolding contains
is_sensitive lower =
    contains_any lower ("token" ∷ "secret" ∷ "prompt" ∷ "request_json" ∷ "response_json" ∷ [])

-- to_lower is strings.ToLower.
unfoldable pub record_audit :
    (String → String)
    → String
    → Option ℤ
    → String
    → Instant
    → UserTables
    → Result AuthError UserTables
unfolding byte_length is_sensitive
record_audit to_lower event user detail at t = do
  reject (not (is_member event allowed_events)) (unsupported_event event)
  reject (ltb 100 (byte_length detail)) detail_too_long
  reject (is_sensitive (to_lower detail)) sensitive_detail
  ok (record t {
    audit_events =
        t.audit_events
        ++ record { occurred_at = at; event = event; user_id = user; detail = detail } ∷ [];
  })
