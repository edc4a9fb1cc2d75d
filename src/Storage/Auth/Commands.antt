-- ===== src/Storage/Auth/Commands.antt =====
-- Sequences of the operations of internal/storage/auth.go, and of RunRetention.
use maintainer_cockpit.Prelude.{
  ℤ, String, Option, List, [], ◌∷◌, Result, ok, err, Bool, true, false, reject, ◌>>◌,
}
use maintainer_cockpit.Storage.Clock.{Instant}
use maintainer_cockpit.Storage.Users.{Session, AuthFlow, UserTables}
use maintainer_cockpit.Storage.Auth.{
  AuthError, create_auth_flow, consume_auth_flow, create_session, get_session, delete_session,
  delete_personal_data, run_retention, record_audit,
}

pub data Command : Type 0 where
  creates_flow : AuthFlow → Command
  consumes_flow : String → String → Instant → Command
  creates_session : Instant → Session → Command
  gets_session : String → Instant → Command
  deletes_session : String → Command
  deletes_personal_data : ℤ → Instant → Command
  runs_retention : (String → Bool) → Instant → Instant → Command
  records_audit : String → Option ℤ → String → Instant → Command

-- The tables after an operation that may be refused.
abbrev pub kept : UserTables → Result AuthError UserTables → UserTables
kept t (err e) = t
kept t (ok t') = t'

unfoldable pub apply : (String → String) → Command → UserTables → UserTables
unfolding create_auth_flow consume_auth_flow create_session get_session delete_session
    delete_personal_data run_retention record_audit
apply to_lower (creates_flow flow) t = kept t (create_auth_flow flow t)
apply to_lower (consumes_flow id state now) t = (consume_auth_flow id state now t).1
apply to_lower (creates_session clock s) t = kept t (create_session clock s t)
apply to_lower (gets_session id now) t = (get_session id now t).1
apply to_lower (deletes_session id) t = delete_session id t
apply to_lower (deletes_personal_data user now) t = delete_personal_data user now t
apply to_lower (runs_retention expired cutoff now) t = run_retention expired cutoff now t
apply to_lower (records_audit event user detail at) t =
    kept t (record_audit to_lower event user detail at t)

unfoldable pub run : (String → String) → List Command → UserTables → UserTables
unfolding apply
run to_lower [] t = t
run to_lower (c ∷ cs) t = run to_lower cs (apply to_lower c t)

-- A new database.
abbrev pub no_rows : UserTables
no_rows = record {
  auth_flows = [];
  sessions = [];
  audit_events = [];
  important = [];
  hidden = [];
  goals = [];
  progress = [];
}

-- A check that refuses keeps the tables.
pub kept_reject :
    (P : UserTables → Type 0) (t : UserTables) (bad : Bool) (e : AuthError)
    (rest : Result AuthError UserTables)
    → P t
    → P (kept t rest)
    → P (kept t (reject bad e >> rest))
kept_reject P t true e rest h k = h
kept_reject P t false e rest h k = k
