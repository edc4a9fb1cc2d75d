-- ===== src/Checks/Accounts.antt =====
-- A user who signs in, marks a pull request and deletes the personal data.
use maintainer_cockpit.Prelude.{
  ltb, ◌≤◌, ℕ, pos, same_int, false, none, some, List, [], ◌∷◌, ◌++◌, ◌≡◌, refl, ok, All,
  if◌then◌else◌,
}
use maintainer_cockpit.Storage.Clock.{Instant, stored_le}
use maintainer_cockpit.Storage.Users.{AuthFlow, Session, UserTables}
use maintainer_cockpit.Storage.Auth.{
  consume_auth_flow, create_session, get_session, delete_session, delete_personal_data,
}
use maintainer_cockpit.Storage.Auth.Commands.{
  Command, creates_flow, gets_session, runs_retention, records_audit, run, no_rows,
}
use maintainer_cockpit.Storage.Auth.Flows.{consume_auth_flow-once}
use maintainer_cockpit.Storage.Auth.Sessions.{dated, get_session-create_session}
use maintainer_cockpit.Storage.Auth.Deletion.{OnlyOthers, delete_personal_data-OnlyOthers}
use maintainer_cockpit.Storage.Auth.Audit.{IsHarmless, run-IsHarmless}

abbrev at : ℕ → Instant
at n = record { seconds = n; nanos = 0 }

abbrev flow : AuthFlow
flow = record { id = "f"; state = "s"; code_verifier = "v"; expires_at = at 600 }

abbrev signing_in : List Command
signing_in = creates_flow flow ∷ records_audit "logout" none "again" (at 1) ∷ []

flow_found : (consume_auth_flow "f" "s" (at 5) (run (λ s. s) signing_in no_rows)).0 ≡ some flow
unfolding consume_auth_flow run stored_le
flow_found = refl

consume_auth_flow-once_example :
    (flow.id ≡ flow.id)
    × (flow.state ≡ flow.state)
    × (stored_le flow.expires_at (at 5) ≡ false)
    × (5 ≤ 600)
    × ((consume_auth_flow "f" "s" (at 6) (
          run
            (λ s. s)
            (gets_session "x" (at 6) ∷ runs_retention (λ c. false) (at 0) (at 6) ∷ [])
            (consume_auth_flow "f" "s" (at 5) (run (λ s. s) signing_in no_rows)).1)).0
        ≡ none)
consume_auth_flow-once_example =
    consume_auth_flow-once (λ s. s) signing_in
      (gets_session "x" (at 6) ∷ runs_retention (λ c. false) (at 0) (at 6) ∷ []) "f" "s" "s" (at 5)
      (at 6) flow flow_found (tt, (tt, tt))

abbrev session : Session
session = record {
  id = "c";
  user_id = pos 7;
  login = "ada";
  avatar_url = "";
  organizations = [];
  teams = [];
  csrf_token = "t";
  created_at = at 0;
  expires_at = at 600;
}

abbrev signed_in : UserTables
signed_in = record no_rows {
  sessions = dated (at 5) session ∷ [];
  important =
      record { user_id = pos 7; collection_id = "acme"; repository = "acme/tool"; number = pos 1 }
      ∷ [];
}

created : create_session (at 5) session (record signed_in { sessions = [] }) ≡ ok signed_in
unfolding create_session
created = refl

get_session-create_session_example :
    ((get_session "c" (at 9) signed_in).0 ≡ (
      if ltb 9 600
      then some (dated (at 5) session)
      else if ltb 600 9
      then none
      else if stored_le (at 600) (at 9)
      then none
      else some (dated (at 5) session)))
    × ((get_session "c" (at 9) (delete_session "c" signed_in)).0 ≡ none)
get_session-create_session_example =
    get_session-create_session (at 5) (at 9) session (record signed_in { sessions = [] }) signed_in
      created

run-IsHarmless_example : All (IsHarmless (λ s. s)) (run (λ s. s) signing_in no_rows).audit_events
run-IsHarmless_example = run-IsHarmless (λ s. s) signing_in refl

abbrev cleared : UserTables
cleared = delete_personal_data (pos 7) (at 9) signed_in

delete_personal_data-OnlyOthers_example :
    OnlyOthers (λ r. same_int r.user_id (pos 7)) signed_in.important cleared.important
    × OnlyOthers (λ r. same_int r.user_id (pos 7)) signed_in.hidden cleared.hidden
    × OnlyOthers (λ r. same_int r.user_id (pos 7)) signed_in.goals cleared.goals
    × OnlyOthers (λ r. same_int r.actor_id (pos 7)) signed_in.progress cleared.progress
    × OnlyOthers (λ r. same_int r.user_id (pos 7)) signed_in.sessions cleared.sessions
    × (cleared.auth_flows ≡ signed_in.auth_flows)
    × (cleared.audit_events
        ≡ signed_in.audit_events
          ++ record {
            occurred_at = at 9;
            event = "personal_data_deleted";
            user_id = some (pos 7);
            detail = "";
          }
            ∷ [])
delete_personal_data-OnlyOthers_example = delete_personal_data-OnlyOthers (pos 7) (at 9) signed_in
