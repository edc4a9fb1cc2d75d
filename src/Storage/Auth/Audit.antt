-- ===== src/Storage/Auth/Audit.antt =====
-- What the audit table can hold.
use maintainer_cockpit.Prelude.{
  ℤ, String, true, false, not, Option, some, List, [], ◌∷◌, ◌++◌, ◌≡◌, refl, sym, ◌⊎◌, inl, inr,
  ◌≤◌, All, All-append, is_member, byte_length, ltb, Bool-cases, Option-cases, not-false, not_ltb,
  ok, err, arith, subst,
}
use maintainer_cockpit.Storage.Clock.{Instant}
use maintainer_cockpit.Storage.Users.{AuditEvent, Session, AuthFlow, UserTables}
use maintainer_cockpit.Storage.Auth.{
  AuthError, record_audit, allowed_events, is_sensitive, unsupported_event, detail_too_long,
  sensitive_detail, create_auth_flow, consume_auth_flow, create_session, get_session,
  delete_session, delete_personal_data, run_retention, first_where, valid_session,
}
use maintainer_cockpit.Storage.Auth.Commands.{
  Command, creates_flow, consumes_flow, creates_session, gets_session, deletes_session,
  deletes_personal_data, runs_retention, records_audit, apply, run, no_rows, kept,
}

-- An event of the list, with a short detail that names nothing sensitive.
unfoldable pub IsHarmless : (String → String) → AuditEvent → Type 0
IsHarmless to_lower e =
    (is_member e.event allowed_events ≡ true)
    × (byte_length e.detail ≤ 100)
    × (is_sensitive (to_lower e.detail) ≡ false)

module _ (to_lower : String → String) where
  abbrev pub noted : String → Option ℤ → String → Instant → UserTables → UserTables
  noted event user detail at t = record t {
    audit_events =
        t.audit_events
        ++ record { occurred_at = at; event = event; user_id = user; detail = detail } ∷ [];
  }

  pub record_audit-cases :
      (event : String) (user : Option ℤ) (detail : String) (at : Instant) (t : UserTables)
      → ((e : AuthError) × (record_audit to_lower event user detail at t ≡ err e))
        ⊎ (IsHarmless to_lower
              (record { occurred_at = at; event = event; user_id = user; detail = detail })
            × (record_audit to_lower event user detail at t ≡ ok (noted event user detail at t)))
  unfolding record_audit IsHarmless
  record_audit-cases event user detail at t =
      elim (Bool-cases (not (is_member event allowed_events))) [
        | inl k ↦ inl (unsupported_event event, rw k refl)
        | inr k ↦ elim (Bool-cases (ltb 100 (byte_length detail))) [
          | inl l ↦ inl (detail_too_long, rw k (rw l refl))
          | inr l ↦ elim (Bool-cases (is_sensitive (to_lower detail))) [
            | inl m ↦ inl (sensitive_detail, rw k (rw l (rw m refl)))
            | inr m ↦ inr (
              (not-false (is_member event allowed_events) k, not_ltb 100 (byte_length detail) l, m),
              rw k (rw l (rw m refl)),
            )
          ]
        ]
      ]

  create_auth_flow-audits :
      (flow : AuthFlow) (t : UserTables)
      → (kept t (create_auth_flow flow t)).audit_events ≡ t.audit_events
  unfolding create_auth_flow
  create_auth_flow-audits flow t = ground arith

  create_session-audits :
      (clock : Instant) (s : Session) (t : UserTables)
      → (kept t (create_session clock s t)).audit_events ≡ t.audit_events
  unfolding create_session
  create_session-audits clock s t = ground arith

  get_session-audits :
      (id : String) (now : Instant) (t : UserTables)
      → (get_session id now t).1.audit_events ≡ t.audit_events
  unfolding get_session delete_session
  get_session-audits id now t =
      elim (Option-cases (first_where (valid_session id now) t.sessions)) [
        | inl k ↦ ground arith
        | inr (s, k) ↦ ground arith
      ]

  unfoldable AllHarmless : UserTables → Type 0
  AllHarmless t = All (IsHarmless to_lower) t.audit_events

  -- The event that the deletion of personal data adds.
  deletion-IsHarmless :
      (user : ℤ) (now : Instant)
      → to_lower "" ≡ ""
      → IsHarmless to_lower (record {
        occurred_at = now;
        event = "personal_data_deleted";
        user_id = some user;
        detail = "";
      })
  unfolding IsHarmless byte_length is_sensitive
  deletion-IsHarmless user now empty = (refl, omega arith, rw empty refl)

  apply-AllHarmless :
      (c : Command) (t : UserTables)
      → to_lower "" ≡ ""
      → AllHarmless t
      → AllHarmless (apply to_lower c t)
  unfolding AllHarmless apply consume_auth_flow delete_session delete_personal_data run_retention
  apply-AllHarmless (creates_flow flow) t empty h =
      subst (All (IsHarmless to_lower)) (sym (create_auth_flow-audits flow t)) h
  apply-AllHarmless (consumes_flow id state now) t empty h = h
  apply-AllHarmless (creates_session clock s) t empty h =
      subst (All (IsHarmless to_lower)) (sym (create_session-audits clock s t)) h
  apply-AllHarmless (gets_session id now) t empty h =
      subst (All (IsHarmless to_lower)) (sym (get_session-audits id now t)) h
  apply-AllHarmless (deletes_session id) t empty h = h
  apply-AllHarmless (deletes_personal_data user now) t empty h =
      All-append (IsHarmless to_lower) t.audit_events _ h (deletion-IsHarmless user now empty, tt)
  apply-AllHarmless (runs_retention expired cutoff now) t empty h = h
  apply-AllHarmless (records_audit event user detail at) t empty h =
      elim (record_audit-cases event user detail at t) [
        | inl (e, k) ↦ rw k h
        | inr (fine, k) ↦ rw k (All-append (IsHarmless to_lower) t.audit_events _ h (fine, tt))
      ]

  run-AllHarmless :
      (cs : List Command) (t : UserTables)
      → to_lower "" ≡ ""
      → AllHarmless t
      → AllHarmless (run to_lower cs t)
  unfolding run
  run-AllHarmless [] t empty h = h
  run-AllHarmless (c ∷ cs) t empty h =
      run-AllHarmless cs (apply to_lower c t) empty (apply-AllHarmless c t empty h)

-- Whatever operations of auth.go, and RunRetention, run on a new database, every audit event is one of the list, its detail has at
-- most 100 bytes and, in lower case, names no sensitive category; lowering the empty text is relied
-- on to give the empty text.
pub run-IsHarmless :
    (to_lower : String → String) (cs : List Command)
    → to_lower "" ≡ ""
    → All (IsHarmless to_lower) (run to_lower cs no_rows).audit_events
unfolding AllHarmless
run-IsHarmless to_lower cs empty = run-AllHarmless to_lower cs no_rows empty tt
