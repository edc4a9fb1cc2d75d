-- ===== src/Storage/Auth/Flows.antt =====
-- An OAuth flow is used at most once.
use maintainer_cockpit.Prelude.{
  String, Bool, false, not, Option, none, some, List, [], ◌∷◌, ◌≡◌, ◌≢◌, refl, sym, ◌∙◌, inl, inr,
  Option-cases, All, Distinct, keep, str_eq, eq_iff, Bool-cases, arith, Result-cases, subst, ℤ,
  ◌||◌, ◌≤◌,
}
use maintainer_cockpit.Storage.Clock.{Instant, is_zero, stored_le, seconds_le}
use maintainer_cockpit.Storage.Users.{AuthFlow, Session, UserTables}
use maintainer_cockpit.Storage.Auth.{
  create_auth_flow, consume_auth_flow, consumable, first_where, create_session, get_session,
  delete_session, delete_personal_data, run_retention, record_audit, has_flow, valid_session,
}
use maintainer_cockpit.Storage.Auth.Commands.{
  Command, creates_flow, consumes_flow, creates_session, gets_session, deletes_session,
  deletes_personal_data, runs_retention, records_audit, apply, run, no_rows, kept,
}
use maintainer_cockpit.Storage.Auth.Audit.{record_audit-cases}

abbrev pub flow_key : AuthFlow → String
flow_key f = f.id

-- No flow has the identity.
abbrev pub Lacks : String → List AuthFlow → Type 0
Lacks id fs = All (λ f. id ≢ flow_key f) fs

-- The command creates no flow with the identity.
abbrev pub CreatesNot : String → Command → Type 0
CreatesNot id (creates_flow f) = id ≢ flow_key f
CreatesNot id c = Unit

module _ {ℓ} {A : Type ℓ} where
  All-keep {κ} : (P : A → Type κ) (p : A → Bool) (xs : List A) → All P xs → All P (keep p xs)
  All-keep P p [] h = tt
  All-keep P p (x ∷ xs) h = elim (Bool-cases (p x)) [
    | inl e ↦ rw (e, keep) (h.0, All-keep P p xs h.1)
    | inr e ↦ rw (e, keep) (All-keep P p xs h.1)
  ]

  keep-Distinct :
      (key : A → String) (p : A → Bool) (xs : List A) → Distinct key xs → Distinct key (keep p xs)
  unfolding Distinct
  keep-Distinct key p [] h = tt
  keep-Distinct key p (x ∷ xs) h = elim (Bool-cases (p x)) [
    | inl e ↦ rw (e, keep) (All-keep _ p xs h.0, keep-Distinct key p xs h.1)
    | inr e ↦ rw (e, keep) (keep-Distinct key p xs h.1)
  ]

fresh-Lacks : (id : String) (fs : List AuthFlow) → has_flow id fs ≡ false → Lacks id fs
fresh-Lacks id [] h = tt
fresh-Lacks id (f ∷ fs) h =
    (λ e. ground (arith, eq_iff f.id id, e), fresh-Lacks id fs (ground arith))

lacking : AuthFlow → Bool
lacking f = str_eq f.id "" || str_eq f.state "" || str_eq f.code_verifier "" || is_zero f.expires_at

-- What creating a flow does to the flows.
create_auth_flow-keeps :
    (P : List AuthFlow → Type 0) (f : AuthFlow) (t : UserTables)
    → (has_flow f.id t.auth_flows ≡ false → P (f ∷ t.auth_flows))
    → P t.auth_flows
    → P (kept t (create_auth_flow f t)).auth_flows
unfolding create_auth_flow
create_auth_flow-keeps P f t add h = elim (Bool-cases (has_flow f.id t.auth_flows)) [
  | inl e ↦ subst P (ground arith) h
  | inr e ↦ elim (Result-cases (create_auth_flow f t)) [
    | inl (x, k) ↦ rw k h
    | inr (t', k) ↦ rw k (subst P (ground arith) (add e))
  ]
]

create_session-flows :
    (clock : Instant) (s : Session) (t : UserTables)
    → (kept t (create_session clock s t)).auth_flows ≡ t.auth_flows
unfolding create_session
create_session-flows clock s t = ground arith

record_audit-flows :
    (to_lower : String → String) (event detail : String) (user : Option ℤ) (at : Instant)
    (t : UserTables)
    → (kept t (record_audit to_lower event user detail at t)).auth_flows ≡ t.auth_flows
record_audit-flows to_lower event detail user at t =
    elim (record_audit-cases to_lower event user detail at t) [
      | inl (e, k) ↦ rw k refl
      | inr (fine, k) ↦ rw k refl
    ]

get_session-flows :
    (id : String) (now : Instant) (t : UserTables)
    → (get_session id now t).1.auth_flows ≡ t.auth_flows
unfolding get_session delete_session
get_session-flows id now t = elim (Option-cases (first_where (valid_session id now) t.sessions)) [
  | inl k ↦ ground arith
  | inr (s, k) ↦ ground arith
]

module _ (to_lower : String → String) (P : List AuthFlow → Type 0) where
  -- A property of the flows that keeping some of them keeps, and that a command which creates a flow
  -- keeps, is kept by every command.
  apply-keeps :
      (c : Command) (t : UserTables)
      → ((f : AuthFlow)
          → c ≡ creates_flow f
          → has_flow f.id t.auth_flows ≡ false
          → P (f ∷ t.auth_flows))
      → ((p : AuthFlow → Bool) → P (keep p t.auth_flows))
      → P t.auth_flows
      → P (apply to_lower c t).auth_flows
  unfolding apply consume_auth_flow delete_session delete_personal_data run_retention
  apply-keeps (creates_flow f) t add less h = create_auth_flow-keeps P f t (add f refl) h
  apply-keeps (consumes_flow id state now) t add less h = less _
  apply-keeps (creates_session clock s) t add less h =
      subst P (sym (create_session-flows clock s t)) h
  apply-keeps (gets_session id now) t add less h = subst P (sym (get_session-flows id now t)) h
  apply-keeps (deletes_session id) t add less h = h
  apply-keeps (deletes_personal_data user now) t add less h = h
  apply-keeps (runs_retention expired cutoff now) t add less h = less _
  apply-keeps (records_audit event user detail at) t add less h =
      subst P (sym (record_audit-flows to_lower event detail user at t)) h

module _ (to_lower : String → String) where
  run-Distinct :
      (cs : List Command) (t : UserTables)
      → Distinct flow_key t.auth_flows
      → Distinct flow_key (run to_lower cs t).auth_flows
  unfolding run Distinct
  run-Distinct [] t h = h
  run-Distinct (c ∷ cs) t h = run-Distinct cs (apply to_lower c t) (
      apply-keeps to_lower (Distinct flow_key) c t
        (λ f e fresh. (fresh-Lacks f.id t.auth_flows fresh, h))
        (λ p. keep-Distinct flow_key p t.auth_flows h) h)

  run-Lacks :
      (id : String) (cs : List Command) (t : UserTables)
      → All (CreatesNot id) cs
      → Lacks id t.auth_flows
      → Lacks id (run to_lower cs t).auth_flows
  unfolding run
  run-Lacks id [] t n h = h
  run-Lacks id (c ∷ cs) t n h = run-Lacks id cs (apply to_lower c t) n.1 (
      apply-keeps to_lower (Lacks id) c t (λ f e fresh. (subst (CreatesNot id) e n.0, h))
        (λ p. All-keep _ p t.auth_flows h) h)

-- A flow that is consumed has the identity and the state that were asked for, and the stored text of
-- its expiry is greater than the one of the time.
first_where-consumable :
    (id state : String) (now : Instant) (fs : List AuthFlow) (f : AuthFlow)
    → first_where (consumable id state now) fs ≡ some f
    → (f.id ≡ id) × (f.state ≡ state) × (stored_le f.expires_at now ≡ false)
first_where-consumable id state now [] f h = ground arith
first_where-consumable id state now (g ∷ fs) f h = elim (Bool-cases (consumable id state now g)) [
  | inl k ↦
      let same : g ≡ f = ground arith in
      subst (λ x. (x.id ≡ id) × (x.state ≡ state) × (stored_le x.expires_at now ≡ false)) same
        (ground (arith, eq_iff g.id id), ground (arith, eq_iff g.state state), ground arith)
  | inr k ↦ first_where-consumable id state now fs f (ground arith)
]

first_where-All :
    {A : Type 0} (P : A → Type 0) (p : A → Bool) (xs : List A) (x : A)
    → first_where p xs ≡ some x
    → All P xs
    → P x
first_where-All P p [] x h k = ground arith
first_where-All P p (y ∷ ys) x h k = elim (Bool-cases (p y)) [
  | inl e ↦ let same : y ≡ x = ground arith in subst P same k.0
  | inr e ↦ first_where-All P p ys x (ground arith) k.1
]

Lacks-first_where :
    (id state : String) (now : Instant) (fs : List AuthFlow)
    → Lacks id fs
    → first_where (consumable id state now) fs ≡ none
Lacks-first_where id state now [] h = refl
Lacks-first_where id state now (f ∷ fs) h = elim (Bool-cases (consumable id state now f)) [
  | inl k ↦ let own : f.id ≡ id = ground (arith, eq_iff f.id id) in absurd (h.0 (sym own))
  | inr k ↦ rw k (Lacks-first_where id state now fs h.1)
]

-- Flows of one identity are all gone after one of them was consumed.
keep-Lacks :
    (id state : String) (now : Instant) (fs : List AuthFlow) (f : AuthFlow)
    → Distinct flow_key fs
    → first_where (consumable id state now) fs ≡ some f
    → Lacks id (keep (λ g. not (consumable id state now g)) fs)
unfolding Distinct
keep-Lacks id state now [] f d h = tt
keep-Lacks id state now (g ∷ fs) f d h = elim (Bool-cases (consumable id state now g)) [
  | inl k ↦
      let own : g.id ≡ id = ground (arith, eq_iff g.id id) in
      rw (k, keep) (All-keep _ _ fs (subst (λ x. All (λ y. x ≢ flow_key y) fs) own d.0))
  | inr k ↦
      let later : first_where (consumable id state now) fs ≡ some f = ground arith in
      rw (k, keep)
        (
          λ e.
              first_where-All _ (consumable id state now) fs f later d.0
                (sym e ∙ sym (first_where-consumable id state now fs f later).0),
          keep-Lacks id state now fs f d.1 later,
        )
]

-- Whatever operations of auth.go, and RunRetention, ran on a new database before: a flow that
-- ConsumeAuthFlow returns has the identity and the state that were asked for; its expiry is stored as
-- a greater text than the time of the call, and so does not lie in an earlier second; and no later
-- call returns a flow of this identity, whatever of these operations run in between, unless a flow of
-- this identity is created again.
pub consume_auth_flow-once :
    (to_lower : String → String) (before after : List Command) (id state state' : String)
    (now now' : Instant) (f : AuthFlow)
    → (consume_auth_flow id state now (run to_lower before no_rows)).0 ≡ some f
    → All (CreatesNot id) after
    → (f.id ≡ id)
      × (f.state ≡ state)
      × (stored_le f.expires_at now ≡ false)
      × (now.seconds ≤ f.expires_at.seconds)
      × ((consume_auth_flow id state' now'
            (run to_lower after (consume_auth_flow id state now (run to_lower before no_rows)).1)).0
          ≡ none)
unfolding consume_auth_flow Distinct
consume_auth_flow-once to_lower before after id state state' now now' f h n =
    let t : UserTables = run to_lower before no_rows in
    let (own, asked, fresh) = first_where-consumable id state now t.auth_flows f h in
    let gone : Lacks id (keep (λ g. not (consumable id state now g)) t.auth_flows) =
      keep-Lacks id state now t.auth_flows f (run-Distinct to_lower before no_rows tt) h in
    (
      own,
      asked,
      fresh,
      seconds_le f.expires_at now fresh,
      Lacks-first_where id state' now' _ (run-Lacks to_lower id after _ n gone),
    )
