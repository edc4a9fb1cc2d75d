-- ===== src/Storage/Auth/Sessions.antt =====
-- When a stored session is found: by the stored text of its expiry, until it is deleted.
use maintainer_cockpit.Prelude.{
  String, Bool, false, not, none, some, List, [], ◌∷◌, ◌||◌, ◌≡◌, refl, subst, inl, inr, Bool-cases,
  below_one, str_eq, eq_refl, keep, checked, ||-false, ok-injective, ok, if◌then◌else◌, arith,
  Option, ◌∙◌, ltb,
}
use maintainer_cockpit.Storage.Clock.{Instant, is_zero, stored_le, stored_le-seconds}
use maintainer_cockpit.Storage.Users.{Session, UserTables}
use maintainer_cockpit.Storage.Auth.{
  AuthError, missing_fields, key_taken, create_session, get_session, delete_session, valid_session,
  first_where, has_session,
}

-- The session with the time of its creation.
abbrev pub dated : Instant → Session → Session
dated clock s = record s { created_at = if is_zero s.created_at then clock else s.created_at }

has_session-first_where :
    (id : String) (now : Instant) (ss : List Session)
    → has_session id ss ≡ false
    → first_where (valid_session id now) ss ≡ none
has_session-first_where id now [] h = refl
has_session-first_where id now (s ∷ ss) h =
    let (other, rest) = ||-false (str_eq s.id id) (has_session id ss) h in
    rw other (has_session-first_where id now ss rest)

delete_session-first_where :
    (id : String) (now : Instant) (ss : List Session)
    → first_where (valid_session id now) (keep (λ s. not (str_eq s.id id)) ss) ≡ none
delete_session-first_where id now [] = refl
delete_session-first_where id now (s ∷ ss) = elim (Bool-cases (str_eq s.id id)) [
  | inl e ↦ rw (e, keep) (delete_session-first_where id now ss)
  | inr e ↦ rw (e, keep) (rw e (delete_session-first_where id now ss))
]

first_false : (a b c d e : Bool) → (a || b || c || d || e) ≡ false → a ≡ false
first_false a b c d e h = ground arith

-- A missing session: nothing is returned.
get_session-none :
    (id : String) (now : Instant) (t : UserTables)
    → first_where (valid_session id now) t.sessions ≡ none
    → (get_session id now t).0 ≡ none
unfolding get_session
get_session-none id now t h = ground arith

-- What becomes of an accepted session, by the stored texts.
get_session-created :
    (clock now : Instant) (s : Session) (t t' : UserTables)
    → create_session clock s t ≡ ok t'
    → ((get_session s.id now t').0
        ≡ (if stored_le s.expires_at now then none else some (dated clock s)))
      × ((get_session s.id now (delete_session s.id t')).0 ≡ none)
unfolding create_session get_session delete_session
get_session-created clock now s t t' h =
    let bad : Bool =
      str_eq s.id ""
      || below_one s.user_id
      || str_eq s.login ""
      || str_eq s.csrf_token ""
      || is_zero s.expires_at in
    let (n1, h1) = checked bad missing_fields _ t' h in
    let (n2, h2) = checked (has_session s.id t.sessions) key_taken _ t' h1 in
    let named : str_eq s.id "" ≡ false =
      first_false (str_eq s.id "") (below_one s.user_id) (str_eq s.login "")
        (str_eq s.csrf_token "") (is_zero s.expires_at) n1 in
    let same : record t { sessions = dated clock s ∷ t.sessions } ≡ t' =
      ok-injective {E = AuthError} _ t' h2 in
    let past : first_where (valid_session s.id now) t.sessions ≡ none =
      has_session-first_where s.id now t.sessions n2 in
    subst
      (λ x.
        ((get_session s.id now x).0
          ≡ (if stored_le s.expires_at now then none else some (dated clock s)))
        × ((get_session s.id now (delete_session s.id x)).0 ≡ none))
      same
      (
        elim (Bool-cases (stored_le s.expires_at now)) [
          | inl e ↦ ground (arith, eq_refl s.id)
          | inr e ↦ ground (arith, eq_refl s.id)
        ],
        get_session-none s.id now
            (delete_session s.id (record t { sessions = dated clock s ∷ t.sessions }))
            (delete_session-first_where s.id now (dated clock s ∷ t.sessions)),
      )

-- What the stored texts decide, by the seconds.
stored_le-by_seconds :
    (expires now : Instant) (o : Option Session)
    → (if stored_le expires now then none else o) ≡ (
        if ltb now.seconds expires.seconds
        then o
        else if ltb expires.seconds now.seconds
        then none
        else if stored_le expires now
        then none
        else o)
stored_le-by_seconds expires now o =
    ground (arith, stored_le-seconds expires now, stored_le-seconds now expires)

-- A session that CreateSession accepts is returned by GetSession, with the time of its creation, in
-- every second before the one of its expiry, and in no second after it. Within this second it is
-- returned exactly where the stored text of its expiry is greater than the one of the time. Once it
-- is deleted it is returned at no time.
pub get_session-create_session :
    (clock now : Instant) (s : Session) (t t' : UserTables)
    → create_session clock s t ≡ ok t'
    → ((get_session s.id now t').0 ≡ (
        if ltb now.seconds s.expires_at.seconds
        then some (dated clock s)
        else if ltb s.expires_at.seconds now.seconds
        then none
        else if stored_le s.expires_at now
        then none
        else some (dated clock s)))
      × ((get_session s.id now (delete_session s.id t')).0 ≡ none)
get_session-create_session clock now s t t' h =
    let (found, gone) = get_session-created clock now s t t' h in
    (found ∙ stored_le-by_seconds s.expires_at now (some (dated clock s)), gone)
