-- ===== src/Storage/RouteAttempts/Accepted.antt =====
-- What the router records is what the store accepts.
use maintainer_cockpit.Prelude.{
  ℕ, ◌+◌, String, Bool, true, Option, none, some, List, [], ◌∷◌, ◌++◌, byte_length, ◌≡◌, refl,
  arith, All, All-append, ltb, Result, ok, err, Bool-cases, inl, inr, length,
}
use maintainer_cockpit.Github.Failure.{
  FailureCategory, GoError, can_advance, route_failure_detail, route_failure_remediation,
  classify_non_advance_failure, Classified, classify_answer,
}
use maintainer_cockpit.Github.Router.{
  Operation, Profile, RouteEnd, Reply, Routed, Attempt, AttemptSet, selected_attempt,
  stopped_attempt, advance_attempt, after_failure, route_round, route_loop, dispatch, route_split,
  split_repository, route_repository_phase, advance_category,
}
use maintainer_cockpit.Github.Router.Chain.{Trail, route-Trail, advance_category-some}
use maintainer_cockpit.Github.Router.Success.{owner_profiles}
use maintainer_cockpit.Storage.RouteAttempts.{
  storage_route_attempt, valid_route_attempt, valid_profile, valid_type, type_text, outcome_text,
  failure_text, has_line_break, valid_text, valid_route_failure, check_attempts,
  storage_route_attempts, OperationRow, put_operation, replace_route_attempts, put_checked,
  operation_text, valid_route_operation,
}
use maintainer_cockpit.Storage.Clock.{Instant}

-- A profile as configuration admits it.
abbrev pub IsNamed : {Client : Type 0} → Profile Client → Type 0
IsNamed p = (valid_profile p.name ≡ true) × (valid_type (type_text p.type) ≡ true)

abbrev pub IsStorable : Attempt → Type 0
IsStorable a = valid_route_attempt (storage_route_attempt a) ≡ true

operation_valid : (op : Operation) → valid_route_operation (operation_text op) ≡ true
unfolding valid_route_operation operation_text
operation_valid Operation.discovery = refl
operation_valid Operation.hydration = refl
operation_valid Operation.progress = refl
operation_valid Operation.contribution_evidence = refl
operation_valid Operation.pull_request_diff = refl

-- The texts and the category that an attempt files for a failure are accepted.
abbrev IsBounded : Classified → Type 0
IsBounded k =
    (valid_route_failure (failure_text (some k.category)) ≡ true)
    × (valid_text k.detail ≡ true)
    × (valid_text k.remediation ≡ true)

classify-IsBounded : (e : GoError) → IsBounded (classify_non_advance_failure e)
unfolding valid_route_failure failure_text byte_length has_line_break
classify-IsBounded e =
    classify_answer IsBounded e (refl, refl, refl) (refl, refl, refl) (refl, refl, refl)
      (refl, refl, refl) (refl, refl, refl)

abbrev advance_classified : FailureCategory → Classified
advance_classified c = record {
  category = c;
  detail = route_failure_detail c;
  remediation = route_failure_remediation c;
}

advance-IsBounded : (c : FailureCategory) → can_advance c ≡ true → IsBounded (advance_classified c)
unfolding can_advance valid_route_failure failure_text route_failure_detail
    route_failure_remediation byte_length has_line_break
advance-IsBounded FailureCategory.route_missing h = (refl, refl, refl)
advance-IsBounded FailureCategory.route_ambiguous h = (refl, refl, refl)
advance-IsBounded FailureCategory.installation_missing h = (refl, refl, refl)
advance-IsBounded FailureCategory.installation_suspended h = (refl, refl, refl)
advance-IsBounded FailureCategory.repository_not_granted h = (refl, refl, refl)
advance-IsBounded FailureCategory.permission_missing h = (refl, refl, refl)
advance-IsBounded FailureCategory.credential_invalid h = (refl, refl, refl)
advance-IsBounded FailureCategory.public_capability_missing h = (refl, refl, refl)
advance-IsBounded FailureCategory.primary_rate_limited h = cc
advance-IsBounded FailureCategory.secondary_rate_limited h = cc
advance-IsBounded FailureCategory.github_unavailable h = cc
advance-IsBounded FailureCategory.operation_timeout h = cc
advance-IsBounded FailureCategory.operation_canceled h = cc
advance-IsBounded FailureCategory.storage h = cc
advance-IsBounded FailureCategory.unknown h = cc

module _ {Client : Type 0} (op : Operation) (p : Profile Client) (i : ℕ) where
  selected-IsStorable : IsNamed p → IsStorable (selected_attempt op p i)
  unfolding selected_attempt valid_route_attempt outcome_text failure_text
  selected-IsStorable n = ground (arith, n.0, n.1)

  stopped-IsStorable : (e : GoError) → IsNamed p → IsStorable (stopped_attempt op p i e)
  unfolding stopped_attempt valid_route_attempt outcome_text
  stopped-IsStorable e n = let (c, d, r) = classify-IsBounded e in ground (arith, n.0, n.1, c, d, r)

  advance-IsStorable :
      (total : ℕ) (c : FailureCategory)
      → can_advance c ≡ true
      → IsNamed p
      → IsStorable (advance_attempt op p i total c)
  unfolding advance_attempt valid_route_attempt outcome_text
  advance-IsStorable total c h n =
      let (k, d, r) = advance-IsBounded c h in
      elim (Bool-cases (ltb (i + 1) total)) [
        | inl more ↦ rw more (ground (arith, n.0, n.1, k, d, r))
        | inr last ↦ rw last (ground (arith, n.0, n.1, k, d, r))
      ]

module _ {Client T : Type 0} (op : Operation) (collect : ℕ → Option Client → Reply T) where
  abbrev Keeps : (AttemptSet → Routed T) → Type 0
  Keeps next = (acc : AttemptSet) → All IsStorable acc → All IsStorable (next acc).attempts

  failure-IsStorable :
      (total i : ℕ) (p : Profile Client) (acc : AttemptSet) (e : GoError)
      (c : Option FailureCategory) (next : AttemptSet → Routed T)
      → advance_category e ≡ c
      → IsNamed p
      → Keeps next
      → All IsStorable acc
      → All IsStorable (after_failure op total i p acc e c next).attempts
  unfolding after_failure
  failure-IsStorable total i p acc e none next k n h v =
      All-append IsStorable acc (stopped_attempt op p i e ∷ []) v
        (stopped-IsStorable op p i e n, tt)
  failure-IsStorable total i p acc e (some c) next k n h v =
      let v' : All IsStorable (acc ++ advance_attempt op p i total c ∷ []) =
        All-append IsStorable acc (advance_attempt op p i total c ∷ []) v
          (advance-IsStorable op p i total c (advance_category-some e c k) n, tt) in
      elim (Bool-cases (ltb (i + 1) total)) [
        | inl more ↦ rw more (h (acc ++ advance_attempt op p i total c ∷ []) v')
        | inr last ↦ rw last v'
      ]

  round-IsStorable :
      (total i : ℕ) (p : Profile Client) (acc : AttemptSet) (r : Result GoError T)
      (ctx : Option GoError) (next : AttemptSet → Routed T)
      → IsNamed p
      → Keeps next
      → All IsStorable acc
      → All IsStorable (route_round op total i p acc r ctx next).attempts
  unfolding route_round
  round-IsStorable total i p acc (ok v) ctx next n h k =
      All-append IsStorable acc (selected_attempt op p i ∷ []) k (selected-IsStorable op p i n, tt)
  round-IsStorable total i p acc (err e) (some c) next n h k = k
  round-IsStorable total i p acc (err e) none next n h k =
      failure-IsStorable total i p acc e (advance_category e) next refl n h k

  loop-IsStorable :
      (total i : ℕ) (ps : List (Profile Client))
      → All IsNamed ps
      → Keeps (route_loop op collect total i ps)
  unfolding route_loop
  loop-IsStorable total i [] n acc v = v
  loop-IsStorable total i (p ∷ ps) n acc v =
      round-IsStorable total i p acc (collect i p.client).result (collect i p.client).context_error
        (route_loop op collect total (i + 1) ps) n.0 (loop-IsStorable total (i + 1) ps n.1) v

  dispatch-IsStorable :
      (owner : String) (ps : List (Profile Client))
      → All IsNamed ps
      → All IsStorable (dispatch op collect owner ps).attempts
  unfolding dispatch
  dispatch-IsStorable owner [] n = tt
  dispatch-IsStorable owner (p ∷ ps) n = loop-IsStorable (length (p ∷ ps)) 0 (p ∷ ps) n [] tt

  split-IsStorable :
      (routes : String → List (Profile Client)) (to_lower : String → String)
      (parts : Option (String × String))
      → All IsNamed (owner_profiles routes to_lower parts)
      → All IsStorable (route_split routes to_lower op collect parts).attempts
  unfolding route_split
  split-IsStorable routes to_lower none n = tt
  split-IsStorable routes to_lower (some (owner, name)) n =
      dispatch-IsStorable owner (routes (to_lower owner)) n

-- Attempts in the order of their priorities from `i` on, each of them storable, pass the checks.
checked :
    {T : Type 0} (op : Operation) (i : ℕ) (attempts : AttemptSet) (r : RouteEnd T)
    → Trail op i attempts r
    → All IsStorable attempts
    → check_attempts i (storage_route_attempts attempts) ≡ ok tt
unfolding check_attempts
checked op i [] r t v = refl
checked op i (a ∷ rest) r (_, at, inl (_, _, _, last, _)) v = rw (last, v.0) (ground (arith, at))
checked op i (a ∷ rest) r (_, at, inr (inl (_, _, last, _))) v = rw (last, v.0) (ground (arith, at))
checked op i (a ∷ rest) r (_, at, inr (inr (_, _, _, t))) v =
    ground (arith, at, v.0, checked op (i + 1) rest r t v.1)

module _ {Client T : Type 0} (op : Operation) (collect : ℕ → Option Client → Reply T)
    (routes : String → List (Profile Client)) (to_lower : String → String) where
  -- Whatever the replies, the attempts that a routed operation leaves are accepted by the store and
  -- replace the ones of this repository and operation, where the repository is configured and the
  -- profiles of its owner have names and types that the store accepts.
  pub replace_route_attempts-route :
      (configured : String → Bool) (repository : String) (at : Instant) (rows : List OperationRow)
      → configured repository ≡ true
      → All IsNamed (owner_profiles routes to_lower (split_repository repository))
      → replace_route_attempts configured repository
          (operation_text op)
          (storage_route_attempts
            (route_repository_phase routes to_lower repository op collect).attempts)
          at
          rows
        ≡ (
          ok tt,
          put_operation repository
              (operation_text op)
              at
              (storage_route_attempts
                (route_repository_phase routes to_lower repository op collect).attempts)
              rows,
        )
  unfolding replace_route_attempts put_checked
  replace_route_attempts-route configured repository at rows known n =
      let passed =
        checked op 0 (route_repository_phase routes to_lower repository op collect).attempts
          (route_repository_phase routes to_lower repository op collect).end
          (route-Trail op collect routes to_lower repository)
          (unfold route_repository_phase in
            split-IsStorable op collect routes to_lower (split_repository repository) n) in
      rw (known, operation_valid op) (rw (passed, put_checked))
