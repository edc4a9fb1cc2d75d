-- ===== src/Github/Router/Chain.antt =====
-- What a routing loop does with its profiles: it tries them in order, and goes on past a profile
-- exactly on a route failure that allows it.
use maintainer_cockpit.Prelude.{
  ℕ, ◌+◌, String, true, false, Option, none, some, List, [], ◌∷◌, ◌++◌, ◌≡◌, refl, ◌⊎◌, inl, inr,
  ltb, length, Result, ok, err, arith, Bool-cases, split, cut,
}
use mathlib.Core.List.{append_assoc, append-nil}
use maintainer_cockpit.Github.Failure.{FailureCategory, GoError, can_advance}
use maintainer_cockpit.Github.Router.{
  Operation, selected, advanced, failed, AttemptSet, Profile, Reply, RouteEnd, returned, Routed,
  selected_attempt, stopped_attempt, advance_attempt, advance_category, after_failure, route_round,
  route_loop, dispatch, route_split, split_repository, route_repository_phase,
  contribution_evidence, pull_request_diff, two_parts, owner_part, collect_repository_contribution,
  collect_pull_request_diff,
}

module _ {T : Type 0} where
  -- The attempts of earlier rounds, in front of what a loop returns.
  abbrev pub prepend : AttemptSet → Routed T → Routed T
  prepend acc r = record { attempts = acc ++ r.attempts; end = r.end }

  abbrev pub Succeeds : RouteEnd T → Type 0
  Succeeds (returned (ok v)) = Unit
  Succeeds _ = ⊥

  abbrev pub Fails : RouteEnd T → Type 0
  Fails (returned (err e)) = Unit
  Fails _ = ⊥

  -- The attempts that a loop records from priority `i` on, for its end `r`: consecutive priorities,
  -- each but the last advanced past on a category that allows it, and the last selected exactly if
  -- the operation succeeded.
  abbrev pub Trail : Operation → ℕ → AttemptSet → RouteEnd T → Type 0
  Trail op i [] r = Fails r
  Trail op i (a ∷ rest) r =
      (a.operation ≡ op)
      × (a.priority ≡ i)
      × (((a.outcome ≡ selected)
            × (a.is_selected ≡ true)
            × (a.failure ≡ none)
            × (rest ≡ [])
            × Succeeds r)
          ⊎ ((a.outcome ≡ failed) × (a.is_selected ≡ false) × (rest ≡ []) × Fails r)
          ⊎ ((a.outcome ≡ advanced)
              × (a.is_selected ≡ false)
              × ((c : FailureCategory) × (a.failure ≡ some c) × (can_advance c ≡ true))
              × Trail op (i + 1) rest r))

pub advance_category-some :
    (e : GoError) (c : FailureCategory) → advance_category e ≡ some c → can_advance c ≡ true
unfolding advance_category
advance_category-some e c h = ground arith

module _ {Client T : Type 0} (op : Operation) (collect : ℕ → Option Client → Reply T) where
  abbrev loop : ℕ → ℕ → List (Profile Client) → AttemptSet → Routed T
  loop = route_loop op collect

  -- The continuation of a round only adds to the attempts that it is given.
  abbrev Adds : (AttemptSet → Routed T) → Type 0
  Adds next = (acc : AttemptSet) → next acc ≡ prepend acc (next [])

  failure_acc :
      (total i : ℕ) (p : Profile Client) (acc : AttemptSet) (e : GoError)
      (c : Option FailureCategory) (next : AttemptSet → Routed T)
      → Adds next
      → after_failure op total i p acc e c next
        ≡ prepend acc (after_failure op total i p [] e c next)
  unfolding after_failure
  failure_acc total i p acc e none next h = refl
  failure_acc total i p acc e (some c) next h = elim (Bool-cases (ltb (i + 1) total)) [
    | inl more ↦ rw more (
        cc (
          h (acc ++ advance_attempt op p i total c ∷ []),
          h (advance_attempt op p i total c ∷ []),
          append_assoc acc (advance_attempt op p i total c ∷ []) (next []).attempts,
        ))
    | inr last ↦ rw last
  ]

  round_acc :
      (total i : ℕ) (p : Profile Client) (acc : AttemptSet) (r : Result GoError T)
      (ctx : Option GoError) (next : AttemptSet → Routed T)
      → Adds next
      → route_round op total i p acc r ctx next
        ≡ prepend acc (route_round op total i p [] r ctx next)
  unfolding route_round
  round_acc total i p acc (ok v) ctx next h = refl
  round_acc total i p acc (err e) (some c) next h = rw append-nil
  round_acc total i p acc (err e) none next h =
      failure_acc total i p acc e (advance_category e) next h

  loop_acc : (total i : ℕ) (ps : List (Profile Client)) → Adds (loop total i ps)
  unfolding route_loop
  loop_acc total i [] acc = rw append-nil
  loop_acc total i (p ∷ ps) acc =
      round_acc total i p acc (collect i p.client).result (collect i p.client).context_error
        (loop total (i + 1) ps) (loop_acc total (i + 1) ps)

  failure-Trail :
      (total i : ℕ) (p : Profile Client) (e : GoError) (c : Option FailureCategory)
      (next : AttemptSet → Routed T)
      → advance_category e ≡ c
      → Adds next
      → (ltb (i + 1) total ≡ true → Trail op (i + 1) (next []).attempts (next []).end)
      → Trail op i
          (after_failure op total i p [] e c next).attempts
          (after_failure op total i p [] e c next).end
  unfolding after_failure stopped_attempt
  failure-Trail total i p e none next k h t = (refl, refl, inr (inl (refl, refl, refl, tt)))
  failure-Trail total i p e (some c) next k h t = elim (Bool-cases (ltb (i + 1) total)) [
    | inl more ↦ rw more (
        rw (h (advance_attempt op p i total c ∷ [])) (
          unfold advance_attempt in
          (refl, refl, inr (inr (rw more, refl, (c, refl, advance_category-some e c k), t more)))))
    | inr last ↦
        rw last (unfold advance_attempt in (refl, refl, inr (inl (rw last, refl, refl, tt))))
  ]

  round-Trail :
      (total i : ℕ) (p : Profile Client) (r : Result GoError T) (ctx : Option GoError)
      (next : AttemptSet → Routed T)
      → Adds next
      → (ltb (i + 1) total ≡ true → Trail op (i + 1) (next []).attempts (next []).end)
      → Trail op i
          (route_round op total i p [] r ctx next).attempts
          (route_round op total i p [] r ctx next).end
  unfolding route_round
  round-Trail total i p (ok v) ctx next h t =
      unfold selected_attempt in (refl, refl, inl (refl, refl, refl, refl, tt))
  round-Trail total i p (err e) (some c) next h t = tt
  round-Trail total i p (err e) none next h t =
      failure-Trail total i p e (advance_category e) next refl h t

  -- A loop with a profile left, and the count of profiles right, leaves a trail.
  pub loop-Trail :
      (total i : ℕ) (p : Profile Client) (ps : List (Profile Client))
      → total ≡ i + length (p ∷ ps)
      → Trail op i (loop total i (p ∷ ps) []).attempts (loop total i (p ∷ ps) []).end
  unfolding route_loop
  loop-Trail total i p [] h =
      round-Trail total i p (collect i p.client).result (collect i p.client).context_error
        (loop total (i + 1) []) (loop_acc total (i + 1) []) (λ more. absurd (ground arith))
  loop-Trail total i p (q ∷ ps) h =
      round-Trail total i p (collect i p.client).result (collect i p.client).context_error
        (loop total (i + 1) (q ∷ ps)) (loop_acc total (i + 1) (q ∷ ps))
        (λ _. loop-Trail total (i + 1) q ps (omega arith))

  dispatch-Trail :
      (owner : String) (ps : List (Profile Client))
      → Trail op 0 (dispatch op collect owner ps).attempts (dispatch op collect owner ps).end
  unfolding dispatch
  dispatch-Trail owner [] = tt
  dispatch-Trail owner (p ∷ ps) = loop-Trail (length (p ∷ ps)) 0 p ps (omega arith)

  split-Trail :
      (routes : String → List (Profile Client)) (to_lower : String → String)
      (parts : Option (String × String))
      → Trail op 0
          (route_split routes to_lower op collect parts).attempts
          (route_split routes to_lower op collect parts).end
  unfolding route_split
  split-Trail routes to_lower none = tt
  split-Trail routes to_lower (some (owner, name)) = dispatch-Trail owner (routes (to_lower owner))

  -- Whatever the routes, the repository's name and the replies of the clients, a routed operation
  -- returns (it never reaches the panic), its attempts have the priorities 0, 1, 2, … and its
  -- operation, every attempt but the last was advanced past on a category that allows it, an
  -- attempt is marked selected exactly where the operation succeeded, and it is then the last one.
  pub route-Trail :
      (routes : String → List (Profile Client)) (to_lower : String → String) (repository : String)
      → Trail op 0
          (route_repository_phase routes to_lower repository op collect).attempts
          (route_repository_phase routes to_lower repository op collect).end
  unfolding route_repository_phase
  route-Trail routes to_lower repository = split-Trail routes to_lower (split_repository repository)

module _ {Client T : Type 0} (collect : ℕ → Option Client → Reply T)
    (routes : String → List (Profile Client)) (to_lower : String → String) where
  -- The routing of contribution evidence and of pull request diffs returns and leaves the same kind of
  -- trail, whatever the repository's name and the replies.
  pub evidence-Trail :
      (repository : String)
      → Trail contribution_evidence 0
          (collect_repository_contribution routes to_lower repository collect).attempts
          (collect_repository_contribution routes to_lower repository collect).end
        × Trail pull_request_diff 0
            (collect_pull_request_diff routes to_lower repository collect).attempts
            (collect_pull_request_diff routes to_lower repository collect).end
  unfolding collect_repository_contribution collect_pull_request_diff
  evidence-Trail repository = (
    split-Trail contribution_evidence collect routes to_lower (two_parts (split b'/' repository)),
    split-Trail pull_request_diff collect routes to_lower (owner_part (cut b'/' repository)),
  )
