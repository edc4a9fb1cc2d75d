-- ===== src/Github/Router/Success.antt =====
-- Which profile's reply a routed operation returns.
use maintainer_cockpit.Prelude.{
  ℕ, ◌+◌, ◌<◌, String, true, Option, none, some, List, [], ◌∷◌, ◌++◌, ◌≡◌, refl, ap, sym, ◌⊎◌, inl,
  inr, ltb, length, length-append, Result, ok, err, arith, Bool-cases, lt→ltb, subst,
}
use mathlib.Core.List.{cons≢nil}
use maintainer_cockpit.Github.Failure.{FailureCategory, GoError, as_route_failure, can_advance}
use maintainer_cockpit.Github.Router.{
  Operation, AttemptSet, Profile, Reply, RouteEnd, returned, Routed, advance_attempt,
  advance_category, after_failure, route_round, route_loop, dispatch, route_split, split_repository,
  route_repository_phase,
}

module _ {Client T : Type 0} (collect : ℕ → Option Client → Reply T) where
  -- The call of round i fails with a route failure of a category that lets the routing go on, while
  -- the context is live.
  abbrev pub Passed : ℕ → Profile Client → Type 0
  Passed i p =
      (e : GoError) × (c : FailureCategory) × ((collect i p.client).result ≡ err e)
      × ((collect i p.client).context_error ≡ none)
      × (as_route_failure e ≡ some c)
      × (can_advance c ≡ true)

  abbrev pub AllPassed : ℕ → List (Profile Client) → Type 0
  AllPassed i [] = Unit
  AllPassed i (p ∷ ps) = Passed i p × AllPassed (i + 1) ps

  -- A reply that ends the routing: a success, or a failure with a live context that is no route
  -- failure of a category that lets it go on.
  abbrev pub Decisive : ℕ → Profile Client → Result GoError T → Type 0
  Decisive i p (ok v) = (collect i p.client).result ≡ ok v
  Decisive i p (err e) =
      ((collect i p.client).result ≡ err e)
      × ((collect i p.client).context_error ≡ none)
      × (advance_category e ≡ none)

advance_category-some :
    (e : GoError) (c : FailureCategory)
    → advance_category e ≡ some c
    → (as_route_failure e ≡ some c) × (can_advance c ≡ true)
unfolding advance_category
advance_category-some e c h = ground arith

some-advance_category :
    (e : GoError) (c : FailureCategory)
    → as_route_failure e ≡ some c
    → can_advance c ≡ true
    → advance_category e ≡ some c
unfolding advance_category
some-advance_category e c h k = ground arith

-- A call at an index that is written another way.
call_at :
    {Client T : Type 0} (collect : ℕ → Option Client → Reply T) (i j : ℕ) (c : Option Client)
    (P : Reply T → Type 0)
    → i ≡ j
    → P (collect j c)
    → P (collect i c)
call_at collect i j c P e h = rw e h

module _ {Client T : Type 0} (op : Operation) (collect : ℕ → Option Client → Reply T) where
  failure_success :
      (total i : ℕ) (p : Profile Client) (acc : AttemptSet) (e : GoError)
      (c : Option FailureCategory) (next : AttemptSet → Routed T) (v : T)
      → (after_failure op total i p acc e c next).end ≡ returned (ok v)
      → (k : FailureCategory) × (acc' : AttemptSet) × (c ≡ some k)
        × ((next acc').end ≡ returned (ok v))
  unfolding after_failure
  failure_success total i p acc e none next v h = cc
  failure_success total i p acc e (some c) next v h = elim (Bool-cases (ltb (i + 1) total)) [
    | inl more ↦ (c, acc ++ advance_attempt op p i total c ∷ [], refl, rw more at h)
    | inr last ↦ cc (rw last at h)
  ]

  round_success :
      (total i : ℕ) (p : Profile Client) (acc : AttemptSet) (r : Result GoError T)
      (ctx : Option GoError) (next : AttemptSet → Routed T) (v : T)
      → (route_round op total i p acc r ctx next).end ≡ returned (ok v)
      → (r ≡ ok v)
        ⊎ ((e : GoError) × (k : FailureCategory) × (acc' : AttemptSet) × (r ≡ err e)
            × (ctx ≡ none)
            × (advance_category e ≡ some k)
            × ((next acc').end ≡ returned (ok v)))
  unfolding route_round
  round_success total i p acc (ok w) ctx next v h = inl cc
  round_success total i p acc (err e) (some c) next v h = cc
  round_success total i p acc (err e) none next v h =
      let (k, acc', q, s) = failure_success total i p acc e (advance_category e) next v h in
      inr (e, k, acc', refl, refl, q, s)

  -- A loop that succeeds has passed over the profiles before the one whose call succeeded.
  loop_success :
      (total i : ℕ) (ps : List (Profile Client)) (acc : AttemptSet) (v : T)
      → (route_loop op collect total i ps acc).end ≡ returned (ok v)
      → (pre : List (Profile Client)) × (p : Profile Client) × (post : List (Profile Client)) × (ps
          ≡ pre ++ p ∷ post)
        × AllPassed collect i pre
        × ((collect (i + length pre) p.client).result ≡ ok v)
  unfolding route_loop
  loop_success total i [] acc v h = cc
  loop_success total i (p ∷ ps) acc v h =
      elim (round_success total i p acc (collect i p.client).result
        (collect i p.client).context_error (route_loop op collect total (i + 1) ps) v h) [
          | inl q ↦ (
            [],
            p,
            ps,
            refl,
            tt,
            call_at collect (i + 0) i p.client (λ r. r.result ≡ ok v) (omega arith) q,
          )
          | inr (e, k, acc', q, s, t, u) ↦
              let (pre, p', post, x, y, z) = loop_success total (i + 1) ps acc' v u in
              (
                p ∷ pre,
                p',
                post,
                ap (λ l. p ∷ l) x,
                ((e, k, q, s, (advance_category-some e k t).0, (advance_category-some e k t).1), y),
                call_at collect (i + length (p ∷ pre)) (i + 1 + length pre) p'.client
                    (λ r. r.result ≡ ok v) (omega arith) z,
              )
        ]

  round-Decisive :
      (total i : ℕ) (p : Profile Client) (acc : AttemptSet) (r : Result GoError T)
      (next : AttemptSet → Routed T)
      → Decisive collect i p r
      → (route_round op total i p acc
          (collect i p.client).result
          (collect i p.client).context_error
          next).end
        ≡ returned r
  unfolding route_round after_failure
  round-Decisive total i p acc (ok v) next h = rw h
  round-Decisive total i p acc (err e) next h = rw (h.0, h.1) (rw (h.2, after_failure))

  round-Passed :
      (total i : ℕ) (p : Profile Client) (acc : AttemptSet) (next : AttemptSet → Routed T)
      (r : RouteEnd T)
      → i + 1 < total
      → Passed collect i p
      → ((acc' : AttemptSet) → (next acc').end ≡ r)
      → (route_round op total i p acc
          (collect i p.client).result
          (collect i p.client).context_error
          next).end
        ≡ r
  unfolding route_round after_failure
  round-Passed total i p acc next r lt (e, c, q, s, t, u) h =
      rw (q, s)
        (rw (some-advance_category e c t u, after_failure) (rw (lt→ltb (i + 1) total lt) (h _)))

  loop-Decisive :
      (total i : ℕ) (pre : List (Profile Client)) (p : Profile Client)
      (post : List (Profile Client)) (acc : AttemptSet) (r : Result GoError T) (j : ℕ)
      → total ≡ i + length (pre ++ p ∷ post)
      → j ≡ i + length pre
      → AllPassed collect i pre
      → Decisive collect j p r
      → (route_loop op collect total i (pre ++ p ∷ post) acc).end ≡ returned r
  unfolding route_loop
  loop-Decisive total i [] p post acc r j e k h d =
      let at_i : j ≡ i = omega arith in
      round-Decisive total i p acc r (route_loop op collect total (i + 1) post)
        (subst (λ n. Decisive collect n p r) at_i d)
  loop-Decisive total i (q ∷ pre) p post acc r j e k h d =
      round-Passed total i q acc (route_loop op collect total (i + 1) (pre ++ p ∷ post))
        (returned r) (omega (arith, length-append pre (p ∷ post))) h.0
        (λ acc'. loop-Decisive total (i + 1) pre p post acc' r j (omega arith) (omega arith) h.1 d)

-- The profiles of the repository's owner, in the router's order; none for a name that is not
-- `owner/name`.
abbrev pub owner_profiles :
    {Client : Type 0}
    → (String → List (Profile Client))
    → (String → String)
    → Option (String × String)
    → List (Profile Client)
owner_profiles routes to_lower none = []
owner_profiles routes to_lower (some (owner, name)) = routes (to_lower owner)

module _ {Client T : Type 0} (op : Operation) (collect : ℕ → Option Client → Reply T)
    (routes : String → List (Profile Client)) (to_lower : String → String) where
  dispatch_success :
      (owner : String) (ps : List (Profile Client)) (v : T)
      → (dispatch op collect owner ps).end ≡ returned (ok v)
      → (pre : List (Profile Client)) × (p : Profile Client) × (post : List (Profile Client)) × (ps
          ≡ pre ++ p ∷ post)
        × AllPassed collect 0 pre
        × ((collect (0 + length pre) p.client).result ≡ ok v)
  unfolding dispatch
  dispatch_success owner [] v h = cc
  dispatch_success owner (p ∷ ps) v h = loop_success op collect (length (p ∷ ps)) 0 (p ∷ ps) [] v h

  split_success :
      (parts : Option (String × String)) (v : T)
      → (route_split routes to_lower op collect parts).end ≡ returned (ok v)
      → (pre : List (Profile Client)) × (p : Profile Client) × (post : List (Profile Client))
        × (owner_profiles routes to_lower parts ≡ pre ++ p ∷ post)
        × AllPassed collect 0 pre
        × ((collect (0 + length pre) p.client).result ≡ ok v)
  unfolding route_split
  split_success none v h = cc
  split_success (some (owner, name)) v h = dispatch_success owner (routes (to_lower owner)) v h

  -- A routed operation that succeeds with `v` has the reply of one profile of the owner, and every
  -- profile before that one was called, in a live context, and failed with a route failure of a
  -- category that lets the routing go on.
  pub route_success :
      (repository : String) (v : T)
      → (route_repository_phase routes to_lower repository op collect).end ≡ returned (ok v)
      → (pre : List (Profile Client)) × (p : Profile Client) × (post : List (Profile Client))
        × (owner_profiles routes to_lower (split_repository repository) ≡ pre ++ p ∷ post)
        × AllPassed collect 0 pre
        × ((collect (0 + length pre) p.client).result ≡ ok v)
  unfolding route_repository_phase
  route_success repository v h = split_success (split_repository repository) v h

  dispatch-Decisive :
      (owner : String) (ps pre : List (Profile Client)) (p : Profile Client)
      (post : List (Profile Client)) (r : Result GoError T)
      → ps ≡ pre ++ p ∷ post
      → AllPassed collect 0 pre
      → Decisive collect (length pre) p r
      → (dispatch op collect owner ps).end ≡ returned r
  unfolding dispatch
  dispatch-Decisive owner [] [] p post r e h d = absurd (cons≢nil (sym e))
  dispatch-Decisive owner [] (q ∷ pre) p post r e h d = absurd (cons≢nil (sym e))
  dispatch-Decisive owner (q ∷ qs) pre p post r e h d = rw e (
      loop-Decisive op collect (length (q ∷ qs)) 0 pre p post [] r (length pre)
        (omega (arith, ap length e)) (omega arith) h d)

  split-Decisive :
      (parts : Option (String × String)) (pre : List (Profile Client)) (p : Profile Client)
      (post : List (Profile Client)) (r : Result GoError T)
      → owner_profiles routes to_lower parts ≡ pre ++ p ∷ post
      → AllPassed collect 0 pre
      → Decisive collect (length pre) p r
      → (route_split routes to_lower op collect parts).end ≡ returned r
  unfolding route_split
  split-Decisive none [] p post r e h d = absurd (cons≢nil (sym e))
  split-Decisive none (q ∷ pre) p post r e h d = absurd (cons≢nil (sym e))
  split-Decisive (some (owner, name)) pre p post r e h d =
      dispatch-Decisive owner (routes (to_lower owner)) pre p post r e h d

  -- Where the profiles before `p` all fail with a route failure that lets the routing go on, and
  -- the reply of `p` is a success or any other failure in a live context, the operation returns the
  -- reply of `p`, whatever the profiles behind it would answer.
  pub route-Decisive :
      (repository : String) (pre : List (Profile Client)) (p : Profile Client)
      (post : List (Profile Client)) (r : Result GoError T)
      → owner_profiles routes to_lower (split_repository repository) ≡ pre ++ p ∷ post
      → AllPassed collect 0 pre
      → Decisive collect (length pre) p r
      → (route_repository_phase routes to_lower repository op collect).end ≡ returned r
  unfolding route_repository_phase
  route-Decisive repository pre p post r e h d =
      split-Decisive (split_repository repository) pre p post r e h d
