-- ===== src/Correlation/Known.antt =====
-- KnownSources of internal/correlation/correlation.go: the members and the evidence that an answer
-- to a request may cite.
use maintainer_cockpit.Prelude.{
  String, Bool, true, false, Option, none, some, List, [], ◌∷◌, ◌&&◌, ◌||◌, str_eq, has_prefix,
  if◌then◌else◌, ◌≡◌, refl, ◌⊎◌, inl, inr, Any, All, Bool-cases, arith, eq_iff, subst, if_both,
}
use maintainer_cockpit.Correlation.{Source, PullRequest, Request, Member, Evidence}

-- The two maps of KnownSources.
pub record Known : Type 0 where
  pub members : String → Option Member
  pub evidence : String → Option Evidence

-- `m[key] = value`
abbrev pub put {ℓ} : {A : Type ℓ} → String → A → (String → Option A) → String → Option A
put key value m = λ k. if str_eq k key then some value else m k

abbrev pub member_of : PullRequest → Member
member_of pr = record {
  source_id = pr.source_id;
  repository = pr.repository;
  number = pr.number;
  title = pr.title;
  state = pr.state;
  url = pr.url;
}

abbrev pub cited_member : Source → Member
cited_member s = record {
  source_id = s.entity_id;
  repository = s.repository;
  number = s.number;
  title = s.title;
  state = s.state;
  url = s.url;
}

abbrev pub is_past_pull_request : Source → Bool
is_past_pull_request s =
    has_prefix s.entity_id "PR_" && (str_eq s.state "closed" || str_eq s.state "merged")

abbrev absent : Option Member → Bool
absent none = true
absent (some m) = false

-- The inner loop, over the relationships of one pull request.
unfoldable pub add_sources : String → List Source → Known → Known
add_sources owner [] known = known
add_sources owner (s ∷ ss) known = add_sources owner ss (record {
  members =
      if is_past_pull_request s && absent (known.members s.entity_id)
      then put s.entity_id (cited_member s) known.members
      else known.members;
  evidence = put s.id (record { owner = owner; entity_id = s.entity_id }) known.evidence;
})

-- The outer loop.
unfoldable pub add_pull_requests : List PullRequest → Known → Known
unfolding add_sources
add_pull_requests [] known = known
add_pull_requests (pr ∷ prs) known = add_pull_requests prs (
    add_sources pr.source_id pr.relationships (record {
      members = put pr.source_id (member_of pr) known.members;
      evidence =
          put pr.source_id (record { owner = pr.source_id; entity_id = pr.source_id })
            known.evidence;
    }))

unfoldable pub known_sources : Request → Known
unfolding add_pull_requests
known_sources request =
    add_pull_requests request.pull_requests (record { members = λ id. none; evidence = λ id. none })

-- A member that comes from this pull request: itself, or a closed or merged one that it refers to.
unfoldable pub ComesFrom : Member → PullRequest → Type 0
ComesFrom m pr =
    (m ≡ member_of pr)
    ⊎ Any (λ s. (m ≡ cited_member s) × (is_past_pull_request s ≡ true)) pr.relationships

module _ (P : Member → Type 0) where
  -- Every member is known under its own identity and has the property.
  unfoldable pub Holds : (String → Option Member) → Type 0
  Holds members = (id : String) (m : Member) → members id ≡ some m → (m.source_id ≡ id) × P m

  put-Holds :
      (m : Member) (members : String → Option Member)
      → P m
      → Holds members
      → Holds (put m.source_id m members)
  unfolding Holds
  put-Holds m members p h id n e = elim (Bool-cases (str_eq id m.source_id)) [
    | inl k ↦
        let same : m ≡ n = ground arith in
        subst (λ x. (x.source_id ≡ id) × P x) same (ground (arith, eq_iff id m.source_id), p)
    | inr k ↦ h id n (ground arith)
  ]

  add_sources-Holds :
      (owner : String) (ss : List Source) (known : Known)
      → All (λ s. is_past_pull_request s ≡ true → P (cited_member s)) ss
      → Holds known.members
      → Holds (add_sources owner ss known).members
  unfolding add_sources
  add_sources-Holds owner [] known p h = h
  add_sources-Holds owner (s ∷ ss) known p h = add_sources-Holds owner ss _ p.1 (
      if_both Holds (is_past_pull_request s && absent (known.members s.entity_id))
        (λ e. put-Holds (cited_member s) known.members (p.0 (ground arith)) h) (λ _. h))

  add_pull_requests-Holds :
      (prs : List PullRequest) (known : Known)
      → All
          (λ pr.
            P (member_of pr)
            × All (λ s. is_past_pull_request s ≡ true → P (cited_member s)) pr.relationships)
          prs
      → Holds known.members
      → Holds (add_pull_requests prs known).members
  unfolding add_pull_requests
  add_pull_requests-Holds [] known p h = h
  add_pull_requests-Holds (pr ∷ prs) known p h = add_pull_requests-Holds prs _ p.1 (
      add_sources-Holds pr.source_id pr.relationships _ p.0.1
        (put-Holds (member_of pr) known.members p.0.0 h))

  cited_All :
      (ss : List Source)
      → ((m : Member) → Any (λ s. (m ≡ cited_member s) × (is_past_pull_request s ≡ true)) ss → P m)
      → All (λ s. is_past_pull_request s ≡ true → P (cited_member s)) ss
  cited_All [] f = tt
  cited_All (s ∷ ss) f =
      (λ k. f (cited_member s) (inl (refl, k)), cited_All ss (λ m a. f m (inr a)))

  sources_All :
      (prs : List PullRequest)
      → ((m : Member) → Any (ComesFrom m) prs → P m)
      → All
          (λ pr.
            P (member_of pr)
            × All (λ s. is_past_pull_request s ≡ true → P (cited_member s)) pr.relationships)
          prs
  unfolding ComesFrom
  sources_All [] f = tt
  sources_All (pr ∷ prs) f = (
    (f (member_of pr) (inl (inl refl)), cited_All pr.relationships (λ m a. f m (inl (inr a)))),
    sources_All prs (λ m a. f m (inr a)),
  )

-- Every member that an answer may cite is known under its own identity, and is a pull request of the
-- request or a closed or merged one that one of them refers to.
pub known_sources-ComesFrom :
    (request : Request) (id : String) (m : Member)
    → (known_sources request).members id ≡ some m
    → (m.source_id ≡ id) × Any (ComesFrom m) request.pull_requests
unfolding known_sources Holds
known_sources-ComesFrom request =
    let P : Member → Type 0 = λ m. Any (ComesFrom m) request.pull_requests in
    add_pull_requests-Holds P request.pull_requests _
      (sources_All P request.pull_requests (λ m a. a)) (λ id m e. ground arith)
