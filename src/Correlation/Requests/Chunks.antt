-- ===== src/Correlation/Requests/Chunks.antt =====
-- The requests of a collection together hold its bounded pull requests in their order.
use Prim.Native.Nat.{◌-◌}
use maintainer_cockpit.Prelude.{
  ℕ, zero, suc, ◌+◌, ◌*◌, ◌≤◌, ◌≡◌, refl, sym, ap, ◌∙◌, min, String, false, List, [], ◌∷◌, ◌++◌,
  map, length, take, drop, All, sort_by, All-sort_by, length-drop, drop-all, part_rest, length-take,
  str_eq, byte_length, ok, arith, subst,
}
use maintainer_cockpit.Correlation.{Source, PullRequest, Input, Request}
use maintainer_cockpit.Correlation.Texts.{byte_length-truncate_utf8, sorted_unique}
use maintainer_cockpit.Correlation.Requests.{
  bound_pull_request, bound_source, bound_all, slice, chunk_count, requests_from, build_requests,
  pull_request_key, lacks_identity, unique_sources, source_key,
}

-- The pull requests of all requests, one request after another.
unfoldable pub sent : List Request → List PullRequest
sent [] = []
sent (r ∷ rs) = r.pull_requests ++ sent rs

-- The limits on one pull request that is sent.
unfoldable pub IsBounded : PullRequest → Type 0
IsBounded pr =
    (byte_length pr.title ≤ 500)
    × (length pr.files ≤ 20)
    × (length pr.relationships ≤ 50)
    × All (λ s. byte_length s.title ≤ 500) pr.relationships

-- Requests with the numbers after c up to the number of chunks, none empty or over the limit.
unfoldable pub Numbered : ℕ → ℕ → List Request → Type 0
Numbered chunks c [] = c ≡ chunks
Numbered chunks c (r ∷ rs) =
    (r.chunk ≡ c + 1)
    × (r.chunks ≡ chunks)
    × (1 ≤ length r.pull_requests)
    × (length r.pull_requests ≤ 200)
    × Numbered chunks (suc c) rs

module _ (revision : String → ℕ → ℕ → List PullRequest → String) where
  requests_from-sent :
      (collection : String) (chunks : ℕ) (prs : List PullRequest) (c k : ℕ)
      → length prs ≤ (c + k) * 200
      → sent (requests_from revision collection chunks prs c k) ≡ drop (c * 200) prs
  unfolding sent requests_from
  requests_from-sent collection chunks prs c zero h = sym (drop-all (c * 200) prs (omega arith))
  requests_from-sent collection chunks prs c (suc k) h =
      ap (λ ys. slice (c * 200) (min (c * 200 + 200) (length prs)) prs ++ ys)
        (requests_from-sent collection chunks prs (suc c) k (omega arith)
          ∙ ap (λ n. drop n prs) (omega arith))
      ∙ part_rest (c * 200) 200 prs

  requests_from-Numbered :
      (collection : String) (chunks : ℕ) (prs : List PullRequest) (c k : ℕ)
      → c + k ≡ chunks
      → chunks ≡ chunk_count prs
      → Numbered chunks c (requests_from revision collection chunks prs c k)
  unfolding Numbered requests_from
  requests_from-Numbered collection chunks prs c zero h e = omega arith
  requests_from-Numbered collection chunks prs c (suc k) h e =
      let start : ℕ = c * 200 in
      let len : length (slice start (min (start + 200) (length prs)) prs)
          ≡ min (min (start + 200) (length prs) - start) (length prs - start) =
        length-take (min (start + 200) (length prs) - start) (drop start prs)
        ∙ ap (λ n. min (min (start + 200) (length prs) - start) n) (length-drop start prs) in
      (
        refl,
        refl,
        omega arith,
        omega arith,
        requests_from-Numbered collection chunks prs (suc c) k (omega arith) e,
      )

titles : (ss : List Source) → All (λ s. byte_length s.title ≤ 500) (map bound_source ss)
titles [] = tt
titles (s ∷ ss) = (byte_length-truncate_utf8 s.title 500, titles ss)

length-map_source : (ss : List Source) → length (map bound_source ss) ≡ length ss
length-map_source [] = refl
length-map_source (s ∷ ss) = ap (λ n. suc n) (length-map_source ss)

bound_pull_request-IsBounded : (pr : PullRequest) → IsBounded (bound_pull_request pr)
unfolding IsBounded bound_pull_request
bound_pull_request-IsBounded pr =
    let sources : List Source = unique_sources (sort_by source_key pr.relationships) in
    (
      byte_length-truncate_utf8 pr.title 500,
      omega (arith, length-take 20 (sorted_unique pr.files)),
      omega (arith, length-take 50 sources, length-map_source (take 50 sources)),
      titles (take 50 sources),
    )

IsBounded-map : (prs : List PullRequest) → All IsBounded (map bound_pull_request prs)
IsBounded-map [] = tt
IsBounded-map (pr ∷ prs) = (bound_pull_request-IsBounded pr, IsBounded-map prs)

bound_all-map :
    (i : ℕ) (prs : List PullRequest)
    → All (λ pr. lacks_identity pr ≡ false) prs
    → bound_all i prs ≡ ok (map bound_pull_request prs)
unfolding bound_all
bound_all-map i [] h = refl
bound_all-map i (pr ∷ prs) h = ground (arith, bound_all-map (suc i) prs h.1)

length-requests_from :
    (revision : String → ℕ → ℕ → List PullRequest → String) (collection : String) (chunks : ℕ)
    (prs : List PullRequest) (c k : ℕ)
    → length (requests_from revision collection chunks prs c k) ≡ k
unfolding requests_from
length-requests_from revision collection chunks prs c zero = refl
length-requests_from revision collection chunks prs c (suc k) =
    ap (λ n. suc n) (length-requests_from revision collection chunks prs (suc c) k)

-- Where the collection is named and every pull request has an identity, BuildRequests succeeds; its
-- requests together hold the bounded pull requests in the order of their identities, each of them
-- within the limits; and the requests are numbered from 1 to their number, none of them empty and
-- none with more than 200 pull requests.
pub build_requests-sent :
    (revision : String → ℕ → ℕ → List PullRequest → String) (input : Input)
    → str_eq input.collection_id "" ≡ false
    → All (λ pr. lacks_identity pr ≡ false) input.pull_requests
    → (rs : List Request) × (build_requests revision input ≡ ok rs)
      × (sent rs ≡ map bound_pull_request (sort_by pull_request_key input.pull_requests))
      × All IsBounded (sent rs)
      × Numbered (length rs) 0 rs
unfolding build_requests
build_requests-sent revision input named identified =
    let sorted : List PullRequest = sort_by pull_request_key input.pull_requests in
    let prs : List PullRequest = map bound_pull_request sorted in
    let n : ℕ = chunk_count prs in
    let rs : List Request = requests_from revision input.collection_id n prs 0 n in
    let bounded : bound_all 0 sorted ≡ ok prs =
      bound_all-map 0 sorted (All-sort_by pull_request_key _ input.pull_requests identified) in
    let whole : sent rs ≡ prs =
      requests_from-sent revision input.collection_id n prs 0 n (omega arith) in
    (
      rs,
      rw named (rw bounded refl),
      whole,
      subst (All IsBounded) (sym whole) (IsBounded-map sorted),
      subst (λ m. Numbered m 0 rs)
          (sym (length-requests_from revision input.collection_id n prs 0 n))
          (requests_from-Numbered revision input.collection_id n prs 0 n (omega arith) refl),
    )
