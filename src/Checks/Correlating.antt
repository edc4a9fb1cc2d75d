-- ===== src/Checks/Correlating.antt =====
-- A collection of two pull requests, the first of which refers to a closed one.
use maintainer_cockpit.Prelude.{
  ℕ, String, pos, Option, some, List, [], ◌∷◌, length, ◌≤◌, ◌≡◌, refl, All, Any, ok, fields, map,
  sort_by, Ascending,
}
use maintainer_cockpit.Correlation.{Source, PullRequest, Input, Request, Edge, Group}
use maintainer_cockpit.Correlation.Requests.{build_requests, bound_pull_request, pull_request_key}
use maintainer_cockpit.Correlation.Requests.Chunks.{sent, IsBounded, Numbered, build_requests-sent}
use maintainer_cockpit.Correlation.Known.{
  cited_member, member_of, known_sources, ComesFrom, known_sources-ComesFrom,
}
use maintainer_cockpit.Correlation.Validation.{Candidate, validate_response, edge_key, group_key}
use maintainer_cockpit.Correlation.Validation.Grounded.{IsGrounded}
use maintainer_cockpit.Correlation.Validation.Groups.{
  validate_response-IsGrounded, validate_response-ComesFrom,
}
use maintainer_cockpit.Correlation.Validation.Keys.{reversed, edge_key-reversed}

abbrev closed_one : Source
closed_one = record {
  id = "S1";
  kind = "timeline";
  entity_id = "PR_acme_3";
  repository = "acme/tool";
  number = pos 3;
  title = "First try";
  state = "closed";
  url = "u3";
}

abbrev second : PullRequest
second = record {
  source_id = "PR_acme_2";
  repository = "acme/tool";
  number = pos 2;
  title = "Second";
  author = "b";
  url = "u2";
  state = "open";
  files = "b.go" ∷ "a.go" ∷ "b.go" ∷ [];
  relationships = [];
}

abbrev first : PullRequest
first = record second {
  source_id = "PR_acme_1";
  number = pos 1;
  title = "First";
  relationships = closed_one ∷ [];
}

abbrev collection : Input
collection = record { collection_id = "acme"; pull_requests = second ∷ first ∷ [] }

abbrev revision : String → ℕ → ℕ → List PullRequest → String
revision c i n prs = c

build_requests-sent_example :
    (rs : List Request) × (build_requests revision collection ≡ ok rs)
    × (sent rs ≡ map bound_pull_request (sort_by pull_request_key collection.pull_requests))
    × All IsBounded (sent rs)
    × Numbered (length rs) 0 rs
build_requests-sent_example = build_requests-sent revision collection refl (refl, (refl, tt))

abbrev request : Request
request = record {
  schema_version = "correlation.v1";
  prompt_version = "correlation-prompt.v1";
  input_revision = "acme";
  collection_id = "acme";
  chunk = 1;
  chunks = 1;
  pull_requests = first ∷ second ∷ [];
}

closed_one_known : (known_sources request).members "PR_acme_3" ≡ some (cited_member closed_one)
unfolding known_sources
closed_one_known = refl

known_sources-ComesFrom_example :
    ((cited_member closed_one).source_id ≡ closed_one.entity_id)
    × Any (ComesFrom (cited_member closed_one)) request.pull_requests
known_sources-ComesFrom_example =
    known_sources-ComesFrom request "PR_acme_3" (cited_member closed_one) closed_one_known

abbrev second_try : Edge
second_try = record {
  from = "PR_acme_3";
  to = "PR_acme_1";
  type = "competing_design";
  confidence = "high";
  reason = "another  way";
  source_ids = "S1" ∷ [];
}

abbrev answer : Candidate
answer = record {
  name = "Tries";
  description = "Two tries";
  confidence = "medium";
  source_ids = "S1" ∷ [];
  members = "PR_acme_3" ∷ "PR_acme_1" ∷ [];
  edges = second_try ∷ [];
}

abbrev decode : String → Option (List Candidate)
decode body = some (answer ∷ [])

abbrev digest : String → String
digest s = s

abbrev groups : List Group
groups =
    record {
      id = "group-PR_acme_1\0PR_acme_3";
      name = "Tries";
      description = "Two tries";
      confidence = "medium";
      source_ids = "S1" ∷ [];
      members = member_of first ∷ cited_member closed_one ∷ [];
      edges = record second_try { reason = "another way" } ∷ [];
    }
    ∷ []

accepted : validate_response digest decode "body" (known_sources request) ≡ ok groups
unfolding validate_response known_sources fields
accepted = refl

validate_response-IsGrounded_example :
    All (IsGrounded (known_sources request)) groups
    × Ascending group_key groups
    × (length groups ≤ 100)
validate_response-IsGrounded_example =
    validate_response-IsGrounded digest (known_sources request)
      (λ id m e. (known_sources-ComesFrom request id m e).0) decode "body" groups accepted

validate_response-ComesFrom_example :
    All (λ g. All (λ m. Any (ComesFrom m) request.pull_requests) g.members) groups
validate_response-ComesFrom_example =
    validate_response-ComesFrom digest decode "body" request groups accepted

edge_key-reversed_example : edge_key (reversed second_try) ≡ edge_key second_try
edge_key-reversed_example = edge_key-reversed second_try refl
