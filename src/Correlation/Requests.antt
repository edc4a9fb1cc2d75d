-- ===== src/Correlation/Requests.antt =====
-- BuildRequests of internal/correlation/correlation.go: the pull requests of one collection,
-- sorted, bounded and cut into requests.
pub mod Chunks
use maintainer_cockpit.Prelude.{
  ℕ, zero, suc, ◌+◌, ◌-◌, ◌*◌, ◌/◌, min, String, ℤ, below_one, Bool, true, false, List, [], ◌∷◌,
  ◌||◌, map, length, take, drop, str_eq, is_member, sort_by, Result, ok, err, ◌>>=◌, ◌>>◌, reject,
  if◌then◌else◌,
}
use maintainer_cockpit.Correlation.{Source, PullRequest, Input, Request}
use maintainer_cockpit.Correlation.Texts.{truncate_utf8, sorted_unique}

pub data RequestError : Type 0 where
  no_collection : RequestError
  missing_identity : ℕ → RequestError

abbrev pub max_pull_requests_per_request : ℕ
max_pull_requests_per_request = 200

abbrev pub max_files_per_pull_request : ℕ
max_files_per_pull_request = 20

abbrev pub max_relationships_per_pr : ℕ
max_relationships_per_pr = 50

abbrev pub max_title_bytes : ℕ
max_title_bytes = 500

abbrev pub source_key : Source → String
source_key s = s.id

abbrev pub pull_request_key : PullRequest → String
pull_request_key pr = pr.source_id

-- The loop of uniqueSources with the identities seen so far.
unfoldable unique_from : List String → List Source → List Source
unique_from seen [] = []
unique_from seen (s ∷ ss) =
    let rest = unique_from (s.id ∷ seen) ss in
    if str_eq s.id ""
    then unique_from seen ss
    else if is_member s.id seen
    then unique_from seen ss
    else s ∷ rest

unfoldable pub unique_sources : List Source → List Source
unfolding unique_from
unique_sources values = unique_from [] values

abbrev pub bound_source : Source → Source
bound_source s = record s { title = truncate_utf8 s.title max_title_bytes }

-- What the loop of BuildRequests does to one pull request.
unfoldable pub bound_pull_request : PullRequest → PullRequest
unfolding sort_by truncate_utf8 sorted_unique unique_sources
bound_pull_request pr = record pr {
  title = truncate_utf8 pr.title max_title_bytes;
  files = take max_files_per_pull_request (sorted_unique pr.files);
  relationships =
      map bound_source
        (take max_relationships_per_pr (unique_sources (sort_by source_key pr.relationships)));
}

abbrev pub lacks_identity : PullRequest → Bool
lacks_identity pr =
    str_eq pr.source_id ""
    || str_eq pr.repository ""
    || below_one pr.number
    || str_eq pr.title ""
    || str_eq pr.url ""

-- The loop over the sorted pull requests.
unfoldable pub bound_all : ℕ → List PullRequest → Result RequestError (List PullRequest)
unfolding bound_pull_request
bound_all index [] = ok []
bound_all index (pr ∷ prs) = do
  reject (lacks_identity pr) (missing_identity index)
  rest ← bound_all (suc index) prs
  ok (bound_pull_request pr ∷ rest)

-- `pullRequests[start:end]`
abbrev pub slice : ℕ → ℕ → List PullRequest → List PullRequest
slice start end prs = take (end - start) (drop start prs)

abbrev pub chunk_count : List PullRequest → ℕ
chunk_count prs = (length prs + max_pull_requests_per_request - 1) / max_pull_requests_per_request

-- The revision is the SHA-256, in hexadecimal, of the JSON text of the collection, the chunk, the
-- number of chunks and the pull requests.
module _ (revision : String → ℕ → ℕ → List PullRequest → String) where
  abbrev pub request_for : String → ℕ → ℕ → List PullRequest → Request
  request_for collection chunks chunk prs =
      let start = chunk * max_pull_requests_per_request in
      let part = slice start (min (start + max_pull_requests_per_request) (length prs)) prs in
      record {
        schema_version = "correlation.v1";
        prompt_version = "correlation-prompt.v1";
        input_revision = revision collection (chunk + 1) chunks part;
        collection_id = collection;
        chunk = chunk + 1;
        chunks = chunks;
        pull_requests = part;
      }

  -- The chunks from one on, and how many of them.
  unfoldable pub requests_from : String → ℕ → List PullRequest → ℕ → ℕ → List Request
  requests_from collection chunks prs chunk zero = []
  requests_from collection chunks prs chunk (suc more) =
      request_for collection chunks chunk prs ∷ requests_from collection chunks prs (suc chunk) more

  unfoldable pub build_requests : Input → Result RequestError (List Request)
  unfolding sort_by bound_all requests_from
  build_requests input = do
    reject (str_eq input.collection_id "") no_collection
    prs ← bound_all 0 (sort_by pull_request_key input.pull_requests)
    ok (requests_from input.collection_id (chunk_count prs) prs 0 (chunk_count prs))
