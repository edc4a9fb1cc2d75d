-- ===== src/Github/Failure/Metadata.antt =====
-- internal/githubapp/failure.go: bounded failure metadata and the phase that an endpoint names.
use maintainer_cockpit.Prelude.{
  ℕ, String, Bool, true, false, Option, none, some, ◌&&◌, ◌||◌, ◌==◌, str_eq, has_prefix,
  has_suffix, contains, if◌then◌else◌, ◌≡◌, arith,
}
use maintainer_cockpit.Github.Failure.{
  FailureCategory, operation_timeout, operation_canceled, secondary_rate_limited, RateLimitError,
  ApiError, TransportError, GoError, is_deadline_exceeded, is_canceled, as_rate_limit, as_api_error,
  as_transport_error, as_route_failure, can_advance, route_failure_detail,
  route_failure_remediation, Classified, classify_non_advance_failure, classify-not_can_advance,
}

-- FailureMetadata
pub record FailureMetadata : Type 0 where
  pub category : FailureCategory
  pub detail : String
  pub remediation : String
  pub phase : String
  pub method : String
  pub endpoint : String
  pub request_id : String
  pub http_status : ℕ
  pub timed_out : Bool
  pub retry_after : ℕ
  pub rate_limit_reset_unix : ℕ

-- The composite literal with every other field at its zero value.
abbrev plain : FailureCategory → String → String → String → FailureMetadata
plain c d r p = record {
  category = c;
  detail = d;
  remediation = r;
  phase = p;
  method = "";
  endpoint = "";
  request_id = "";
  http_status = 0;
  timed_out = false;
  retry_after = 0;
  rate_limit_reset_unix = 0;
}

-- collectionPhase
unfoldable pub collection_phase : String → String
unfolding has_suffix contains
collection_phase endpoint =
    if has_prefix endpoint "/app" || has_prefix endpoint "/installations"
    then "authentication"
    else if str_eq endpoint "/search/issues"
    then "search"
    else if str_eq endpoint "/graphql"
    then "graphql"
    else if has_prefix endpoint "/users/"
    then "contributor_identity"
    else if contains endpoint "/issues/" && has_suffix endpoint "/timeline"
    then "progress"
    else if contains endpoint "/pulls/" && has_suffix endpoint "/files"
    then "pull_request_files"
    else if contains endpoint "/pulls/"
        && (has_suffix endpoint "/comments" || has_suffix endpoint "/reviews")
    then "reviews"
    else if contains endpoint "/pulls/" && has_suffix endpoint "/commits"
    then "commits"
    else if has_suffix endpoint "/pulls" || contains endpoint "/pulls/"
    then "pull_requests"
    else if contains endpoint "/contents/" || contains endpoint "/git/"
    then "repository_content"
    else if has_prefix endpoint "/repos/"
    then "repository"
    else "github_request"

route_metadata : Option FailureCategory → GoError → FailureMetadata
route_metadata (some c) e = plain c (route_failure_detail c) (route_failure_remediation c) "routing"
route_metadata none e =
    let k = classify_non_advance_failure e in plain k.category k.detail k.remediation "collection"

transport_metadata : Option TransportError → GoError → FailureMetadata → FailureMetadata
transport_metadata (some t) e rest =
    let k = classify_non_advance_failure e in
    record {
      category = k.category;
      detail = k.detail;
      remediation = k.remediation;
      phase = collection_phase t.endpoint;
      method = t.method;
      endpoint = t.endpoint;
      request_id = "";
      http_status = 0;
      timed_out = t.timed_out;
      retry_after = 0;
      rate_limit_reset_unix = 0;
    }
transport_metadata none e rest = rest

-- A 429 is reported as a secondary rate limit.
too_many_requests : ApiError → Classified → Classified
too_many_requests a k =
    if a.status_code == 429
    then record {
      category = secondary_rate_limited;
      detail = "GitHub secondary rate limit prevented collection.";
      remediation = "Reduce request concurrency and retry after GitHub's limit clears.";
    }
    else k

api_metadata : Option ApiError → GoError → FailureMetadata → FailureMetadata
unfolding too_many_requests
api_metadata (some a) e rest =
    let k = too_many_requests a (classify_non_advance_failure e) in
    record {
      category = k.category;
      detail = k.detail;
      remediation = k.remediation;
      phase = collection_phase a.endpoint;
      method = a.method;
      endpoint = a.endpoint;
      request_id = a.request_id;
      http_status = a.status_code;
      timed_out = false;
      retry_after = a.retry_after;
      rate_limit_reset_unix = a.rate_limit_reset_unix;
    }
api_metadata none e rest = rest

rate_limit_metadata : Option RateLimitError → GoError → FailureMetadata → FailureMetadata
rate_limit_metadata (some r) e rest =
    let k = classify_non_advance_failure e in
    record {
      category = k.category;
      detail = k.detail;
      remediation = k.remediation;
      phase = collection_phase r.endpoint;
      method = r.method;
      endpoint = r.endpoint;
      request_id = r.request_id;
      http_status = r.status_code;
      timed_out = false;
      retry_after = r.retry_after;
      rate_limit_reset_unix = r.rate_limit_reset_unix;
    }
rate_limit_metadata none e rest = rest

-- BoundedFailureMetadata
unfoldable pub bounded_failure_metadata : GoError → FailureMetadata
unfolding rate_limit_metadata api_metadata transport_metadata route_metadata
bounded_failure_metadata e =
    if is_deadline_exceeded e
    then plain operation_timeout "The repository collection exceeded its operation deadline."
        "Retry the collection or increase the bounded refresh timeout." "collection"
    else if is_canceled e
    then plain operation_canceled "The repository collection was canceled."
        "Retry the collection when the service is available." "collection"
    else rate_limit_metadata (as_rate_limit e) e (
        api_metadata (as_api_error e) e
          (transport_metadata (as_transport_error e) e (route_metadata (as_route_failure e) e)))

-- Metadata that names a category on which another profile may be tried comes only from a route
-- failure in the error's chain, with no deadline, cancellation, rate limit, API or transport error
-- anywhere in it.
pub metadata-can_advance :
    (e : GoError)
    → can_advance (bounded_failure_metadata e).category ≡ true
    → (is_deadline_exceeded e ≡ false)
      × (is_canceled e ≡ false)
      × (as_rate_limit e ≡ none)
      × (as_api_error e ≡ none)
      × (as_transport_error e ≡ none)
      × (as_route_failure e ≡ some (bounded_failure_metadata e).category)
unfolding bounded_failure_metadata can_advance
metadata-can_advance e h = ground (arith, classify-not_can_advance e)
