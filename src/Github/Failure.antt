-- ===== src/Github/Failure.antt =====
-- internal/githubapp: the failure categories and their texts (router.go), the error values of the
-- client (client.go), and the bounded failure metadata (failure.go).
pub mod Metadata
use maintainer_cockpit.Prelude.{
  ℕ, String, Bool, true, false, Option, none, some, ◌&&◌, leb, str_eq, if◌then◌else◌, if_both, ◌≡◌,
  arith,
}

-- FailureCategory
pub data FailureCategory : Type 0 where
  route_missing route_ambiguous installation_missing installation_suspended : FailureCategory
  repository_not_granted permission_missing credential_invalid : FailureCategory
  public_capability_missing primary_rate_limited secondary_rate_limited : FailureCategory
  github_unavailable operation_timeout operation_canceled storage unknown : FailureCategory

-- The text of a category.
unfoldable pub category_text : FailureCategory → String
category_text route_missing = "route_missing"
category_text route_ambiguous = "route_ambiguous"
category_text installation_missing = "installation_missing"
category_text installation_suspended = "installation_suspended"
category_text repository_not_granted = "repository_not_granted"
category_text permission_missing = "permission_missing"
category_text credential_invalid = "credential_invalid"
category_text public_capability_missing = "public_capability_missing"
category_text primary_rate_limited = "primary_rate_limited"
category_text secondary_rate_limited = "secondary_rate_limited"
category_text github_unavailable = "github_unavailable"
category_text operation_timeout = "operation_timeout"
category_text operation_canceled = "operation_canceled"
category_text storage = "storage"
category_text unknown = "unknown"

-- RateLimitError. Durations and Unix times are counted in whole units.
pub record RateLimitError : Type 0 where
  pub reason : String
  pub retries : ℕ
  pub budget_exceeded : Bool
  pub method : String
  pub endpoint : String
  pub request_id : String
  pub retry_after : ℕ
  pub rate_limit_reset_unix : ℕ
  pub status_code : ℕ

-- APIError
pub record ApiError : Type 0 where
  pub status_code : ℕ
  pub method : String
  pub endpoint : String
  pub request_id : String
  pub retry_after : ℕ
  pub rate_limit_reset_unix : ℕ

-- TransportError
pub record TransportError : Type 0 where
  pub method : String
  pub endpoint : String
  pub timed_out : Bool

-- An `error` value with the chain that `Unwrap` walks. `route_failure` is a *RouteFailure around a
-- cause and `bare_route_failure` one with no cause; `incomplete` is *incompleteError; `wrapped` is
-- fmt.Errorf with %w; `opaque_error` is any other error.
pub data GoError : Type 0 where
  deadline_exceeded canceled : GoError
  rate_limit_error : RateLimitError → GoError
  api_error : ApiError → GoError
  transport_error : TransportError → GoError
  bare_route_failure : FailureCategory → GoError
  route_failure : FailureCategory → GoError → GoError
  incomplete : GoError → GoError
  wrapped : String → GoError → GoError
  opaque_error : String → GoError

-- errors.Is(err, context.DeadlineExceeded)
unfoldable pub is_deadline_exceeded : GoError → Bool
is_deadline_exceeded deadline_exceeded = true
is_deadline_exceeded (route_failure c e) = is_deadline_exceeded e
is_deadline_exceeded (incomplete e) = is_deadline_exceeded e
is_deadline_exceeded (wrapped s e) = is_deadline_exceeded e
is_deadline_exceeded _ = false

-- errors.Is(err, context.Canceled)
unfoldable pub is_canceled : GoError → Bool
is_canceled canceled = true
is_canceled (route_failure c e) = is_canceled e
is_canceled (incomplete e) = is_canceled e
is_canceled (wrapped s e) = is_canceled e
is_canceled _ = false

-- errors.AsType[*RateLimitError](err)
unfoldable pub as_rate_limit : GoError → Option RateLimitError
as_rate_limit (rate_limit_error r) = some r
as_rate_limit (route_failure c e) = as_rate_limit e
as_rate_limit (incomplete e) = as_rate_limit e
as_rate_limit (wrapped s e) = as_rate_limit e
as_rate_limit _ = none

-- errors.AsType[*APIError](err)
unfoldable pub as_api_error : GoError → Option ApiError
as_api_error (api_error a) = some a
as_api_error (route_failure c e) = as_api_error e
as_api_error (incomplete e) = as_api_error e
as_api_error (wrapped s e) = as_api_error e
as_api_error _ = none

-- errors.AsType[*TransportError](err)
unfoldable pub as_transport_error : GoError → Option TransportError
as_transport_error (transport_error t) = some t
as_transport_error (route_failure c e) = as_transport_error e
as_transport_error (incomplete e) = as_transport_error e
as_transport_error (wrapped s e) = as_transport_error e
as_transport_error _ = none

-- errors.As(err, &routeFailure): the first *RouteFailure of the chain, by its category
unfoldable pub as_route_failure : GoError → Option FailureCategory
as_route_failure (bare_route_failure c) = some c
as_route_failure (route_failure c e) = some c
as_route_failure (incomplete e) = as_route_failure e
as_route_failure (wrapped s e) = as_route_failure e
as_route_failure _ = none

-- IsIncomplete
unfoldable pub is_incomplete : GoError → Bool
is_incomplete (incomplete e) = true
is_incomplete (route_failure c e) = is_incomplete e
is_incomplete (wrapped s e) = is_incomplete e
is_incomplete _ = false

-- RouteFailure.canAdvance
unfoldable pub can_advance : FailureCategory → Bool
can_advance route_missing = true
can_advance route_ambiguous = true
can_advance installation_missing = true
can_advance installation_suspended = true
can_advance repository_not_granted = true
can_advance permission_missing = true
can_advance credential_invalid = true
can_advance public_capability_missing = true
can_advance _ = false

-- routeFailureDetail
unfoldable pub route_failure_detail : FailureCategory → String
route_failure_detail route_missing = "No configured route matched the repository owner."
route_failure_detail route_ambiguous = "More than one route matched the repository owner."
route_failure_detail installation_missing = "The configured installation could not be found."
route_failure_detail installation_suspended = "The configured installation is suspended."
route_failure_detail repository_not_granted = "The profile is not granted access to the repository."
route_failure_detail permission_missing = "The profile lacks a required GitHub permission."
route_failure_detail credential_invalid = "The configured GitHub credential is invalid."
route_failure_detail public_capability_missing =
    "The public route cannot provide required repository data."
route_failure_detail _ = "GitHub collection failed for an unclassified reason."

-- routeFailureRemediation
unfoldable pub route_failure_remediation : FailureCategory → String
route_failure_remediation route_missing = "Correct the repository owner routing configuration."
route_failure_remediation route_ambiguous = "Correct the repository owner routing configuration."
route_failure_remediation installation_missing =
    "Install or reactivate the GitHub App for this owner."
route_failure_remediation installation_suspended =
    "Install or reactivate the GitHub App for this owner."
route_failure_remediation repository_not_granted =
    "Grant the configured installation access to this repository."
route_failure_remediation permission_missing = "Grant the required GitHub App or token permissions."
route_failure_remediation credential_invalid = "Replace or correct the configured credential."
route_failure_remediation public_capability_missing =
    "Configure an authenticated profile with the required access."
route_failure_remediation _ = "Review bounded server logs and retry the collection."

-- A category with its detail and its remediation.
pub record Classified : Type 0 where
  pub category : FailureCategory
  pub detail : String
  pub remediation : String

abbrev pub primary_limited : Classified
primary_limited = record {
  category = primary_rate_limited;
  detail = "GitHub primary rate limit prevented collection.";
  remediation = "Wait for the rate-limit reset or adjust collection scheduling.";
}

abbrev pub secondary_limited : Classified
secondary_limited = record {
  category = secondary_rate_limited;
  detail = "GitHub secondary rate limit prevented collection.";
  remediation = "Reduce request concurrency and retry after GitHub's limit clears.";
}

abbrev pub unavailable : Classified
unavailable = record {
  category = github_unavailable;
  detail = "GitHub was unavailable during collection.";
  remediation = "Retry after GitHub service availability recovers.";
}

abbrev pub unreachable : Classified
unreachable = record {
  category = github_unavailable;
  detail = "GitHub could not be reached during collection.";
  remediation = "Check outbound connectivity and retry the collection.";
}

abbrev pub unknown_failure : Classified
unknown_failure = record {
  category = unknown;
  detail = "GitHub collection failed for an unclassified reason.";
  remediation = "Review bounded server logs and retry the collection.";
}

transport_test : Option TransportError → Classified
transport_test (some t) = unreachable
transport_test none = unknown_failure

api_test : Option ApiError → Classified → Classified
api_test (some a) rest =
    if leb 500 a.status_code && leb a.status_code 599 then unavailable else rest
api_test none rest = rest

rate_limit_test : Option RateLimitError → Classified → Classified
rate_limit_test (some r) rest =
    if str_eq r.reason "primary"
    then primary_limited
    else if str_eq r.reason "secondary"
    then secondary_limited
    else rest
rate_limit_test none rest = rest

-- classifyNonAdvanceFailure: a rate limit with a known reason first, then a 5xx status, then a
-- transport failure.
unfoldable pub classify_non_advance_failure : GoError → Classified
unfolding rate_limit_test api_test transport_test
classify_non_advance_failure e =
    rate_limit_test (as_rate_limit e)
      (api_test (as_api_error e) (transport_test (as_transport_error e)))

-- What a failed attempt that ends the routing is filed under never lets a later profile be tried.
pub classify-not_can_advance :
    (e : GoError) → can_advance (classify_non_advance_failure e).category ≡ false
unfolding classify_non_advance_failure can_advance
classify-not_can_advance e = ground arith

-- The answers of the classification.
module _ (P : Classified → Type 0) where
  rate_limit_answer :
      (o : Option RateLimitError) (rest : Classified)
      → P primary_limited
      → P secondary_limited
      → P rest
      → P (rate_limit_test o rest)
  unfolding rate_limit_test
  rate_limit_answer none rest p s r = r
  rate_limit_answer (some e) rest p s r =
      if_both P (str_eq e.reason "primary") (λ _. p)
        (λ _. if_both P (str_eq e.reason "secondary") (λ _. s) (λ _. r))

  api_answer :
      (o : Option ApiError) (rest : Classified) → P unavailable → P rest → P (api_test o rest)
  unfolding api_test
  api_answer none rest u r = r
  api_answer (some a) rest u r =
      if_both P (leb 500 a.status_code && leb a.status_code 599) (λ _. u) (λ _. r)

  transport_answer :
      (o : Option TransportError) → P unreachable → P unknown_failure → P (transport_test o)
  unfolding transport_test
  transport_answer none u r = r
  transport_answer (some t) u r = u

  -- What holds of each of the five answers holds of the classification of every error.
  pub classify_answer :
      (e : GoError)
      → P primary_limited
      → P secondary_limited
      → P unavailable
      → P unreachable
      → P unknown_failure
      → P (classify_non_advance_failure e)
  unfolding classify_non_advance_failure
  classify_answer e p s u t k =
      rate_limit_answer (as_rate_limit e)
        (api_test (as_api_error e) (transport_test (as_transport_error e))) p s
        (api_answer (as_api_error e) (transport_test (as_transport_error e)) u
          (transport_answer (as_transport_error e) t k))
