-- ===== src/Storage/RouteAttempts.antt =====
-- github_route_operations and github_route_attempts (ReplaceRouteAttempts
-- and the checks of internal/storage/store.go), and storageRouteAttempts of
-- internal/refresh/scheduler.go. A row of the first table holds its rows of the second.
pub mod Accepted
pub mod Lookups
use maintainer_cockpit.Prelude.{
  ℕ, ◌+◌, String, Bool, true, false, Option, none, some, List, [], ◌∷◌, ◌&&◌, ◌||◌, not, ◌==◌, ltb,
  str_eq, Result, ok, err, if◌then◌else◌, map, byte_length,
}
use Prim.Native.Char.{code}
use maintainer_cockpit.Github.Failure.{FailureCategory, category_text}
use maintainer_cockpit.Github.Router.{
  Operation, discovery, hydration, progress, contribution_evidence, pull_request_diff, ProfileType,
  github_app, fine_grained_pat, unknown_type, RouteOutcome, selected, advanced, failed, Attempt,
  AttemptSet,
}
use maintainer_cockpit.Storage.Clock.{Instant}
use maintainer_cockpit.Storage.Rows.{
  StoreError, repository_not_configured, invalid_operation, invalid_attempt,
}

-- storage.RouteAttempt, without the time
pub record RouteAttempt : Type 0 where
  pub profile : String
  pub priority : ℕ
  pub profile_type : String
  pub outcome : String
  pub failure_category : String
  pub detail : String
  pub remediation : String
  pub is_selected : Bool

-- A row of github_route_operations, with its attempts.
pub record OperationRow : Type 0 where
  pub repository : String
  pub operation : String
  pub pending : Bool
  pub last_attempt_at : Option Instant
  pub attempts : List RouteAttempt

unfoldable pub operation_text : Operation → String
operation_text discovery = "discovery"
operation_text hydration = "hydration"
operation_text progress = "progress"
operation_text contribution_evidence = "contribution_evidence"
operation_text pull_request_diff = "pull_request_diff"

unfoldable pub type_text : ProfileType → String
type_text github_app = "github_app"
type_text fine_grained_pat = "fine_grained_pat"
type_text (unknown_type t) = t

unfoldable pub outcome_text : RouteOutcome → String
outcome_text selected = "selected"
outcome_text advanced = "advanced"
outcome_text failed = "failed"

unfoldable pub failure_text : Option FailureCategory → String
unfolding category_text
failure_text none = ""
failure_text (some c) = category_text c

-- One attempt of storageRouteAttempts.
abbrev pub storage_route_attempt : Attempt → RouteAttempt
storage_route_attempt a = record {
  profile = a.profile;
  priority = a.priority;
  profile_type = type_text a.profile_type;
  outcome = outcome_text a.outcome;
  failure_category = failure_text a.failure;
  detail = a.detail;
  remediation = a.remediation;
  is_selected = a.is_selected;
}

-- storageRouteAttempts
abbrev pub storage_route_attempts : AttemptSet → List RouteAttempt
storage_route_attempts attempts = map storage_route_attempt attempts

-- strings.ContainsAny(s, "\r\n\x00")
unfoldable pub has_line_break : String → Bool
has_line_break String.[] = false
has_line_break (String.◌∷◌ c s) = code c == 13 || code c == 10 || code c == 0 || has_line_break s

-- validRouteOperation
unfoldable pub valid_route_operation : String → Bool
valid_route_operation t =
    str_eq t "discovery"
    || str_eq t "hydration"
    || str_eq t "progress"
    || str_eq t "contribution_evidence"
    || str_eq t "pull_request_diff"

-- validRouteFailure
unfoldable pub valid_route_failure : String → Bool
valid_route_failure t =
    str_eq t ""
    || str_eq t "route_missing"
    || str_eq t "route_ambiguous"
    || str_eq t "installation_missing"
    || str_eq t "installation_suspended"
    || str_eq t "repository_not_granted"
    || str_eq t "permission_missing"
    || str_eq t "credential_invalid"
    || str_eq t "public_capability_missing"
    || str_eq t "primary_rate_limited"
    || str_eq t "secondary_rate_limited"
    || str_eq t "github_unavailable"
    || str_eq t "unknown"

abbrev pub valid_profile : String → Bool
valid_profile name =
    not (str_eq name "") && not (ltb 100 (byte_length name)) && not (has_line_break name)

abbrev pub valid_text : String → Bool
valid_text t = not (ltb 240 (byte_length t)) && not (has_line_break t)

abbrev pub valid_type : String → Bool
valid_type t = str_eq t "github_app" || str_eq t "fine_grained_pat"

abbrev pub valid_outcome : String → Bool
valid_outcome t = str_eq t "selected" || str_eq t "advanced" || str_eq t "failed"

-- validRouteAttempt, its tests grouped by field: the joined texts contain a line break exactly
-- where one of them does.
unfoldable pub valid_route_attempt : RouteAttempt → Bool
unfolding byte_length has_line_break valid_route_failure
valid_route_attempt a =
    valid_profile a.profile
    && (valid_type a.profile_type
        && (valid_outcome a.outcome
            && (valid_route_failure a.failure_category
                && (valid_text a.detail && valid_text a.remediation))))

-- The rounds of `for index, attempt := range attempts`.
unfoldable pub check_attempts : ℕ → List RouteAttempt → Result StoreError (Unit {0})
unfolding valid_route_attempt
check_attempts index [] = ok tt
check_attempts index (a ∷ more) =
    let rest = check_attempts (index + 1) more in
    if not (a.priority == index) || not (valid_route_attempt a)
    then err (invalid_attempt index)
    else rest

abbrev pub has_key : String → String → OperationRow → Bool
has_key repository operation r = str_eq r.repository repository && str_eq r.operation operation

unfoldable pub attempts_of : String → String → List OperationRow → List RouteAttempt
attempts_of repository operation [] = []
attempts_of repository operation (r ∷ rs) =
    let rest = attempts_of repository operation rs in
    if has_key repository operation r then r.attempts else rest

-- The upsert of the operation, and its attempts in place of the ones before.
unfoldable pub put_operation :
    String → String → Instant → List RouteAttempt → List OperationRow → List OperationRow
put_operation repository operation at attempts [] =
    record {
      repository = repository;
      operation = operation;
      pending = false;
      last_attempt_at = some at;
      attempts = attempts;
    }
    ∷ []
put_operation repository operation at attempts (r ∷ rs) =
    let rest = put_operation repository operation at attempts rs in
    if has_key repository operation r
    then record r { pending = false; last_attempt_at = some at; attempts = attempts } ∷ rs
    else r ∷ rest

put_checked :
    String
    → String
    → List RouteAttempt
    → Instant
    → List OperationRow
    → Result StoreError (Unit {0})
    → Result StoreError (Unit {0}) × List OperationRow
unfolding put_operation
put_checked repository operation attempts at rows (err e) = (err e, rows)
put_checked repository operation attempts at rows (ok u) =
    (ok tt, put_operation repository operation at attempts rows)

-- ReplaceRouteAttempts; `configured` tells the repositories of repository_refreshes, which the
-- foreign key asks for.
unfoldable pub replace_route_attempts :
    (String → Bool)
    → String
    → String
    → List RouteAttempt
    → Instant
    → List OperationRow
    → Result StoreError (Unit {0}) × List OperationRow
unfolding put_checked check_attempts valid_route_operation
replace_route_attempts configured repository operation attempts at rows =
    if not (valid_route_operation operation)
    then (err invalid_operation, rows)
    else if not (configured repository)
    then (err (repository_not_configured repository), rows)
    else put_checked repository operation attempts at rows (check_attempts 0 attempts)
