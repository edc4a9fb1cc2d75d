-- ===== src/Checks/Routing.antt =====
-- A routed discovery with a first profile that lacks a permission and a second one that answers.
use maintainer_cockpit.Prelude.{
  map, ℕ, zero, suc, String, true, false, Option, none, some, List, [], ◌∷◌, ◌≡◌, refl, ok, err,
  str_eq, if◌then◌else◌, length, ◌+◌, ◌++◌, ◌&&◌, All, byte_length, ◌==◌,
}
use maintainer_cockpit.Github.Failure.{
  permission_missing, GoError, bare_route_failure, is_deadline_exceeded, is_canceled, as_rate_limit,
  as_api_error, as_transport_error, as_route_failure, can_advance,
}
use maintainer_cockpit.Github.Failure.Metadata.{bounded_failure_metadata, metadata-can_advance}
use maintainer_cockpit.Github.Router.{
  Operation, ProfileType, discovery, github_app, fine_grained_pat, Profile, Reply, returned,
  route_repository_phase, split_repository, contribution_evidence, pull_request_diff,
  collect_repository_contribution, collect_pull_request_diff,
}
use maintainer_cockpit.Github.Router.Chain.{Trail, route-Trail, evidence-Trail}
use maintainer_cockpit.Github.Router.Success.{
  AllPassed, owner_profiles, route_success, route-Decisive,
}
use maintainer_cockpit.Github.Router.Setup.{
  Route, RouteOk, DistinctOwners, canonical_route, new_router, new_router-RouteOk,
}
use maintainer_cockpit.Storage.Clock.{Instant}
use maintainer_cockpit.Storage.RouteAttempts.{
  RouteAttempt, OperationRow, operation_text, storage_route_attempts, put_operation,
  replace_route_attempts, attempts_of, has_line_break,
}
use maintainer_cockpit.Storage.RouteAttempts.Accepted.{IsNamed, replace_route_attempts-route}
use maintainer_cockpit.Storage.RouteAttempts.Lookups.{attempts_of-put_operation}

abbrev denied : GoError
denied = bare_route_failure permission_missing

abbrev app : Profile ℕ
app = record { name = "app"; type = github_app; client = some 1 }

abbrev token : Profile ℕ
token = record { name = "token"; type = fine_grained_pat; client = some 2 }

abbrev routes : String → List (Profile ℕ)
routes owner = if str_eq owner "acme" then app ∷ token ∷ [] else []

abbrev same_text : String → String
same_text s = s

-- The first client lacks a permission, the second answers 7.
abbrev answer : ℕ → Option ℕ → Reply ℕ
answer zero client = record { result = err denied; context_error = none }
answer (suc i) client = record { result = ok 7; context_error = none }

routed_to_token :
    (route_repository_phase routes same_text "acme/tool" discovery answer).end ≡ returned (ok 7)
unfolding route_repository_phase split_repository maintainer_cockpit.Github.Router.route_loop
    maintainer_cockpit.Github.Router.route_round as_route_failure can_advance
routed_to_token = refl

route-Trail_example :
    Trail discovery 0
      (route_repository_phase routes same_text "acme/tool" discovery answer).attempts
      (route_repository_phase routes same_text "acme/tool" discovery answer).end
route-Trail_example = route-Trail discovery answer routes same_text "acme/tool"

evidence-Trail_example :
    Trail contribution_evidence 0
      (collect_repository_contribution routes same_text "acme/tool" answer).attempts
      (collect_repository_contribution routes same_text "acme/tool" answer).end
    × Trail pull_request_diff 0
        (collect_pull_request_diff routes same_text "acme/tool" answer).attempts
        (collect_pull_request_diff routes same_text "acme/tool" answer).end
evidence-Trail_example = evidence-Trail answer routes same_text "acme/tool"

route_success_example :
    (pre : List (Profile ℕ)) × (p : Profile ℕ) × (post : List (Profile ℕ)) × (owner_profiles routes
        same_text
        (split_repository "acme/tool")
      ≡ pre ++ p ∷ post)
    × AllPassed answer 0 pre
    × ((answer (0 + length pre) p.client).result ≡ ok 7)
route_success_example =
    route_success discovery answer routes same_text "acme/tool" 7 routed_to_token

routes_of_acme :
    owner_profiles routes same_text (split_repository "acme/tool") ≡ (app ∷ []) ++ token ∷ []
unfolding split_repository
routes_of_acme = refl

app_passed : AllPassed answer 0 (app ∷ [])
unfolding as_route_failure can_advance
app_passed = ((denied, permission_missing, refl, refl, refl, refl), tt)

route-Decisive_example :
    (route_repository_phase routes same_text "acme/tool" discovery answer).end ≡ returned (ok 7)
route-Decisive_example =
    route-Decisive discovery answer routes same_text "acme/tool" (app ∷ []) token [] (ok 7)
      routes_of_acme app_passed refl

denied_advances : can_advance (bounded_failure_metadata denied).category ≡ true
unfolding bounded_failure_metadata can_advance is_deadline_exceeded is_canceled as_rate_limit
    as_api_error as_transport_error as_route_failure
denied_advances = refl

metadata-can_advance_example :
    (is_deadline_exceeded denied ≡ false)
    × (is_canceled denied ≡ false)
    × (as_rate_limit denied ≡ none)
    × (as_api_error denied ≡ none)
    × (as_transport_error denied ≡ none)
    × (as_route_failure denied ≡ some (bounded_failure_metadata denied).category)
metadata-can_advance_example = metadata-can_advance denied denied_advances

abbrev noon : Instant
noon = record { seconds = 43_200; nanos = 0 }

abbrev attempts : List RouteAttempt
attempts =
    storage_route_attempts
      (route_repository_phase routes same_text "acme/tool" discovery answer).attempts

profiles-IsNamed : All IsNamed (owner_profiles routes same_text (split_repository "acme/tool"))
unfolding split_repository byte_length has_line_break
    maintainer_cockpit.Storage.RouteAttempts.type_text
profiles-IsNamed = ((refl, refl), ((refl, refl), tt))

replace_route_attempts-route_example :
    replace_route_attempts (λ r. true) "acme/tool" (operation_text discovery) attempts noon []
    ≡ (ok tt, put_operation "acme/tool" (operation_text discovery) noon attempts [])
replace_route_attempts-route_example =
    replace_route_attempts-route discovery answer routes same_text (λ r. true) "acme/tool" noon []
      refl profiles-IsNamed

attempts_of-put_operation_example :
    attempts_of "acme/tool" "progress" (put_operation "acme/tool" "discovery" noon attempts []) ≡ (
      if str_eq "acme/tool" "acme/tool" && str_eq "discovery" "progress"
      then attempts
      else attempts_of "acme/tool" "progress" [])
attempts_of-put_operation_example =
    attempts_of-put_operation "acme/tool" "discovery" noon attempts [] "acme/tool" "progress"

abbrev type_of_client : ℕ → ProfileType
type_of_client n = if n == 1 then github_app else fine_grained_pat

abbrev configured_routes : List (Route ℕ)
configured_routes = record { owner = " ACME"; profiles = app ∷ token ∷ [] } ∷ []

abbrev canonical_routes : List (Route ℕ)
canonical_routes = record { owner = "acme"; profiles = app ∷ token ∷ [] } ∷ []

-- Enough of strings.ToLower for the one owner.
abbrev lower_acme : String → String
lower_acme s = if str_eq s "ACME" then "acme" else s

router_accepted : new_router lower_acme type_of_client configured_routes ≡ ok canonical_routes
unfolding new_router
router_accepted = refl

new_router-RouteOk_example :
    (canonical_routes ≡ map (canonical_route lower_acme type_of_client) configured_routes)
    × All (RouteOk lower_acme type_of_client) canonical_routes
    × DistinctOwners lower_acme type_of_client canonical_routes
new_router-RouteOk_example =
    new_router-RouteOk lower_acme type_of_client configured_routes canonical_routes router_accepted
