-- ===== src/Github/Router.antt =====
-- internal/githubapp/router.go: profiles, attempts, and the dispatch of one operation over the
-- ordered profiles of a repository's owner. The three routing loops of the file
-- (routeRepositoryPhase, CollectRepositoryContribution, CollectPullRequestDiff) are one loop here,
-- `route_loop`; they differ in the operation, in the call of the client, and in the check of the
-- repository's name.
pub mod Chain
pub mod Setup
pub mod Success
use maintainer_cockpit.Prelude.{
  ℕ, ◌+◌, String, Bool, true, false, Option, none, some, List, [], ◌∷◌, ◌++◌, ◌||◌, not, ltb,
  str_eq, length, contains, cut, split, Result, ok, err, if◌then◌else◌,
}
use maintainer_cockpit.Github.Failure.{
  FailureCategory, route_missing, GoError, route_failure, opaque_error, as_route_failure,
  can_advance, route_failure_detail, route_failure_remediation, classify_non_advance_failure,
}

-- Operation
pub data Operation : Type 0 where
  discovery hydration progress contribution_evidence pull_request_diff : Operation

-- ProfileType is a string type: `unknown_type` is any text but the two constants.
pub data ProfileType : Type 0 where
  github_app fine_grained_pat : ProfileType
  unknown_type : String → ProfileType

-- RouteOutcome
pub data RouteOutcome : Type 0 where
  selected advanced failed : RouteOutcome

-- Attempt; `failure` is `none` for the empty category.
pub record Attempt : Type 0 where
  pub operation : Operation
  pub profile : String
  pub priority : ℕ
  pub profile_type : ProfileType
  pub outcome : RouteOutcome
  pub failure : Option FailureCategory
  pub detail : String
  pub remediation : String
  pub is_selected : Bool

abbrev pub AttemptSet : Type 0
AttemptSet = List Attempt

-- Profile; a nil client is `none`.
pub record Profile (Client : Type 0) : Type 0 where
  pub name : String
  pub type : ProfileType
  pub client : Option Client

-- What a call of `collect` leaves: its result, and the context's error when it returns.
pub record Reply (T : Type 0) : Type 0 where
  pub result : Result GoError T
  pub context_error : Option GoError

-- How the routing ends: by a return, or in `panic("unreachable")`.
pub data RouteEnd (T : Type 0) : Type 0 where
  returned : Result GoError T → RouteEnd T
  panicked : RouteEnd T

pub record Routed (T : Type 0) : Type 0 where
  pub attempts : AttemptSet
  pub end : RouteEnd T

module _ {Client : Type 0} where
  unfoldable pub selected_attempt : Operation → Profile Client → ℕ → Attempt
  selected_attempt op p i = record {
    operation = op;
    profile = p.name;
    priority = i;
    profile_type = p.type;
    outcome = selected;
    failure = none;
    detail = "";
    remediation = "";
    is_selected = true;
  }

  -- The attempt of a failure that ends the routing.
  unfoldable pub stopped_attempt : Operation → Profile Client → ℕ → GoError → Attempt
  stopped_attempt op p i e =
      let k = classify_non_advance_failure e in
      record {
        operation = op;
        profile = p.name;
        priority = i;
        profile_type = p.type;
        outcome = failed;
        failure = some k.category;
        detail = k.detail;
        remediation = k.remediation;
        is_selected = false;
      }

  -- The attempt of a failure on which the next profile is tried, if there is one.
  unfoldable pub advance_attempt : Operation → Profile Client → ℕ → ℕ → FailureCategory → Attempt
  advance_attempt op p i total c = record {
    operation = op;
    profile = p.name;
    priority = i;
    profile_type = p.type;
    outcome = if ltb (i + 1) total then advanced else failed;
    failure = some c;
    detail = route_failure_detail c;
    remediation = route_failure_remediation c;
    is_selected = false;
  }

-- The category on which a failure lets the next profile be tried.
unfoldable pub advance_category : GoError → Option FailureCategory
advance_category e = elim (as_route_failure e) [
  | none ↦ none
  | some c ↦ if can_advance c then some c else none
]

module _ {Client T : Type 0} where
  -- The rest of a round once `collect` has failed with `e` and the context is live.
  unfoldable pub after_failure :
      Operation
      → ℕ
      → ℕ
      → Profile Client
      → AttemptSet
      → GoError
      → Option FailureCategory
      → (AttemptSet → Routed T)
      → Routed T
  after_failure op total i p acc e none next = record {
    attempts = acc ++ stopped_attempt op p i e ∷ [];
    end = returned (err e);
  }
  after_failure op total i p acc e (some c) next =
      let acc' = acc ++ advance_attempt op p i total c ∷ [] in
      let more = next acc' in
      if ltb (i + 1) total then more else record { attempts = acc'; end = returned (err e) }

  -- One round of the loop: success, a dead context, a failure.
  unfoldable pub route_round :
      Operation
      → ℕ
      → ℕ
      → Profile Client
      → AttemptSet
      → Result GoError T
      → Option GoError
      → (AttemptSet → Routed T)
      → Routed T
  unfolding after_failure advance_category selected_attempt
  route_round op total i p acc (ok v) ctx next = record {
    attempts = acc ++ selected_attempt op p i ∷ [];
    end = returned (ok v);
  }
  route_round op total i p acc (err e) (some c) next = record {
    attempts = acc;
    end = returned (err c);
  }
  route_round op total i p acc (err e) none next =
      after_failure op total i p acc e (advance_category e) next

  -- `for index, profile := range profiles`; `collect i` is the call of round i.
  unfoldable pub route_loop :
      Operation
      → (ℕ → Option Client → Reply T)
      → ℕ
      → ℕ
      → List (Profile Client)
      → AttemptSet
      → Routed T
  route_loop op collect total i [] acc = record { attempts = acc; end = panicked }
  route_loop op collect total i (p ∷ ps) acc =
      let reply = collect i p.client in
      route_round op total i p acc reply.result reply.context_error
        (route_loop op collect total (i + 1) ps)

-- splitRepository
unfoldable pub split_repository : String → Option (String × String)
unfolding cut contains
split_repository repository =
    let (owner, name, found) = cut b'/' repository in
    if not found || str_eq owner "" || str_eq name "" || contains name "/"
    then none
    else some (owner, name)

module _ {Client T : Type 0} where
  -- The loop over the owner's profiles, if there are any. The message of the failure names the owner.
  unfoldable pub dispatch :
      Operation → (ℕ → Option Client → Reply T) → String → List (Profile Client) → Routed T
  dispatch op collect owner [] = record {
    attempts = [];
    end = returned (err (route_failure route_missing (opaque_error "no GitHub route for owner")));
  }
  dispatch op collect owner (p ∷ ps) = route_loop op collect (length (p ∷ ps)) 0 (p ∷ ps) []

  unfoldable pub route_split :
      (String → List (Profile Client))
      → (String → String)
      → Operation
      → (ℕ → Option Client → Reply T)
      → Option (String × String)
      → Routed T
  unfolding dispatch
  route_split routes to_lower op collect none = record {
    attempts = [];
    end = returned (err (opaque_error "repository must use owner/name"));
  }
  route_split routes to_lower op collect (some (owner, name)) =
      dispatch op collect owner (routes (to_lower owner))

  -- routeRepositoryPhase. `routes` is the router's map, empty at an owner that has no entry, and
  -- `to_lower` is strings.ToLower.
  unfoldable pub route_repository_phase :
      (String → List (Profile Client))
      → (String → String)
      → String
      → Operation
      → (ℕ → Option Client → Reply T)
      → Routed T
  unfolding route_split
  route_repository_phase routes to_lower repository op collect =
      route_split routes to_lower op collect (split_repository repository)

-- strings.Split(repository, "/") with two parts that are not empty
abbrev two_parts : List String → Option (String × String)
two_parts (owner ∷ name ∷ []) =
    if str_eq owner "" || str_eq name "" then none else some (owner, name)
two_parts _ = none

-- strings.Cut(repository, "/") with an owner that is not empty
abbrev owner_part : String × String × Bool → Option (String × String)
owner_part (owner, rest, valid) = if not valid || str_eq owner "" then none else some (owner, rest)

module _ {Client T : Type 0} (routes : String → List (Profile Client))
    (to_lower : String → String) where
  -- CollectRepositoryContribution
  unfoldable pub collect_repository_contribution : String → (ℕ → Option Client → Reply T) → Routed T
  unfolding split route_split
  collect_repository_contribution repository collect =
      route_split routes to_lower contribution_evidence collect (two_parts (split b'/' repository))

  -- CollectPullRequestDiff
  unfoldable pub collect_pull_request_diff : String → (ℕ → Option Client → Reply T) → Routed T
  unfolding cut route_split
  collect_pull_request_diff repository collect =
      route_split routes to_lower pull_request_diff collect (owner_part (cut b'/' repository))
