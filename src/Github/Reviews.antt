-- ===== src/Github/Reviews.antt =====
-- reviewState of internal/githubapp/client.go: what the reviews of a pull request come to.
use maintainer_cockpit.Prelude.{
  String, Bool, true, false, not, Option, none, some, List, [], ◌∷◌, ◌||◌, keep, str_eq,
  if◌then◌else◌,
}

pub record Review : Type 0 where
  pub login : String
  pub state : String

pub data ReviewState : Type 0 where
  is_draft changes_requested review_requested approved reviewed no_reviews : ReviewState

-- The map of the latest states by login.
abbrev pub Latest : Type 0
Latest = List (String × String)

abbrev pub is_of : String → String × String → Bool
is_of login (l, s) = str_eq l login

-- `delete(latest, login)`
unfoldable pub without_login : String → Latest → Latest
without_login login m = keep (λ entry. not (is_of login entry)) m

unfoldable pub lookup : String → Latest → Option String
lookup login [] = none
lookup login ((l, s) ∷ rest) = if str_eq l login then some s else lookup login rest

unfoldable pub has_state : String → Latest → Bool
has_state state [] = false
has_state state ((l, s) ∷ rest) = str_eq s state || has_state state rest

abbrev pub is_empty_map : Latest → Bool
is_empty_map [] = true
is_empty_map (entry ∷ rest) = false

-- A decision that wins over an earlier one, or over what was stored.
abbrev pub or_decision : Option (Option String) → Option (Option String) → Option (Option String)
or_decision none earlier = earlier
or_decision (some d) earlier = some d

abbrev pub or_stored : Option (Option String) → Option String → Option String
or_stored none stored = stored
or_stored (some d) stored = d

-- upper is strings.ToUpper.
module _ (upper : String → String) where
  -- What a review does to the map: a state to set, nothing to keep, or no change.
  abbrev pub decision : Review → Option (Option String)
  decision r =
      if str_eq (upper r.state) "APPROVED" || str_eq (upper r.state) "CHANGES_REQUESTED"
      then some (some (upper r.state))
      else if str_eq (upper r.state) "DISMISSED"
      then some none
      else none

  abbrev pub note : String → Option (Option String) → Latest → Latest
  note login none m = m
  note login (some none) m = without_login login m
  note login (some (some state)) m = (login, state) ∷ without_login login m

  -- The loop over the reviews.
  unfoldable pub latest_reviews : List Review → Latest → Latest
  unfolding without_login
  latest_reviews [] m = m
  latest_reviews (r ∷ rs) m =
      latest_reviews rs (if str_eq r.login "" then m else note r.login (decision r) m)

  unfoldable pub review_state : Bool → Bool → List Review → ReviewState
  unfolding latest_reviews has_state
  review_state draft requested reviews =
      let latest : Latest = latest_reviews reviews [] in
      if draft
      then is_draft
      else if has_state "CHANGES_REQUESTED" latest
      then changes_requested
      else if requested
      then review_requested
      else if has_state "APPROVED" latest
      then approved
      else if not (is_empty_map latest)
      then reviewed
      else no_reviews

  -- The last review of a login that approves, requests changes or was dismissed.
  unfoldable pub last_decision : String → List Review → Option (Option String)
  last_decision login [] = none
  last_decision login (r ∷ rs) =
      or_decision (last_decision login rs) (if str_eq r.login login then decision r else none)
