-- ===== src/Contribution/Evaluating.antt =====
-- Evaluate of internal/contribution/contribution.go: the level of an author and the signal of unusual
-- activity.
use maintainer_cockpit.Prelude.{
  ℕ, ◌+◌, ◌-◌, ◌*◌, ◌/◌, min, ℤ, pos, negsuc, String, Bool, true, not, none, some, List, [], ◌∷◌,
  ◌&&◌, ◌||◌, ltb, leb, length, str_eq, is_member, cut, if◌then◌else◌,
}
use maintainer_cockpit.Storage.Clock.{Instant, is_zero, earlier}
use maintainer_cockpit.Contribution.{
  Policy, RepositoryHistory, RepositoryActivity, Input, Counts, Level, UnusualActivity, Evaluation,
  established, some_history, new_to_collection,
}

abbrev pub no_counts : Counts
no_counts = record { merged = 0; closed_unmerged = 0; open_count = 0 }

-- `m[key]` of a map of histories: the open pull requests, zero where the key is missing
unfoldable pub open_of : String → List (String × RepositoryHistory) → ℕ
open_of key [] = 0
open_of key ((k, h) ∷ rest) = if str_eq k key then h.open_count else open_of key rest

-- min(count, open), and nothing for a negative count
abbrev pub covered : ℤ → ℕ → ℕ
covered (pos n) open_count = min n open_count
covered (negsuc n) open_count = 0

-- The loop over the pull requests that are open now.
unfoldable pub subtract_current : List (String × ℤ) → List (String × RepositoryHistory) → ℕ → ℕ
unfolding open_of
subtract_current [] repositories prior = prior
subtract_current ((key, n) ∷ rest) repositories prior =
    subtract_current rest repositories (prior - covered n (open_of key repositories))

-- The switch of associationRank, over the upper-case text.
abbrev pub rank_of : String → ℕ
rank_of s =
    if str_eq s "OWNER"
    then 5
    else if str_eq s "MEMBER"
    then 4
    else if str_eq s "COLLABORATOR"
    then 3
    else if str_eq s "CONTRIBUTOR"
    then 2
    else if str_eq s "FIRST_TIME_CONTRIBUTOR" || str_eq s "FIRST_TIMER"
    then 1
    else 0

module _ (upper : String → String) where
  unfoldable pub association_rank : String → ℕ
  association_rank value = rank_of (upper value)

  -- The loop over the histories.
  unfoldable pub tally : List (String × RepositoryHistory) → Counts × String → Counts × String
  unfolding association_rank
  tally [] x = x
  tally ((k, h) ∷ rest) (counts, association) = tally rest (
    record {
      merged = counts.merged + h.merged;
      closed_unmerged = counts.closed_unmerged + h.closed_unmerged;
      open_count = counts.open_count + h.open_count;
    },
    if ltb (association_rank association) (association_rank h.association)
        then h.association
        else association,
  )

  -- The switch over the levels.
  unfoldable pub level_of : Counts → String → ℕ → Policy → Level
  unfolding association_rank
  level_of counts association prior_open policy =
      if leb (association_rank "COLLABORATOR") (association_rank association)
        || leb policy.established_merged_prs.value counts.merged
      then established
      else if ltb 0 (counts.merged + counts.closed_unmerged + prior_open)
      then some_history
      else new_to_collection

  abbrev pub totals : Input → Counts × String
  totals input = tally input.repositories (no_counts, "")

module _ (lower : String → String) where
  -- A set of texts with one more text.
  abbrev added : String → List String → List String
  added s set = if is_member s set then set else s ∷ set

  abbrev with_owner : String × String × Bool → List String → List String
  with_owner (owner, rest, found) set =
      if found && not (str_eq owner "") then added (lower owner) set else set

  -- The loop over the recent activity: the repositories and the organizations.
  unfoldable pub collect_recent :
      Instant
      → Instant
      → List RepositoryActivity
      → List String × List String
      → List String × List String
  unfolding cut
  collect_recent cutoff now [] sets = sets
  collect_recent cutoff now (a ∷ rest) (repositories, organizations) =
      if str_eq a.repository "" || earlier a.occurred_at cutoff || earlier now a.occurred_at
      then collect_recent cutoff now rest (repositories, organizations)
      else collect_recent cutoff now rest (
        added (lower a.repository) repositories,
        with_owner (cut b'/' a.repository) organizations,
      )

  abbrev pub seconds_per_day : ℕ
  seconds_per_day = 86_400

  -- now.Sub(created) in whole days; a duration has at most 2^63 - 1 nanoseconds
  abbrev pub age_in_days : Instant → Instant → ℕ
  age_in_days created now =
      let elapsed : ℕ =
        now.seconds - created.seconds - (if ltb now.nanos created.nanos then 1 else 0) in
      min elapsed 9_223_372_036 / seconds_per_day

  abbrev pub cutoff_of : Instant → Policy → Instant
  cutoff_of now policy = record now {
    seconds = now.seconds - policy.window_days.value * seconds_per_day;
  }

  -- AccountCreatedAt is known and not in the future.
  abbrev pub has_age : Input → Instant → Bool
  has_age input now =
      not (is_zero input.account_created_at) && not (earlier now input.account_created_at)

  unfoldable pub unusual_activity_of : Input → Policy → Instant → UnusualActivity
  unfolding collect_recent
  unusual_activity_of input policy now =
      let (repositories, organizations) =
        collect_recent (cutoff_of now policy) now input.recent_activity ([], []) in
      let age : ℕ = age_in_days input.account_created_at now in
      let young : Bool = has_age input now && ltb age policy.account_age_days.value in
      record {
        detected =
            young
            && leb policy.min_repositories.value (length repositories)
            && leb policy.min_organizations.value (length organizations);
        experimental = true;
        account_age_days = if has_age input now then pos age else negsuc 0;
        repositories = length repositories;
        organizations = length organizations;
        window_days = policy.window_days.value;
      }

module _ (upper lower : String → String) where
  unfoldable pub evaluate : Input → Policy → Instant → Evaluation
  unfolding tally subtract_current level_of unusual_activity_of
  evaluate input policy now =
      let (counts, association) = totals upper input in
      let prior : ℕ = subtract_current input.current_open input.repositories counts.open_count in
      record {
        is_complete = input.complete;
        level =
            if input.complete then some (level_of upper counts association prior policy) else none;
        association = association;
        counts = counts;
        repositories = input.repositories;
        unusual_activity =
            if input.complete then some (unusual_activity_of lower input policy now) else none;
        policy = policy;
        quality_independent = true;
      }
