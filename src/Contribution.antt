-- ===== src/Contribution.antt =====
-- The context of an author in a collection (internal/contribution/contribution.go). The maps of the
-- source are lists of keys and values, in the order in which they are walked; counts of stored pull
-- requests are not negative. strings.ToUpper and strings.ToLower are parameters.
pub mod Evaluating
pub mod Opens
pub mod Levels
use maintainer_cockpit.Prelude.{
  ℕ, ◌+◌, ◌-◌, ◌*◌, ◌/◌, min, ℤ, pos, negsuc, String, Bool, true, false, not, Option, none, some,
  List, [], ◌∷◌, ◌&&◌, ◌||◌, ltb, leb, length, str_eq, is_member, cut, if◌then◌else◌,
}
use maintainer_cockpit.Storage.Clock.{Instant, is_zero, earlier}

pub data ThresholdSource : Type 0 where
  by_default by_local_policy : ThresholdSource

pub record Threshold : Type 0 where
  pub value : ℕ
  pub source : ThresholdSource

pub record Policy : Type 0 where
  pub established_merged_prs : Threshold
  pub account_age_days : Threshold
  pub window_days : Threshold
  pub min_repositories : Threshold
  pub min_organizations : Threshold

-- config.Contribution, with its unusual activity perhaps nil
pub record ConfiguredActivity : Type 0 where
  pub account_age_days : Option ℕ
  pub window_days : Option ℕ
  pub min_repositories : Option ℕ
  pub min_organizations : Option ℕ

pub record ConfiguredContribution : Type 0 where
  pub established_merged_prs : Option ℕ
  pub unusual_activity : Option ConfiguredActivity

abbrev by_product : ℕ → Threshold
by_product n = record { value = n; source = by_default }

unfoldable pub default_policy : Policy
default_policy = record {
  established_merged_prs = by_product 3;
  account_age_days = by_product 90;
  window_days = by_product 14;
  min_repositories = by_product 20;
  min_organizations = by_product 3;
}

abbrev overlay : Option ℕ → Threshold → Threshold
overlay none t = t
overlay (some n) t = record { value = n; source = by_local_policy }

abbrev overlay_activity : Option ConfiguredActivity → Policy → Policy
overlay_activity none p = p
overlay_activity (some a) p = record p {
  account_age_days = overlay a.account_age_days p.account_age_days;
  window_days = overlay a.window_days p.window_days;
  min_repositories = overlay a.min_repositories p.min_repositories;
  min_organizations = overlay a.min_organizations p.min_organizations;
}

unfoldable pub policy_from_config : Option ConfiguredContribution → Policy
unfolding default_policy
policy_from_config none = default_policy
policy_from_config (some c) = overlay_activity c.unusual_activity (record default_policy {
  established_merged_prs = overlay c.established_merged_prs default_policy.established_merged_prs;
})

pub record RepositoryHistory : Type 0 where
  pub association : String
  pub merged : ℕ
  pub closed_unmerged : ℕ
  pub open_count : ℕ

pub record RepositoryActivity : Type 0 where
  pub repository : String
  pub occurred_at : Instant

pub record Input : Type 0 where
  pub complete : Bool
  pub account_created_at : Instant
  pub repositories : List (String × RepositoryHistory)
  pub current_open : List (String × ℤ)
  pub recent_activity : List RepositoryActivity

pub record Counts : Type 0 where
  pub merged : ℕ
  pub closed_unmerged : ℕ
  pub open_count : ℕ

pub data Level : Type 0 where
  established some_history new_to_collection : Level

pub record UnusualActivity : Type 0 where
  pub detected : Bool
  pub experimental : Bool
  pub account_age_days : ℤ
  pub repositories : ℕ
  pub organizations : ℕ
  pub window_days : ℕ

-- The level and the signal are missing where the input is incomplete.
pub record Evaluation : Type 0 where
  pub is_complete : Bool
  pub level : Option Level
  pub association : String
  pub counts : Counts
  pub repositories : List (String × RepositoryHistory)
  pub unusual_activity : Option UnusualActivity
  pub policy : Policy
  pub quality_independent : Bool
