-- ===== src/Storage/Users.antt =====
-- The tables of internal/storage/store.go that hold what belongs to users.
use maintainer_cockpit.Prelude.{ℤ, String, Bool, Option, List}
use maintainer_cockpit.Storage.Clock.{Instant}

-- sessions; organizations and teams are stored as JSON texts of the lists
pub record Session : Type 0 where
  pub id : String
  pub user_id : ℤ
  pub login : String
  pub avatar_url : String
  pub organizations : List String
  pub teams : List String
  pub csrf_token : String
  pub created_at : Instant
  pub expires_at : Instant

-- auth_flows
pub record AuthFlow : Type 0 where
  pub id : String
  pub state : String
  pub code_verifier : String
  pub expires_at : Instant

-- audit_events, without the sequence number that is their place in the list
pub record AuditEvent : Type 0 where
  pub occurred_at : Instant
  pub event : String
  pub user_id : Option ℤ
  pub detail : String

-- important_pull_requests
pub record ImportantRow : Type 0 where
  pub user_id : ℤ
  pub collection_id : String
  pub repository : String
  pub number : ℤ

-- hidden_pull_requests
pub record HiddenRow : Type 0 where
  pub user_id : ℤ
  pub collection_id : String
  pub repository : String
  pub number : ℤ
  pub kind : String
  pub reason : String
  pub snoozed_until : Option Instant
  pub wake_on_activity : Bool
  pub hidden_at_updated_at : Instant
  pub created_at : Instant
  pub updated_at : Instant

-- goal_preferences
pub record GoalRow : Type 0 where
  pub user_id : ℤ
  pub collection_id : String
  pub target : ℤ
  pub enabled_activities : List String
  pub timezone : String

-- progress_events
pub record ProgressRow : Type 0 where
  pub collection_id : String
  pub repository : String
  pub number : ℤ
  pub event_id : String
  pub actor_id : ℤ
  pub activity_type : String
  pub title : String
  pub pull_request_url : String
  pub activity_url : String
  pub occurred_at : Instant
  pub collected_at : Instant

pub record UserTables : Type 0 where
  pub auth_flows : List AuthFlow
  pub sessions : List Session
  pub audit_events : List AuditEvent
  pub important : List ImportantRow
  pub hidden : List HiddenRow
  pub goals : List GoalRow
  pub progress : List ProgressRow
