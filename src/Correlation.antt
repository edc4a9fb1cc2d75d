-- ===== src/Correlation.antt =====
-- Collection-level correlation (internal/correlation/correlation.go): what is sent to the model for
-- one collection, and the groups that its answer is turned into.
pub mod Texts
pub mod Requests
pub mod Known
pub mod Validation
use maintainer_cockpit.Prelude.{String, List, ℕ, ℤ}

-- Collected evidence: id names the evidence record, entity_id the pull request or issue it is about.
pub record Source : Type 0 where
  pub id : String
  pub kind : String
  pub entity_id : String
  pub repository : String
  pub number : ℤ
  pub title : String
  pub state : String
  pub url : String

pub record PullRequest : Type 0 where
  pub source_id : String
  pub repository : String
  pub number : ℤ
  pub title : String
  pub author : String
  pub url : String
  pub state : String
  pub files : List String
  pub relationships : List Source

pub record Input : Type 0 where
  pub collection_id : String
  pub pull_requests : List PullRequest

pub record Request : Type 0 where
  pub schema_version : String
  pub prompt_version : String
  pub input_revision : String
  pub collection_id : String
  pub chunk : ℕ
  pub chunks : ℕ
  pub pull_requests : List PullRequest

pub record Member : Type 0 where
  pub source_id : String
  pub repository : String
  pub number : ℤ
  pub title : String
  pub state : String
  pub url : String

pub record Evidence : Type 0 where
  pub owner : String
  pub entity_id : String

pub record Edge : Type 0 where
  pub from : String
  pub to : String
  pub type : String
  pub confidence : String
  pub reason : String
  pub source_ids : List String

pub record Group : Type 0 where
  pub id : String
  pub name : String
  pub description : String
  pub confidence : String
  pub source_ids : List String
  pub members : List Member
  pub edges : List Edge
