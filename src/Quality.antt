-- ===== src/Quality.antt =====
-- internal/quality/quality.go: the deterministic quality rules of a pull request, their findings and
-- the display level. What the regular expressions find and the standard library's texts are the
-- record `Texts`.
pub mod Levels
pub mod Rules
use maintainer_cockpit.Prelude.{
  ℕ, zero, suc, ◌+◌, String, Bool, true, false, Option, none, some, List, [], ◌∷◌, ◌&&◌, ◌||◌, not,
  ◌==◌, ltb, leb, str_eq, has_prefix, has_suffix, contains, if◌then◌else◌, length, keep, map, ◌++◌,
}

pub data Level : Type 0 where
  no_concerns review_suggested strong_concerns : Level

-- Finding severities; `other_severity` is any other text.
pub data Severity : Type 0 where
  low medium high other_severity : Severity

-- Evidence
pub record Evidence : Type 0 where
  pub kind : String
  pub detail : String
  pub url : String

-- Finding, with the fields that the rules set.
pub record Finding : Type 0 where
  pub rule : String
  pub severity : Severity
  pub provenance : String
  pub summary : String
  pub evidence : List Evidence
  pub completeness : String

-- UnevaluatedRule
pub record UnevaluatedRule : Type 0 where
  pub rule : String
  pub provenance : String
  pub completeness : String
  pub reason : String

-- File
pub record File : Type 0 where
  pub path : String
  pub additions : ℕ
  pub deletions : ℕ

-- Input
pub record Input : Type 0 where
  pub repository : String
  pub number : ℕ
  pub title : String
  pub description : String
  pub url : String
  pub additions : ℕ
  pub deletions : ℕ
  pub changed_file_count : ℕ
  pub files : List File

pub data Source : Type 0 where
  from_default from_local : Source

-- Threshold
pub record Threshold : Type 0 where
  pub value : ℕ
  pub source : Source

-- MismatchPolicy
pub record MismatchPolicy : Type 0 where
  pub min_references : Threshold
  pub strong_mismatch_min_references : Threshold

-- BroadAdditionsPolicy
pub record BroadAdditionsPolicy : Type 0 where
  pub min_files : Threshold
  pub min_additions : Threshold
  pub max_deletions : Threshold

-- Policy
pub record Policy : Type 0 where
  pub description_diff_mismatch : MismatchPolicy
  pub broad_additions_only : BroadAdditionsPolicy

-- config.Quality with its two parts, for pointers options.
pub record ConfiguredMismatch : Type 0 where
  pub min_references : Option ℕ
  pub strong_mismatch_min_references : Option ℕ

pub record ConfiguredBroad : Type 0 where
  pub min_files : Option ℕ
  pub min_additions : Option ℕ
  pub max_deletions : Option ℕ

pub record ConfiguredQuality : Type 0 where
  pub description_diff_mismatch : Option ConfiguredMismatch
  pub broad_additions_only : Option ConfiguredBroad

abbrev by_default : ℕ → Threshold
by_default n = record { value = n; source = from_default }

-- DefaultPolicy
abbrev pub default_policy : Policy
default_policy = record {
  description_diff_mismatch = record {
    min_references = by_default 1;
    strong_mismatch_min_references = by_default 3;
  };
  broad_additions_only = record {
    min_files = by_default 10;
    min_additions = by_default 400;
    max_deletions = by_default 10;
  };
}

-- applyOverride
abbrev pub apply_override : Threshold → Option ℕ → Threshold
apply_override t none = t
apply_override t (some n) = record { value = n; source = from_local }

abbrev with_mismatch : Option ConfiguredMismatch → MismatchPolicy → MismatchPolicy
with_mismatch none p = p
with_mismatch (some c) p = record {
  min_references = apply_override p.min_references c.min_references;
  strong_mismatch_min_references =
      apply_override p.strong_mismatch_min_references c.strong_mismatch_min_references;
}

abbrev with_broad : Option ConfiguredBroad → BroadAdditionsPolicy → BroadAdditionsPolicy
with_broad none p = p
with_broad (some c) p = record {
  min_files = apply_override p.min_files c.min_files;
  min_additions = apply_override p.min_additions c.min_additions;
  max_deletions = apply_override p.max_deletions c.max_deletions;
}

-- The strong threshold is raised to the plain one.
abbrev raised : MismatchPolicy → MismatchPolicy
raised p = record p {
  strong_mismatch_min_references = record p.strong_mismatch_min_references {
    value =
        if ltb p.strong_mismatch_min_references.value p.min_references.value
        then p.min_references.value
        else p.strong_mismatch_min_references.value;
  };
}

-- PolicyFromConfig
unfoldable pub policy_from_config : Option ConfiguredQuality → Policy
policy_from_config none = default_policy
policy_from_config (some c) = record {
  description_diff_mismatch =
      raised (with_mismatch c.description_diff_mismatch default_policy.description_diff_mismatch);
  broad_additions_only = with_broad c.broad_additions_only default_policy.broad_additions_only;
}

-- The loop of Level, from a count of low findings and a level on.
unfoldable pub level_from : ℕ → Level → List Finding → Level
level_from lows current [] = if leb 2 lows then review_suggested else current
level_from lows current (f ∷ fs) = elim f.severity [
  | high ↦ strong_concerns
  | medium ↦ level_from lows review_suggested fs
  | low ↦ level_from (suc lows) current fs
  | other_severity ↦ level_from lows current fs
]

-- Level
unfoldable pub level : List Finding → Level
unfolding level_from
level fs = level_from 0 no_concerns fs
