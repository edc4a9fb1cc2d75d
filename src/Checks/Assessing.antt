-- ===== src/Checks/Assessing.antt =====
-- A pull request whose description names three files that it does not change.
use maintainer_cockpit.Prelude.{◌≤◌, true, none, some, List, [], ◌∷◌, ◌≡◌, refl, count}
use maintainer_cockpit.Quality.{
  strong_concerns, low, Finding, Input, ConfiguredQuality, policy_from_config, default_policy,
  level,
}
use maintainer_cockpit.Quality.Levels.{
  is_high, is_medium, is_low, level_of_counts, level-counts, policy_from_config-le,
}
use maintainer_cockpit.Quality.Rules.{Texts, assess, extract_file_references}
use maintainer_cockpit.Quality.Rules.Strong.{IsStrongMismatch, assess-IsStrongMismatch}

abbrev finding : Finding
finding = record {
  rule = "unsupported_references";
  severity = low;
  provenance = "";
  summary = "";
  evidence = [];
  completeness = "";
}

abbrev findings : List Finding
findings = finding ∷ finding ∷ []

level-counts_example :
    level findings
    ≡ level_of_counts (count is_high findings) (count is_medium findings) (count is_low findings)
level-counts_example = level-counts findings

abbrev configured : ConfiguredQuality
configured = record {
  description_diff_mismatch =
      some (record { min_references = some 5; strong_mismatch_min_references = some 2 });
  broad_additions_only = none;
}

policy_from_config-le_example :
    (policy_from_config (some configured)).description_diff_mismatch.min_references.value
    ≤ (policy_from_config (some configured)
        ).description_diff_mismatch.strong_mismatch_min_references.value
policy_from_config-le_example = policy_from_config-le (some configured)

-- Every word of the description is a reference.
abbrev texts : Texts
texts = record {
  to_lower = λ s. s;
  base = λ s. s;
  decimal = λ n. "";
  sort_strings = λ ss. ss;
  trim_dot_slash = λ s. s;
  trim_punctuation = λ s. s;
  without_urls = λ s. s;
  has_extension = λ s. true;
  path_references = λ s. "a/x.go" ∷ "a/y.go" ∷ "a/z.go" ∷ [];
  backticks = λ s. [];
  find_disclosures = λ i. [];
}

abbrev input : Input
input = record {
  repository = "acme/tool";
  number = 7;
  title = "Fix";
  description = "a/x.go a/y.go a/z.go";
  url = "";
  additions = 3;
  deletions = 1;
  changed_file_count = 1;
  files = record { path = "b/w.go"; additions = 3; deletions = 1 } ∷ [];
}

input_strong : (assess texts input default_policy).level ≡ strong_concerns
unfolding assess extract_file_references
input_strong = refl

assess-IsStrongMismatch_example :
    IsStrongMismatch texts input default_policy.description_diff_mismatch
      (extract_file_references texts input.description)
assess-IsStrongMismatch_example = assess-IsStrongMismatch texts input default_policy input_strong
