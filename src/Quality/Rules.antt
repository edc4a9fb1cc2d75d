-- ===== src/Quality/Rules.antt =====
-- The two rules of internal/quality/quality.go and Assess. The regular expressions, the standard
-- library's functions on texts and the quoted statements about AI use are the record `Texts`.
pub mod Strong
use maintainer_cockpit.Prelude.{
  ℕ, ◌+◌, String, Bool, true, false, Option, none, some, List, [], ◌∷◌, ◌++◌, ◌&&◌, ◌||◌, not, ◌==◌,
  ltb, leb, str_eq, has_prefix, has_suffix, contains, if◌then◌else◌, length, keep, map, is_member,
}
use Prim.Native.String.{◌++◌ as ◌+++◌}
use maintainer_cockpit.Quality.{
  Level, Severity, medium, high, Evidence, Finding, UnevaluatedRule, File, Input, MismatchPolicy,
  BroadAdditionsPolicy, Policy, level,
}

-- A quoted statement.
pub record Disclosure : Type 0 where
  pub statement : String
  pub url : String

-- Assessment
pub record Assessment : Type 0 where
  pub level : Level
  pub findings : List Finding
  pub unevaluated : List UnevaluatedRule
  pub ai_disclosures : List Disclosure
  pub policy : Policy

pub record Texts : Type 0 where
  -- strings.ToLower, path.Base, %d, sort.Strings
  pub to_lower : String → String
  pub base : String → String
  pub decimal : ℕ → String
  pub sort_strings : List String → List String
  -- strings.TrimPrefix with "./", strings.Trim with the punctuation of a sentence
  pub trim_dot_slash : String → String
  pub trim_punctuation : String → String
  -- urlPattern.ReplaceAllString, fileExtensionPattern.MatchString, and the matches of
  -- pathReferencePattern and backtickPattern
  pub without_urls : String → String
  pub has_extension : String → Bool
  pub path_references : String → List String
  pub backticks : String → List String
  -- findDisclosures
  pub find_disclosures : Input → List Disclosure

-- filesURL
abbrev pub files_url : String → String
files_url url = if str_eq url "" then "" else url +++ "/files"

module _ (T : Texts) where
  -- The closure `add` of extractFileReferences, on the seen keys and the references.
  abbrev add_reference : String → List String × List String → List String × List String
  add_reference candidate (seen, references) =
      let trimmed = T.trim_punctuation candidate in
      if str_eq trimmed "" || not (T.has_extension trimmed) || is_member (T.to_lower trimmed) seen
      then (seen, references)
      else (T.to_lower trimmed ∷ seen, references ++ trimmed ∷ [])

  abbrev add_references : List String → List String × List String → List String × List String
  add_references [] found = found
  add_references (c ∷ cs) found = add_references cs (add_reference c found)

  -- extractFileReferences
  unfoldable pub extract_file_references : String → List String
  extract_file_references description =
      let text = T.without_urls description in
      T.sort_strings
        (add_references (T.backticks text) (add_references (T.path_references text) ([], []))).1

  unfoldable pub matches_file : String → String → Bool
  unfolding has_suffix contains
  matches_file normalized path =
      str_eq path normalized
      || has_suffix path ("/" +++ normalized)
      || has_suffix normalized ("/" +++ path)
      || (not (contains normalized "/") && str_eq (T.base path) normalized)

  -- referenceMatchesDiff
  unfoldable pub reference_matches_diff : String → List File → Bool
  unfolding matches_file
  reference_matches_diff reference [] = false
  reference_matches_diff reference (f ∷ fs) =
      let rest = reference_matches_diff reference fs in
      if matches_file (T.to_lower (T.trim_dot_slash reference)) (T.to_lower f.path)
      then true
      else rest

  mismatch_evidence : String → String → Evidence
  mismatch_evidence url reference = record {
    kind = "description_reference";
    detail = "The description references " +++ (reference +++ ", which is not part of the diff.");
    url = url;
  }

  unfoldable pub mismatch_finding : Input → MismatchPolicy → List String → List String → Finding
  unfolding mismatch_evidence
  mismatch_finding i policy references unmatched = record {
    rule = "description_diff_mismatch";
    severity =
        if leb policy.strong_mismatch_min_references.value (length references)
        then high
        else medium;
    provenance = "rule_derived";
    summary =
        "The description references "
        +++ (T.decimal (length references) +++ " file(s); none of them appear in the diff.");
    evidence =
        map (mismatch_evidence i.url) unmatched
        ++ record {
          kind = "changed_files";
          detail = T.decimal (length i.files) +++ " changed files were collected for comparison.";
          url = files_url i.url;
        }
          ∷ [];
    completeness = if ltb (length i.files) i.changed_file_count then "partial" else "complete";
  }

  unfoldable pub mismatch_with :
      Input → MismatchPolicy → List String → Option Finding × Option UnevaluatedRule
  unfolding mismatch_finding reference_matches_diff
  mismatch_with i policy references =
      let unmatched = keep (λ r. not (reference_matches_diff r i.files)) references in
      if length references == 0
      then (none, none)
      else if length i.files == 0
      then (
        none,
        some (record {
          rule = "description_diff_mismatch";
          provenance = "rule_derived";
          completeness = "partial";
          reason =
              "The changed file list was not collected, so description references could not be compared with the diff.";
        }),
      )
      else if not (length unmatched == length references)
          || ltb (length references) policy.min_references.value
      then (none, none)
      else (some (mismatch_finding i policy references unmatched), none)

  -- assessMismatch
  unfoldable pub assess_mismatch : Input → MismatchPolicy → Option Finding × Option UnevaluatedRule
  unfolding mismatch_with extract_file_references
  assess_mismatch i policy = mismatch_with i policy (extract_file_references i.description)

  abbrev pub file_count : Input → ℕ
  file_count i = if i.changed_file_count == 0 then length i.files else i.changed_file_count

  unfoldable pub broad_finding : Input → BroadAdditionsPolicy → Finding
  broad_finding i policy = record {
    rule = "broad_additions_only";
    severity = medium;
    provenance = "rule_derived";
    summary =
        "Unusually broad additions-only change: +"
        +++ (T.decimal i.additions
            +++ (" lines across "
                +++ (T.decimal (file_count i)
                    +++ (" files with only " +++ (T.decimal i.deletions +++ " deletions.")))));
    evidence =
        record {
          kind = "measured_churn";
          detail =
              "+"
              +++ (T.decimal i.additions
                  +++ ("/−"
                      +++ (T.decimal i.deletions
                          +++ (" across "
                              +++ (T.decimal (file_count i)
                                  +++ " files (raw provider totals).")))));
          url = files_url i.url;
        }
        ∷ record {
          kind = "policy_threshold";
          detail =
              "Policy flags at least "
              +++ (T.decimal policy.min_files.value
                  +++ (" files, at least "
                      +++ (T.decimal policy.min_additions.value
                          +++ (" additions, and at most "
                              +++ (T.decimal policy.max_deletions.value +++ " deletions.")))));
          url = "";
        }
        ∷ [];
    completeness = "complete";
  }

  -- assessBroadAdditions
  unfoldable pub assess_broad_additions :
      Input → BroadAdditionsPolicy → Option Finding × Option UnevaluatedRule
  unfolding broad_finding
  assess_broad_additions i policy =
      if file_count i == 0
      then (if i.additions == 0 && i.deletions == 0 then (none, none) else (
        none,
        some (record {
          rule = "broad_additions_only";
          provenance = "rule_derived";
          completeness = "partial";
          reason =
              "The changed file count was not collected, so change breadth could not be measured.";
        }),
      ))
      else if ltb (file_count i) policy.min_files.value
          || ltb i.additions policy.min_additions.value
          || ltb policy.max_deletions.value i.deletions
      then (none, none)
      else (some (broad_finding i policy), none)

  -- A rule's finding counts only where the rule was evaluated.
  abbrev pub findings_of : Option Finding × Option UnevaluatedRule → List Finding
  findings_of (f, some u) = []
  findings_of (some f, none) = f ∷ []
  findings_of (none, none) = []

  abbrev unevaluated_of : Option Finding × Option UnevaluatedRule → List UnevaluatedRule
  unevaluated_of (f, some u) = u ∷ []
  unevaluated_of (f, none) = []

  -- Assess
  unfoldable pub assess : Input → Policy → Assessment
  unfolding assess_mismatch assess_broad_additions level
  assess i policy =
      let m = assess_mismatch i policy.description_diff_mismatch in
      let b = assess_broad_additions i policy.broad_additions_only in
      record {
        level = level (findings_of m ++ findings_of b);
        findings = findings_of m ++ findings_of b;
        unevaluated = unevaluated_of m ++ unevaluated_of b;
        ai_disclosures = T.find_disclosures i;
        policy = policy;
      }
