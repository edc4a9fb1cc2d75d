-- ===== src/Quality/Rules/Strong.antt =====
-- When an assessment has strong concerns.
use maintainer_cockpit.Prelude.{
  ◌+◌, ◌≤◌, ◌<◌, String, Bool, false, List, [], ◌∷◌, ◌++◌, not, length, keep, count, All, arith,
  ◌≡◌, Bool-cases, inl, inr,
}
use maintainer_cockpit.Quality.{
  strong_concerns, Finding, Input, MismatchPolicy, BroadAdditionsPolicy, Policy, level,
}
use maintainer_cockpit.Quality.Levels.{is_high, level-counts}
use maintainer_cockpit.Quality.Rules.{
  Texts, assess, assess_mismatch, mismatch_with, mismatch_finding, assess_broad_additions,
  broad_finding, findings_of, extract_file_references, reference_matches_diff,
}

count-append :
    {A : Type 0} (p : A → Bool) (xs ys : List A) → count p (xs ++ ys) ≡ count p xs + count p ys
count-append p [] ys = omega arith
count-append p (x ∷ xs) ys = ground (arith, count-append p xs ys)

length-keep-≤ : {A : Type 0} (p : A → Bool) (xs : List A) → length (keep p xs) ≤ length xs
length-keep-≤ p [] = omega arith
length-keep-≤ p (x ∷ xs) = ground (arith, length-keep-≤ p xs)

-- A list that a filter leaves as long as it was has no element that fails the test.
keep-All :
    {A : Type 0} (p : A → Bool) (xs : List A)
    → length (keep (λ x. not (p x)) xs) ≡ length xs
    → All (λ x. p x ≡ false) xs
keep-All p [] h = tt
keep-All p (x ∷ xs) h = elim (Bool-cases (p x)) [
  | inl holds ↦ absurd (ground (arith, length-keep-≤ (λ y. not (p y)) xs))
  | inr fails ↦ (fails, keep-All p xs (ground arith))
]

module _ (T : Texts) (i : Input) where
  -- A mismatch that is filed as a high finding.
  abbrev pub IsStrongMismatch : MismatchPolicy → List String → Type 0
  IsStrongMismatch policy references =
      (0 < length i.files)
      × All (λ r. reference_matches_diff T r i.files ≡ false) references
      × (policy.min_references.value ≤ length references)
      × (policy.strong_mismatch_min_references.value ≤ length references)

  high_mismatch :
      (policy : MismatchPolicy) (references : List String)
      → 0 < count is_high (findings_of T (mismatch_with T i policy references))
      → IsStrongMismatch policy references
  unfolding mismatch_with mismatch_finding
  high_mismatch policy references h = (
    ground arith,
    keep-All (λ r. reference_matches_diff T r i.files) references (ground arith),
    ground arith,
    ground arith,
  )

  broad_not_high :
      (policy : BroadAdditionsPolicy)
      → count is_high (findings_of T (assess_broad_additions T i policy)) ≡ 0
  unfolding assess_broad_additions broad_finding
  broad_not_high policy = ground arith

  strong_counts : (fs : List Finding) → level fs ≡ strong_concerns → 0 < count is_high fs
  strong_counts fs h = ground (arith, level-counts fs)

  -- An assessment has strong concerns only where files were collected, no reference of the
  -- description matches one of them, and the references reach both thresholds of the policy; broad
  -- additions alone are never a strong concern.
  pub assess-IsStrongMismatch :
      (policy : Policy)
      → (assess T i policy).level ≡ strong_concerns
      → IsStrongMismatch policy.description_diff_mismatch (extract_file_references T i.description)
  unfolding assess assess_mismatch
  assess-IsStrongMismatch policy h =
      let m = findings_of T (assess_mismatch T i policy.description_diff_mismatch) in
      let b = findings_of T (assess_broad_additions T i policy.broad_additions_only) in
      high_mismatch policy.description_diff_mismatch (extract_file_references T i.description) (
        ground (
          arith,
          strong_counts (m ++ b) h,
          count-append is_high m b,
          broad_not_high policy.broad_additions_only,
        ))
