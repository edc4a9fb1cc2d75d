-- ===== src/Quality/Levels.antt =====
-- What the display level says about the findings, and the policy about its thresholds.
use maintainer_cockpit.Prelude.{
  ℕ, suc, ◌+◌, ◌≤◌, Bool, true, false, Option, none, some, List, [], ◌∷◌, ◌||◌, leb, count, arith,
  ◌≡◌, if◌then◌else◌,
}
use maintainer_cockpit.Quality.{
  Level, no_concerns, review_suggested, strong_concerns, low, medium, high, Finding, level_from,
  level, ConfiguredQuality, policy_from_config,
}

abbrev pub is_high : Finding → Bool
is_high f = elim f.severity [ high ↦ true | _ ↦ false ]

abbrev pub is_medium : Finding → Bool
is_medium f = elim f.severity [ medium ↦ true | _ ↦ false ]

abbrev pub is_low : Finding → Bool
is_low f = elim f.severity [ low ↦ true | _ ↦ false ]

-- The level by the numbers of findings of each severity.
abbrev pub level_of_counts : ℕ → ℕ → ℕ → Level
level_of_counts highs mediums lows =
    if leb 1 highs
    then strong_concerns
    else if leb 1 mediums || leb 2 lows
    then review_suggested
    else no_concerns

level_from-counts :
    (n : ℕ) (fs : List Finding)
    → (level_from n no_concerns fs
        ≡ level_of_counts (count is_high fs) (count is_medium fs) (n + count is_low fs))
      × (level_from n review_suggested fs
          ≡ level_of_counts (count is_high fs) (suc (count is_medium fs)) (n + count is_low fs))
unfolding level_from
level_from-counts n [] = (ground arith, ground arith)
level_from-counts n (f ∷ fs) =
    let (a, b) = level_from-counts n fs in
    let (c, d) = level_from-counts (suc n) fs in
    (ground (arith, a, b, c, d), ground (arith, a, b, c, d))

-- The level is strong where a finding is high, otherwise a review is suggested where a finding is
-- medium or two are low, and there are no concerns in every other case, whatever the order of the
-- findings.
pub level-counts :
    (fs : List Finding)
    → level fs ≡ level_of_counts (count is_high fs) (count is_medium fs) (count is_low fs)
unfolding level
level-counts fs = ground (arith, (level_from-counts 0 fs).0)

-- Whatever is configured, the threshold of a strong mismatch is not below the one of a mismatch.
pub policy_from_config-le :
    (c : Option ConfiguredQuality)
    → (policy_from_config c).description_diff_mismatch.min_references.value
      ≤ (policy_from_config c).description_diff_mismatch.strong_mismatch_min_references.value
unfolding policy_from_config
policy_from_config-le none = omega arith
policy_from_config-le (some c) = ground arith
