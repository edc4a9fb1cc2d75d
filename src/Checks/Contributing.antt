-- ===== src/Checks/Contributing.antt =====
-- An author with some history and one pull request that is open now.
use maintainer_cockpit.Prelude.{
  ℤ, arith, eq_iff, pos, String, true, some, List, [], ◌∷◌, ◌≡◌, refl, Distinct, leb, ltb, ◌||◌,
  ◌+◌, if◌then◌else◌,
}
use maintainer_cockpit.Contribution.{
  Input, RepositoryHistory, default_policy, established, some_history, new_to_collection,
}
use maintainer_cockpit.Contribution.Evaluating.{evaluate, subtract_current}
use maintainer_cockpit.Contribution.Opens.{
  sum_open, sum_covered, repository_key, subtract_current-exact,
}
use maintainer_cockpit.Contribution.Levels.{some_rank, sum_merged, sum_closed, evaluate-level}

abbrev histories : List (String × RepositoryHistory)
histories =
    ("acme/tool", record { association = "NONE"; merged = 1; closed_unmerged = 0; open_count = 2 })
    ∷ ("acme/web", record { association = "NONE"; merged = 0; closed_unmerged = 1; open_count = 0 })
    ∷ []

abbrev opened_now : List (String × ℤ)
opened_now = ("acme/tool", pos 1) ∷ ("acme/web", pos 4) ∷ []

abbrev input : Input
input = record {
  complete = true;
  account_created_at = record { seconds = 100; nanos = 0 };
  repositories = histories;
  current_open = opened_now;
  recent_activity = [];
}

opened_now-Distinct : Distinct repository_key opened_now
unfolding Distinct
opened_now-Distinct = ((λ e. ground (arith, eq_iff "acme/tool" "acme/web", e), tt), (tt, tt))

subtract_current-exact_example :
    subtract_current opened_now histories (sum_open histories) + sum_covered opened_now histories
    ≡ sum_open histories
subtract_current-exact_example = subtract_current-exact opened_now histories opened_now-Distinct

evaluate-level_example :
    (evaluate (λ s. s) (λ s. s) input default_policy (record { seconds = 86_400; nanos = 0 })).level
    ≡ some (
        if some_rank (λ s. s) 3 histories
          || leb default_policy.established_merged_prs.value (sum_merged histories)
        then established
        else if ltb
            (sum_covered opened_now histories)
            (sum_merged histories + sum_closed histories + sum_open histories)
        then some_history
        else new_to_collection)
evaluate-level_example =
    evaluate-level (λ s. s) (λ s. s) input default_policy (record { seconds = 86_400; nanos = 0 })
      refl refl refl opened_now-Distinct
