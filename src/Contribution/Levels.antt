-- ===== src/Contribution/Levels.antt =====
-- The level of an author depends on sums and on the greatest rank alone.
use maintainer_cockpit.Prelude.{
  ℕ, ◌+◌, String, Bool, true, false, some, none, List, [], ◌∷◌, ◌≡◌, refl, sym, ap, ◌∙◌, ◌||◌, ltb,
  leb, arith, if◌then◌else◌, if_both, Distinct,
}
use maintainer_cockpit.Storage.Clock.{Instant}
use maintainer_cockpit.Contribution.{
  RepositoryHistory, Counts, Policy, Input, established, some_history, new_to_collection,
}
use maintainer_cockpit.Contribution.Evaluating.{
  association_rank, tally, no_counts, level_of, evaluate, subtract_current, totals, rank_of,
}
use maintainer_cockpit.Contribution.Opens.{
  sum_open, sum_covered, repository_key, subtract_current-exact,
}

unfoldable pub sum_merged : List (String × RepositoryHistory) → ℕ
sum_merged [] = 0
sum_merged ((k, h) ∷ rest) = h.merged + sum_merged rest

unfoldable pub sum_closed : List (String × RepositoryHistory) → ℕ
sum_closed [] = 0
sum_closed ((k, h) ∷ rest) = h.closed_unmerged + sum_closed rest

or_assoc : (a b c : Bool) → ((a || b) || c) ≡ (a || (b || c))
or_assoc a b c = ground arith

module _ (upper : String → String) where
  -- Whether some repository knows the author by an association of at least a rank.
  unfoldable pub some_rank : ℕ → List (String × RepositoryHistory) → Bool
  some_rank n [] = false
  some_rank n ((k, h) ∷ rest) = leb n (association_rank upper h.association) || some_rank n rest

  tally-counts :
      (rs : List (String × RepositoryHistory)) (c : Counts) (a : String)
      → ((tally upper rs (c, a)).0.merged ≡ c.merged + sum_merged rs)
        × ((tally upper rs (c, a)).0.closed_unmerged ≡ c.closed_unmerged + sum_closed rs)
        × ((tally upper rs (c, a)).0.open_count ≡ c.open_count + sum_open rs)
  unfolding tally sum_merged sum_closed sum_open
  tally-counts [] c a = (omega arith, omega arith, omega arith)
  tally-counts ((k, h) ∷ rest) c a =
      let c' : Counts = record {
        merged = c.merged + h.merged;
        closed_unmerged = c.closed_unmerged + h.closed_unmerged;
        open_count = c.open_count + h.open_count;
      } in
      let a' : String =
        if ltb (association_rank upper a) (association_rank upper h.association)
        then h.association
        else a in
      let (merged, closed, opened) = tally-counts rest c' a' in
      (omega (arith, merged), omega (arith, closed), omega (arith, opened))

  -- The association with the greater rank has at least a rank if one of the two has.
  greater_rank :
      (n : ℕ) (a b : String)
      → leb n (
          association_rank upper
            (if ltb (association_rank upper a) (association_rank upper b) then b else a))
        ≡ (leb n (association_rank upper a) || leb n (association_rank upper b))
  greater_rank n a b =
      if_both
        (λ x.
          leb n (association_rank upper x)
          ≡ (leb n (association_rank upper a) || leb n (association_rank upper b)))
        (ltb (association_rank upper a) (association_rank upper b)) (λ k. ground arith)
        (λ k. ground arith)

  tally-rank :
      (n : ℕ) (rs : List (String × RepositoryHistory)) (c : Counts) (a : String)
      → leb n (association_rank upper (tally upper rs (c, a)).1)
        ≡ (leb n (association_rank upper a) || some_rank n rs)
  unfolding tally some_rank
  tally-rank n [] c a = ground arith
  tally-rank n ((k, h) ∷ rest) c a =
      tally-rank n rest _ _
      ∙ ap (λ b. b || some_rank n rest) (greater_rank n a h.association)
      ∙ or_assoc (leb n (association_rank upper a)) (leb n (association_rank upper h.association))
          (some_rank n rest)

  -- The switch in terms of what the counts and the rank are.
  level_of-sums :
      (counts : Counts) (a : String) (policy : Policy) (prior m c covered total : ℕ) (r : Bool)
      → association_rank upper "COLLABORATOR" ≡ 3
      → leb 3 (association_rank upper a) ≡ r
      → counts.merged ≡ m
      → counts.closed_unmerged ≡ c
      → prior + covered ≡ total
      → level_of upper counts a prior policy ≡ (
          if r || leb policy.established_merged_prs.value m
          then established
          else if ltb covered (m + c + total)
          then some_history
          else new_to_collection)
  unfolding level_of
  level_of-sums counts a policy prior m c covered total r three rank merged closed left =
      let known : (leb (association_rank upper "COLLABORATOR") (association_rank upper a)
            || leb policy.established_merged_prs.value counts.merged)
          ≡ (r || leb policy.established_merged_prs.value m) =
        rw three (rw rank (rw merged refl)) in
      let some_left : ltb 0 (counts.merged + counts.closed_unmerged + prior)
          ≡ ltb covered (m + c + total) =
        ground arith in
      ap
        (λ b.
          if b
          then established
          else if ltb 0 (counts.merged + counts.closed_unmerged + prior)
          then some_history
          else new_to_collection)
        known
      ∙ ap
          (λ b.
            if r || leb policy.established_merged_prs.value m
            then established
            else if b
            then some_history
            else new_to_collection)
          some_left

module _ (upper lower : String → String) where
  -- Where the input is complete and lists each repository once among the pull requests that are
  -- open now, the author is established if some repository knows the author as a collaborator or
  -- more or the merged pull requests of all histories reach the threshold; otherwise has some history
  -- if they hold a pull request that is merged, closed or open and not open now; otherwise is new.
  -- So the level does not depend on the order in which the maps are walked.
  pub evaluate-level :
      (input : Input) (policy : Policy) (now : Instant)
      → input.complete ≡ true
      → upper "" ≡ ""
      → upper "COLLABORATOR" ≡ "COLLABORATOR"
      → Distinct repository_key input.current_open
      → let rs = input.repositories in
        (evaluate upper lower input policy now).level
        ≡ some (
            if some_rank upper 3 rs || leb policy.established_merged_prs.value (sum_merged rs)
            then established
            else if ltb
                (sum_covered input.current_open rs)
                (sum_merged rs + sum_closed rs + sum_open rs)
            then some_history
            else new_to_collection)
  unfolding evaluate association_rank
  evaluate-level input policy now whole empty collaborator once =
      let rs : List (String × RepositoryHistory) = input.repositories in
      let counts : Counts = (totals upper input).0 in
      let a : String = (totals upper input).1 in
      let (merged, closed, opened) = tally-counts upper rs no_counts "" in
      let opened' : sum_open rs ≡ counts.open_count = omega (arith, opened) in
      let three : association_rank upper "COLLABORATOR" ≡ 3 = ap rank_of collaborator in
      let least : leb 3 (association_rank upper "") ≡ false = ap (λ x. leb 3 (rank_of x)) empty in
      let rank : leb 3 (association_rank upper a) ≡ some_rank upper 3 rs =
        tally-rank upper 3 rs no_counts "" ∙ ap (λ b. b || some_rank upper 3 rs) least in
      let left : subtract_current input.current_open rs counts.open_count
            + sum_covered input.current_open rs
          ≡ sum_open rs =
        ap (λ n. subtract_current input.current_open rs n + sum_covered input.current_open rs)
          (sym opened')
        ∙ subtract_current-exact input.current_open rs once in
      ap
        (λ b.
          if b
          then some (
              level_of upper counts a (subtract_current input.current_open rs counts.open_count)
                policy)
          else none)
        whole
      ∙ ap some (
          level_of-sums upper counts a policy
            (subtract_current input.current_open rs counts.open_count) (sum_merged rs)
            (sum_closed rs) (sum_covered input.current_open rs) (sum_open rs) (some_rank upper 3 rs)
            three rank (omega (arith, merged)) (omega (arith, closed)) left)
