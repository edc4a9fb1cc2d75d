-- ===== src/Contribution/Opens.antt =====
-- The pull requests that are open now are among those of the histories.
use maintainer_cockpit.Prelude.{
  ℕ, ◌+◌, ◌-◌, ◌≤◌, ℤ, pos, negsuc, String, false, List, [], ◌∷◌, ◌≡◌, ◌≢◌, refl, ap, ◌∙◌, inl, inr,
  All, Distinct, str_eq, eq_iff, Bool-cases, arith, if◌then◌else◌,
}
use maintainer_cockpit.Contribution.{RepositoryHistory}
use maintainer_cockpit.Contribution.Evaluating.{open_of, covered, subtract_current}

-- The sum of the open pull requests of the histories.
unfoldable pub sum_open : List (String × RepositoryHistory) → ℕ
sum_open [] = 0
sum_open ((k, h) ∷ rest) = h.open_count + sum_open rest

-- The sum of what the pull requests that are open now take away.
unfoldable pub sum_covered : List (String × ℤ) → List (String × RepositoryHistory) → ℕ
unfolding open_of
sum_covered [] repositories = 0
sum_covered ((key, n) ∷ rest) repositories =
    covered n (open_of key repositories) + sum_covered rest repositories

abbrev pub repository_key : String × ℤ → String
repository_key (key, n) = key

-- The histories without the first one of a repository.
abbrev without : String → List (String × RepositoryHistory) → List (String × RepositoryHistory)
without key [] = []
without key ((k, h) ∷ rest) =
    let later = without key rest in if str_eq k key then rest else (k, h) ∷ later

covered_le : (n : ℤ) (m : ℕ) → covered n m ≤ m
covered_le (pos n) m = omega arith
covered_le (negsuc n) m = omega arith

without-sum_open :
    (key : String) (rs : List (String × RepositoryHistory))
    → open_of key rs + sum_open (without key rs) ≡ sum_open rs
unfolding open_of sum_open
without-sum_open key [] = omega arith
without-sum_open key ((k, h) ∷ rest) = elim (Bool-cases (str_eq k key)) [
  | inl e ↦ rw e refl
  | inr e ↦ rw e (omega (arith, without-sum_open key rest))
]

without-open_of :
    (key other : String) (rs : List (String × RepositoryHistory))
    → key ≢ other
    → open_of other (without key rs) ≡ open_of other rs
unfolding open_of
without-open_of key other [] n = refl
without-open_of key other ((k, h) ∷ rest) n = elim (Bool-cases (str_eq k key)) [
  | inl e ↦
      let apart : str_eq k other ≡ false = ground (arith, eq_iff k key, eq_iff k other, n) in
      rw e (rw apart refl)
  | inr e ↦ rw e (ground (arith, without-open_of key other rest n))
]

without-sum_covered :
    (key : String) (current : List (String × ℤ)) (rs : List (String × RepositoryHistory))
    → All (λ c. key ≢ repository_key c) current
    → sum_covered current (without key rs) ≡ sum_covered current rs
unfolding sum_covered
without-sum_covered key [] rs n = refl
without-sum_covered key ((other, m) ∷ rest) rs n =
    ap (λ x. covered m x + sum_covered rest (without key rs)) (without-open_of key other rs n.0)
    ∙ ap (λ x. covered m (open_of other rs) + x) (without-sum_covered key rest rs n.1)

sum_covered_le :
    (current : List (String × ℤ)) (rs : List (String × RepositoryHistory))
    → Distinct repository_key current
    → sum_covered current rs ≤ sum_open rs
unfolding sum_covered Distinct
sum_covered_le [] rs d = omega arith
sum_covered_le ((key, n) ∷ rest) rs d = omega (
  arith,
  covered_le n (open_of key rs),
  sum_covered_le rest (without key rs) d.1,
  without-sum_covered key rest rs d.0,
  without-sum_open key rs,
)

subtract_current-monus :
    (current : List (String × ℤ)) (rs : List (String × RepositoryHistory)) (prior : ℕ)
    → sum_covered current rs ≤ prior
    → subtract_current current rs prior + sum_covered current rs ≡ prior
unfolding subtract_current sum_covered
subtract_current-monus [] rs prior h = omega arith
subtract_current-monus ((key, n) ∷ rest) rs prior h =
    omega (arith, subtract_current-monus rest rs (prior - covered n (open_of key rs)) (omega arith))

-- Where each repository is listed once among the pull requests that are open now, no subtraction
-- from the open pull requests of the histories goes below zero: what is left and what was taken away
-- sum up to them.
pub subtract_current-exact :
    (current : List (String × ℤ)) (rs : List (String × RepositoryHistory))
    → Distinct repository_key current
    → subtract_current current rs (sum_open rs) + sum_covered current rs ≡ sum_open rs
subtract_current-exact current rs d =
    subtract_current-monus current rs (sum_open rs) (sum_covered_le current rs d)
