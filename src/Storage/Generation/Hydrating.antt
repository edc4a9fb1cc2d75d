-- ===== src/Storage/Generation/Hydrating.antt =====
-- What hydration may do to the pull requests of a generation in
-- internal/storage/refresh_generation.go: complete pending ones, and nothing else.
use maintainer_cockpit.Prelude.{
  Pairwise, true, false, some, List, [], ◌∷◌, ◌≡◌, refl, arith, inl, inr, ◌⊎◌, Option-cases,
  Bool-cases, ◌==◌, ◌&&◌, subst,
}
use maintainer_cockpit.Storage.Rows.{Item}
use maintainer_cockpit.Storage.Generation.{is_pending}
use maintainer_cockpit.Storage.Generation.Batches.{Staged, complete_item, completed_item}

-- A pending row that has been completed, with its number and its memberships.
abbrev pub IsCompletion : Item → Item → Type 0
IsCompletion x y =
    (x.is_completed ≡ false)
    × (y.is_completed ≡ true)
    × (y.number ≡ x.number)
    × (y.collection_ids ≡ x.collection_ids)

-- The same rows in the same order, each as it was or completed.
abbrev pub Hydrates : List Item → List Item → Type 0
Hydrates = Pairwise (λ x y. (y ≡ x) ⊎ IsCompletion x y)

pub Hydrates-refl : (xs : List Item) → Hydrates xs xs
Hydrates-refl [] = tt
Hydrates-refl (x ∷ xs) = (inl refl, Hydrates-refl xs)

row_trans :
    (x y z : Item)
    → (y ≡ x) ⊎ IsCompletion x y
    → (z ≡ y) ⊎ IsCompletion y z
    → (z ≡ x) ⊎ IsCompletion x z
row_trans x y z (inl e) h = subst (λ w. (z ≡ w) ⊎ IsCompletion w z) e h
row_trans x y z (inr k) (inl e) = inr (ground arith)
row_trans x y z (inr k) (inr l) = absurd (ground arith)

pub Hydrates-trans : (xs ys zs : List Item) → Hydrates xs ys → Hydrates ys zs → Hydrates xs zs
Hydrates-trans [] [] zs h k = k
Hydrates-trans [] (y ∷ ys) zs h k = absurd h
Hydrates-trans (x ∷ xs) [] zs h k = absurd h
Hydrates-trans (x ∷ xs) (y ∷ ys) [] h k = absurd k
Hydrates-trans (x ∷ xs) (y ∷ ys) (z ∷ zs) h k =
    (row_trans x y z h.0 k.0, Hydrates-trans xs ys zs h.1 k.1)

-- The row that a staged pull request completes is a completion, and the others stay.
pub complete_item-Hydrates :
    (s : Staged) (xs ys : List Item) → complete_item s xs ≡ some ys → Hydrates xs ys
unfolding complete_item
complete_item-Hydrates s [] ys h = cc
complete_item-Hydrates s (x ∷ xs) ys h = elim (Bool-cases (x.number == s.number && is_pending x)) [
  | inl e ↦
      let same : completed_item s x ∷ xs ≡ ys = ground arith in
      subst (Hydrates (x ∷ xs)) same (inr (ground arith, refl, refl, refl), Hydrates-refl xs)
  | inr e ↦ elim (Option-cases (complete_item s xs)) [
    | inl k ↦ absurd (ground arith)
    | inr (zs, k) ↦
        let same : x ∷ zs ≡ ys = ground arith in
        subst (Hydrates (x ∷ xs)) same (inl refl, complete_item-Hydrates s xs zs k)
  ]
]
