-- ===== src/Prelude/Slices.antt =====
-- Parts of a list: what a slice and the rest give together.
use Prim.Native.Nat.{ℕ, zero, suc, ◌+◌, ◌-◌, ◌≤◌, min}
use mathlib.Core.Path.{◌≡◌, refl, sym, ap, ◌∙◌}
use mathlib.Core.Logic.{inl, inr}
use mathlib.Core.List.{List, [], ◌∷◌, ◌++◌}
use native.Mathlib.Omega.{arith}
use maintainer_cockpit.Prelude.Tests.{ltb, Bool-cases}
use maintainer_cockpit.Prelude.Lists.{length, take, drop}

module _ {ℓ} {A : Type ℓ} where
  abbrev nil : List A
  nil = []

  take-drop : (n : ℕ) (xs : List A) → take n xs ++ drop n xs ≡ xs
  take-drop zero xs = refl
  take-drop (suc n) [] = refl
  take-drop (suc n) (x ∷ xs) = ap (λ ys. x ∷ ys) (take-drop n xs)

  drop-nil : (n : ℕ) → drop n nil ≡ []
  drop-nil zero = refl
  drop-nil (suc n) = refl

  drop-drop : (m n p : ℕ) (xs : List A) → p ≡ m + n → drop n (drop m xs) ≡ drop p xs
  drop-drop zero n p xs h = ap (λ k. drop k xs) (omega arith)
  drop-drop (suc m) n p [] h = drop-nil n ∙ sym (drop-nil p)
  drop-drop (suc m) n zero (x ∷ xs) h = ground arith
  drop-drop (suc m) n (suc p) (x ∷ xs) h = drop-drop m n p xs (omega arith)

  pub length-drop : (n : ℕ) (xs : List A) → length (drop n xs) ≡ length xs - n
  length-drop zero xs = omega arith
  length-drop (suc n) [] = omega arith
  length-drop (suc n) (x ∷ xs) = omega (arith, length-drop n xs)

  pub drop-all : (n : ℕ) (xs : List A) → length xs ≤ n → drop n xs ≡ []
  drop-all zero [] h = refl
  drop-all zero (x ∷ xs) h = ground arith
  drop-all (suc n) [] h = refl
  drop-all (suc n) (x ∷ xs) h = drop-all n xs (omega arith)

  -- A part from s up to e and what follows it.
  parts : (s e : ℕ) (xs : List A) → s ≤ e → take (e - s) (drop s xs) ++ drop e xs ≡ drop s xs
  parts s e xs h =
      ap (λ ys. take (e - s) (drop s xs) ++ ys) (sym (drop-drop s (e - s) e xs (omega arith)))
      ∙ take-drop (e - s) (drop s xs)

  drop-min : (n : ℕ) (xs : List A) → drop n xs ≡ drop (min n (length xs)) xs
  drop-min n xs = elim (Bool-cases (ltb n (length xs))) [
    | inl e ↦ ap (λ m. drop m xs) (ground arith)
    | inr e ↦ drop-all n xs (ground arith) ∙ sym (drop-all (min n (length xs)) xs (ground arith))
  ]

  take-nil : (n : ℕ) → take n nil ≡ []
  take-nil zero = refl
  take-nil (suc n) = refl

  past_end :
      (s n k : ℕ) (xs : List A) → length xs ≤ s → take k (drop s xs) ++ drop (s + n) xs ≡ drop s xs
  past_end s n k xs h =
      ap (λ ys. take k ys ++ drop (s + n) xs) (drop-all s xs h)
      ∙ ap (λ ys. ys ++ drop (s + n) xs) (take-nil k)
      ∙ drop-all (s + n) xs (omega arith)
      ∙ sym (drop-all s xs h)

  -- One part of a fixed size, which the end of the list may shorten, and the rest.
  pub part_rest :
      (s n : ℕ) (xs : List A)
      → take (min (s + n) (length xs) - s) (drop s xs) ++ drop (s + n) xs ≡ drop s xs
  part_rest s n xs = elim (Bool-cases (ltb (length xs) s)) [
    | inl e ↦ past_end s n (min (s + n) (length xs) - s) xs (ground arith)
    | inr e ↦
        ap (λ ys. take (min (s + n) (length xs) - s) (drop s xs) ++ ys) (drop-min (s + n) xs)
        ∙ parts s (min (s + n) (length xs)) xs (ground arith)
  ]
