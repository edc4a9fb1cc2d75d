-- ===== src/Prelude/Sorting.antt =====
-- Go's order of texts and `sort.Slice` by a text: the byte order of UTF-8 is the order of the
-- characters' numbers.
use Prim.Native.Nat.{suc}
use Prim.Native.Char.{Char, code}
use Prim.Native.String.{String}
use mathlib.Core.Path.{◌≡◌, refl, ap, sym, ◌∙◌}
use mathlib.Core.Logic.{◌≢◌, inl, inr}
use mathlib.Core.Bool.{Bool, true, false}
use mathlib.Core.List.{List, [], ◌∷◌}
use native.Mathlib.Omega.{arith}
use text.Mathlib.TextEquality.{Char-path, eq_iff}
use maintainer_cockpit.Prelude.Tests.{ltb, ◌==◌, if◌then◌else◌, Bool-cases, if_both, ||-false}
use maintainer_cockpit.Prelude.Text.{is_member, str_eq}
use maintainer_cockpit.Prelude.Lists.{length, All, count, All-weaken}

-- `s < t`
unfoldable pub text_lt : String → String → Bool
text_lt s String.[] = false
text_lt String.[] (String.◌∷◌ d t) = true
text_lt (String.◌∷◌ c s) (String.◌∷◌ d t) =
    let rest = text_lt s t in
    if ltb (code c) (code d) then true else if code c == code d then rest else false

text_lt_irrefl : (s : String) → text_lt s s ≡ false
unfolding text_lt
text_lt_irrefl String.[] = refl
text_lt_irrefl (String.◌∷◌ c s) = ground (arith, text_lt_irrefl s)

pub text_lt_trans : (s t u : String) → text_lt s t ≡ true → text_lt t u ≡ true → text_lt s u ≡ true
unfolding text_lt
text_lt_trans s t String.[] h k = ground arith
text_lt_trans s String.[] (String.◌∷◌ e u) h k = ground arith
text_lt_trans String.[] (String.◌∷◌ d t) (String.◌∷◌ e u) h k = refl
text_lt_trans (String.◌∷◌ c s) (String.◌∷◌ d t) (String.◌∷◌ e u) h k =
    ground (arith, text_lt_trans s t u)

abbrev cons_path :
    (c d : Char) (s t : String) → code c ≡ code d → s ≡ t → String.◌∷◌ c s ≡ String.◌∷◌ d t
cons_path c d s t h k = λ i. String.◌∷◌ (Char-path c d h i) (k i)

pub text_lt_connex : (s t : String) → text_lt s t ≡ false → text_lt t s ≡ false → s ≡ t
unfolding text_lt
text_lt_connex String.[] String.[] h k = refl
text_lt_connex String.[] (String.◌∷◌ d t) h k = ground arith
text_lt_connex (String.◌∷◌ c s) String.[] h k = ground arith
text_lt_connex (String.◌∷◌ c s) (String.◌∷◌ d t) h k =
    cons_path c d s t (ground arith) (text_lt_connex s t (ground arith) (ground arith))

not_lt_trans : (s t u : String) → text_lt t s ≡ false → text_lt u t ≡ false → text_lt u s ≡ false
not_lt_trans s t u h k = elim (Bool-cases (text_lt u s)) [
  | inr e ↦ e
  | inl e ↦ elim (Bool-cases (text_lt s t)) [
    | inl f ↦ ground (arith, text_lt_trans u s t e f)
    | inr f ↦ ap (λ x. text_lt u x) (text_lt_connex s t f h) ∙ k
  ]
]

pub text_lt_asym : (s t : String) → text_lt s t ≡ true → text_lt t s ≡ false
text_lt_asym s t h = elim (Bool-cases (text_lt t s)) [
  | inr e ↦ e
  | inl e ↦ ground (arith, text_lt_trans s t s h e, text_lt_irrefl s)
]

module _ {ℓ} {A : Type ℓ} (key : A → String) where
  unfoldable pub insert_by : A → List A → List A
  insert_by x [] = x ∷ []
  insert_by x (y ∷ ys) =
      let rest = insert_by x ys in if text_lt (key y) (key x) then y ∷ rest else x ∷ y ∷ ys

  -- sort.Slice by the key; elements with one key stay in their order, which Go leaves open
  unfoldable pub sort_by : List A → List A
  unfolding insert_by
  sort_by [] = []
  sort_by (x ∷ xs) = insert_by x (sort_by xs)

  -- No later element has a smaller key.
  unfoldable pub Sorted : List A → Type 0
  Sorted [] = Unit
  Sorted (x ∷ xs) = All (λ y. text_lt (key y) (key x) ≡ false) xs × Sorted xs

  -- Every later element has a greater key.
  unfoldable pub Ascending : List A → Type 0
  Ascending [] = Unit
  Ascending (x ∷ xs) = All (λ y. text_lt (key x) (key y) ≡ true) xs × Ascending xs

  -- No two elements have one key.
  unfoldable pub Distinct : List A → Type 0
  Distinct [] = Unit
  Distinct (x ∷ xs) = All (λ y. key x ≢ key y) xs × Distinct xs

module _ {ℓ} {A : Type ℓ} (key : A → String) where
  pub All-insert_by {κ} :
      (P : A → Type κ) (x : A) (xs : List A) → P x → All P xs → All P (insert_by key x xs)
  unfolding insert_by
  All-insert_by P x [] h k = (h, k)
  All-insert_by P x (y ∷ ys) h k =
      if_both (All P) (text_lt (key y) (key x)) (λ _. (k.0, All-insert_by P x ys h k.1))
        (λ _. (h, k))

  pub All-sort_by {κ} : (P : A → Type κ) (xs : List A) → All P xs → All P (sort_by key xs)
  unfolding sort_by
  All-sort_by P [] h = tt
  All-sort_by P (x ∷ xs) h = All-insert_by P x (sort_by key xs) h.0 (All-sort_by P xs h.1)

  count-insert_by :
      (p : A → Bool) (x : A) (xs : List A) → count p (insert_by key x xs) ≡ count p (x ∷ xs)
  unfolding insert_by
  count-insert_by p x [] = refl
  count-insert_by p x (y ∷ ys) = ground (arith, count-insert_by p x ys)

  -- Sorting keeps how many elements pass a test, whatever the test.
  pub count-sort_by : (p : A → Bool) (xs : List A) → count p (sort_by key xs) ≡ count p xs
  unfolding sort_by
  count-sort_by p [] = refl
  count-sort_by p (x ∷ xs) =
      ground (arith, count-insert_by p x (sort_by key xs), count-sort_by p xs)

  length-insert_by : (x : A) (xs : List A) → length (insert_by key x xs) ≡ suc (length xs)
  unfolding insert_by
  length-insert_by x [] = refl
  length-insert_by x (y ∷ ys) = ground (arith, length-insert_by x ys)

  pub length-sort_by : (xs : List A) → length (sort_by key xs) ≡ length xs
  unfolding sort_by
  length-sort_by [] = refl
  length-sort_by (x ∷ xs) = omega (arith, length-insert_by x (sort_by key xs), length-sort_by xs)

  insert_by-Sorted : (x : A) (xs : List A) → Sorted key xs → Sorted key (insert_by key x xs)
  unfolding insert_by Sorted
  insert_by-Sorted x [] h = (tt, tt)
  insert_by-Sorted x (y ∷ ys) h =
      if_both (Sorted key) (text_lt (key y) (key x))
        (λ e.
          (All-insert_by _ x ys (text_lt_asym (key y) (key x) e) h.0, insert_by-Sorted x ys h.1))
        (λ e. ((e, All-weaken _ _ ys (λ z k. not_lt_trans (key x) (key y) (key z) e k) h.0), h))

  pub sort_by-Sorted : (xs : List A) → Sorted key (sort_by key xs)
  unfolding sort_by Sorted
  sort_by-Sorted [] = tt
  sort_by-Sorted (x ∷ xs) = insert_by-Sorted x (sort_by key xs) (sort_by-Sorted xs)

  insert_by-Distinct :
      (x : A) (xs : List A)
      → All (λ y. key x ≢ key y) xs
      → Distinct key xs
      → Distinct key (insert_by key x xs)
  unfolding insert_by Distinct
  insert_by-Distinct x [] h k = (tt, tt)
  insert_by-Distinct x (y ∷ ys) h k =
      if_both (Distinct key) (text_lt (key y) (key x))
        (λ _. (All-insert_by _ x ys (λ e. h.0 (sym e)) k.0, insert_by-Distinct x ys h.1 k.1))
        (λ _. (h, k))

  pub sort_by-Distinct : (xs : List A) → Distinct key xs → Distinct key (sort_by key xs)
  unfolding sort_by Distinct
  sort_by-Distinct [] h = tt
  sort_by-Distinct (x ∷ xs) h =
      insert_by-Distinct x (sort_by key xs) (All-sort_by _ xs h.0) (sort_by-Distinct xs h.1)

  above :
      (x : A) (ys : List A)
      → All (λ y. text_lt (key y) (key x) ≡ false) ys
      → All (λ y. key x ≢ key y) ys
      → All (λ y. text_lt (key x) (key y) ≡ true) ys
  above x [] h k = tt
  above x (y ∷ ys) h k = (
    elim (Bool-cases (text_lt (key x) (key y))) [
      | inl e ↦ e
      | inr e ↦ absurd (k.0 (text_lt_connex (key x) (key y) e h.0))
    ],
    above x ys h.1 k.1,
  )

  pub Sorted-Ascending : (xs : List A) → Sorted key xs → Distinct key xs → Ascending key xs
  unfolding Sorted Ascending Distinct
  Sorted-Ascending [] h k = tt
  Sorted-Ascending (x ∷ xs) h k = (above x xs h.0 k.0, Sorted-Ascending xs h.1 k.1)

  -- Elements with different keys are sorted into strictly ascending keys.
  pub sort_by-Ascending : (xs : List A) → Distinct key xs → Ascending key (sort_by key xs)
  sort_by-Ascending xs h =
      Sorted-Ascending (sort_by key xs) (sort_by-Sorted xs) (sort_by-Distinct xs h)

  -- Keys that are in no list with a first text differ from that text and are not in the rest.
  pub fresh_keys :
      (k : String) (seen : List String) (xs : List A)
      → All (λ x. is_member (key x) (k ∷ seen) ≡ false) xs
      → All (λ x. k ≢ key x) xs × All (λ x. is_member (key x) seen ≡ false) xs
  fresh_keys k seen [] h = (tt, tt)
  fresh_keys k seen (x ∷ xs) h =
      let (differ, rest) = fresh_keys k seen xs h.1 in
      let (other, unseen) = ||-false (str_eq (key x) k) (is_member (key x) seen) h.0 in
      ((λ e. ground (arith, eq_iff (key x) k, e), differ), (unseen, rest))

  -- A sorted list stays as it is.
  insert_by-first :
      (x : A) (xs : List A)
      → All (λ y. text_lt (key y) (key x) ≡ false) xs
      → insert_by key x xs ≡ x ∷ xs
  unfolding insert_by
  insert_by-first x [] h = refl
  insert_by-first x (y ∷ ys) h = rw h.0 refl

  pub sort_by_unchanged : (xs : List A) → Ascending key xs → sort_by key xs ≡ xs
  unfolding sort_by Ascending
  sort_by_unchanged [] h = refl
  sort_by_unchanged (x ∷ xs) h =
      ap (λ ys. insert_by key x ys) (sort_by_unchanged xs h.1)
      ∙ insert_by-first x xs (All-weaken _ _ xs (λ y k. text_lt_asym (key x) (key y) k) h.0)
