-- ===== src/Correlation/Texts.antt =====
-- The text helpers of internal/correlation/correlation.go.
use maintainer_cockpit.Prelude.{
  ℕ, ◌≤◌, String, Bool, true, false, Option, none, some, List, [], ◌∷◌, str_eq, if◌then◌else◌, join,
  fields, truncate_bytes, byte_length, byte_length-truncate_bytes, leb, sort_by, Sorted, Ascending,
  All, All-sort_by, sort_by-Sorted, text_lt, text_lt_connex, text_lt_trans, All-weaken, ◌≡◌,
  if_both, Bool-cases, inl, inr, arith, eq_iff,
}

unfoldable pub normalize_text : String → String
normalize_text value = join " " (fields value)

-- truncateUTF8: the cut at the limit, shortened to whole characters
unfoldable pub truncate_utf8 : String → ℕ → String
truncate_utf8 value limit =
    if leb (byte_length value) limit then value else truncate_bytes value limit

abbrev repeats : Option String → String → Bool
repeats none value = false
repeats (some last) value = str_eq value last

abbrev pub this_text : String → String
this_text s = s

-- The loop of sortedUnique, with the value it kept last.
unfoldable pub skip_repeats : Option String → List String → List String
skip_repeats last [] = []
skip_repeats last (x ∷ xs) =
    if repeats last x then skip_repeats last xs else x ∷ skip_repeats (some x) xs

unfoldable pub sorted_unique : List String → List String
unfolding sort_by skip_repeats
sorted_unique values = skip_repeats none (sort_by this_text values)

pub byte_length-truncate_utf8 :
    (value : String) (limit : ℕ) → byte_length (truncate_utf8 value limit) ≤ limit
unfolding truncate_utf8
byte_length-truncate_utf8 value limit = ground (arith, byte_length-truncate_bytes value limit)

All-skip_repeats :
    (P : String → Type 0) (last : Option String) (xs : List String)
    → All P xs
    → All P (skip_repeats last xs)
unfolding skip_repeats
All-skip_repeats P last [] h = tt
All-skip_repeats P last (x ∷ xs) h =
    if_both (All P) (repeats last x) (λ _. All-skip_repeats P last xs h.1)
      (λ _. (h.0, All-skip_repeats P (some x) xs h.1))

pub All-sorted_unique :
    (P : String → Type 0) (xs : List String) → All P xs → All P (sorted_unique xs)
unfolding sorted_unique
All-sorted_unique P xs h =
    All-skip_repeats P none (sort_by this_text xs) (All-sort_by this_text P xs h)

below_others : (l x : String) → text_lt x l ≡ false → str_eq x l ≡ false → text_lt l x ≡ true
below_others l x h k = elim (Bool-cases (text_lt l x)) [
  | inl e ↦ e
  | inr e ↦ ground (arith, eq_iff x l, text_lt_connex x l h e)
]

skip_repeats-above :
    (l : String) (xs : List String)
    → All (λ y. text_lt y l ≡ false) xs
    → Sorted this_text xs
    → All (λ y. text_lt l y ≡ true) (skip_repeats (some l) xs)
unfolding skip_repeats Sorted
skip_repeats-above l [] h k = tt
skip_repeats-above l (x ∷ xs) h k =
    if_both (All (λ y. text_lt l y ≡ true)) (repeats (some l) x)
      (λ _. skip_repeats-above l xs h.1 k.1)
      (λ e.
        let less : text_lt l x ≡ true = below_others l x h.0 e in
        (
          less,
          All-weaken _ _ (skip_repeats (some x) xs) (λ y f. text_lt_trans l x y less f)
              (skip_repeats-above x xs k.0 k.1),
        ))

skip_repeats-Ascending :
    (last : Option String) (xs : List String)
    → Sorted this_text xs
    → Ascending this_text (skip_repeats last xs)
unfolding skip_repeats Sorted Ascending
skip_repeats-Ascending last [] k = tt
skip_repeats-Ascending last (x ∷ xs) k =
    if_both (Ascending this_text) (repeats last x) (λ _. skip_repeats-Ascending last xs k.1)
      (λ _. (skip_repeats-above x xs k.0 k.1, skip_repeats-Ascending (some x) xs k.1))

pub sorted_unique-Ascending : (xs : List String) → Ascending this_text (sorted_unique xs)
unfolding sorted_unique
sorted_unique-Ascending xs =
    skip_repeats-Ascending none (sort_by this_text xs) (sort_by-Sorted this_text xs)
