-- ===== src/Storage/Generation/Reconcile.antt =====
-- Rediscovery against the staged work: which pull requests stay, keep their hydration, or start anew.
use maintainer_cockpit.Prelude.{
  ℕ, suc, ◌<◌, String, Bool, true, false, Option, none, some, List, [], ◌∷◌, ◌≡◌, refl, ◌==◌, ltb,
  All, keep, if◌then◌else◌, arith, Bool-cases, inl, inr, Option-cases,
}
use maintainer_cockpit.Storage.Rows.{Item, Generation}
use maintainer_cockpit.Storage.Generation.{
  Discovery, pending_item, upsert_item, upsert_items, has_number, still_open, reconciled,
}

-- The rows of one generation in the order of their primary key, without a number twice.
abbrev pub Sorted : List Item → Type 0
Sorted [] = Unit
Sorted (x ∷ xs) = All (λ y. x.number < y.number) xs × Sorted xs

abbrev pub find_item : ℕ → List Item → Option Item
find_item n [] = none
find_item n (x ∷ xs) = let rest = find_item n xs in if x.number == n then some x else rest

-- The memberships that the map gives a number.
abbrev pub members_of : ℕ → List (ℕ × List String) → Option (List String)
members_of n [] = none
members_of n ((m, ids) ∷ ms) = elim (members_of n ms) [
  | some later ↦ some later
  | none ↦ if m == n then some ids else none
]

-- The row that rediscovery leaves for a pull request, from its memberships, if it is still open,
-- and its row before.
abbrev pub rediscovered : ℕ → Option (List String) → Option Item → Option Item
rediscovered n none old = none
rediscovered n (some ids) none = some (pending_item n ids)
rediscovered n (some ids) (some x) = some (record x { collection_ids = ids })

find_item_above :
    (n m : ℕ) (xs : List Item) → All (λ y. m < y.number) xs → n < suc m → find_item n xs ≡ none
find_item_above n m [] h lt = refl
find_item_above n m (x ∷ xs) h lt = ground (arith, find_item_above n m xs h.1)

above_weaken :
    (n m : ℕ) (xs : List Item) → n < m → All (λ y. m < y.number) xs → All (λ y. n < y.number) xs
above_weaken n m [] lt h = tt
above_weaken n m (x ∷ xs) lt h = (omega arith, above_weaken n m xs lt h.1)

upsert-above :
    (m n : ℕ) (ids : List String) (xs : List Item)
    → m < n
    → All (λ y. m < y.number) xs
    → All (λ y. m < y.number) (upsert_item n ids xs)
unfolding upsert_item
upsert-above m n ids [] lt h = (lt, tt)
upsert-above m n ids (x ∷ xs) lt h = ground (arith, upsert-above m n ids xs lt)

pub upsert-Sorted :
    (n : ℕ) (ids : List String) (xs : List Item) → Sorted xs → Sorted (upsert_item n ids xs)
unfolding upsert_item
upsert-Sorted n ids [] s = (tt, tt)
upsert-Sorted n ids (x ∷ xs) s = elim (Bool-cases (x.number == n)) [
  | inl same ↦ rw same s
  | inr other ↦ elim (Bool-cases (ltb n x.number)) [
    | inl first ↦
        rw (other, first) ((ground arith, above_weaken n x.number xs (ground arith) s.0), s)
    | inr later ↦
        rw (other, later)
          (upsert-above x.number n ids xs (ground arith) s.0, upsert-Sorted n ids xs s.1)
  ]
]

-- The effect of one upsert on a row.
abbrev upserted : ℕ → List String → Option Item → Option Item
upserted n ids none = some (pending_item n ids)
upserted n ids (some x) = some (record x { collection_ids = ids })

find_item-upsert :
    (k n : ℕ) (ids : List String) (xs : List Item)
    → Sorted xs
    → find_item k (upsert_item n ids xs)
      ≡ (if n == k then upserted n ids (find_item k xs) else find_item k xs)
unfolding upsert_item
find_item-upsert k n ids [] s = ground arith
find_item-upsert k n ids (x ∷ xs) s =
    ground (arith, find_item-upsert k n ids xs s.1, find_item_above k x.number xs s.0)

abbrev upserted_if : ℕ → Option (List String) → Option Item → Option Item
upserted_if k none o = o
upserted_if k (some ids) o = upserted k ids o

upserted-upserted :
    (k : ℕ) (later ids : List String) (o : Option Item)
    → upserted k later (upserted k ids o) ≡ upserted k later o
upserted-upserted k later ids none = refl
upserted-upserted k later ids (some x) = refl

pub upsert_items-Sorted :
    (ms : List (ℕ × List String)) (xs : List Item) → Sorted xs → Sorted (upsert_items ms xs)
unfolding upsert_items
upsert_items-Sorted [] xs s = s
upsert_items-Sorted ((n, ids) ∷ ms) xs s =
    upsert_items-Sorted ms (upsert_item n ids xs) (upsert-Sorted n ids xs s)

find_item-upsert_items :
    (k : ℕ) (ms : List (ℕ × List String)) (xs : List Item)
    → Sorted xs
    → find_item k (upsert_items ms xs) ≡ upserted_if k (members_of k ms) (find_item k xs)
unfolding upsert_items
find_item-upsert_items k [] xs s = refl
find_item-upsert_items k ((n, ids) ∷ ms) xs s = ground (
  arith,
  find_item-upsert_items k ms (upsert_item n ids xs) (upsert-Sorted n ids xs s),
  find_item-upsert k n ids xs s,
  λ (later : List String). upserted-upserted k later ids (find_item k xs),
)

keep-above :
    (m : ℕ) (p : Item → Bool) (xs : List Item)
    → All (λ y. m < y.number) xs
    → All (λ y. m < y.number) (keep p xs)
keep-above m p [] h = tt
keep-above m p (x ∷ xs) h = elim (Bool-cases (p x)) [
  | inl e ↦ rw (e, keep) (h.0, keep-above m p xs h.1)
  | inr e ↦ rw (e, keep) (keep-above m p xs h.1)
]

pub keep-Sorted : (p : Item → Bool) (xs : List Item) → Sorted xs → Sorted (keep p xs)
keep-Sorted p [] s = tt
keep-Sorted p (x ∷ xs) s = elim (Bool-cases (p x)) [
  | inl e ↦ rw (e, keep) (keep-above x.number p xs s.0, keep-Sorted p xs s.1)
  | inr e ↦ rw (e, keep) (keep-Sorted p xs s.1)
]

-- The rows that a deletion by number leaves.
find_item-keep :
    (k : ℕ) (ms : List (ℕ × List String)) (xs : List Item)
    → find_item k (keep (still_open ms) xs) ≡ (if has_number k ms then find_item k xs else none)
find_item-keep k ms [] = ground arith
find_item-keep k ms (x ∷ xs) = ground (arith, find_item-keep k ms xs)

has_number-members_of :
    (k : ℕ) (ms : List (ℕ × List String)) (ids : List String)
    → members_of k ms ≡ some ids
    → has_number k ms ≡ true
unfolding has_number
has_number-members_of k [] ids h = cc
has_number-members_of k ((m, is) ∷ ms) ids h = elim (Option-cases (members_of k ms)) [
  | inl e ↦ ground arith
  | inr (later, e) ↦ ground (arith, has_number-members_of k ms later e)
]

members_of-none :
    (k : ℕ) (ms : List (ℕ × List String)) → members_of k ms ≡ none → has_number k ms ≡ false
unfolding has_number
members_of-none k [] h = refl
members_of-none k ((m, is) ∷ ms) h = ground (arith, members_of-none k ms)

rediscovered-upserted_if :
    (k : ℕ) (ms : List (ℕ × List String)) (o : Option Item)
    → upserted_if k (members_of k ms) (if has_number k ms then o else none)
      ≡ rediscovered k (members_of k ms) o
rediscovered-upserted_if k ms o = elim (Option-cases (members_of k ms)) [
  | inl e ↦ rw (e, members_of-none k ms e)
  | inr (ids, e) ↦ ground (arith, has_number-members_of k ms ids e)
]

-- Rediscovery of a generation whose rows are in key order leaves, for every pull request number, no
-- row if it is not among the discovered members, the row as it was with the new memberships (its
-- hydration, payload and fingerprint kept) if it is and had a row, and a pending row if it is new.
pub reconciled-find_item :
    (d : Discovery) (g : Generation) (k : ℕ)
    → Sorted g.items
    → find_item k (reconciled d g).items
      ≡ rediscovered k (members_of k d.members) (find_item k g.items)
reconciled-find_item d g k s =
    rw
      (find_item-upsert_items k d.members (keep (still_open d.members) g.items)
        (keep-Sorted (still_open d.members) g.items s))
      (rw (find_item-keep k d.members g.items)
        (rediscovered-upserted_if k d.members (find_item k g.items)))
