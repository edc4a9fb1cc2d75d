-- ===== src/Storage/Jobs/Invariant.antt =====
-- The queue's invariant, which every operation keeps: ids are distinct and below the sequence, and
-- a repository has at most one active job.
use maintainer_cockpit.Prelude.{
  ℕ, suc, ◌≤◌, ◌<◌, String, Bool, true, false, List, [], ◌∷◌, ◌++◌, ◌==◌, if◌then◌else◌, map, ◌≡◌,
  ◌≢◌, refl, arith, eq_iff, Bool-cases, inl, inr,
}
use maintainer_cockpit.Storage.Clock.{Instant}
use maintainer_cockpit.Storage.Rows.{RefreshJob}
use maintainer_cockpit.Storage.Jobs.{
  JobTable, is_active, active_for, has_active, insert_or_ignore, force_row,
  enqueue_refresh_with_force, start_row, finish_row, recover_row, requeue_row,
}

-- A row of this id.
abbrev pub has_id : ℕ → List RefreshJob → Bool
has_id id [] = false
has_id id (j ∷ js) = let rest = has_id id js in if j.id == id then true else rest

-- The rows obey the constraints of the table: below the sequence, unique ids, one active row for a
-- repository.
abbrev pub RowsOk : ℕ → List RefreshJob → Type 0
RowsOk n [] = Unit
RowsOk n (j ∷ js) =
    (j.id ≤ n)
    × (has_id j.id js ≡ false)
    × (is_active j.status ≡ true → has_active j.repository js ≡ false)
    × RowsOk n js

abbrev pub IsValid : JobTable → Type 0
IsValid t = RowsOk t.sequence t.rows

-- An update of rows that keeps ids and repositories, and activates no completed row.
pub record KeepsRow (f : RefreshJob → RefreshJob) : Type 0 where
  pub same_id : (j : RefreshJob) → (f j).id ≡ j.id
  pub same_repository : (j : RefreshJob) → (f j).repository ≡ j.repository
  pub not_revived : (j : RefreshJob) → is_active j.status ≡ false → is_active (f j).status ≡ false

has_id-map :
    (f : RefreshJob → RefreshJob)
    → KeepsRow f
    → (id : ℕ) (js : List RefreshJob) → has_id id (map f js) ≡ has_id id js
has_id-map f k id [] = refl
has_id-map f k id (j ∷ js) = rw (k.same_id j) (rw (has_id-map f k id js))

has_active-map :
    (f : RefreshJob → RefreshJob)
    → KeepsRow f
    → (r : String) (js : List RefreshJob) → has_active r js ≡ false
    → has_active r (map f js) ≡ false
unfolding has_active
has_active-map f k r [] h = refl
has_active-map f k r (j ∷ js) h =
    ground (arith, has_active-map f k r js, k.same_repository j, k.not_revived j)

pub RowsOk-map :
    (f : RefreshJob → RefreshJob)
    → KeepsRow f
    → (n : ℕ) (js : List RefreshJob) → RowsOk n js
    → RowsOk n (map f js)
RowsOk-map f k n [] h = tt
RowsOk-map f k n (j ∷ js) h = (
  rw (k.same_id j) h.0,
  rw (k.same_id j) (rw (has_id-map f k j.id js) h.1),
  λ a.
      rw (k.same_repository j)
        (has_active-map f k j.repository js (h.2 (ground (arith, k.not_revived j)))),
  RowsOk-map f k n js h.3,
)

force_row-KeepsRow : (r : String) → KeepsRow (force_row r)
force_row-KeepsRow r = record {
  same_id = λ j. ground arith;
  same_repository = λ j. ground arith;
  not_revived = λ j h. ground arith;
}

pub start_row-KeepsRow : (id : ℕ) (now : Instant) → KeepsRow (start_row id now)
start_row-KeepsRow id now = record {
  same_id = λ j. ground arith;
  same_repository = λ j. ground arith;
  not_revived = λ j h. ground arith;
}

pub finish_row-KeepsRow : (id : ℕ) (at : Instant) → KeepsRow (finish_row id at)
finish_row-KeepsRow id at = record {
  same_id = λ j. ground arith;
  same_repository = λ j. ground arith;
  not_revived = λ j h. ground arith;
}

pub recover_row-KeepsRow : KeepsRow recover_row
recover_row-KeepsRow = record {
  same_id = λ j. ground arith;
  same_repository = λ j. ground arith;
  not_revived = λ j h. ground arith;
}

pub requeue_row-KeepsRow : (id : ℕ) (at : Instant) → KeepsRow (requeue_row id at)
requeue_row-KeepsRow id at = record {
  same_id = λ j. ground arith;
  same_repository = λ j. ground arith;
  not_revived = λ j h. ground arith;
}

has_id_above : (n m : ℕ) (js : List RefreshJob) → RowsOk n js → n < m → has_id m js ≡ false
has_id_above n m [] h lt = refl
has_id_above n m (j ∷ js) h lt = ground (arith, has_id_above n m js)

has_id-append :
    (m : ℕ) (js : List RefreshJob) (k : RefreshJob)
    → has_id m js ≡ false
    → k.id ≢ m
    → has_id m (js ++ k ∷ []) ≡ false
has_id-append m [] k h ne = ground arith
has_id-append m (j ∷ js) k h ne = ground (arith, has_id-append m js k)

has_active-append :
    (r : String) (js : List RefreshJob) (k : RefreshJob)
    → has_active r js ≡ false
    → active_for r k ≡ false
    → has_active r (js ++ k ∷ []) ≡ false
unfolding has_active
has_active-append r [] k h a = rw a
has_active-append r (j ∷ js) k h a = ground (arith, has_active-append r js k)

-- In a list with no active row of `k`'s repository, every other row may stand before `k`.
RowsOk-append :
    (n : ℕ) (js : List RefreshJob) (k : RefreshJob)
    → RowsOk n js
    → k.id ≡ suc n
    → has_active k.repository js ≡ false
    → RowsOk (suc n) (js ++ k ∷ [])
unfolding has_active
RowsOk-append n [] k h e a = (omega arith, refl, λ _. refl, tt)
RowsOk-append n (j ∷ js) k h e a = (
  ground arith,
  has_id-append j.id js k h.1 (λ q. absurd (ground arith)),
  λ act.
      has_active-append j.repository js k (h.2 act)
        (ground (arith, eq_iff k.repository j.repository, eq_iff j.repository k.repository)),
  RowsOk-append n js k h.3 e (ground arith),
)

insert_or_ignore-IsValid :
    (r : String) (at : Instant) (forced : Bool) (t : JobTable)
    → IsValid t
    → IsValid (insert_or_ignore r at forced t).1
unfolding insert_or_ignore
insert_or_ignore-IsValid r at forced t v = elim (Bool-cases (has_active r t.rows)) [
  | inl old ↦ rw old v
  | inr new ↦ rw new (RowsOk-append t.sequence t.rows _ v refl new)
]

-- A request to refresh keeps the table's constraints.
pub enqueue_refresh_with_force-IsValid :
    (configured : String → Bool) (r : String) (at : Instant) (forced : Bool) (t : JobTable)
    → IsValid t
    → IsValid (enqueue_refresh_with_force configured r at forced t).1
unfolding enqueue_refresh_with_force
enqueue_refresh_with_force-IsValid configured r at forced t v = elim (Bool-cases (configured r)) [
  | inl known ↦ elim (Bool-cases forced) [
    | inl f ↦
        rw (known, f)
          (RowsOk-map (force_row r) (force_row-KeepsRow r) (insert_or_ignore r at true t).1.sequence
            (insert_or_ignore r at true t).1.rows (insert_or_ignore-IsValid r at true t v))
    | inr f ↦ rw (known, f) (insert_or_ignore-IsValid r at false t v)
  ]
  | inr unknown ↦ rw unknown v
]
