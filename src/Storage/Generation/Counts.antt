-- ===== src/Storage/Generation/Counts.antt =====
-- How the operations on a generation change its rows: lookups after updates, and the count of
-- pending pull requests when a batch is published.
use maintainer_cockpit.Prelude.{
  ℕ, suc, ◌+◌, Option, none, some, List, [], ◌∷◌, ◌≡◌, refl, arith, inl, inr, Option-cases, count,
  length, Result, ok, err, ◌>>=◌, ap, subst, Result-cases,
}
use maintainer_cockpit.Storage.Clock.{Instant}
use maintainer_cockpit.Storage.Rows.{StoreError, hydrating, Item, Generation}
use maintainer_cockpit.Storage.Generation.{
  GenerationTable, find_generation, update_generation, is_pending, clear_failure,
}
use maintainer_cockpit.Storage.Generation.Hydrating.{
  Hydrates, Hydrates-refl, Hydrates-trans, complete_item-Hydrates,
}
use maintainer_cockpit.Storage.Generation.Batches.{
  Staged, complete_item, hydrating_generation, Publication, Batch, publish_item, publish_items,
  publish_refresh_generation_batch, batch_transaction, commit_batch, normalize_all, with_items,
  from_option,
}

abbrev pub map_option : (Generation → Generation) → Option Generation → Option Generation
map_option f none = none
map_option f (some g) = some (f g)

-- An update of a job's generation that keeps its job id is what a later lookup finds.
pub find_generation-update :
    (job : ℕ) (f : Generation → Generation) (gs : List Generation)
    → ((g : Generation) → (f g).refresh_job_id ≡ g.refresh_job_id)
    → find_generation job (update_generation job f gs) ≡ map_option f (find_generation job gs)
unfolding find_generation update_generation
find_generation-update job f [] k = refl
find_generation-update job f (g ∷ gs) k = ground (arith, k g, find_generation-update job f gs k)

-- Completing one pull request takes one from the pending ones.
complete_item-count :
    (s : Staged) (xs ys : List Item)
    → complete_item s xs ≡ some ys
    → count is_pending xs ≡ suc (count is_pending ys)
unfolding complete_item
complete_item-count s [] ys h = cc
complete_item-count s (x ∷ xs) ys h = elim (Option-cases (complete_item s xs)) [
  | inl e ↦ ground arith
  | inr (zs, e) ↦ ground (arith, complete_item-count s xs zs e)
]

-- The generation of a job is hydrating, and has a number of pending pull requests.
abbrev pub HasPending : ℕ → GenerationTable → ℕ → Type 0
HasPending job t n =
    (g : Generation) × (find_generation job t.rows ≡ some g)
    × (g.phase ≡ hydrating)
    × (count is_pending g.items ≡ n)

-- The same, and the pull requests are those of `xs` with some of the pending ones completed.
abbrev pub HasProgress : ℕ → GenerationTable → List Item → ℕ → Type 0
HasProgress job t xs n =
    (g : Generation) × (find_generation job t.rows ≡ some g)
    × (g.phase ≡ hydrating)
    × (count is_pending g.items ≡ n)
    × Hydrates xs g.items

from_option-ok {ℓ} :
    {A : Type ℓ} (e : StoreError) (o : Option A) (a : A) → from_option e o ≡ ok a → o ≡ some a
from_option-ok e none a h = cc
from_option-ok e (some b) a h = ground arith

-- Inversion of a successful step of a transaction.
pub >>=-eq-ok {ℓ κ} :
    {A : Type ℓ} {B : Type κ} (call : Result StoreError A) (next : A → Result StoreError B)
    {reply : B}
    → (call >>= next) ≡ ok reply
    → (found : A) × (call ≡ ok found) × (next found ≡ ok reply)
>>=-eq-ok (err e) next h = cc
>>=-eq-ok (ok found) next h = (found, refl, h)

module _ (P : Publication) where
  open P use {PullRequest, Tables}

  -- A batch in progress whose generation is hydrating with some pending pull requests.
  pub publish_item-inversion :
      (job : ℕ) (s : Staged) (b b' : Batch P)
      → publish_item P job s b ≡ ok b'
      → (g : Generation) × (xs : List Item) × (hydrating_generation job b.table ≡ some g)
        × (complete_item s g.items ≡ some xs)
        × (b'.table ≡ record b.table { rows = update_generation job (with_items xs) b.table.rows })
  unfolding publish_item
  publish_item-inversion job s b b' h = elim (Option-cases (hydrating_generation job b.table)) [
    | inl e ↦ absurd (ground arith)
    | inr (g, e) ↦ elim (Option-cases (complete_item s g.items)) [
      | inl f ↦ absurd (ground arith)
      | inr (xs, f) ↦ (g, xs, e, f, ground arith)
    ]
  ]

  pub hydrating_generation-some :
      (job : ℕ) (t : GenerationTable) (g : Generation)
      → hydrating_generation job t ≡ some g
      → (find_generation job t.rows ≡ some g) × (g.phase ≡ hydrating)
  unfolding hydrating_generation
  hydrating_generation-some job t g h = (ground arith, ground arith)

  publish_item-HasProgress :
      (job : ℕ) (s : Staged) (b b' : Batch P) (xs : List Item) (n : ℕ)
      → HasProgress job b.table xs n
      → publish_item P job s b ≡ ok b'
      → (m : ℕ) × (n ≡ suc m) × HasProgress job b'.table xs m
  publish_item-HasProgress job s b b' xs n (g, at, ph, c, from) h =
      let (g', ys, hyd, e, t) = publish_item-inversion job s b b' h in
      let (at', ph') = hydrating_generation-some job b.table g' hyd in
      let same : g ≡ g' = ground arith in
      (
        count is_pending ys,
        omega (
          arith,
          complete_item-count s g'.items ys e,
          ap (λ (x : Generation). count is_pending x.items) same,
        ),
        (
          with_items ys g',
          ground (arith, find_generation-update job (with_items ys) b.table.rows (λ x. refl)),
          ph',
          refl,
          Hydrates-trans xs g'.items ys (subst (λ (x : Generation). Hydrates xs x.items) same from)
              (complete_item-Hydrates s g'.items ys e),
        ),
      )

  publish_items-HasProgress :
      (job : ℕ) (ss : List Staged) (b b' : Batch P) (xs : List Item) (n : ℕ)
      → HasProgress job b.table xs n
      → publish_items P job ss b ≡ ok b'
      → (m : ℕ) × (n ≡ length ss + m) × HasProgress job b'.table xs m
  unfolding publish_items
  publish_items-HasProgress job [] b b' xs n v h =
      let same : b ≡ b' = ground arith in
      (n, omega arith, subst (λ (x : Batch P). HasProgress job x.table xs n) same v)
  publish_items-HasProgress job (s ∷ ss) b b' xs n v h =
      let (b₁, h₁, h₂) = >>=-eq-ok (publish_item P job s b) (publish_items P job ss) h in
      let (m, e, v₁) = publish_item-HasProgress job s b b₁ xs n v h₁ in
      let (k, f, v₂) = publish_items-HasProgress job ss b₁ b' xs m v₁ h₂ in (k, omega arith, v₂)

  pub batch_transaction-inversion :
      (job : ℕ) (items : List Staged) (prs : List PullRequest) (at : Instant)
      (t t' : GenerationTable) (w w' : Tables)
      → batch_transaction P job items prs at t w ≡ ok (t', w')
      → (ps : List PullRequest) × (b : Batch P) × (publish_items P job items
            (record { table = t; tables = w; published = ps })
          ≡ ok b)
        × (t' ≡ record b.table { rows = update_generation job clear_failure b.table.rows })
  unfolding batch_transaction
  batch_transaction-inversion job items prs at t t' w w' h =
      elim (Result-cases (normalize_all P prs)) [
        | inl (e, q) ↦ absurd (ground arith)
        | inr (ps, q) ↦
            elim (Result-cases
              (publish_items P job items (record { table = t; tables = w; published = ps }))) [
                | inl (e, r) ↦ absurd (ground arith)
                | inr (b, r) ↦ (ps, b, r, ground arith)
              ]
      ]

  -- The same of a whole batch.
  pub publish_refresh_generation_batch-progress :
      (job : ℕ) (items : List Staged) (prs : List PullRequest) (at : Instant) (t : GenerationTable)
      (w : Tables) (xs : List Item) (n : ℕ)
      → HasProgress job t xs n
      → (publish_refresh_generation_batch P job items prs at t w).0 ≡ ok tt
      → (m : ℕ) × (n ≡ length items + m)
        × HasProgress job (publish_refresh_generation_batch P job items prs at t w).1 xs m
  unfolding publish_refresh_generation_batch commit_batch
  publish_refresh_generation_batch-progress job items prs at t w xs n v h =
      elim (Result-cases (batch_transaction P job items prs at t w)) [
        | inl (e, q) ↦ absurd (ground arith)
        | inr ((t', w'), q) ↦
            let (ps, b, r, same) = batch_transaction-inversion job items prs at t t' w w' q in
            let (m, e, (g, found, ph, c, from)) =
              publish_items-HasProgress job items (record { table = t; tables = w; published = ps })
                b xs n v r in
            (
              m,
              e,
              rw (q, commit_batch)
                  (
                    clear_failure g,
                    rw same (
                        ground (
                          arith,
                          find_generation-update job clear_failure b.table.rows (λ x. refl),
                        )),
                    ph,
                    c,
                    from,
                  ),
            )
      ]

  -- A batch that is published into a hydrating generation takes exactly as many pull requests from
  -- its pending ones as the batch has, and leaves it hydrating.
  pub publish_refresh_generation_batch-pending :
      (job : ℕ) (items : List Staged) (prs : List PullRequest) (at : Instant) (t : GenerationTable)
      (w : Tables) (n : ℕ)
      → HasPending job t n
      → (publish_refresh_generation_batch P job items prs at t w).0 ≡ ok tt
      → (m : ℕ) × (n ≡ length items + m)
        × HasPending job (publish_refresh_generation_batch P job items prs at t w).1 m
  publish_refresh_generation_batch-pending job items prs at t w n (g, found, ph, c) h =
      let (m, e, (g', found', ph', c', from)) =
        publish_refresh_generation_batch-progress job items prs at t w g.items n
          (g, found, ph, c, Hydrates-refl g.items) h in
      (m, e, (g', found', ph', c'))
