-- ===== src/Storage/Generation/Publishing.antt =====
-- The invariant of the generations across the publication of a batch, and what an empty batch says.
use maintainer_cockpit.Prelude.{
  ℕ, suc, ◌<◌, true, some, List, [], ◌∷◌, ◌≡◌, refl, ◌==◌, All, keep, take, arith, Bool-cases, inl,
  inr, Option-cases, count, ok, ap, subst, Result-cases, ◌&&◌,
}
use maintainer_cockpit.Storage.Clock.{Instant}
use maintainer_cockpit.Storage.Rows.{hydrating, Item, Generation}
use maintainer_cockpit.Storage.Generation.{
  GenerationTable, find_generation, is_pending, same_phase, clear_failure,
  load_refresh_generation_batch, batch_of,
}
use maintainer_cockpit.Storage.Generation.Batches.{
  Staged, complete_item, completed_item, Publication, Batch, publish_item, publish_items,
  publish_refresh_generation_batch, batch_transaction, commit_batch, with_items,
}
use maintainer_cockpit.Storage.Generation.Reconcile.{Sorted}
use maintainer_cockpit.Storage.Generation.Counts.{
  >>=-eq-ok, publish_item-inversion, hydrating_generation-some, batch_transaction-inversion,
}
use maintainer_cockpit.Storage.Generation.Invariant.{TableOk, update-TableOk}

complete_item-above :
    (m : ℕ) (s : Staged) (xs ys : List Item)
    → complete_item s xs ≡ some ys
    → All (λ y. m < y.number) xs
    → All (λ y. m < y.number) ys
unfolding complete_item
complete_item-above m s [] ys h a = cc
complete_item-above m s (x ∷ xs) ys h a = elim (Option-cases (complete_item s xs)) [
  | inl e ↦
      let same : completed_item s x ∷ xs ≡ ys = ground arith in
      subst (All (λ y. m < y.number)) same (a.0, a.1)
  | inr (zs, e) ↦ elim (Bool-cases (x.number == s.number && is_pending x)) [
    | inl here ↦
        let same : completed_item s x ∷ xs ≡ ys = ground arith in
        subst (All (λ y. m < y.number)) same (a.0, a.1)
    | inr there ↦
        let same : x ∷ zs ≡ ys = ground arith in
        subst (All (λ y. m < y.number)) same (a.0, complete_item-above m s xs zs e a.1)
  ]
]

complete_item-Sorted :
    (s : Staged) (xs ys : List Item) → complete_item s xs ≡ some ys → Sorted xs → Sorted ys
unfolding complete_item
complete_item-Sorted s [] ys h o = cc
complete_item-Sorted s (x ∷ xs) ys h o = elim (Option-cases (complete_item s xs)) [
  | inl e ↦ let same : completed_item s x ∷ xs ≡ ys = ground arith in subst Sorted same (o.0, o.1)
  | inr (zs, e) ↦ elim (Bool-cases (x.number == s.number && is_pending x)) [
    | inl here ↦
        let same : completed_item s x ∷ xs ≡ ys = ground arith in subst Sorted same (o.0, o.1)
    | inr there ↦
        let same : x ∷ zs ≡ ys = ground arith in
        subst Sorted same
          (complete_item-above x.number s xs zs e o.0, complete_item-Sorted s xs zs e o.1)
  ]
]

module _ (P : Publication) where
  open P use {PullRequest, Tables}

  publish_item-TableOk :
      (job : ℕ) (s : Staged) (b b' : Batch P)
      → publish_item P job s b ≡ ok b'
      → TableOk b.table
      → TableOk b'.table
  publish_item-TableOk job s b b' h v =
      let (g, xs, hyd, e, t) = publish_item-inversion P job s b b' h in
      let (found, ph) = hydrating_generation-some P job b.table g hyd in
      rw t (
        update-TableOk b.table job (with_items xs) (λ x. refl)
          (λ x found' c.
            let same : g ≡ x = ground arith in
            record {
              in_order = complete_item-Sorted s g.items xs e (v.at job g found).in_order;
              hydrated = λ n. ground (arith, ap (λ (y : Generation). y.phase) same);
            })
          v)

  publish_items-TableOk :
      (job : ℕ) (ss : List Staged) (b b' : Batch P)
      → publish_items P job ss b ≡ ok b'
      → TableOk b.table
      → TableOk b'.table
  unfolding publish_items
  publish_items-TableOk job [] b b' h v =
      let same : b ≡ b' = ground arith in subst (λ (x : Batch P). TableOk x.table) same v
  publish_items-TableOk job (s ∷ ss) b b' h v =
      let (b₁, h₁, h₂) = >>=-eq-ok (publish_item P job s b) (publish_items P job ss) h in
      publish_items-TableOk job ss b₁ b' h₂ (publish_item-TableOk job s b b₁ h₁ v)

  -- The publication of a batch, whether it commits or not, keeps the generations coherent.
  pub publish_refresh_generation_batch-TableOk :
      (job : ℕ) (items : List Staged) (prs : List PullRequest) (at : Instant) (t : GenerationTable)
      (w : Tables)
      → TableOk t
      → TableOk (publish_refresh_generation_batch P job items prs at t w).1
  unfolding publish_refresh_generation_batch commit_batch
  publish_refresh_generation_batch-TableOk job items prs at t w v =
      elim (Result-cases (batch_transaction P job items prs at t w)) [
        | inl (e, q) ↦ rw (q, commit_batch) v
        | inr ((t', w'), q) ↦
            let (ps, b, r, same) = batch_transaction-inversion P job items prs at t t' w w' q in
            rw (q, commit_batch)
              (rw same (
                update-TableOk b.table job clear_failure (λ x. refl)
                  (λ x found c. record { in_order = c.in_order; hydrated = c.hydrated })
                  (publish_items-TableOk job items
                    (record { table = t; tables = w; published = ps }) b r v)))
      ]

take-keep-nil :
    (n : ℕ) (xs : List Item) → take (suc n) (keep is_pending xs) ≡ [] → count is_pending xs ≡ 0
take-keep-nil n [] h = refl
take-keep-nil n (x ∷ xs) h = elim (Bool-cases x.is_completed) [
  | inl done ↦ ground (arith, take-keep-nil n xs)
  | inr open_pull_request ↦ absurd (ground arith)
]

-- An empty batch of a hydrating generation means that nothing is pending.
pub empty_batch-pending :
    (job n : ℕ) (t : GenerationTable) (g : Generation)
    → load_refresh_generation_batch job (suc n) t ≡ ok []
    → find_generation job t.rows ≡ some g
    → same_phase g.phase hydrating ≡ true
    → count is_pending g.items ≡ 0
unfolding load_refresh_generation_batch batch_of
empty_batch-pending job n t g h found ph = take-keep-nil n g.items (ground arith)
