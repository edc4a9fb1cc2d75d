-- ===== src/Refresh/Scheduler/Progress.antt =====
-- How a generation advances: hydration works the pending pull requests off, twenty at a time, and a
-- generation that reaches the publishing phase is complete.
use maintainer_cockpit.Prelude.{
  ℕ, ◌+◌, ◌-◌, ◌<◌, min, ◌⊎◌, Bool, Option, some, List, [], ◌∷◌, ◌≡◌, refl, arith, if◌then◌else◌,
  ◌==◌, ok, count, length, keep, take, length-take, map, Bool-cases, Result-cases, inl, inr, subst,
  ap,
}
use maintainer_cockpit.Storage.Rows.{RefreshJob, hydrating, publishing, Item, Generation}
use maintainer_cockpit.Storage.Generation.{
  loaded, find_generation, load_refresh_generation_batch, load_staged_refresh_pull_requests,
  is_pending, same_phase, batch_of,
}
use maintainer_cockpit.Storage.Generation.Batches.{
  Publication, Staged, publish_refresh_generation_batch,
}
use maintainer_cockpit.Storage.Generation.Counts.{
  HasProgress, publish_refresh_generation_batch-progress,
}
use maintainer_cockpit.Storage.Generation.Hydrating.{Hydrates-refl}
use maintainer_cockpit.Storage.Generation.Publishing.{empty_batch-pending}
use maintainer_cockpit.Refresh.Exec.{◌>>=◌, raise, continue, lift, reads}
use maintainer_cockpit.Refresh.Scheduler.{
  State, Environment, Hydrated, process_publishing, on_snapshot, complete, publish_hydrated,
  on_batch, hydrated, hydrate_batch, process_hydration, requeue, on_jobs, staged_of, published_of,
  Fingerprint, hydrate_batch, no_cache, process_hydration, refresh_hydration_batch_size,
}
use maintainer_cockpit.Refresh.Scheduler.Phases.{IsCoherentState}

length-keep : {A : Type 0} (p : A → Bool) (xs : List A) → length (keep p xs) ≡ count p xs
length-keep p [] = refl
length-keep p (x ∷ xs) = ground (arith, length-keep p xs)

batch_cases : (xs : List Item) → (xs ≡ []) ⊎ ((y : Item) × (ys : List Item) × (xs ≡ y ∷ ys))
batch_cases [] = inl refl
batch_cases (x ∷ xs) = inr (x, xs, refl)

batch_size :
    (g : Generation)
    → length (take refresh_hydration_batch_size (keep is_pending g.items))
      ≡ min refresh_hydration_batch_size (count is_pending g.items)
batch_size g = ground (
  arith,
  length-take refresh_hydration_batch_size (keep is_pending g.items),
  length-keep is_pending g.items,
)

module _ (P : Publication) (job : RefreshJob) (env : Environment P) (s : State P) where
  -- The publishing phase of a coherent state never refuses the generation as incomplete: it
  -- publishes exactly the completed pull requests and, where that succeeds, completes the job.
  pub process_publishing-complete :
      (g : Generation)
      → IsCoherentState P s
      → find_generation job.id s.generations.rows ≡ some g
      → g.phase ≡ publishing
      → process_publishing P job env (loaded g) s
        ≡ (on_snapshot P job env (loaded g) (keep (λ x. x.is_completed) g.items) >>= λ _.
              complete P job env.now)
            s
  unfolding process_publishing ◌>>=◌ load_staged_refresh_pull_requests loaded
  process_publishing-complete g v found ph = ground (
    arith,
    length-keep (λ (x : Item). x.is_completed) g.items,
    (v.generations_ok.at job.id g found).hydrated (ap (λ p. same_phase p hydrating) ph),
  )

  on_batch-progress :
      (ys : List Item) (k : ℕ) (ss : List Staged) (ps : List P.PullRequest)
      → HasProgress job.id s.generations ys k
      → ((on_batch P job env ss ps >>= λ _. requeue P job env.now) s).0 ≡ ok tt
      → (m : ℕ) × (k ≡ length ss + m)
        × HasProgress job.id
            ((on_batch P job env ss ps >>= λ _. requeue P job env.now) s).1.generations
            ys
            m
  unfolding on_batch requeue on_jobs ◌>>=◌
  on_batch-progress ys k ss ps v h =
      elim (Result-cases
        (publish_refresh_generation_batch P job.id ss ps env.read_at s.generations s.tables).0) [
          | inl (e, q) ↦ absurd (ground arith)
          | inr (u, q) ↦
              let (m, split, w) =
                publish_refresh_generation_batch-progress P job.id ss ps env.read_at s.generations
                  s.tables ys k v q in
              (m, split, rw (q, continue) w)
        ]

  -- A successful publication of hydrated pull requests takes as many pull requests off the pending
  -- ones as were asked for, and changes no other.
  publish_hydrated-progress :
      (ys : List Item) (k : ℕ) (batch : List Item) (cached : ℕ → Option Fingerprint)
      (hs : List (Hydrated P))
      → HasProgress job.id s.generations ys k
      → (publish_hydrated P job env batch cached hs s).0 ≡ ok tt
      → (m : ℕ) × (k ≡ length batch + m)
        × HasProgress job.id (publish_hydrated P job env batch cached hs s).1.generations ys m
  unfolding publish_hydrated raise
  publish_hydrated-progress ys k batch cached hs v =
      elim (Bool-cases (length (map (staged_of P job cached batch) hs) == length batch)) [
        | inl same ↦ rw same λ h.
            let (m, split, w) =
              on_batch-progress ys k (map (staged_of P job cached batch) hs)
                (map (published_of P batch) hs) v h in
            (m, ground arith, w)
        | inr other ↦ rw other λ h. absurd (ground arith)
      ]

  hydrate_batch-progress :
      (ys : List Item) (k : ℕ) (g : Generation) (x : Item) (xs : List Item)
      → HasProgress job.id s.generations ys k
      → ((b : List Item) → (hs : List (Hydrated P)) × (env.hydrate b ≡ ok hs))
      → (hydrate_batch P job env g (x ∷ xs) s).0 ≡ ok tt
      → (m : ℕ) × (k ≡ length (x ∷ xs) + m)
        × HasProgress job.id (hydrate_batch P job env g (x ∷ xs) s).1.generations ys m
  unfolding hydrate_batch ◌>>=◌ lift hydrated
  hydrate_batch-progress ys k g x xs v answers =
      elim (Result-cases (if job.forced then ok (no_cache P) else env.cached)) [
        | inl (e, q) ↦ rw q λ h. absurd (ground arith)
        | inr (cached, q) ↦ rw q elim (Result-cases env.persist_attempts) [
          | inl (e, p) ↦ rw p λ h. absurd (ground arith)
          | inr (u, p) ↦
              let (hs, a) = answers (x ∷ xs) in
              rw (p, a) λ h. publish_hydrated-progress ys k (x ∷ xs) cached hs v h
        ]
      ]

  whole_batch :
      (g : Generation)
      → find_generation job.id s.generations.rows ≡ some g
      → g.phase ≡ hydrating
      → (b : List Item) → take refresh_hydration_batch_size (keep is_pending g.items) ≡ b
      → load_refresh_generation_batch job.id refresh_hydration_batch_size s.generations ≡ ok b
  unfolding load_refresh_generation_batch batch_of
  whole_batch g found ph b e = ground arith

  -- A hydration step of a generation with pending pull requests, which the collector answers and
  -- which succeeds, leaves the generation hydrating with the same pull requests in the same order:
  -- as many pending ones as there are, up to the batch size of twenty, are completed, with their
  -- numbers and memberships kept, and every other row is as it was.
  pub process_hydration-pending :
      (g : Generation)
      → find_generation job.id s.generations.rows ≡ some g
      → g.phase ≡ hydrating
      → 0 < count is_pending g.items
      → ((b : List Item) → (hs : List (Hydrated P)) × (env.hydrate b ≡ ok hs))
      → (process_hydration P job env g s).0 ≡ ok tt
      → HasProgress job.id
          (process_hydration P job env g s).1.generations
          g.items
          (count is_pending g.items - 20)
  unfolding process_hydration ◌>>=◌ reads
  process_hydration-pending g found ph some_pending answers =
      elim (batch_cases (take refresh_hydration_batch_size (keep is_pending g.items))) [
        | inl e ↦
            let nothing =
              empty_batch-pending job.id 19 s.generations g (whole_batch g found ph [] e) found
                (ap (λ p. same_phase p hydrating) ph) in
            absurd (ground arith)
        | inr (x, xs, e) ↦ rw (whole_batch g found ph (x ∷ xs) e) λ h.
            let (m, split, w) =
              hydrate_batch-progress g.items (count is_pending g.items) g x xs
                (g, found, ph, refl, Hydrates-refl g.items) answers h in
            let size : length (x ∷ xs)
                ≡ min refresh_hydration_batch_size (count is_pending g.items) =
              subst (λ b. length b ≡ min refresh_hydration_batch_size (count is_pending g.items)) e
                (batch_size g) in
            subst
              (λ n.
                HasProgress job.id (hydrate_batch P job env g (x ∷ xs) s).1.generations g.items n)
              (ground arith) w
      ]
