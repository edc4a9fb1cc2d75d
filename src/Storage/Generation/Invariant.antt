-- ===== src/Storage/Generation/Invariant.antt =====
-- The invariant of the generations: the rows of a generation are in key order, and only a hydrating
-- generation has pending pull requests. Every store operation keeps it, where the scheduler calls it.
use maintainer_cockpit.Prelude.{
  ℕ, suc, String, Bool, true, false, not, Option, none, some, List, [], ◌∷◌, ◌++◌, ◌≡◌, refl, ◌==◌,
  keep, if◌then◌else◌, arith, Bool-cases, inl, inr, Option-cases, count, Result, str_eq, ◌||◌,
  subst, if_both,
}
use maintainer_cockpit.Storage.Clock.{is_zero}
use maintainer_cockpit.Storage.Jobs.{is_running}
use maintainer_cockpit.Storage.Rows.{StoreError, Phase, hydrating, RefreshJob, Generation}
use maintainer_cockpit.Storage.Generation.{
  Discovery, GenerationTable, find_generation, update_generation, is_pending, same_phase,
  delete_refresh_generation, start_refresh_generation, start_found, new_generation,
  reconcile_refresh_generation_discovery, reconciled, advance_refresh_generation, advanced_to,
  record_refresh_generation_retry, retried, in_phase, any_zero, find_job, is_some, still_open,
}
use maintainer_cockpit.Storage.Generation.Reconcile.{Sorted, upsert_items-Sorted, keep-Sorted}
use maintainer_cockpit.Storage.Generation.Counts.{map_option}

abbrev pub is_hydrating : Generation → Bool
is_hydrating g = same_phase g.phase hydrating

pub record IsCoherent (g : Generation) : Type 0 where
  pub in_order : Sorted g.items
  pub hydrated : is_hydrating g ≡ false → count is_pending g.items ≡ 0

pub record TableOk (t : GenerationTable) : Type 0 where
  pub at : (job : ℕ) (g : Generation) → find_generation job t.rows ≡ some g → IsCoherent g

-- The table that an operation leaves is coherent.
abbrev pub EndsOk : Result StoreError (Unit {0}) × GenerationTable → Type 0
EndsOk r = TableOk r.1

find-update :
    (k job : ℕ) (f : Generation → Generation) (gs : List Generation)
    → ((g : Generation) → (f g).refresh_job_id ≡ g.refresh_job_id)
    → find_generation k (update_generation job f gs)
      ≡ (if k == job then map_option f (find_generation k gs) else find_generation k gs)
unfolding find_generation update_generation
find-update k job f [] e = ground arith
find-update k job f (g ∷ gs) e = ground (arith, e g, find-update k job f gs e)

find-delete :
    (k job : ℕ) (gs : List Generation)
    → find_generation k (keep (λ g. not (g.refresh_job_id == job)) gs)
      ≡ (if k == job then none else find_generation k gs)
unfolding find_generation
find-delete k job [] = ground arith
find-delete k job (g ∷ gs) = ground (arith, find-delete k job gs)

find-append :
    (k : ℕ) (g : Generation) (gs : List Generation)
    → find_generation k (gs ++ g ∷ []) ≡ elim (find_generation k gs) [
      | some h ↦ some h
      | none ↦ if g.refresh_job_id == k then some g else none
    ]
unfolding find_generation
find-append k g [] = ground arith
find-append k g (h ∷ gs) = ground (arith, find-append k g gs)

-- An update of one job's generation, where the update of a coherent generation is coherent.
pub update-TableOk :
    (t : GenerationTable) (job : ℕ) (f : Generation → Generation)
    → ((g : Generation) → (f g).refresh_job_id ≡ g.refresh_job_id)
    → ((g : Generation) → find_generation job t.rows ≡ some g → IsCoherent g → IsCoherent (f g))
    → TableOk t
    → TableOk (record t { rows = update_generation job f t.rows })
update-TableOk t job f e h v = record {
  at = λ k g q. elim (Option-cases (find_generation k t.rows)) [
    | inl absent ↦ absurd (ground (arith, find-update k job f t.rows e))
    | inr (g', found) ↦ elim (Bool-cases (k == job)) [
      | inl same ↦
          let updated : f g' ≡ g = ground (arith, find-update k job f t.rows e) in
          let at_job : k ≡ job = ground arith in
          subst IsCoherent updated (
            h g' (subst (λ (n : ℕ). find_generation n t.rows ≡ some g') at_job found)
              (v.at k g' found))
      | inr other ↦
          let kept : g' ≡ g = ground (arith, find-update k job f t.rows e) in
          subst IsCoherent kept (v.at k g' found)
    ]
  ];
}

pub delete-TableOk :
    (job : ℕ) (t : GenerationTable) → TableOk t → TableOk (delete_refresh_generation job t)
unfolding delete_refresh_generation
delete-TableOk job t v = record {
  at = λ k g q. v.at k g (ground (arith, find-delete k job t.rows));
}

append-TableOk :
    (n : ℕ) (g : Generation) (t : GenerationTable)
    → IsCoherent g
    → TableOk t
    → TableOk (record { rows = t.rows ++ g ∷ []; sequence = n })
append-TableOk n g t c v = record {
  at = λ k h q. elim (Option-cases (find_generation k t.rows)) [
    | inl absent ↦
        let same : g ≡ h = ground (arith, find-append k g t.rows) in subst IsCoherent same c
    | inr (g', found) ↦
        let same : g' ≡ h = ground (arith, find-append k g t.rows) in
        subst IsCoherent same (v.at k g' found)
  ];
}

new_generation-IsCoherent :
    (n job : ℕ) (repository : String) (forced : Bool) (d : Discovery)
    → IsCoherent (new_generation n job repository forced d)
new_generation-IsCoherent n job repository forced d = record {
  in_order = upsert_items-Sorted d.members [] tt;
  hydrated = λ h. cc h;
}

start_found-TableOk :
    (job : RefreshJob) (d : Discovery) (t : GenerationTable) (o : Option RefreshJob)
    → TableOk t
    → TableOk (start_found job d t o).1
unfolding start_found
start_found-TableOk job d t none v = v
start_found-TableOk job d t (some row) v =
    if_both EndsOk (not (str_eq row.repository job.repository) || not (is_running row.status))
      (λ _. v)
      (λ _.
        if_both EndsOk (any_zero d.members) (λ _. v)
          (λ _.
            append-TableOk (suc t.sequence)
              (new_generation (suc t.sequence) job.id job.repository row.forced d)
              (delete_refresh_generation job.id t)
              (new_generation-IsCoherent (suc t.sequence) job.id job.repository row.forced d)
              (delete-TableOk job.id t v)))

pub start_refresh_generation-TableOk :
    (job : RefreshJob) (d : Discovery) (jobs : List RefreshJob) (t : GenerationTable)
    → TableOk t
    → TableOk (start_refresh_generation job d jobs t).1
unfolding start_refresh_generation
start_refresh_generation-TableOk job d jobs t v =
    if_both EndsOk (job.id == 0 || str_eq job.repository "" || is_zero d.discovered_at) (λ _. v)
      (λ _. start_found-TableOk job d t (find_job job.id jobs) v)

reconciled-IsCoherent :
    (d : Discovery) (g : Generation) → IsCoherent g → IsCoherent (reconciled d g)
reconciled-IsCoherent d g c = record {
  in_order =
      upsert_items-Sorted d.members (keep (still_open d.members) g.items)
        (keep-Sorted (still_open d.members) g.items c.in_order);
  hydrated = λ h. cc h;
}

-- Rediscovery makes the generation hydrating again.
pub reconcile_refresh_generation_discovery-TableOk :
    (job : ℕ) (d : Discovery) (t : GenerationTable)
    → TableOk t
    → TableOk (reconcile_refresh_generation_discovery job d t).1
unfolding reconcile_refresh_generation_discovery
reconcile_refresh_generation_discovery-TableOk job d t v =
    if_both EndsOk (is_zero d.discovered_at) (λ _. v)
      (λ _.
        if_both EndsOk (not (is_some (find_generation job t.rows))) (λ _. v)
          (λ _.
            if_both EndsOk (any_zero d.members) (λ _. v)
              (λ _.
                update-TableOk t job (reconciled d) (λ g. refl)
                  (λ g found c. reconciled-IsCoherent d g c) v)))

-- An advance keeps the invariant if the generation has no pending pull requests.
pub advance_refresh_generation-TableOk :
    (job : ℕ) (from to : Phase) (payload : String) (t : GenerationTable)
    → ((g : Generation)
        → find_generation job t.rows ≡ some g
        → same_phase g.phase from ≡ true
        → count is_pending g.items ≡ 0)
    → TableOk t
    → TableOk (advance_refresh_generation job from to payload t).1
unfolding advance_refresh_generation
advance_refresh_generation-TableOk job from to payload t h v =
    if_both EndsOk (in_phase from (find_generation job t.rows))
      (λ e.
        update-TableOk t job (advanced_to to payload) (λ g. refl)
          (λ g found c. record {
            in_order = c.in_order;
            hydrated = λ _. h g found (rw (found, in_phase) at e);
          })
          v)
      (λ _. v)

pub record_refresh_generation_retry-TableOk :
    (job : ℕ) (a b c d : String) (t : GenerationTable)
    → TableOk t
    → TableOk (record_refresh_generation_retry job a b c d t).1
unfolding record_refresh_generation_retry
record_refresh_generation_retry-TableOk job a b c d t v =
    update-TableOk t job (retried a b c d) (λ g. refl)
      (λ g found k. record { in_order = k.in_order; hydrated = k.hydrated }) v
