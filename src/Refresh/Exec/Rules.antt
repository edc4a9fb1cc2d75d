-- ===== src/Refresh/Exec/Rules.antt =====
-- Invariants of a sequence of store calls: one rule for each way to build one.
use maintainer_cockpit.Prelude.{Bool, true, false, if◌then◌else◌, Result, ok, err}
use maintainer_cockpit.Storage.Rows.{StoreError}
use maintainer_cockpit.Refresh.Exec.{Exec, pure, raise, lift, reads, continue, ◌>>=◌}

-- The action leads from states with the invariant to states with it, failing or not.
pub record Preserves {ℓ} {S A : Type ℓ} (I : S → Type ℓ) (m : Exec S A) : Type ℓ where
  pub after : (s : S) → I s → I (m s).1

module _ {ℓ} {S A : Type ℓ} {I : S → Type ℓ} where
  pub Preserves-pure : (a : A) → Preserves I (pure a)
  unfolding pure
  Preserves-pure a = record { after = λ s i. i }

  pub Preserves-raise : (e : StoreError) → Preserves I (raise {A = A} e)
  unfolding raise
  Preserves-raise e = record { after = λ s i. i }

  pub Preserves-lift : (r : Result StoreError A) → Preserves I (lift r)
  unfolding lift
  Preserves-lift r = record { after = λ s i. i }

  pub Preserves-reads : (f : S → Result StoreError A) → Preserves I (reads f)
  unfolding reads
  Preserves-reads f = record { after = λ s i. i }

  pub Preserves-if :
      (b : Bool) (m n : Exec S A) → Preserves I m → Preserves I n → Preserves I (if b then m else n)
  Preserves-if true m n km kn = km
  Preserves-if false m n km kn = kn

module _ {ℓ} {S A B : Type ℓ} {I : S → Type ℓ} where
  continue-after :
      (r : Result StoreError A) (f : A → Exec S B)
      → ((a : A) → Preserves I (f a))
      → (s : S) → I s
      → I (continue r f s).1
  continue-after (ok a) f k s i = (k a).after s i
  continue-after (err e) f k s i = i

  pub Preserves-bind :
      (m : Exec S A) (f : A → Exec S B)
      → Preserves I m
      → ((a : A) → Preserves I (f a))
      → Preserves I (m >>= f)
  unfolding ◌>>=◌
  Preserves-bind m f km kf = record {
    after = λ s i. continue-after (m s).0 f kf (m s).1 (km.after s i);
  }

  -- The rule at one state, where the first action keeps the invariant from there.
  pub bind-after :
      (m : Exec S A) (f : A → Exec S B) (s : S)
      → I (m s).1
      → ((a : A) → Preserves I (f a))
      → I ((m >>= f) s).1
  unfolding ◌>>=◌
  bind-after m f s i kf = continue-after (m s).0 f kf (m s).1 i

pub ruleset preservation =
    (Preserves-pure, Preserves-raise, Preserves-lift, Preserves-reads, Preserves-if, Preserves-bind)
