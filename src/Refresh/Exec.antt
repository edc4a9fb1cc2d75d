-- ===== src/Refresh/Exec.antt =====
-- Store calls in sequence: what an earlier call wrote stays written when a later one fails.
pub mod Rules
use maintainer_cockpit.Prelude.{Result, ok, err}
use maintainer_cockpit.Storage.Rows.{StoreError}

abbrev pub Exec {ℓ} : Type ℓ → Type ℓ → Type ℓ
Exec S A = S → Result StoreError A × S

module _ {ℓ} {S A : Type ℓ} where
  unfoldable pub pure : A → Exec S A
  pure a s = (ok a, s)

  unfoldable pub raise : StoreError → Exec S A
  raise e s = (err e, s)

  unfoldable pub lift : Result StoreError A → Exec S A
  lift r s = (r, s)

  -- A query, which changes nothing.
  unfoldable pub reads : (S → Result StoreError A) → Exec S A
  reads f s = (f s, s)

module _ {ℓ} {S A B : Type ℓ} where
  abbrev pub continue : Result StoreError A → (A → Exec S B) → Exec S B
  continue (ok a) f s = f a s
  continue (err e) f s = (err e, s)

  infixl 5 ◌>>=◌ ◌>>◌
  unfoldable pub ◌>>=◌ : Exec S A → (A → Exec S B) → Exec S B
  unfolding pure raise lift reads
  ◌>>=◌ m f s = continue (m s).0 f (m s).1

  abbrev pub ◌>>◌ : Exec S A → Exec S B → Exec S B
  m >> n = m >>= λ _. n
