-- ===== src/Prelude/Results.antt =====
-- Go's pair of a value and an error: a result, and the chain of fallible steps.
use mathlib.Core.Path.{◌≡◌, refl}
use mathlib.Core.Logic.{◌⊎◌, inl, inr}
use native.Mathlib.Omega.{arith}
use mathlib.Core.Bool.{Bool, true, false}

pub data Result {ℓ κ} (E : Type ℓ) (A : Type κ) : Type (ℓ ⊔ κ) where
  err : E → Result E A
  ok : A → Result E A

-- `if bad { return err }`
abbrev pub reject {ℓ} : {E : Type ℓ} → Bool → E → Result E (Unit {0})
reject bad e = elim bad [ false ↦ ok tt | true ↦ err e ]

module _ {ℓ κ μ} {E : Type ℓ} {A : Type κ} {B : Type μ} where
  infixl 5 ◌>>=◌ ◌>>◌
  abbrev pub ◌>>=◌ : Result E A → (A → Result E B) → Result E B
  ◌>>=◌ (err e) next = err e
  ◌>>=◌ (ok v) next = next v

  abbrev pub ◌>>◌ : Result E A → Result E B → Result E B
  ◌>>◌ (err e) rest = err e
  ◌>>◌ (ok v) rest = rest

-- An error of an inner step inside the one of the outer step.
abbrev pub wrap {ℓ κ μ} : {D : Type ℓ} {E : Type κ} {A : Type μ} → (D → E) → Result D A → Result E A
wrap f (err e) = err (f e)
wrap f (ok a) = ok a

pub Result-cases {ℓ κ} :
    {E : Type ℓ} {A : Type κ} (r : Result E A) → ((e : E) × (r ≡ err e)) ⊎ ((a : A) × (r ≡ ok a))
Result-cases (ok a) = inr (a, refl)
Result-cases (err e) = inl (e, refl)

-- A chain that succeeds passed its first check.
pub checked {ℓ κ} :
    {E : Type ℓ} {A : Type κ} (bad : Bool) (e : E) (rest : Result E A) (a : A)
    → (reject bad e >> rest) ≡ ok a
    → (bad ≡ false) × (rest ≡ ok a)
checked false e rest a h = (refl, h)
checked true e rest a h = ground arith

pub bound_ok {ℓ κ μ} :
    {E : Type ℓ} {A : Type κ} {B : Type μ} (r : Result E A) (next : A → Result E B) (b : B)
    → (r >>= next) ≡ ok b
    → (a : A) × (r ≡ ok a) × (next a ≡ ok b)
bound_ok (ok a) next b h = (a, refl, h)
bound_ok (err e) next b h = ground arith

pub wrapped_bind {ℓ κ μ ν} :
    {D : Type ν} {E : Type ℓ} {A : Type κ} {B : Type μ} (f : D → E) (r : Result D A)
    (next : A → Result E B) (b : B)
    → (wrap f r >>= next) ≡ ok b
    → (a : A) × (r ≡ ok a) × (next a ≡ ok b)
wrapped_bind f (ok a) next b h = (a, refl, h)
wrapped_bind f (err e) next b h = ground arith

pub wrapped_then {ℓ κ μ ν} :
    {D : Type ν} {E : Type ℓ} {A : Type κ} {B : Type μ} (f : D → E) (r : Result D A)
    (next : Result E B) (b : B)
    → (wrap f r >> next) ≡ ok b
    → (a : A) × (r ≡ ok a) × (next ≡ ok b)
wrapped_then f (ok a) next b h = (a, refl, h)
wrapped_then f (err e) next b h = ground arith

module _ {ℓ} {E : Type ℓ} where
  pub ok-injective {κ} : {A : Type κ} (a b : A) → Path (Result E A) (ok a) (ok b) → a ≡ b
  ok-injective a b h = ground arith
