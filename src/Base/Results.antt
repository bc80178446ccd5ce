-- ===== src/Base/Results.antt =====
-- A result with an error of the component's own type, as Go's `(value, error)`.
use mathlib.Core.Path.{◌≡◌, refl}
use mathlib.Core.Logic.{◌⊎◌, inl, inr, ◌≢◌}

pub data Result {κ ℓ} (E : Type κ) (A : Type ℓ) : Type (κ ⊔ ℓ) where
  err : E → Result E A
  ok : A → Result E A

-- `if err != nil { return ..., err }` between two calls.
module _ {κ ℓ ι} {E : Type κ} {A : Type ℓ} {B : Type ι} where
  infixl 5 ◌>>=◌
  abbrev pub ◌>>=◌ : Result E A → (A → Result E B) → Result E B
  err e >>= _ = err e
  ok a >>= next = next a

  -- A chain that succeeds has a first step that succeeds.
  pub >>=-eq-ok :
      (first : Result E A) (next : A → Result E B) {b : B}
      → (first >>= next) ≡ ok b
      → (a : A) × (first ≡ ok a) × (next a ≡ ok b)
  >>=-eq-ok (err e) next done = cc
  >>=-eq-ok (ok a) next done = (a, refl, done)

  -- An error that no step raises is not raised by the chain.
  pub >>=-ne_err :
      (first : Result E A) (next : A → Result E B) {e : E}
      → first ≢ err e
      → ((a : A) → first ≡ ok a → next a ≢ err e)
      → (first >>= next) ≢ err e
  >>=-ne_err (ok a) next h k = k a refl
  >>=-ne_err (err x) next h k = λ p. h (cc)

module _ {κ ℓ} {E : Type κ} {A : Type ℓ} where
  pub Result-cases : (r : Result E A) → ((a : A) × (r ≡ ok a)) ⊎ ((e : E) × (r ≡ err e))
  Result-cases (err e) = inr (e, refl)
  Result-cases (ok a) = inl (a, refl)
