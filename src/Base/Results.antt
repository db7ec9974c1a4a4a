-- ===== src/Base/Results.antt =====
-- A Go pair `(value, error)`: a value, or an error of the component's own type.
use mathlib.Core.Path.{◌≡◌, refl}

pub data Result {ℓ} (E : Type 0) (A : Type ℓ) : Type ℓ where
  err : E → Result E A
  ok : A → Result E A

module _ {ℓ κ} {E : Type 0} {A : Type ℓ} {B : Type κ} where
  -- `if err != nil { return …, err }` between two calls.
  infixl 5 ◌>>=◌
  abbrev pub ◌>>=◌ : Result E A → (A → Result E B) → Result E B
  r >>= next = elim r [ err problem ↦ err problem | ok value ↦ next value ]

  -- A chain that succeeds has succeeded at its first call.
  pub >>=-eq-ok :
      (r : Result E A) (next : A → Result E B) {b : B}
      → (r >>= next) ≡ ok b
      → (value : A) × (r ≡ ok value) × (next value ≡ ok b)
  >>=-eq-ok (err problem) next success = cc
  >>=-eq-ok (ok value) next success = (value, refl, success)
