-- ===== src/Base/Errors.antt =====
-- What a Go call ends with: a value, an error value, or a run-time panic.
use mathlib.Core.Path.{◌≡◌, refl}

pub data Outcome {ℓ κ} (E : Type ℓ) (A : Type κ) : Type (ℓ ⊔ κ) where
  ok : A → Outcome E A
  err : E → Outcome E A
  panic : Outcome E A

infixl 5 ◌>>=◌
abbrev pub ◌>>=◌ {ℓ κ μ} :
    {E : Type ℓ} {A : Type κ} {B : Type μ} → Outcome E A → (A → Outcome E B) → Outcome E B
ok a >>= f = f a
err e >>= f = err e
panic >>= f = panic

module _ {ℓ κ μ} {E : Type ℓ} {A : Type κ} {B : Type μ} {result : B} (next : A → Outcome E B) where
  -- A chain that succeeds has succeeded in its first part.
  pub >>=-eq-ok :
      (first : Outcome E A)
      → (first >>= next) ≡ ok result
      → (value : A) × (first ≡ ok value) × (next value ≡ ok result)
  >>=-eq-ok panic success = cc
  >>=-eq-ok (err e) success = cc
  >>=-eq-ok (ok value) success = (value, refl, success)

module _ {ℓ κ μ ν} {E : Type ℓ} {A : Type κ} {B : Type μ} {C : Type ν} where
  pub >>=-assoc :
      (o : Outcome E A) (f : A → Outcome E B) (g : B → Outcome E C)
      → ((o >>= f) >>= g) ≡ (o >>= λ a. f a >>= g)
  >>=-assoc (ok a) f g = refl
  >>=-assoc (err e) f g = refl
  >>=-assoc panic f g = refl

module _ {ℓ κ μ} {E : Type ℓ} {A : Type κ} {B : Type μ} where
  pub >>=-agree :
      (o : Outcome E A) (f g : A → Outcome E B) → ((a : A) → f a ≡ g a) → (o >>= f) ≡ (o >>= g)
  >>=-agree (ok a) f g agree = agree a
  >>=-agree (err e) f g agree = refl
  >>=-agree panic f g agree = refl

module _ {ℓ κ} {E : Type ℓ} {A : Type κ} where
  pub >>=-ok : (o : Outcome E A) → (o >>= λ a. ok a) ≡ o
  >>=-ok (ok a) = refl
  >>=-ok (err e) = refl
  >>=-ok panic = refl
