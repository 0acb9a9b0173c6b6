-- ===== src/Prelude/Errors.antt =====
-- The pair of a value and an error that a Go function returns, as one value.
use mathlib.Core.Path.{◌≡◌, refl}
use mathlib.Core.Option.{Option, none, some}
use mathlib.Core.Bool.{Bool, true, false}
use mathlib.Core.Logic.{◌⊎◌, inl, inr}

pub data Result {ℓ κ} (E : Type κ) (A : Type ℓ) : Type (ℓ ⊔ κ) where
  ok : A → Result E A
  err : E → Result E A

infixl 5 ◌>>=◌ ◌>>◌
abbrev pub ◌>>=◌ {ℓ κ μ} :
    {E : Type μ} {A : Type ℓ} {B : Type κ} → Result E A → (A → Result E B) → Result E B
ok a >>= f = f a
err e >>= f = err e

abbrev pub ◌>>◌ {ℓ μ} : {E : Type μ} {B : Type ℓ} → Result E (Unit {0}) → Result E B → Result E B
m >> k = m >>= λ _. k

-- `if bad { return err }`
abbrev pub reject_if {μ} : {E : Type μ} → Bool → E → Result E (Unit {0})
reject_if true e = err e
reject_if false e = ok tt

-- A missing value as an error.
abbrev pub or_fail {ℓ μ} : {E : Type μ} {A : Type ℓ} → Option A → E → Result E A
or_fail none e = err e
or_fail (some a) e = ok a

module _ {ℓ μ} {E : Type μ} {A : Type ℓ} where
  pub Result-cases : (r : Result E A) → ((a : A) × (r ≡ ok a)) ⊎ ((e : E) × (r ≡ err e))
  Result-cases (ok a) = inl (a, refl)
  Result-cases (err e) = inr (e, refl)

  abbrev pub is_ok : Result E A → Bool
  is_ok (ok a) = true
  is_ok (err e) = false

  pub ok-injective : {a b : A} → ◌≡◌ {A = Result E A} (ok a) (ok b) → a ≡ b
  ok-injective h = cc

-- Inversion of a chain that succeeds.
module _ {ℓ κ μ} {E : Type μ} {A : Type ℓ} {B : Type κ} where
  pub >>=-ok :
      (m : Result E A) (f : A → Result E B) {b : B}
      → (m >>= f) ≡ ok b
      → (a : A) × (m ≡ ok a) × (f a ≡ ok b)
  >>=-ok (ok a) f h = (a, refl, h)
  >>=-ok (err e) f h = cc

  pub or_fail-ok :
      (o : Option A) (e : E) (f : A → Result E B) {b : B}
      → (or_fail o e >>= f) ≡ ok b
      → (a : A) × (o ≡ some a) × (f a ≡ ok b)
  or_fail-ok none e f h = cc
  or_fail-ok (some a) e f h = (a, refl, h)

module _ {κ μ} {E : Type μ} {B : Type κ} where
  pub reject_if-ok :
      (t : Bool) (e : E) (k : Result E B) {b : B}
      → (reject_if t e >> k) ≡ ok b
      → (t ≡ false) × (k ≡ ok b)
  reject_if-ok true e k h = cc
  reject_if-ok false e k h = (refl, h)
