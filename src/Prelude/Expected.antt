-- ===== src/Prelude/Expected.antt =====
-- `std::expected`, and a call that may throw: a value, or the error.
use mathlib.Core.Path.{◌≡◌, refl}
use mathlib.Core.Logic.{◌⊎◌, inl, inr}
use mathlib.Core.Option.{Option, none, some}

pub data Expected {ℓ κ} (E : Type κ) (A : Type ℓ) : Type (ℓ ⊔ κ) where
  value : A → Expected E A
  unexpected : E → Expected E A

infixl 5 ◌>>=◌
abbrev pub ◌>>=◌ {ℓ κ μ} :
    {E : Type κ} {A : Type ℓ} {B : Type μ} → Expected E A → (A → Expected E B) → Expected E B
value a >>= f = f a
unexpected e >>= f = unexpected e

-- A missing value is the error `e`.
abbrev pub or_throw {ℓ κ} : {E : Type κ} {A : Type ℓ} → Option A → E → Expected E A
or_throw none e = unexpected e
or_throw (some a) e = value a

-- Inversion of a bind that returns.
pub >>=-eq-value {ℓ κ μ} :
    {E : Type κ} {A : Type ℓ} {B : Type μ} (m : Expected E A) (f : A → Expected E B) {b : B}
    → (m >>= f) ≡ value b
    → (a : A) × (m ≡ value a) × (f a ≡ value b)
>>=-eq-value (value a) f h = (a, refl, h)
>>=-eq-value (unexpected e) f h = cc

pub value-injective {ℓ κ} :
    {E : Type κ} {A : Type ℓ} (a b : A) → Path (Expected E A) (value a) (value b) → a ≡ b
value-injective a b h = cc

-- To split on a computed result and keep the equation.
pub Expected-cases {ℓ κ} :
    {E : Type κ} {A : Type ℓ} (r : Expected E A)
    → ((e : E) × (r ≡ unexpected e)) ⊎ ((a : A) × (r ≡ value a))
Expected-cases (unexpected e) = inl (e, refl)
Expected-cases (value a) = inr (a, refl)
