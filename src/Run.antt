-- ===== src/Run.antt =====
-- The outcome of a run of C code: a value, undefined behaviour (a read or write outside an
-- object, a null pointer, a signed overflow), or a loop that has used up the rounds it was given.
use mini_coin_slovak.Base.{◌≡◌, refl, ap, subst, Option, none, some}

pub data Run {ℓ} (A : Type ℓ) : Type ℓ where
  returns : A → Run A
  undefined : Run A
  out_of_fuel : Run A

infixl 5 ◌>>=◌
abbrev pub ◌>>=◌ {ℓ κ} : {A : Type ℓ} {B : Type κ} → Run A → (A → Run B) → Run B
returns a >>= f = f a
undefined >>= f = undefined
out_of_fuel >>= f = out_of_fuel

-- A read through a pointer or an index that may not be valid.
abbrev pub deref {ℓ} : {A : Type ℓ} → Option A → Run A
deref none = undefined
deref (some a) = returns a

-- The `int` that a C function returns: 0 is `success`, -1 is `failure`.
pub data Status : Type 0 where
  success failure : Status

-- Inversion of a run that returns.
pub >>=-eq-returns {ℓ κ} :
    {A : Type ℓ} {B : Type κ} (m : Run A) (f : A → Run B) {b : B}
    → (m >>= f) ≡ returns b
    → (a : A) × (m ≡ returns a) × (f a ≡ returns b)
>>=-eq-returns (returns a) f h = (a, refl, h)
>>=-eq-returns undefined f h = cc
>>=-eq-returns out_of_fuel f h = cc

-- A run that returns goes on with its value.
pub >>=-returns {ℓ κ} :
    {A : Type ℓ} {B : Type κ} {m : Run A} {a : A} (f : A → Run B) → m ≡ returns a → (m >>= f) ≡ f a
>>=-returns f e = ap (λ m. m >>= f) e

-- What holds of the value, if the run returns.
abbrev pub WhenReturns {ℓ κ} : {A : Type ℓ} → (A → Type κ) → Run A → Type κ
WhenReturns P (returns a) = P a
WhenReturns P undefined = Unit
WhenReturns P out_of_fuel = Unit

pub >>=-WhenReturns {ℓ κ μ} :
    {A : Type ℓ} {B : Type κ} (P : B → Type μ) (m : Run A) (f : A → Run B)
    → ((a : A) → m ≡ returns a → WhenReturns P (f a))
    → WhenReturns P (m >>= f)
>>=-WhenReturns P (returns a) f h = h a refl
>>=-WhenReturns P undefined f h = tt
>>=-WhenReturns P out_of_fuel f h = tt

pub when_returns {ℓ κ} :
    {A : Type ℓ} (P : A → Type κ) {m : Run A} {a : A} → WhenReturns P m → m ≡ returns a → P a
when_returns P h e = subst (WhenReturns P) e h
