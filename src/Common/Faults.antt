-- ===== src/Common/Faults.antt =====
-- What a call does: it returns, or it meets one of the faults that end the process.
use mathlib.Core.Path.{◌≡◌, refl}
use mathlib.Core.Option.{Option, none, some}

-- `out_of_range` is what `std::string::substr` throws and what an index past an array stands for;
-- `null_pointer` is a dereference of a null pointer; `not_reached` is `NOTREACHED()`.
pub data Fault : Type 0 where
  out_of_range null_pointer not_reached : Fault

pub data Outcome {ℓ} (A : Type ℓ) : Type ℓ where
  returns : A → Outcome A
  fails : Fault → Outcome A

infixl 5 ◌>>=◌
abbrev pub ◌>>=◌ {ℓ κ} : {A : Type ℓ} {B : Type κ} → Outcome A → (A → Outcome B) → Outcome B
returns a >>= f = f a
fails e >>= f = fails e

-- A dereference of a pointer that may be null.
abbrev pub deref {ℓ} : {A : Type ℓ} → Fault → Option A → Outcome A
deref e none = fails e
deref e (some a) = returns a

pub >>=-eq-returns {ℓ κ} :
    {A : Type ℓ} {B : Type κ} (m : Outcome A) (f : A → Outcome B) {b : B}
    → (m >>= f) ≡ returns b
    → (a : A) × (m ≡ returns a) × (f a ≡ returns b)
>>=-eq-returns (returns a) f h = (a, refl, h)
>>=-eq-returns (fails e) f h = cc
