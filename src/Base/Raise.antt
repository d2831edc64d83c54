-- ===== src/Base/Raise.antt =====
-- Code that may raise: a value or a Python exception, with the notation of `do` blocks.
use mathlib.Core.Path.{◌≡◌, refl}
use mathlib.Core.Bool.{Bool, true, false}

-- The exceptions that the modelled code raises or lets through.
pub data Exception : Type 0 where
  value_error struct_error index_error os_error : Exception
  -- No Python exception: the fuel of a modelled loop ran out.
  out_of_fuel : Exception

pub data Outcome {ℓ} (A : Type ℓ) : Type ℓ where
  ok : A → Outcome A
  raised : Exception → Outcome A

infixl 5 ◌>>=◌ ◌>>◌
abbrev pub ◌>>=◌ {ℓ κ} : {A : Type ℓ} {B : Type κ} → Outcome A → (A → Outcome B) → Outcome B
ok a >>= f = f a
raised e >>= f = raised e

abbrev pub ◌>>◌ {ℓ} : {B : Type ℓ} → Outcome (Unit {0}) → Outcome B → Outcome B
m >> k = m >>= λ _. k

-- `if not test: raise e`
abbrev pub require : Bool → Exception → Outcome (Unit {0})
require true e = ok tt
require false e = raised e

abbrev pub returned {ℓ} : {A : Type ℓ} → Outcome A → Bool
returned (ok a) = true
returned (raised e) = false

-- The call returns: no exception leaves it.
abbrev pub Returns {ℓ} : {A : Type ℓ} → Outcome A → Type 0
Returns m = returned m ≡ true

pub Returns-bind {ℓ κ} :
    {A : Type ℓ} {B : Type κ} (m : Outcome A) (f : A → Outcome B)
    → Returns m
    → ((a : A) → m ≡ ok a → Returns (f a))
    → Returns (m >>= f)
Returns-bind (ok a) f h k = k a refl
Returns-bind (raised e) f h k = cc

-- What a call that returns gives back.
pub Returns-ok {ℓ} : {A : Type ℓ} (m : Outcome A) → Returns m → (a : A) × (m ≡ ok a)
Returns-ok (ok a) h = (a, refl)
Returns-ok (raised e) h = cc
