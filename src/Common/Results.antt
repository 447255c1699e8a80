-- ===== src/Common/Results.antt =====
-- A value or an error: the exceptions that the program throws, and the `bool` results that come
-- with an error text.
use Prim.Native.String.{String}

pub data Result {ℓ} (E : Type 0) (A : Type ℓ) : Type ℓ where
  ok : A → Result E A
  err : E → Result E A

-- The exception classes of the standard library that the program throws, with their texts.
pub data Exception : Type 0 where
  invalid_argument logic_error out_of_range runtime_error : String → Exception

infixl 5 ◌>>=◌
abbrev pub ◌>>=◌ {ℓ κ} :
    {E : Type 0} {A : Type ℓ} {B : Type κ} → Result E A → (A → Result E B) → Result E B
ok a >>= f = f a
err e >>= f = err e

-- What a call returns, if it returns, has the property.
abbrev pub Returns {ℓ κ} : {A : Type ℓ} → (A → Type κ) → Result Exception A → Type κ
Returns P (ok a) = P a
Returns P (err e) = Unit {κ}

pub Returns->>= {ℓ ℓ' κ κ'} :
    {A : Type ℓ} {B : Type ℓ'} (P : A → Type κ) (Q : B → Type κ') (r : Result Exception A)
    (f : A → Result Exception B)
    → Returns P r
    → ((a : A) → P a → Returns Q (f a))
    → Returns Q (r >>= f)
Returns->>= P Q (ok a) f h next = next a h
Returns->>= P Q (err e) f h next = tt
