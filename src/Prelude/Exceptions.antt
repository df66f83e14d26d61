-- ===== src/Prelude/Exceptions.antt =====
-- Python's exceptions as values.
use mathlib.Core.Path.{◌≡◌, refl}
use mathlib.Core.Bool.{Bool, true, false}
use mathlib.Core.Logic.{◌⊎◌, inl, inr}

-- The exception classes that the code raises or catches. `struct_error` is `struct.error`, which
-- is no `ValueError`; `os_error` covers the timeouts and connection errors of a socket, which are
-- subclasses of `OSError`.
pub data Error : Type 0 where
  value_error eof_error os_error struct_error key_error index_error runtime_error zero_division
        type_error :
      Error

-- What a call ends in: a value, or the exception that it raises.
pub data Result {ℓ} (Value : Type ℓ) : Type ℓ where
  err : Error → Result Value
  ok : Value → Result Value

-- `if test: raise error`
abbrev pub raise_if : Bool → Error → Result (Unit {0})
raise_if false raised = ok tt
raise_if true raised = err raised

pub Result-cases {ℓ} :
    {Value : Type ℓ} (outcome : Result Value)
    → ((value : Value) × (outcome ≡ ok value)) ⊎ ((raised : Error) × (outcome ≡ err raised))
Result-cases (err raised) = inr (raised, refl)
Result-cases (ok value) = inl (value, refl)

pub ok-injective {ℓ} : {A : Type ℓ} {a b : A} → Path (Result A) (ok a) (ok b) → a ≡ b
ok-injective e = cc e

infixl 5 ◌>>=◌
-- An exception leaves out all that comes after it.
abbrev pub ◌>>=◌ {ℓ κ} :
    {Value : Type ℓ} {Other : Type κ} → Result Value → (Value → Result Other) → Result Other
err raised >>= next = err raised
ok value >>= next = next value

pub >>=-eq-ok {ℓ κ} :
    {Value : Type ℓ} {Other : Type κ} (outcome : Result Value) (next : Value → Result Other)
    {last : Other}
    → (outcome >>= next) ≡ ok last
    → (value : Value) × (outcome ≡ ok value) × (next value ≡ ok last)
>>=-eq-ok (err raised) next h = cc
>>=-eq-ok (ok value) next h = (value, refl, h)

infixl 5 ◌>>◌
abbrev pub ◌>>◌ {ℓ} : {Other : Type ℓ} → Result (Unit {0}) → Result Other → Result Other
first >> second = first >>= λ _. second
