-- ===== src/Prelude/Exceptions.antt =====
-- A call that may raise one of Python's exceptions, stop when its fuel is used up (`timeout`), or do
-- what the model does not follow (`outside`).
use mathlib.Core.Logic.{◌⊎◌, inl, inr}
use mathlib.Core.Path.{◌≡◌, refl}

pub data Exception : Type 0 where
  assertion_error zero_division_error key_error index_error name_error type_error attribute_error
        value_error system_exit timeout outside :
      Exception

-- The outcome of a call: its value, or the exception that it raises.
pub data Result {ℓ} (Value : Type ℓ) : Type ℓ where
  raise : Exception → Result Value
  ok : Value → Result Value

-- What follows a call is not run when the call raises.
infixl 5 ◌>>=◌
abbrev pub ◌>>=◌ {ℓ κ} :
    {Value : Type ℓ} {Next : Type κ} → Result Value → (Value → Result Next) → Result Next
raise exception >>= rest = raise exception
ok value >>= rest = rest value

pub Result-cases {ℓ} :
    {Value : Type ℓ} (outcome : Result Value)
    → ((value : Value) × (outcome ≡ ok value)) ⊎ ((e : Exception) × (outcome ≡ raise e))
Result-cases (raise e) = inr (e, refl)
Result-cases (ok value) = inl (value, refl)

pub bind_ok {ℓ} : {Value : Type ℓ} (outcome : Result Value) → (outcome >>= ok) ≡ outcome
bind_ok (raise e) = refl
bind_ok (ok value) = refl

pub bind_assoc {ℓ κ μ} :
    {Value : Type ℓ} {Next : Type κ} {Last : Type μ} (outcome : Result Value)
    (rest : Value → Result Next) (last : Next → Result Last)
    → ((outcome >>= rest) >>= last) ≡ (outcome >>= λ value. rest value >>= last)
bind_assoc (raise e) rest last = refl
bind_assoc (ok value) rest last = refl

-- What a sequence of calls returns, the last of them returns.
pub ok_of_bind {ℓ κ} :
    {Value : Type ℓ} {Next : Type κ} (outcome : Result Value) (rest : Value → Result Next)
    {last : Next}
    → (outcome >>= rest) ≡ ok last
    → (value : Value) × (outcome ≡ ok value) × (rest value ≡ ok last)
ok_of_bind (raise e) rest same = cc
ok_of_bind (ok value) rest same = (value, refl, same)
