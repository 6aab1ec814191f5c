-- ===== src/Base/Outcome.antt =====
-- A call that may throw: `err` carries the exception's message.
use mathlib.Core.Path.{◌≡◌, refl, ap}
use mathlib.Core.Logic.{◌⊎◌, inl, inr}
use mathlib.Core.Bool.{Bool, true, false}
use Prim.Native.String.{String}

-- What a call leaves: an exception, or a value.
pub data Result {ℓ} (T : Type ℓ) : Type ℓ where
  err : String → Result T
  ok : T → Result T

-- `if (!b) throw Error(message);`
abbrev pub require : Bool → String → Result (Unit {0})
require false message = err message
require true message = ok tt

infixl 5 ◌>>=◌ ◌>>◌
abbrev pub ◌>>=◌ {ℓ κ} : {T : Type ℓ} {U : Type κ} → Result T → (T → Result U) → Result U
err message >>= next = err message
ok value >>= next = next value

abbrev pub ◌>>◌ {κ} : {U : Type κ} → Result (Unit {0}) → Result U → Result U
call >> next = call >>= λ done. next

pub ok-injective {ℓ} : {T : Type ℓ} {x y : T} → ok x ≡ ok y → x ≡ y
ok-injective {x = x} e = ap (λ r. elim r [ err message ↦ x | ok value ↦ value ]) e

pub Result-cases {ℓ} :
    {T : Type ℓ} (r : Result T) → ((m : String) × (r ≡ err m)) ⊎ ((t : T) × (r ≡ ok t))
Result-cases (err m) = inl (m, refl)
Result-cases (ok t) = inr (t, refl)

-- A call that does not throw, after a call that does not throw either.
pub >>=-ok {ℓ κ} :
    {T : Type ℓ} {U : Type κ} (m : Result T) {f : T → Result U} {u : U}
    → (m >>= f) ≡ ok u
    → (t : T) × (m ≡ ok t) × (f t ≡ ok u)
>>=-ok (err e) h = cc
>>=-ok (ok t) h = (t, refl, h)
