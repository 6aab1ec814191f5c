-- ===== src/Base/Ensures.antt =====
-- What the value of a call that may throw satisfies, and the rules for the parts of such a call.
use mathlib.Core.Path.{◌≡◌, refl, subst}
use mathlib.Core.Bool.{Bool, true, false}
use Prim.Native.String.{String}
use styio_platform.Base.Tests.{if◌then◌else◌}
use styio_platform.Base.Outcome.{Result, ok, err, require, ◌>>◌}

-- What holds of the value of a call that does not throw.
abbrev pub Ensures {ℓ κ} : {T : Type ℓ} → (T → Type κ) → Result T → Type κ
Ensures P (err message) = Unit
Ensures P (ok value) = P value

pub Ensures_ok {ℓ κ} :
    {T : Type ℓ} (P : T → Type κ) (r : Result T) (t : T) → Ensures P r → r ≡ ok t → P t
Ensures_ok P r t h e = subst (Ensures P) e h

pub >>-Ensures {ℓ κ} :
    {T : Type ℓ} (P : T → Type κ) (m : Result (Unit {0})) (r : Result T)
    → Ensures P r
    → Ensures P (m >> r)
>>-Ensures P (ok done) r h = h
>>-Ensures P (err e) r h = tt

pub if-Ensures {ℓ κ} :
    {T : Type ℓ} (P : T → Type κ) (b : Bool) (x y : Result T)
    → (b ≡ true → Ensures P x)
    → (b ≡ false → Ensures P y)
    → Ensures P (if b then x else y)
if-Ensures P true x y h k = h refl
if-Ensures P false x y h k = k refl

pub Ensures-all {ℓ κ} :
    {T : Type ℓ} (P : T → Type κ) (r : Result T) → ((t : T) → r ≡ ok t → P t) → Ensures P r
Ensures-all P (err e) h = tt
Ensures-all P (ok t) h = h t refl

pub Ensures-mono {ℓ κ μ} :
    {T : Type ℓ} (P : T → Type κ) (Q : T → Type μ) (r : Result T)
    → ((t : T) → P t → Q t)
    → Ensures P r
    → Ensures Q r
Ensures-mono P Q (err m) f h = tt
Ensures-mono P Q (ok t) f h = f t h

pub then-Ensures {ℓ κ} :
    {T : Type ℓ} (P : T → Type κ) (m : Result (Unit {0})) (r : Result T)
    → (m ≡ ok tt → Ensures P r)
    → Ensures P (m >> r)
then-Ensures P (ok tt) r h = h refl
then-Ensures P (err e) r h = tt

pub require-ok : (b : Bool) (m : String) → require b m ≡ ok tt → b ≡ true
require-ok true m h = refl
require-ok false m h = cc
