-- ===== src/Base/Checks.antt =====
-- Validations that give the first message that applies, or nothing.
use Prim.Native.String.{String}
use mathlib.Core.Path.{◌≡◌, refl}
use mathlib.Core.Bool.{Bool, true, false, not}
use mathlib.Core.Option.{Option, none, some}

-- `if (c) return message;` before the rest of a validation that gives a message or nothing.
infixr 2 ◌or_else◌
unfoldable pub ◌or_else◌ : Option String → Option String → Option String
none or_else rest = rest
some message or_else rest = some message

unfoldable pub reject_if : Bool → String → Option String
reject_if true message = some message
reject_if false message = none

pub or_else-none : (a b : Option String) → (a or_else b) ≡ none → (a ≡ none) × (b ≡ none)
unfolding ◌or_else◌
or_else-none none b h = (refl, h)
or_else-none (some m) b h = cc

pub reject_if-none : (b : Bool) (m : String) → reject_if b m ≡ none → b ≡ false
unfolding reject_if
reject_if-none true m h = cc
reject_if-none false m h = refl

pub not-false : (b : Bool) → not b ≡ false → b ≡ true
not-false true h = refl
not-false false h = cc
