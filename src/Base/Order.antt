-- ===== src/Base/Order.antt =====
-- The order of `std::string`, which `std::map` iterates by.
use Prim.Native.Char.{Char, code}
use Prim.Native.String.{String, compare}
use Prim.Native.String.compare
use text.Mathlib.Text.{is_lt}
use text.Mathlib.TextEquality.{Char-path}
use text.Mathlib.TextPositions.{compare_refl}
use mathlib.Core.Path.{◌≡◌, refl, ap₂}
use mathlib.Core.Logic.{◌⊎◌, inl, inr}
use mathlib.Core.Bool.{Bool, true, false}
use native.Mathlib.Omega.{arith}
use native.Mathlib.Decide.{dec_lt}
use styio_platform.Base.Tests.{ltb, eqb, if◌then◌else◌}

unfoldable pub text_lt : String → String → Bool
text_lt s t = is_lt (compare s t)

text_lt-nil-cons : (d : Char) (t : String) → text_lt String.[] (String.◌∷◌ d t) ≡ true
unfolding text_lt
text_lt-nil-cons d t = rw (compare.nil-cons d t)

text_lt-nil : (s : String) → text_lt s String.[] ≡ false
unfolding text_lt
text_lt-nil String.[] = refl
text_lt-nil (String.◌∷◌ c s) = rw (compare.cons-nil c s)

pub text_lt-cons-cons :
    (c d : Char) (s t : String)
    → text_lt (String.◌∷◌ c s) (String.◌∷◌ d t) ≡ (
        if ltb (code c) (code d)
        then true
        else if eqb (code c) (code d)
        then text_lt s t
        else false)
unfolding text_lt
text_lt-cons-cons c d s t = rw (compare.cons-cons c d s t) (ground arith)

pub text_lt_irrefl : (s : String) → text_lt s s ≡ false
unfolding text_lt
text_lt_irrefl s = rw (compare_refl s)

pub text_lt_trans : (r s t : String) → text_lt r s ≡ true → text_lt s t ≡ true → text_lt r t ≡ true
text_lt_trans r s String.[] h k = cc (text_lt-nil s)
text_lt_trans r String.[] (String.◌∷◌ d t) h k = cc (text_lt-nil r)
text_lt_trans String.[] (String.◌∷◌ c s) (String.◌∷◌ d t) h k = text_lt-nil-cons d t
text_lt_trans (String.◌∷◌ b r) (String.◌∷◌ c s) (String.◌∷◌ d t) h k = ground (
  arith,
  text_lt-cons-cons b c r s,
  text_lt-cons-cons c d s t,
  text_lt-cons-cons b d r t,
  text_lt_trans r s t,
)

pub text_lt_connected : (s t : String) → (s ≡ t) ⊎ (text_lt s t ≡ true) ⊎ (text_lt t s ≡ true)
text_lt_connected String.[] String.[] = inl refl
text_lt_connected String.[] (String.◌∷◌ d t) = inr (inl (text_lt-nil-cons d t))
text_lt_connected (String.◌∷◌ c s) String.[] = inr (inr (text_lt-nil-cons c s))
text_lt_connected (String.◌∷◌ c s) (String.◌∷◌ d t) = elim (dec_lt (code c) (code d)) [
  | yes h ↦ inr (inl (ground (arith, text_lt-cons-cons c d s t)))
  | no h ↦ elim (dec_lt (code d) (code c)) [
    | yes k ↦ inr (inr (ground (arith, text_lt-cons-cons d c t s)))
    | no k ↦ elim (text_lt_connected s t) [
      | inl e ↦ inl (ap₂ String.◌∷◌ (Char-path c d (omega arith)) e)
      | inr (inl e) ↦ inr (inl (ground (arith, text_lt-cons-cons c d s t)))
      | inr (inr e) ↦ inr (inr (ground (arith, text_lt-cons-cons d c t s)))
    ]
  ]
]
