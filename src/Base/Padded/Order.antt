-- ===== src/Base/Padded/Order.antt =====
-- The order of padded numbers as texts.
use Prim.Native.Char.{code}
use Prim.Native.Nat.{ℕ, zero, suc, ◌+◌, ◌-◌, ◌/◌, ◌%◌, ◌^◌, ◌≤◌, ◌<◌}
use Prim.Native.String.{String, count, ◌++◌ as concat}
use Prim.Native.String.count
use Prim.Native.String.append
use native.Mathlib.Nat.{pow-suc}
use native.Mathlib.Omega.{arith}
use mathlib.Core.Path.{◌≡◌, refl}
use mathlib.Core.Logic.{inl, inr}
use mathlib.Core.Bool.{true}
use styio_platform.Base.Tests.{ltb, Bool-cases}
use styio_platform.Base.Order.{text_lt, text_lt-cons-cons}
use styio_platform.Base.Padded.{digit, decimal_from, fill, padded_number}

-- Exactly `w` digits of `n`, the highest first.
fixed : ℕ → ℕ → String → String
fixed zero n rest = rest
fixed (suc w) n rest = fixed w (n / 10) (String.◌∷◌ (digit (n % 10)) rest)

fixed-zero : (w : ℕ) (rest : String) → fixed w 0 rest ≡ fill w rest
unfolding fixed fill
fixed-zero zero rest = refl
fixed-zero (suc w) rest = fixed-zero w (String.◌∷◌ "0" rest)

fixed_small :
    (w n : ℕ) (rest : String) → n < 10 → fixed (suc w) n rest ≡ fill w (String.◌∷◌ (digit n) rest)
unfolding fixed
fixed_small w n rest h =
    let e : n / 10 ≡ 0 = omega arith in
    let m : n % 10 ≡ n = omega arith in rw (e, m) (fixed-zero w (String.◌∷◌ (digit n) rest))

-- A number of two digits or more does not fit one digit.
positive : (w : ℕ) {n : ℕ} → n < 10 ^ suc w → 10 ≤ n → 0 < w
positive zero h k = absurd (omega arith)
positive (suc w) h k = omega arith

fill-decimal_from :
    (w fuel n : ℕ) (rest : String)
    → n < 10 ^ w
    → n < fuel
    → 0 < w
    → fill (w + count rest - count (decimal_from fuel n rest)) (decimal_from fuel n rest)
      ≡ fixed w n rest
unfolding decimal_from fixed
fill-decimal_from zero fuel n rest h k p = absurd (omega arith)
fill-decimal_from (suc w) zero n rest h k p = absurd (omega arith)
fill-decimal_from (suc w) (suc fuel) n rest h k p = elim (Bool-cases (ltb n 10)) [
  | inl small ↦
      rw (small, count.cons (digit n) rest, fixed_small w n rest (ground arith))
        (let e : suc w + count rest - suc (count rest) ≡ w = omega arith in rw e refl)
  | inr large ↦ rw large (
      let e : w + count (String.◌∷◌ (digit (n % 10)) rest) ≡ suc w + count rest =
        omega (arith, count.cons (digit (n % 10)) rest) in
      rw (← e) (
        fill-decimal_from w fuel (n / 10) (String.◌∷◌ (digit (n % 10)) rest)
          (omega (arith, pow-suc 10 w)) (ground arith) (positive w h (ground arith))))
]

digit-code : (n : ℕ) → n < 10 → code (digit n) ≡ 48 + n
digit-code zero h = omega arith
digit-code (suc zero) h = omega arith
digit-code (suc (suc zero)) h = omega arith
digit-code (suc (suc (suc zero))) h = omega arith
digit-code (suc (suc (suc (suc zero)))) h = omega arith
digit-code (suc (suc (suc (suc (suc zero))))) h = omega arith
digit-code (suc (suc (suc (suc (suc (suc zero)))))) h = omega arith
digit-code (suc (suc (suc (suc (suc (suc (suc zero))))))) h = omega arith
digit-code (suc (suc (suc (suc (suc (suc (suc (suc zero)))))))) h = omega arith
digit-code (suc (suc (suc (suc (suc (suc (suc (suc (suc zero))))))))) h = omega arith
digit-code (suc (suc (suc (suc (suc (suc (suc (suc (suc (suc n)))))))))) h = absurd (omega arith)

fixed-same :
    (w n : ℕ) (s t : String) → text_lt s t ≡ true → text_lt (fixed w n s) (fixed w n t) ≡ true
unfolding fixed
fixed-same zero n s t h = h
fixed-same (suc w) n s t h =
    fixed-same w (n / 10) (String.◌∷◌ (digit (n % 10)) s) (String.◌∷◌ (digit (n % 10)) t)
      (ground (arith, text_lt-cons-cons (digit (n % 10)) (digit (n % 10)) s t))

fixed-lt :
    (w a b : ℕ) (s t : String) → a < b → b < 10 ^ w → text_lt (fixed w a s) (fixed w b t) ≡ true
unfolding fixed
fixed-lt zero a b s t h k = absurd (omega arith)
fixed-lt (suc w) a b s t h k = elim (Bool-cases (ltb (a / 10) (b / 10))) [
  | inl less ↦ fixed-lt w (a / 10) (b / 10) _ _ (ground arith) (omega (arith, pow-suc 10 w))
  | inr same ↦
      let e : a / 10 ≡ b / 10 = ground arith in
      rw e (
        fixed-same w (b / 10) _ _ (
          ground (
            arith,
            text_lt-cons-cons (digit (a % 10)) (digit (b % 10)) s t,
            digit-code (a % 10),
            digit-code (b % 10),
          )))
]

padded_number-fixed : (w n : ℕ) → n < 10 ^ w → 0 < w → padded_number n w ≡ fixed w n String.[]
unfolding padded_number
padded_number-fixed w n h p =
    let e : w + count String.[] ≡ w = omega arith in
    rw e at (fill-decimal_from w (suc n) n String.[] h (omega arith) p)

-- Below 10^w, padded numbers come in the order of the numbers.
pub padded_number-lt :
    (w a b : ℕ)
    → a < b
    → b < 10 ^ w
    → 0 < w
    → text_lt (padded_number a w) (padded_number b w) ≡ true
padded_number-lt w a b h k p =
    rw (padded_number-fixed w a (omega arith) p, padded_number-fixed w b k p)
      (fixed-lt w a b String.[] String.[] h k)

-- A common prefix does not change the order.
pub concat-lt : (p s t : String) → text_lt (concat p s) (concat p t) ≡ text_lt s t
concat-lt String.[] s t = rw (append.nil s, append.nil t)
concat-lt (String.◌∷◌ c p) s t =
    rw (append.cons c p s, append.cons c p t)
      (ground (arith, text_lt-cons-cons c c (concat p s) (concat p t), concat-lt p s t))
