-- ===== src/Sha256/Fips.antt =====
-- SHA-256 as FIPS 180-4 describes it, apart from Sha256.cpp: the constants are computed from the first
-- primes, and the functions, the schedule, the rounds, the padding and the length are those of its
-- sections 4 to 6.
pub mod Agrees
use Prim.Native.Char.{Char}
use Prim.Native.Nat.{bit_and, bit_or, bit_xor}
use styio_platform.Base.{
  ℕ, zero, suc, ◌+◌, ◌-◌, ◌*◌, ◌/◌, ◌%◌, ◌^◌, ◌<◌, String, concat, ◌≡◌, refl, sym, ap, ◌∙◌, Bool,
  true, not, ◌&&◌, List, [], ◌∷◌, ◌++◌, if◌then◌else◌, eqb, leb, arith, length, replicate,
}
use styio_platform.Sha256.Words.{Registers, item, reversed, take, drop}

-- No number from 2 up to the first argument + 1 divides the second.
abbrev pub none_divides : ℕ → ℕ → Bool
none_divides zero n = true
none_divides (suc d) n = not (eqb (n % (suc d + 1)) 0) && none_divides d n

-- The primes among the numbers from the second argument on.
abbrev pub primes_from : ℕ → ℕ → List ℕ
primes_from zero n = []
primes_from (suc count) n =
    let rest = primes_from count (n + 1) in if none_divides (n - 2) n then n ∷ rest else rest

-- The 64 primes from 2 to 311.
abbrev pub first_primes : List ℕ
first_primes = primes_from 310 2

-- The greatest number r + m, m < 2 ^ bits, whose k-th power is at most n, where that of r is.
abbrev pub root_from : ℕ → ℕ → ℕ → ℕ → ℕ
root_from zero k n r = r
root_from (suc bits) k n r =
    root_from bits k n (if leb ((r + 2 ^ bits) ^ k) n then r + 2 ^ bits else r)

-- The first 32 bits of the fractional part of the k-th root of p.
abbrev pub fraction : ℕ → ℕ → ℕ
fraction k p = root_from 40 k (p * 2 ^ (32 * k)) 0 % 2 ^ 32

abbrev pub fractions : ℕ → List ℕ → List ℕ
fractions k [] = []
fractions k (p ∷ ps) = fraction k p ∷ fractions k ps

-- The constants of the rounds: from the cube roots of the first 64 primes.
unfoldable pub round_constants : List ℕ
round_constants = fractions 3 first_primes

-- The initial hash value: from the square roots of the first eight primes.
unfoldable pub initial_hash : Registers
initial_hash = record {
  a = fraction 2 2;
  b = fraction 2 3;
  c = fraction 2 5;
  d = fraction 2 7;
  e = fraction 2 11;
  f = fraction 2 13;
  g = fraction 2 17;
  h = fraction 2 19;
}

-- SHR and ROTR on words of 32 bits
abbrev pub shr : ℕ → ℕ → ℕ
shr n x = x / 2 ^ n

abbrev pub rotr : ℕ → ℕ → ℕ
rotr n x = bit_or (x / 2 ^ n) (x * 2 ^ (32 - n) % 2 ^ 32)

abbrev pub choose : ℕ → ℕ → ℕ → ℕ
choose x y z = bit_xor (bit_and x y) (bit_and (bit_xor x 4294967295) z)

abbrev pub majority : ℕ → ℕ → ℕ → ℕ
majority x y z = bit_xor (bit_xor (bit_and x y) (bit_and x z)) (bit_and y z)

abbrev pub upper_sigma0 : ℕ → ℕ
upper_sigma0 x = bit_xor (bit_xor (rotr 2 x) (rotr 13 x)) (rotr 22 x)

abbrev pub upper_sigma1 : ℕ → ℕ
upper_sigma1 x = bit_xor (bit_xor (rotr 6 x) (rotr 11 x)) (rotr 25 x)

abbrev pub lower_sigma0 : ℕ → ℕ
lower_sigma0 x = bit_xor (bit_xor (rotr 7 x) (rotr 18 x)) (shr 3 x)

abbrev pub lower_sigma1 : ℕ → ℕ
lower_sigma1 x = bit_xor (bit_xor (rotr 17 x) (rotr 19 x)) (shr 10 x)

-- The words of a block behind those of `before`, the last one first: four bytes each, high byte first.
unfoldable pub block_words : List ℕ → List ℕ → List ℕ
block_words before (p ∷ q ∷ r ∷ s ∷ bytes) =
    block_words
      (bit_or (bit_or (bit_or (p * 2 ^ 24 % 2 ^ 32) (q * 2 ^ 16 % 2 ^ 32)) (r * 2 ^ 8 % 2 ^ 32)) s
        ∷ before)
      bytes
block_words before bytes = before

-- More words W(t) of the schedule, the last one first: W(t - 2) is at the place 1, W(t - 16) at 15.
unfoldable pub scheduled : ℕ → List ℕ → List ℕ
scheduled zero w = w
scheduled (suc n) w =
    scheduled n
      ((lower_sigma1 (item w 1) + item w 6 + lower_sigma0 (item w 14) + item w 15) % 2 ^ 32 ∷ w)

-- One round with K(t) and W(t).
unfoldable pub step : ℕ → ℕ → Registers → Registers
step k w r =
    let t1 = (r.h + upper_sigma1 r.e + choose r.e r.f r.g + k + w) % 2 ^ 32 in
    let t2 = (upper_sigma0 r.a + majority r.a r.b r.c) % 2 ^ 32 in
    record {
      a = (t1 + t2) % 2 ^ 32;
      b = r.a;
      c = r.b;
      d = r.c;
      e = (r.d + t1) % 2 ^ 32;
      f = r.e;
      g = r.f;
      h = r.g;
    }

unfoldable pub steps : List ℕ → List ℕ → Registers → Registers
unfolding step
steps (k ∷ ks) (w ∷ ws) r = steps ks ws (step k w r)
steps ks ws r = r

abbrev pub sum : Registers → Registers → Registers
sum r t = record {
  a = (r.a + t.a) % 2 ^ 32;
  b = (r.b + t.b) % 2 ^ 32;
  c = (r.c + t.c) % 2 ^ 32;
  d = (r.d + t.d) % 2 ^ 32;
  e = (r.e + t.e) % 2 ^ 32;
  f = (r.f + t.f) % 2 ^ 32;
  g = (r.g + t.g) % 2 ^ 32;
  h = (r.h + t.h) % 2 ^ 32;
}

-- The hash value after a block.
unfoldable pub compress : List ℕ → Registers → Registers
unfolding block_words scheduled steps
compress block r =
    sum r (steps round_constants (reversed [] (scheduled 48 (block_words [] block))) r)

-- A number in as many bytes as asked for, high byte first.
abbrev pub big_endian : ℕ → ℕ → List ℕ
big_endian zero n = []
big_endian (suc k) n = big_endian k (n / 256) ++ (n % 256 ∷ [])

-- The character at a place of a text.
abbrev pub character : String → ℕ → Char
character String.[] n = "?"
character (String.◌∷◌ c s) zero = c
character (String.◌∷◌ c s) (suc n) = character s n

-- A number in hexadecimal with as many digits as asked for.
unfoldable pub hexadecimal : ℕ → ℕ → String
hexadecimal zero n = ""
hexadecimal (suc k) n =
    concat (hexadecimal k (n / 16)) (String.◌∷◌ (character "0123456789abcdef" (n % 16)) "")

unfoldable pub digest : Registers → String
unfolding hexadecimal
digest r = concat (hexadecimal 8 r.a) (
    concat (hexadecimal 8 r.b) (
      concat (hexadecimal 8 r.c) (
        concat (hexadecimal 8 r.d) (
          concat (hexadecimal 8 r.e)
            (concat (hexadecimal 8 r.f) (concat (hexadecimal 8 r.g) (hexadecimal 8 r.h)))))))

-- Blocks of 64 bytes, in their order.
unfoldable pub hash_blocks : ℕ → List ℕ → Registers → Registers
unfolding compress
hash_blocks zero bytes r = r
hash_blocks (suc n) bytes r = hash_blocks n (drop 64 bytes) (compress (take 64 bytes) r)

-- The byte 0x80, zeros up to 56 bytes of a block, and the number of bits in eight bytes.
abbrev pub padding : ℕ → List ℕ
padding total = 128 ∷ (replicate ((119 - total % 64) % 64) 0 ++ big_endian 8 (total * 8))

abbrev pub padded : List ℕ → List ℕ
padded message = message ++ padding (length message)

-- The hash of a message as the standard describes it.
unfoldable pub sha256 : List ℕ → String
unfolding digest hash_blocks
sha256 message = digest (hash_blocks (length (padded message) / 64) (padded message) initial_hash)
