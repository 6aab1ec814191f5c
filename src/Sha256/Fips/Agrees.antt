-- ===== src/Sha256/Fips/Agrees.antt =====
-- Sha256.cpp computes what FIPS 180-4 describes: constant by constant, word by word, block by block.
use Prim.Native.String.append
use text.Mathlib.TextLemmas.{append_assoc, append-nil}
use Prim.Native.Nat.{bit_or}
use styio_platform.Base.{
  ℕ, zero, suc, ◌+◌, ◌*◌, ◌/◌, ◌%◌, ◌^◌, ◌<◌, String, concat, ◌≡◌, refl, sym, ap, ◌∙◌, List, [],
  ◌∷◌, arith,
}
use styio_platform.Sha256.Words.{
  Registers, item, word_add, initial, constants, chunk_words, extend, reversed, round, rounds,
  transform, hex_digit, hex_digits, hex_word,
}
use styio_platform.Sha256.{length_bytes, hex_of}
use styio_platform.Sha256.Fips.{
  round_constants, initial_hash, choose, majority, upper_sigma0, upper_sigma1, lower_sigma0,
  lower_sigma1, block_words, scheduled, step, steps, sum, compress, big_endian, character,
  hexadecimal, digest,
}

pub constants-round_constants : constants ≡ round_constants
unfolding constants round_constants
constants-round_constants = refl

pub initial-initial_hash : initial ≡ initial_hash
unfolding initial_hash
initial-initial_hash = refl

pub length_bytes-big_endian : (total : ℕ) → length_bytes total ≡ big_endian 8 (total * 8)
length_bytes-big_endian total =
    let n = total * 8 in
    let b7 : n % 2 ^ 64 / 2 ^ 56 % 256 ≡ n / 256 / 256 / 256 / 256 / 256 / 256 / 256 % 256 =
      omega arith in
    let b6 : n % 2 ^ 64 / 2 ^ 48 % 256 ≡ n / 256 / 256 / 256 / 256 / 256 / 256 % 256 =
      omega arith in
    let b5 : n % 2 ^ 64 / 2 ^ 40 % 256 ≡ n / 256 / 256 / 256 / 256 / 256 % 256 = omega arith in
    let b4 : n % 2 ^ 64 / 2 ^ 32 % 256 ≡ n / 256 / 256 / 256 / 256 % 256 = omega arith in
    let b3 : n % 2 ^ 64 / 2 ^ 24 % 256 ≡ n / 256 / 256 / 256 % 256 = omega arith in
    let b2 : n % 2 ^ 64 / 2 ^ 16 % 256 ≡ n / 256 / 256 % 256 = omega arith in
    let b1 : n % 2 ^ 64 / 2 ^ 8 % 256 ≡ n / 256 % 256 = omega arith in
    let b0 : n % 2 ^ 64 % 256 ≡ n % 256 = omega arith in rw (b7, b6, b5, b4, b3, b2, b1, b0) refl

sum_of_four : (a b c d : ℕ) → word_add (word_add (word_add a b) c) d ≡ (a + b + c + d) % 2 ^ 32
sum_of_four a b c d = omega arith

sum_of_five :
    (a b c d e : ℕ)
    → word_add (word_add (word_add (word_add a b) c) d) e ≡ (a + b + c + d + e) % 2 ^ 32
sum_of_five a b c d e = omega arith

chunk_words-block_words : (words bytes : List ℕ) → chunk_words words bytes ≡ block_words words bytes
unfolding chunk_words block_words
chunk_words-block_words words (p ∷ q ∷ r ∷ s ∷ bytes) =
    chunk_words-block_words
      (bit_or (bit_or (bit_or (p * 2 ^ 24 % 2 ^ 32) (q * 2 ^ 16 % 2 ^ 32)) (r * 2 ^ 8 % 2 ^ 32)) s
        ∷ words)
      bytes
chunk_words-block_words words [] = refl
chunk_words-block_words words (p ∷ []) = refl
chunk_words-block_words words (p ∷ q ∷ []) = refl
chunk_words-block_words words (p ∷ q ∷ r ∷ []) = refl

extend-scheduled : (n : ℕ) (words : List ℕ) → extend n words ≡ scheduled n words
unfolding extend scheduled
extend-scheduled zero words = refl
extend-scheduled (suc n) words =
    extend-scheduled n _
    ∙ ap (λ w. scheduled n (w ∷ words))
        (sum_of_four (lower_sigma1 (item words 1)) (item words 6) (lower_sigma0 (item words 14))
          (item words 15))

round-step : (k w : ℕ) (r : Registers) → round k w r ≡ step k w r
unfolding round step
round-step k w r =
    ap
      (λ t1. record {
        a = (t1 + (upper_sigma0 r.a + majority r.a r.b r.c) % 2 ^ 32) % 2 ^ 32;
        b = r.a;
        c = r.b;
        d = r.c;
        e = (r.d + t1) % 2 ^ 32;
        f = r.e;
        g = r.f;
        h = r.g;
      })
      (sum_of_five r.h (upper_sigma1 r.e) (choose r.e r.f r.g) k w)

rounds-steps : (ks ws : List ℕ) (r : Registers) → rounds ks ws r ≡ steps ks ws r
unfolding rounds steps
rounds-steps (k ∷ ks) (w ∷ ws) r =
    rounds-steps ks ws (round k w r) ∙ ap (steps ks ws) (round-step k w r)
rounds-steps (k ∷ ks) [] r = refl
rounds-steps [] ws r = refl

rounds_lem :
    (ks ls words block : List ℕ) (r : Registers)
    → ks ≡ ls
    → words ≡ block
    → rounds ks (reversed [] (extend 48 words)) r ≡ steps ls (reversed [] (scheduled 48 block)) r
rounds_lem ks ls words block r e f =
    ap (λ w. rounds ks (reversed [] w) r) (ap (extend 48) f ∙ extend-scheduled 48 block)
    ∙ ap (λ k. rounds k (reversed [] (scheduled 48 block)) r) e
    ∙ rounds-steps ls (reversed [] (scheduled 48 block)) r

hex_digit-character : (n : ℕ) → n < 16 → hex_digit n ≡ character "0123456789abcdef" n
hex_digit-character zero h = refl
hex_digit-character (suc zero) h = refl
hex_digit-character (suc (suc zero)) h = refl
hex_digit-character (suc (suc (suc zero))) h = refl
hex_digit-character (suc (suc (suc (suc zero)))) h = refl
hex_digit-character (suc (suc (suc (suc (suc zero))))) h = refl
hex_digit-character (suc (suc (suc (suc (suc (suc zero)))))) h = refl
hex_digit-character (suc (suc (suc (suc (suc (suc (suc zero))))))) h = refl
hex_digit-character (suc (suc (suc (suc (suc (suc (suc (suc zero)))))))) h = refl
hex_digit-character (suc (suc (suc (suc (suc (suc (suc (suc (suc zero))))))))) h = refl
hex_digit-character (suc (suc (suc (suc (suc (suc (suc (suc (suc (suc zero)))))))))) h = refl
hex_digit-character (suc (suc (suc (suc (suc (suc (suc (suc (suc (suc (suc zero))))))))))) h = refl
hex_digit-character (suc (suc (suc (suc (suc (suc (suc (suc (suc (suc (suc (suc zero)))))))))))) h =
    refl
hex_digit-character
      (suc (suc (suc (suc (suc (suc (suc (suc (suc (suc (suc (suc (suc zero))))))))))))) h =
    refl
hex_digit-character
      (suc (suc (suc (suc (suc (suc (suc (suc (suc (suc (suc (suc (suc (suc zero)))))))))))))) h =
    refl
hex_digit-character
      (suc (suc (suc (suc (suc (suc (suc (suc (suc (suc (suc (suc (suc (suc (suc zero)))))))))))))))
      h =
    refl
hex_digit-character
      (suc
        (suc (suc (suc (suc (suc (suc (suc (suc (suc (suc (suc (suc (suc (suc (suc n))))))))))))))))
      h =
    absurd (omega (arith, h))

hex_digits-hexadecimal :
    (k n : ℕ) (rest : String) → hex_digits k n rest ≡ concat (hexadecimal k n) rest
unfolding hex_digits hexadecimal
hex_digits-hexadecimal zero n rest = sym (append.nil rest)
hex_digits-hexadecimal (suc k) n rest =
    let last = character "0123456789abcdef" (n % 16) in
    hex_digits-hexadecimal k (n / 16) (String.◌∷◌ (hex_digit (n % 16)) rest)
    ∙ ap (λ c. concat (hexadecimal k (n / 16)) (String.◌∷◌ c rest))
        (hex_digit-character (n % 16) (omega arith))
    ∙ ap (concat (hexadecimal k (n / 16)))
        (sym (append.cons last "" rest ∙ ap (String.◌∷◌ last) (append.nil rest)))
    ∙ sym (append_assoc (hexadecimal k (n / 16)) (String.◌∷◌ last "") rest)

hex_word-hexadecimal : (w : ℕ) → hex_word w ≡ hexadecimal 8 w
unfolding hex_word
hex_word-hexadecimal w = hex_digits-hexadecimal 8 w "" ∙ append-nil (hexadecimal 8 w)

pub hex_of-digest : (r : Registers) → hex_of r ≡ digest r
unfolding hex_of digest
hex_of-digest r = cc (
  hex_word-hexadecimal r.a,
  hex_word-hexadecimal r.b,
  hex_word-hexadecimal r.c,
  hex_word-hexadecimal r.d,
  hex_word-hexadecimal r.e,
  hex_word-hexadecimal r.f,
  hex_word-hexadecimal r.g,
  hex_word-hexadecimal r.h,
)

-- Transform is the standard's computation on a block.
pub transform-compress : (block : List ℕ) (r : Registers) → transform block r ≡ compress block r
unfolding transform compress
transform-compress block r = ap (sum r) (
    rounds_lem constants round_constants (chunk_words [] block) (block_words [] block) r
      constants-round_constants (chunk_words-block_words [] block))
