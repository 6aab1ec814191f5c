-- ===== src/Sha256/Words.antt =====
-- Sha256.cpp: the arithmetic on 32-bit words, and the transformation of one block of 64 bytes.
use Prim.Native.Char.{Char}
use Prim.Native.Nat.{bit_and, bit_or, bit_xor}
use styio_platform.Base.{
  ℕ, zero, suc, ◌+◌, ◌-◌, ◌*◌, ◌/◌, ◌%◌, ◌^◌, String, List, [], ◌∷◌, if◌then◌else◌, eqb,
}
use styio_platform.Base.Padded.{digit}

abbrev pub take {ℓ} : {A : Type ℓ} → ℕ → List A → List A
take zero xs = []
take (suc n) [] = []
take (suc n) (x ∷ xs) = x ∷ take n xs

abbrev pub drop {ℓ} : {A : Type ℓ} → ℕ → List A → List A
drop zero xs = xs
drop (suc n) [] = []
drop (suc n) (x ∷ xs) = drop n xs

-- The element at an index that the array has.
abbrev pub item : List ℕ → ℕ → ℕ
item [] n = 0
item (x ∷ xs) zero = x
item (x ∷ xs) (suc n) = item xs n

-- `~x`
abbrev pub word_not : ℕ → ℕ
word_not x = bit_xor x (2 ^ 32 - 1)

abbrev pub word_add : ℕ → ℕ → ℕ
word_add x y = (x + y) % 2 ^ 32

abbrev pub shift_right : ℕ → ℕ → ℕ
shift_right x n = x / 2 ^ n

abbrev pub shift_left : ℕ → ℕ → ℕ
shift_left x n = x * 2 ^ n % 2 ^ 32

unfoldable pub rotate_right : ℕ → ℕ → ℕ
rotate_right value bits = bit_or (shift_right value bits) (shift_left value (32 - bits))

unfoldable pub ch : ℕ → ℕ → ℕ → ℕ
ch x y z = bit_xor (bit_and x y) (bit_and (word_not x) z)

unfoldable pub maj : ℕ → ℕ → ℕ → ℕ
maj x y z = bit_xor (bit_xor (bit_and x y) (bit_and x z)) (bit_and y z)

unfoldable pub big_sigma0 : ℕ → ℕ
unfolding rotate_right
big_sigma0 value =
    bit_xor (bit_xor (rotate_right value 2) (rotate_right value 13)) (rotate_right value 22)

unfoldable pub big_sigma1 : ℕ → ℕ
unfolding rotate_right
big_sigma1 value =
    bit_xor (bit_xor (rotate_right value 6) (rotate_right value 11)) (rotate_right value 25)

unfoldable pub small_sigma0 : ℕ → ℕ
unfolding rotate_right
small_sigma0 value =
    bit_xor (bit_xor (rotate_right value 7) (rotate_right value 18)) (shift_right value 3)

unfoldable pub small_sigma1 : ℕ → ℕ
unfolding rotate_right
small_sigma1 value =
    bit_xor (bit_xor (rotate_right value 17) (rotate_right value 19)) (shift_right value 10)

-- `kConstants`
unfoldable pub constants : List ℕ
constants =
    1116352408 ∷ 1899447441 ∷ 3049323471 ∷ 3921009573 ∷ 961987163 ∷ 1508970993 ∷ 2453635748
    ∷ 2870763221 ∷ 3624381080 ∷ 310598401 ∷ 607225278 ∷ 1426881987 ∷ 1925078388 ∷ 2162078206
    ∷ 2614888103 ∷ 3248222580 ∷ 3835390401 ∷ 4022224774 ∷ 264347078 ∷ 604807628 ∷ 770255983
    ∷ 1249150122 ∷ 1555081692 ∷ 1996064986 ∷ 2554220882 ∷ 2821834349 ∷ 2952996808 ∷ 3210313671
    ∷ 3336571891 ∷ 3584528711 ∷ 113926993 ∷ 338241895 ∷ 666307205 ∷ 773529912 ∷ 1294757372
    ∷ 1396182291 ∷ 1695183700 ∷ 1986661051 ∷ 2177026350 ∷ 2456956037 ∷ 2730485921 ∷ 2820302411
    ∷ 3259730800 ∷ 3345764771 ∷ 3516065817 ∷ 3600352804 ∷ 4094571909 ∷ 275423344 ∷ 430227734
    ∷ 506948616 ∷ 659060556 ∷ 883997877 ∷ 958139571 ∷ 1322822218 ∷ 1537002063 ∷ 1747873779
    ∷ 1955562222 ∷ 2024104815 ∷ 2227730452 ∷ 2361852424 ∷ 2428436474 ∷ 2756734187 ∷ 3204031479
    ∷ 3329325298 ∷ []

-- `state_`, and the variables a to h of Transform.
pub record Registers : Type 0 where
  pub a : ℕ
  pub b : ℕ
  pub c : ℕ
  pub d : ℕ
  pub e : ℕ
  pub f : ℕ
  pub g : ℕ
  pub h : ℕ

abbrev pub initial : Registers
initial = record {
  a = 1779033703;
  b = 3144134277;
  c = 1013904242;
  d = 2773480762;
  e = 1359893119;
  f = 2600822924;
  g = 528734635;
  h = 1541459225;
}

-- The first sixteen words of the schedule, last word first.
unfoldable pub chunk_words : List ℕ → List ℕ → List ℕ
chunk_words words (p ∷ q ∷ r ∷ s ∷ bytes) =
    chunk_words
      (bit_or (bit_or (bit_or (shift_left p 24) (shift_left q 16)) (shift_left r 8)) s ∷ words)
      bytes
chunk_words words bytes = words

-- The rest of the schedule, last word first: the word at index - 2 is the second of the list.
unfoldable pub extend : ℕ → List ℕ → List ℕ
unfolding small_sigma0 small_sigma1
extend zero words = words
extend (suc n) words = extend n (
    word_add
      (word_add (word_add (small_sigma1 (item words 1)) (item words 6))
        (small_sigma0 (item words 14)))
      (item words 15)
    ∷ words)

unfoldable pub reversed : List ℕ → List ℕ → List ℕ
reversed done [] = done
reversed done (x ∷ xs) = reversed (x ∷ done) xs

-- The body of the loop of 64 rounds.
unfoldable pub round : ℕ → ℕ → Registers → Registers
unfolding big_sigma0 big_sigma1 ch maj
round constant word r =
    let t1 =
      word_add (word_add (word_add (word_add r.h (big_sigma1 r.e)) (ch r.e r.f r.g)) constant)
        word in
    let t2 = word_add (big_sigma0 r.a) (maj r.a r.b r.c) in
    record {
      a = word_add t1 t2;
      b = r.a;
      c = r.b;
      d = r.c;
      e = word_add r.d t1;
      f = r.e;
      g = r.f;
      h = r.g;
    }

unfoldable pub rounds : List ℕ → List ℕ → Registers → Registers
unfolding round
rounds (k ∷ ks) (w ∷ ws) r = rounds ks ws (round k w r)
rounds ks ws r = r

abbrev added : Registers → Registers → Registers
added r s = record {
  a = word_add r.a s.a;
  b = word_add r.b s.b;
  c = word_add r.c s.c;
  d = word_add r.d s.d;
  e = word_add r.e s.e;
  f = word_add r.f s.f;
  g = word_add r.g s.g;
  h = word_add r.h s.h;
}

unfoldable pub transform : List ℕ → Registers → Registers
unfolding chunk_words extend reversed rounds constants
transform chunk r = added r (rounds constants (reversed [] (extend 48 (chunk_words [] chunk))) r)

abbrev pub hex_digit : ℕ → Char
hex_digit n =
    if eqb n 10
    then "a"
    else if eqb n 11
    then "b"
    else if eqb n 12
    then "c"
    else if eqb n 13
    then "d"
    else if eqb n 14
    then "e"
    else if eqb n 15
    then "f"
    else digit n

unfoldable pub hex_digits : ℕ → ℕ → String → String
hex_digits zero n rest = rest
hex_digits (suc width) n rest = hex_digits width (n / 16) (String.◌∷◌ (hex_digit (n % 16)) rest)

-- `std::hex` with `std::setw(8)` and `std::setfill('0')`
unfoldable pub hex_word : ℕ → String
unfolding hex_digits
hex_word word = hex_digits 8 word String.[]
