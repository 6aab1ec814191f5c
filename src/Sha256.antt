-- ===== src/Sha256.antt =====
-- PlatformCore/Core/Sha256.cpp: the hash of a file, which is read piece by piece. A byte and a uint32_t
-- are natural numbers, with their wrap-around written out.
mod Examples
pub mod Words
pub mod Pieces
pub mod Fips
pub mod Standard
use styio_platform.Base.{
  ℕ, zero, suc, ◌+◌, ◌-◌, ◌*◌, ◌/◌, ◌%◌, ◌^◌, String, concat, Bool, true, false, Option, none, some,
  List, [], ◌∷◌, ◌++◌, if◌then◌else◌, eqb, ltb, length, replicate,
}
use styio_platform.Sha256.Words.{Registers, initial, transform, hex_word, take, drop}

-- The object Sha256. `buffer` is the part of `buffer_` that is in use, the first `buffer_size_` bytes:
-- the rest is always overwritten before it is read.
pub record Sha256 : Type 0 where
  pub state : Registers
  pub buffer : List ℕ
  pub total_size : ℕ

abbrev pub fresh : Sha256
fresh = record { state = initial; buffer = []; total_size = 0 }

-- The body of the loop of Update, behind the copy of its chunk.
unfoldable pub absorb : List ℕ → Sha256 → Sha256
absorb chunk s =
    if eqb (length (s.buffer ++ chunk)) 64
    then record s { state = transform (s.buffer ++ chunk) s.state; buffer = [] }
    else record s { buffer = s.buffer ++ chunk }

-- `std::min<size_t>(buffer_size_ < 64 ? 64 - buffer_size_ : 0, size - offset)`
unfoldable pub chunk_size : ℕ → ℕ → ℕ
chunk_size buffer_size left = if ltb (64 - buffer_size) left then 64 - buffer_size else left

-- The loop of Update on the data from the offset on. `none` is a loop that does not end within the fuel.
unfoldable pub update_loop : ℕ → List ℕ → Sha256 → Option Sha256
unfolding absorb chunk_size
update_loop fuel [] s = some s
update_loop zero (x ∷ bytes) s = none
update_loop (suc fuel) (x ∷ bytes) s =
    let chunk = chunk_size (length s.buffer) (length (x ∷ bytes)) in
    update_loop fuel (drop chunk (x ∷ bytes)) (absorb (take chunk (x ∷ bytes)) s)

unfoldable pub update : List ℕ → Sha256 → Option Sha256
unfolding update_loop
update bytes s =
    update_loop (length bytes) bytes
      (record s { total_size = (s.total_size + length bytes) % 2 ^ 64 })

-- The eight bytes of a uint64_t, high byte first.
abbrev pub high_first : ℕ → List ℕ
high_first bits =
    bits / 2 ^ 56 % 256
    ∷ bits / 2 ^ 48 % 256
    ∷ bits / 2 ^ 40 % 256
    ∷ bits / 2 ^ 32 % 256
    ∷ bits / 2 ^ 24 % 256
    ∷ bits / 2 ^ 16 % 256
    ∷ bits / 2 ^ 8 % 256
    ∷ bits % 256
    ∷ []

-- `total_bits`, at the end of the last block
abbrev pub length_bytes : ℕ → List ℕ
length_bytes total_size = high_first (total_size * 8 % 2 ^ 64)

abbrev pub zeros : ℕ → List ℕ
zeros n = replicate n 0

-- FinalHex up to the last `Transform`, on the buffer with the byte 0x80 behind it.
unfoldable pub finished_state : Sha256 → List ℕ → Registers
finished_state s block =
    let long =
      transform (zeros 56 ++ length_bytes s.total_size)
        (transform (block ++ zeros (64 - length block)) s.state) in
    let short =
      transform (block ++ zeros (56 - length block) ++ length_bytes s.total_size) s.state in
    if ltb 56 (length block) then long else short

-- The words of `state_`, one behind the other.
unfoldable pub hex_of : Registers → String
unfolding hex_word
hex_of r = concat (hex_word r.a) (
    concat (hex_word r.b) (
      concat (hex_word r.c) (
        concat (hex_word r.d)
          (concat (hex_word r.e) (concat (hex_word r.f) (concat (hex_word r.g) (hex_word r.h)))))))

unfoldable pub final_hex : Sha256 → String
unfolding finished_state hex_of
final_hex s = hex_of (finished_state s (s.buffer ++ 128 ∷ []))

-- The loop of Sha256File over the pieces that it reads; the reads themselves are an argument.
unfoldable pub update_pieces : List (List ℕ) → Sha256 → Option Sha256
unfolding update
update_pieces [] s = some s
update_pieces (piece ∷ pieces) s = elim (update piece s) [
  | none ↦ none
  | some t ↦ update_pieces pieces t
]

unfoldable pub sha256_pieces : List (List ℕ) → Option String
unfolding update_pieces final_hex
sha256_pieces pieces = elim (update_pieces pieces fresh) [
  | none ↦ none
  | some s ↦ some (final_hex s)
]
