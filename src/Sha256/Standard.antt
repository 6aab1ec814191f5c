-- ===== src/Sha256/Standard.antt =====
-- Sha256.cpp against the standard: the padded message, block by block.
use styio_platform.Base.{
  ℕ, zero, suc, ◌+◌, ◌-◌, ◌*◌, ◌/◌, ◌%◌, ◌^◌, ◌<◌, ◌≡◌, refl, sym, ap, ◌∙◌, inl, inr, some, List,
  [], ◌∷◌, ◌++◌, arith, eqb, eqb_iff, ltb, length, length-append, length-replicate, Bool-cases,
  append_assoc,
}
use styio_platform.Sha256.Fips.{big_endian, digest, hash_blocks, padding, padded, sha256}
use styio_platform.Sha256.Fips.Agrees.{
  length_bytes-big_endian, initial-initial_hash, transform-compress, hex_of-digest,
}
use styio_platform.Sha256.Words.{Registers, initial, transform, take, drop}
use styio_platform.Sha256.{
  Sha256, fresh, absorb, update, high_first, length_bytes, zeros, finished_state, final_hex,
  update_pieces, sha256_pieces,
}
use styio_platform.Sha256.Pieces.{
  feed_all, feed_all-append, absorb-short, absorb-full, absorb-feed_all, take-drop, length-take,
  length-drop, feed_all-bounded, feed_all-total_size, update_loop-feed_all, absorb-bounded,
}

feed_all-blocks :
    (n : ℕ) (bytes : List ℕ) (r : Registers) (t : ℕ)
    → length bytes ≡ n * 64
    → feed_all bytes (record { state = r; buffer = []; total_size = t })
      ≡ record { state = hash_blocks n bytes r; buffer = []; total_size = t }
unfolding hash_blocks feed_all
feed_all-blocks zero [] r t h = refl
feed_all-blocks zero (x ∷ bytes) r t h = absurd (omega (arith, h))
feed_all-blocks (suc n) bytes r t h =
    let s : Sha256 = record { state = r; buffer = []; total_size = t } in
    let l = length-take 64 bytes (omega (arith, h)) in
    let d = length-drop 64 bytes in
    ap (λ b. feed_all b s) (sym (take-drop 64 bytes))
    ∙ feed_all-append (take 64 bytes) (drop 64 bytes) s
    ∙ ap (feed_all (drop 64 bytes)) (
        sym (absorb-feed_all (take 64 bytes) s (omega arith) (omega (arith, l)))
        ∙ absorb-full (take 64 bytes) s (omega (arith, l)))
    ∙ feed_all-blocks n (drop 64 bytes) (transform (take 64 bytes) r) t (omega (arith, h, d))
    ∙ ap (λ q. record { state = hash_blocks n (drop 64 bytes) q; buffer = []; total_size = t })
        (transform-compress (take 64 bytes) r)

zeros-add : (a b : ℕ) → zeros (a + b) ≡ zeros a ++ zeros b
zeros-add zero b = let e : 0 + b ≡ b = omega arith in ap zeros e
zeros-add (suc a) b =
    let e : suc a + b ≡ suc (a + b) = omega arith in ap zeros e ∙ ap (λ z. 0 ∷ z) (zeros-add a b)

length-zeros : (n : ℕ) → length (zeros n) ≡ n
length-zeros n = length-replicate n 0

module _ (s : Sha256) (k : ℕ) (room : length s.buffer < 64) where
  block_of :
      (ys : List ℕ)
      → ((s.buffer ++ 128 ∷ []) ++ zeros k) ++ ys ≡ s.buffer ++ (128 ∷ (zeros k ++ ys))
  block_of ys =
      ap (λ b. b ++ ys) (append_assoc s.buffer (128 ∷ []) (zeros k))
      ∙ append_assoc s.buffer (128 ∷ zeros k) ys

  -- Zeros and a length that fill the block.
  finished-short :
      (ends : List ℕ)
      → length s.buffer + (1 + k + length ends) ≡ 64
      → transform (((s.buffer ++ 128 ∷ []) ++ zeros k) ++ ends) s.state
        ≡ (feed_all (128 ∷ (zeros k ++ ends)) s).state
  finished-short ends fits =
      let n = length-append (zeros k) ends in
      let z = length-zeros k in
      ap (λ b. transform b s.state) (block_of ends)
      ∙ sym (
          ap (λ t. t.state)
            (sym (absorb-feed_all (128 ∷ (zeros k ++ ends)) s room (omega (arith, n, z, fits)))
              ∙ absorb-full (128 ∷ (zeros k ++ ends)) s (omega (arith, n, z, fits))))

  -- Zeros that fill the block, and a block of zeros and the length.
  finished-long :
      (ends : List ℕ)
      → length s.buffer + (1 + k) ≡ 64
      → length ends ≡ 8
      → transform (zeros 56 ++ ends) (transform ((s.buffer ++ 128 ∷ []) ++ zeros k) s.state)
        ≡ (feed_all (128 ∷ (zeros (k + 56) ++ ends)) s).state
  finished-long ends fits eight =
      let z = length-zeros k in
      let first : Sha256 = record s {
        state = transform (s.buffer ++ (128 ∷ zeros k)) s.state;
        buffer = [];
      } in
      let n = length-append (zeros 56) ends in
      let split : zeros (k + 56) ++ ends ≡ zeros k ++ (zeros 56 ++ ends) =
        ap (λ b. b ++ ends) (zeros-add k 56) ∙ append_assoc (zeros k) (zeros 56) ends in
      let filled : feed_all (128 ∷ zeros k) s ≡ first =
        sym (absorb-feed_all (128 ∷ zeros k) s room (omega (arith, z, fits)))
        ∙ absorb-full (128 ∷ zeros k) s (omega (arith, z, fits)) in
      let last : feed_all (zeros 56 ++ ends) first
          ≡ record first { state = transform (zeros 56 ++ ends) first.state } =
        sym (absorb-feed_all (zeros 56 ++ ends) first (omega arith) (omega (arith, eight)))
        ∙ absorb-full (zeros 56 ++ ends) first (omega (arith, eight)) in
      ap (λ b. transform (zeros 56 ++ ends) (transform b s.state))
        (append_assoc s.buffer (128 ∷ []) (zeros k))
      ∙ sym (
          ap (λ t. t.state)
            (ap (λ b. feed_all (128 ∷ b) s) split
              ∙ feed_all-append (128 ∷ zeros k) (zeros 56 ++ ends) s
              ∙ ap (feed_all (zeros 56 ++ ends)) filled
              ∙ last))

-- What FinalHex does is to take the padding.
finished_state-padding :
    (s : Sha256) (total : ℕ)
    → length s.buffer ≡ total % 64
    → length_bytes s.total_size ≡ big_endian 8 (total * 8)
    → finished_state s (s.buffer ++ 128 ∷ []) ≡ (feed_all (padding total) s).state
unfolding finished_state
finished_state-padding s total here same =
    let n = length-append s.buffer (128 ∷ []) in
    let room : length s.buffer < 64 = omega (arith, here) in
    elim (Bool-cases (ltb 56 (length (s.buffer ++ 128 ∷ [])))) [
      | inl long ↦
          let k : 64 - length (s.buffer ++ 128 ∷ []) ≡ 63 - total % 64 = omega (arith, n, here) in
          let z : (119 - total % 64) % 64 ≡ (63 - total % 64) + 56 = ground (arith, n, here) in
          rw (long, same, k, z)
            (finished-long s (63 - total % 64) room (big_endian 8 (total * 8)) (omega (arith, here))
              refl)
      | inr short ↦
          let k : 56 - length (s.buffer ++ 128 ∷ []) ≡ 55 - total % 64 = omega (arith, n, here) in
          let z : (119 - total % 64) % 64 ≡ 55 - total % 64 = ground (arith, n, here) in
          rw (short, same, k, z)
            (finished-short s (55 - total % 64) room (big_endian 8 (total * 8))
              (ground (arith, n, here)))
    ]

length-absorb :
    (x : ℕ) (s : Sha256)
    → length s.buffer < 64
    → length (absorb (x ∷ []) s).buffer ≡ (length s.buffer + 1) % 64
length-absorb x s room = elim (Bool-cases (eqb (length s.buffer + 1) 64)) [
  | inl full ↦
      let e : length s.buffer + 1 ≡ 64 = (eqb_iff _ _).0 full in
      rw (absorb-full (x ∷ []) s e) (omega (arith, e))
  | inr short ↦
      let e : length s.buffer + 1 < 64 = ground arith in
      let n = length-append s.buffer (x ∷ []) in
      rw (absorb-short (x ∷ []) s e) (omega (arith, e, n))
]

length-feed_all :
    (xs : List ℕ) (s : Sha256)
    → length s.buffer < 64
    → length (feed_all xs s).buffer ≡ (length s.buffer + length xs) % 64
unfolding feed_all
length-feed_all [] s room = omega (arith, room)
length-feed_all (x ∷ xs) s room =
    let e = length-absorb x s room in
    let h =
      length-feed_all xs (absorb (x ∷ []) s) (absorb-bounded (x ∷ []) s (omega (arith, room))) in
    omega (arith, e, h)

-- The bytes of the pieces, one piece behind the other.
abbrev pub joined : List (List ℕ) → List ℕ
joined [] = []
joined (piece ∷ pieces) = piece ++ joined pieces

update_lem :
    (piece : List ℕ) (s : Sha256)
    → length s.buffer < 64
    → update piece s
      ≡ some (record (feed_all piece s) { total_size = (s.total_size + length piece) % 2 ^ 64 })
unfolding update
update_lem piece s room =
    update_loop-feed_all (length piece) piece
      (record s { total_size = (s.total_size + length piece) % 2 ^ 64 }) room (omega arith)
    ∙ ap some (feed_all-total_size piece s ((s.total_size + length piece) % 2 ^ 64))

abbrev with_total : ℕ → Sha256 → Sha256
with_total n s = record s { total_size = n }

update_pieces-cons :
    (piece : List ℕ) (pieces : List (List ℕ)) (s t : Sha256)
    → update piece s ≡ some t
    → update_pieces (piece ∷ pieces) s ≡ update_pieces pieces t
unfolding update_pieces
update_pieces-cons piece pieces s t e = rw (e, update_pieces) refl

update_pieces_lem :
    (pieces : List (List ℕ)) (s : Sha256)
    → length s.buffer < 64
    → s.total_size < 2 ^ 64
    → update_pieces pieces s
      ≡ some (
          with_total
            ((s.total_size + length (joined pieces)) % 2 ^ 64)
            (feed_all (joined pieces) s))
unfolding update_pieces feed_all
update_pieces_lem [] s room small =
    let e : s.total_size ≡ (s.total_size + 0) % 2 ^ 64 = omega (arith, small) in
    ap (λ n. some (with_total n s)) e
update_pieces_lem (piece ∷ pieces) s room small =
    let m = joined pieces in
    let t : Sha256 = with_total ((s.total_size + length piece) % 2 ^ 64) (feed_all piece s) in
    let n = length-append piece m in
    let e : (t.total_size + length m) % 2 ^ 64 ≡ (s.total_size + length (piece ++ m)) % 2 ^ 64 =
      omega (arith, n) in
    update_pieces-cons piece pieces s t (update_lem piece s room)
    ∙ update_pieces_lem pieces t (feed_all-bounded piece s room) (omega arith)
    ∙ ap (λ u. some (with_total ((t.total_size + length m) % 2 ^ 64) u))
        (feed_all-total_size m (feed_all piece s) t.total_size
          ∙ ap (with_total t.total_size) (sym (feed_all-append piece m s)))
    ∙ ap (λ k. some (with_total k (feed_all (piece ++ m) s))) e

length-padded : (message : List ℕ) → length (padded message) ≡ length (padded message) / 64 * 64
length-padded message =
    let total = length message in
    let k = (119 - total % 64) % 64 in
    let a = length-append message (padding total) in
    let b = length-append (zeros k) (big_endian 8 (total * 8)) in
    let c = length-zeros k in omega (arith, a, b, c)

-- In whatever pieces the bytes of a file are read, the loop of Update ends for each of them, and the
-- text that comes out is the hash of the whole file as FIPS 180-4 describes it: with the constants from
-- the roots of the first primes, the standard's functions, schedule and rounds, the padding with 0x80,
-- zeros and the number of bits in eight bytes, high byte first, and eight hexadecimal digits a word.
pub sha256_pieces-sha256 :
    (pieces : List (List ℕ)) → sha256_pieces pieces ≡ some (sha256 (joined pieces))
unfolding sha256_pieces final_hex sha256
sha256_pieces-sha256 pieces =
    let m = joined pieces in
    let s : Sha256 = with_total ((0 + length m) % 2 ^ 64) (feed_all m fresh) in
    let bits : (0 + length m) % 2 ^ 64 * 8 % 2 ^ 64 ≡ length m * 8 % 2 ^ 64 = omega arith in
    let same : length_bytes s.total_size ≡ big_endian 8 (length m * 8) =
      ap high_first bits ∙ length_bytes-big_endian (length m) in
    rw (update_pieces_lem pieces fresh (omega arith) (omega arith), sha256_pieces)
      (ap some (
        hex_of-digest (finished_state s (s.buffer ++ 128 ∷ []))
        ∙ ap digest (
            finished_state-padding s (length m)
              (let l = length-feed_all m fresh (omega arith) in omega (arith, l)) same
            ∙ ap (λ t. t.state)
                (feed_all-total_size (padding (length m)) (feed_all m fresh) s.total_size)
            ∙ ap (λ t. t.state)
                (sym (feed_all-append m (padding (length m)) fresh)
                  ∙ feed_all-blocks (length (padded m) / 64) (padded m) initial 0 (length-padded m))
            ∙ ap (hash_blocks (length (padded m) / 64) (padded m)) initial-initial_hash)))
