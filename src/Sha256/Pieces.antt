-- ===== src/Sha256/Pieces.antt =====
-- Sha256.cpp: the hash does not depend on the pieces in which the bytes come, and it is the hash of
-- the standard, block by block over the padded message.
use styio_platform.Base.{
  ℕ, zero, suc, ◌+◌, ◌-◌, ◌≤◌, ◌<◌, ◌≡◌, refl, sym, ap, ◌∙◌, inl, inr, true, false, some, List, [],
  ◌∷◌, ◌++◌, arith, eqb, eqb_iff, ltb, length, length-append, Bool-cases, append_assoc, append-nil,
}
use styio_platform.Sha256.Words.{transform, take, drop}
use styio_platform.Sha256.{Sha256, absorb, chunk_size, update_loop}

-- The bytes one by one.
unfoldable pub feed_all : List ℕ → Sha256 → Sha256
feed_all [] s = s
feed_all (x ∷ xs) s = feed_all xs (absorb (x ∷ []) s)

pub feed_all-append :
    (xs ys : List ℕ) (s : Sha256) → feed_all (xs ++ ys) s ≡ feed_all ys (feed_all xs s)
unfolding feed_all
feed_all-append [] ys s = refl
feed_all-append (x ∷ xs) ys s = feed_all-append xs ys (absorb (x ∷ []) s)

pub absorb-short :
    (c : List ℕ) (s : Sha256)
    → length s.buffer + length c < 64
    → absorb c s ≡ record s { buffer = s.buffer ++ c }
unfolding absorb
absorb-short c s h =
    let e : eqb (length (s.buffer ++ c)) 64 ≡ false = ground (arith, length-append s.buffer c) in
    rw e refl

pub absorb-full :
    (c : List ℕ) (s : Sha256)
    → length s.buffer + length c ≡ 64
    → absorb c s ≡ record s { state = transform (s.buffer ++ c) s.state; buffer = [] }
unfolding absorb
absorb-full c s h =
    let e : eqb (length (s.buffer ++ c)) 64 ≡ true = ground (arith, length-append s.buffer c) in
    rw e refl

absorb-cons :
    (x : ℕ) (xs : List ℕ) (s : Sha256)
    → absorb (x ∷ xs) s ≡ absorb xs (record s { buffer = s.buffer ++ x ∷ [] })
unfolding absorb
absorb-cons x xs s = rw (append_assoc s.buffer (x ∷ []) xs) refl

-- A chunk that fits into the buffer is taken as its bytes are.
pub absorb-feed_all :
    (xs : List ℕ) (s : Sha256)
    → length s.buffer < 64
    → length s.buffer + length xs ≤ 64
    → absorb xs s ≡ feed_all xs s
unfolding feed_all
absorb-feed_all [] s h k =
    absorb-short [] s (omega (arith, h)) ∙ ap (λ b. record s { buffer = b }) (append-nil s.buffer)
absorb-feed_all (x ∷ []) s h k = refl
absorb-feed_all (x ∷ y ∷ xs) s h k =
    let t : Sha256 = record s { buffer = s.buffer ++ x ∷ [] } in
    let n = length-append s.buffer (x ∷ []) in
    absorb-cons x (y ∷ xs) s
    ∙ absorb-feed_all (y ∷ xs) t (omega (arith, n, k)) (omega (arith, n, k))
    ∙ ap (feed_all (y ∷ xs)) (sym (absorb-short (x ∷ []) s (omega (arith, k))))

pub take-drop : (n : ℕ) (xs : List ℕ) → take n xs ++ drop n xs ≡ xs
take-drop zero xs = refl
take-drop (suc n) [] = refl
take-drop (suc n) (x ∷ xs) = rw (take-drop n xs)

pub length-take : (n : ℕ) (xs : List ℕ) → n ≤ length xs → length (take n xs) ≡ n
length-take zero xs h = refl
length-take (suc n) [] h = omega (arith, h)
length-take (suc n) (x ∷ xs) h = let e = length-take n xs (omega (arith, h)) in omega (arith, e)

pub length-drop : (n : ℕ) (xs : List ℕ) → length (drop n xs) ≡ length xs - n
length-drop zero xs = omega arith
length-drop (suc n) [] = omega arith
length-drop (suc n) (x ∷ xs) = let e = length-drop n xs in omega (arith, e)

pub absorb-bounded :
    (c : List ℕ) (s : Sha256) → length s.buffer + length c ≤ 64 → length (absorb c s).buffer < 64
absorb-bounded c s h = elim (Bool-cases (eqb (length s.buffer + length c) 64)) [
  | inl full ↦ rw (absorb-full c s ((eqb_iff _ _).0 full)) (omega arith)
  | inr short ↦
      rw (absorb-short c s (ground arith)) (let e = length-append s.buffer c in ground arith)
]

pub feed_all-bounded :
    (xs : List ℕ) (s : Sha256) → length s.buffer < 64 → length (feed_all xs s).buffer < 64
unfolding feed_all
feed_all-bounded [] s h = h
feed_all-bounded (x ∷ xs) s h =
    feed_all-bounded xs (absorb (x ∷ []) s) (absorb-bounded (x ∷ []) s (omega (arith, h)))

absorb-total_size :
    (c : List ℕ) (s : Sha256) (n : ℕ)
    → absorb c (record s { total_size = n }) ≡ record (absorb c s) { total_size = n }
unfolding absorb
absorb-total_size c s n = elim (Bool-cases (eqb (length (s.buffer ++ c)) 64)) [
  | inl full ↦ rw full refl
  | inr short ↦ rw short refl
]

pub feed_all-total_size :
    (xs : List ℕ) (s : Sha256) (n : ℕ)
    → feed_all xs (record s { total_size = n }) ≡ record (feed_all xs s) { total_size = n }
unfolding feed_all
feed_all-total_size [] s n = refl
feed_all-total_size (x ∷ xs) s n =
    ap (feed_all xs) (absorb-total_size (x ∷ []) s n) ∙ feed_all-total_size xs (absorb (x ∷ []) s) n

record Fits (buffer_size left : ℕ) : Type 0 where
  some_bytes : 0 < chunk_size buffer_size left
  there : chunk_size buffer_size left ≤ left
  room : buffer_size + chunk_size buffer_size left ≤ 64

chunk_size-Fits : (b n : ℕ) → b < 64 → 0 < n → Fits b n
unfolding chunk_size
chunk_size-Fits b n h k = elim (Bool-cases (ltb (64 - b) n)) [
  | inl more ↦ record { some_bytes = ground arith; there = ground arith; room = ground arith }
  | inr all ↦ record { some_bytes = ground arith; there = ground arith; room = ground arith }
]

-- The loop of Update ends, and takes the bytes one by one.
pub update_loop-feed_all :
    (fuel : ℕ) (xs : List ℕ) (s : Sha256)
    → length s.buffer < 64
    → length xs ≤ fuel
    → update_loop fuel xs s ≡ some (feed_all xs s)
unfolding update_loop
update_loop-feed_all zero [] s h k = unfold feed_all in refl
update_loop-feed_all (suc fuel) [] s h k = unfold feed_all in refl
update_loop-feed_all zero (x ∷ xs) s h k = absurd (omega (arith, k))
update_loop-feed_all (suc fuel) (x ∷ xs) s h k =
    let c = chunk_size (length s.buffer) (suc (length xs)) in
    let f = chunk_size-Fits (length s.buffer) (suc (length xs)) h (omega arith) in
    let n = length-take c (x ∷ xs) f.there in
    let d = length-drop c (x ∷ xs) in
    let chunk = take c (x ∷ xs) in
    let rest = drop c (x ∷ xs) in
    ap (update_loop fuel rest) (absorb-feed_all chunk s h (omega (arith, n, f.room)))
    ∙ update_loop-feed_all fuel rest (feed_all chunk s) (feed_all-bounded chunk s h)
        (omega (arith, d, f.some_bytes, k))
    ∙ ap some (sym (feed_all-append chunk rest s) ∙ ap (λ m. feed_all m s) (take-drop c (x ∷ xs)))
