-- ===== src/Base/Dict/Sorted.antt =====
-- Maps whose keys stand in increasing order, each once, as those of `std::map` do.
use mathlib.Core.Path.{◌≡◌}
use mathlib.Core.Logic.{◌⊎◌}
use Prim.Native.String.{String}
use text.Mathlib.TextEquality.{eq_iff}
use mathlib.Core.Bool.{Bool, true}
use mathlib.Core.Option.{some}
use mathlib.Core.List.{[], ◌∷◌}
use native.Mathlib.Omega.{arith}
use styio_platform.Base.Order.{text_lt, text_lt_irrefl, text_lt_trans, text_lt_connected}
use styio_platform.Base.Dict.{Dict, get, put, erase, find_first}

module _ {ℓ} {V : Type ℓ} where
  -- Every key is greater than `k`.
  abbrev pub Above : String → Dict V → Type 0
  Above k [] = Unit
  Above k ((j, v) ∷ m) = (text_lt k j ≡ true) × Above k m

  abbrev pub IsSorted : Dict V → Type 0
  IsSorted [] = Unit
  IsSorted ((j, v) ∷ m) = Above j m × IsSorted m

  Above-trans : (i j : String) (m : Dict V) → text_lt i j ≡ true → Above j m → Above i m
  Above-trans i j [] h a = tt
  Above-trans i j ((k, v) ∷ m) h a = (text_lt_trans i j k h a.0, Above-trans i j m h a.1)

  Above-put :
      (i k : String) (v : V) (m : Dict V) → text_lt i k ≡ true → Above i m → Above i (put k v m)
  unfolding put
  Above-put i k v [] h a = (h, tt)
  Above-put i k v ((j, w) ∷ m) h a = ground (arith, Above-put i k v m h a.1)

  pub put-IsSorted : (k : String) (v : V) (m : Dict V) → IsSorted m → IsSorted (put k v m)
  unfolding put
  put-IsSorted k v [] s = (tt, tt)
  put-IsSorted k v ((j, w) ∷ m) s = ground (
    arith,
    eq_iff j k,
    put-IsSorted k v m s.1,
    Above-put j k v m,
    text_lt_connected j k,
    Above-trans k j m,
  )

  Above-erase : (i k : String) (m : Dict V) → Above i m → Above i (erase k m)
  unfolding erase
  Above-erase i k [] a = tt
  Above-erase i k ((j, w) ∷ m) a = ground (arith, Above-erase i k m a.1)

  pub erase-IsSorted : (k : String) (m : Dict V) → IsSorted m → IsSorted (erase k m)
  unfolding erase
  erase-IsSorted k [] s = tt
  erase-IsSorted k ((j, w) ∷ m) s = ground (arith, erase-IsSorted k m s.1, Above-erase j k m s.0)

  get-Above :
      (i k : String) (v : V) (m : Dict V) → Above i m → get k m ≡ some v → text_lt i k ≡ true
  unfolding get
  get-Above i k v [] a h = cc
  get-Above i k v ((j, w) ∷ m) a h = ground (arith, eq_iff j k, get-Above i k v m a.1)

  -- In a sorted map the first hit is the entry with the least key.
  pub find_first-get :
      (p : V → Bool) (m : Dict V) (k : String) (v : V)
      → IsSorted m
      → find_first p m ≡ some (k, v)
      → get k m ≡ some v
  unfolding find_first get
  find_first-get p [] k v s h = cc
  find_first-get p ((j, w) ∷ m) k v s h =
      ground
        (arith, eq_iff j k, text_lt_irrefl k, find_first-get p m k v s.1, get-Above j k v m s.0)

  pub find_first-least :
      (p : V → Bool) (m : Dict V) (k i : String) (v u : V)
      → IsSorted m
      → find_first p m ≡ some (k, v)
      → get i m ≡ some u
      → p u ≡ true
      → (k ≡ i) ⊎ (text_lt k i ≡ true)
  unfolding find_first get
  find_first-least p [] k i v u s h g q = cc
  find_first-least p ((j, w) ∷ m) k i v u s h g q =
      ground (arith, eq_iff j i, get-Above j i u m s.0, find_first-least p m k i v u s.1)
