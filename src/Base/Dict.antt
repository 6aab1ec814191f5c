-- ===== src/Base/Dict.antt =====
-- `std::map<std::string, V>`: an association list in the order of its keys.
pub mod Sorted
use Prim.Native.String.{String}
use text.Mathlib.TextEquality.{eq_iff}
use mathlib.Core.Path.{◌≡◌, refl, ap}
use mathlib.Core.Logic.{◌⊎◌, inl, inr}
use text.Mathlib.Text.{◌==◌}
use mathlib.Core.Bool.{Bool, true, false}
use mathlib.Core.Option.{Option, none, some, some-injective}
use mathlib.Core.List.{List, [], ◌∷◌}
use native.Mathlib.Omega.{arith}
use styio_platform.Base.Tests.{if◌then◌else◌, is_some, Bool-cases}
use styio_platform.Base.Order.{text_lt}

abbrev pub Dict {ℓ} : Type ℓ → Type ℓ
Dict V = List (String × V)

module _ {ℓ} {V : Type ℓ} where
  -- `m.find(k)`
  unfoldable pub get : String → Dict V → Option V
  get k [] = none
  get k ((j, v) ∷ m) = if j == k then some v else get k m

  -- `m[k] = v`
  unfoldable pub put : String → V → Dict V → Dict V
  put k v [] = (k, v) ∷ []
  put k v ((j, w) ∷ m) =
      if j == k then (k, v) ∷ m else if text_lt k j then (k, v) ∷ (j, w) ∷ m else (j, w) ∷ put k v m

  -- `m.erase(k)`
  unfoldable pub erase : String → Dict V → Dict V
  erase k [] = []
  erase k ((j, v) ∷ m) = let rest = erase k m in if j == k then rest else (j, v) ∷ rest

  -- `m.contains(k)`
  abbrev pub contains : String → Dict V → Bool
  contains k m = is_some (get k m)

  -- `for (auto &[key, value] : m)`, keeping the values
  abbrev pub values : Dict V → List V
  values [] = []
  values ((j, v) ∷ m) = v ∷ values m

  pub get-put :
      (k j : String) (v : V) (m : Dict V) → get j (put k v m) ≡ (if k == j then some v else get j m)
  unfolding get put
  get-put k j v [] = refl
  get-put k j v ((i, w) ∷ m) = ground (arith, eq_iff k j, eq_iff i k, eq_iff i j, get-put k j v m)

  pub get-erase :
      (k j : String) (m : Dict V) → get j (erase k m) ≡ (if k == j then none else get j m)
  unfolding get erase
  get-erase k j [] = ground arith
  get-erase k j ((i, w) ∷ m) = ground (arith, eq_iff k j, eq_iff i k, eq_iff i j, get-erase k j m)

  -- The first entry, in the map's order, that passes a test: a loop that returns at its first hit.
  unfoldable pub find_first : (V → Bool) → Dict V → Option (String × V)
  find_first p [] = none
  find_first p ((j, v) ∷ m) = if p v then some (j, v) else find_first p m

  -- What a loop over the map finds passes the test.
  pub find_first_sound :
      (p : V → Bool) (m : Dict V) (k : String) (v : V) → find_first p m ≡ some (k, v) → p v ≡ true
  unfolding find_first
  find_first_sound p [] k v h = cc
  find_first_sound p ((j, w) ∷ m) k v h = ground (arith, find_first_sound p m k v)

  pub find_first-none :
      (p : V → Bool) (m : Dict V) (k : String) (v : V)
      → find_first p m ≡ none
      → get k m ≡ some v
      → p v ≡ false
  unfolding find_first get
  find_first-none p [] k v h g = cc
  find_first-none p ((j, w) ∷ m) k v h g = ground (arith, find_first-none p m k v)

module _ {V : Type 0} where
  -- An entry of the map, at whatever place it stands.
  abbrev pub HasEntry : String → V → Dict V → Type 0
  HasEntry k v [] = ⊥
  HasEntry k v ((j, w) ∷ m) = ((j ≡ k) × (w ≡ v)) ⊎ HasEntry k v m

  pub find_first-HasEntry :
      (p : V → Bool) (m : Dict V) (k : String) (v : V)
      → find_first p m ≡ some (k, v)
      → HasEntry k v m
  unfolding find_first
  find_first-HasEntry p [] k v h = cc
  find_first-HasEntry p ((j, w) ∷ m) k v h = elim (Bool-cases (p w)) [
    | inl found ↦
        let e : (j, w) ≡ (k, v) = some-injective _ _ (rw (find_first, found) at h) in
        inl (ap (λ (x : String × V). x.0) e, ap (λ (x : String × V). x.1) e)
    | inr later ↦ inr (find_first-HasEntry p m k v (rw (find_first, later) at h))
  ]
