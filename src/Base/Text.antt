-- ===== src/Base/Text.antt =====
-- Texts character by character: prefixes, character tests, and std::getline with a delimiter.
use Prim.Native.Char.{Char, code}
use Prim.Native.String.{String, ◌++◌ as concat}
use Prim.Native.String.append
use mathlib.Core.Path.{◌≡◌, ◌∙◌, refl, sym, ap}
use mathlib.Core.Logic.{◌≢◌, inl, inr}
use text.Mathlib.Text.{◌==◌}
use mathlib.Core.Bool.{Bool, true, false, not, ◌&&◌}
use mathlib.Core.Option.{Option, none, some, some-injective}
use mathlib.Core.List.{List, [], ◌∷◌}
use native.Mathlib.Omega.{arith}
use text.Mathlib.TextEquality.{eq_iff, Char-path}
use text.Mathlib.TextPositions.{eq_refl}
use styio_platform.Base.Tests.{eqb, eqb_iff, Bool-cases, if◌then◌else◌}
use styio_platform.Base.Lists.{All}

abbrev pub same_char : Char → Char → Bool
same_char c d = eqb (code c) (code d)

-- `s.starts_with(p)` and then `s.substr(p.size())`
unfoldable pub strip_prefix : String → String → Option String
strip_prefix String.[] s = some s
strip_prefix (String.◌∷◌ c p) String.[] = none
strip_prefix (String.◌∷◌ c p) (String.◌∷◌ d s) =
    let rest = strip_prefix p s in if same_char c d then rest else none

unfoldable pub all_chars : (Char → Bool) → String → Bool
all_chars p String.[] = true
all_chars p (String.◌∷◌ c s) = p c && all_chars p s

-- `if (!item.empty()) parts.push_back(item);`
abbrev pub push_item : String → List String → List String
push_item item parts = if item == "" then parts else item ∷ parts

-- The item that `s` starts with, and the items after its first delimiter.
unfoldable pub first_item : Char → String → String × List String
first_item d String.[] = ("", [])
first_item d (String.◌∷◌ c s) =
    let (item, parts) = first_item d s in
    if same_char c d then ("", push_item item parts) else (String.◌∷◌ c item, parts)

-- The loop over std::getline(stream, item, d) that keeps the items that are not empty.
unfoldable pub split_items : Char → String → List String
unfolding first_item
split_items d s = let (item, parts) = first_item d s in push_item item parts

pub strip_prefix-concat : (p s : String) → strip_prefix p (concat p s) ≡ some s
unfolding strip_prefix
strip_prefix-concat String.[] s = rw (append.nil s) refl
strip_prefix-concat (String.◌∷◌ c p) s =
    rw (append.cons c p s) (ground (arith, strip_prefix-concat p s))

pub strip_prefix_sound : (p s r : String) → strip_prefix p s ≡ some r → s ≡ concat p r
unfolding strip_prefix
strip_prefix_sound String.[] s r h = some-injective _ _ h ∙ sym (append.nil r)
strip_prefix_sound (String.◌∷◌ c p) String.[] r h = cc
strip_prefix_sound (String.◌∷◌ c p) (String.◌∷◌ d s) r h =
    let e : c ≡ d = Char-path c d (ground arith) in
    let rest : strip_prefix p s ≡ some r = ground arith in
    rw (append.cons c p r, e) (ap (String.◌∷◌ d) (strip_prefix_sound p s r rest))

pub same_char_refl : (d : Char) → same_char d d ≡ true
same_char_refl d = ground (arith, eqb_iff (code d) (code d))

pub and-split : {a b : Bool} → (a && b) ≡ true → (a ≡ true) × (b ≡ true)
and-split h = ground arith

not-true : {a : Bool} → not a ≡ true → a ≡ false
not-true h = ground arith

is_empty-false : (s : String) → s ≢ "" → (s == "") ≡ false
is_empty-false s n = elim (Bool-cases (s == "")) [
  | inl e ↦ absurd (n ((eq_iff s "").0 e))
  | inr e ↦ e
]

-- A text that std::getline gives whole: not empty, and without the delimiter.
abbrev pub IsItem : Char → String → Type 0
IsItem d s = (all_chars (λ c. not (same_char c d)) s ≡ true) × (s ≢ "")

first_item-concat :
    (d : Char) (s t : String)
    → all_chars (λ c. not (same_char c d)) s ≡ true
    → first_item d (concat s (String.◌∷◌ d t)) ≡ (s, split_items d t)
unfolding first_item split_items all_chars
first_item-concat d String.[] t h = rw (append.nil (String.◌∷◌ d t)) (rw (same_char_refl d) refl)
first_item-concat d (String.◌∷◌ c s) t h = rw (append.cons c s (String.◌∷◌ d t)) (
    let (kept, more) = and-split h in
    let other : same_char c d ≡ false = not-true kept in
    rw (other, first_item-concat d s t more) refl)

first_item-whole :
    (d : Char) (s : String)
    → all_chars (λ c. not (same_char c d)) s ≡ true
    → first_item d s ≡ (s, [])
unfolding first_item all_chars
first_item-whole d String.[] h = refl
first_item-whole d (String.◌∷◌ c s) h =
    let (kept, more) = and-split h in
    let other : same_char c d ≡ false = not-true kept in rw (other, first_item-whole d s more) refl

-- An item before a delimiter is the first one of the split.
pub split_items-concat :
    (d : Char) (s t : String)
    → IsItem d s
    → split_items d (concat s (String.◌∷◌ d t)) ≡ s ∷ split_items d t
unfolding split_items
split_items-concat d s t h = rw (first_item-concat d s t h.0, is_empty-false s h.1) refl

pub split_items-whole : (d : Char) (s : String) → IsItem d s → split_items d s ≡ s ∷ []
unfolding split_items
split_items-whole d s h = rw (first_item-whole d s h.0, is_empty-false s h.1) refl

-- Every part of a split is an item.
pub push_item-IsItem :
    (d : Char) (item : String) (parts : List String)
    → all_chars (λ c. not (same_char c d)) item ≡ true
    → All (IsItem d) parts
    → All (IsItem d) (push_item item parts)
push_item-IsItem d item parts h ps = elim (Bool-cases (item == "")) [
  | inl empty ↦ rw empty ps
  | inr full ↦ rw full ((h, λ e. cc (full, eq_refl item, e)), ps)
]

first_item-IsItem :
    (d : Char) (s : String)
    → (all_chars (λ c. not (same_char c d)) (first_item d s).0 ≡ true)
      × All (IsItem d) (first_item d s).1
unfolding first_item all_chars
first_item-IsItem d String.[] = (refl, tt)
first_item-IsItem d (String.◌∷◌ c s) =
    let (clean, items) = first_item-IsItem d s in
    elim (Bool-cases (same_char c d)) [
      | inl same ↦
          rw same (refl, push_item-IsItem d (first_item d s).0 (first_item d s).1 clean items)
      | inr other ↦ rw other (rw other clean, items)
    ]

pub split_items-IsItem : (d : Char) (s : String) → All (IsItem d) (split_items d s)
unfolding split_items
split_items-IsItem d s =
    let (clean, items) = first_item-IsItem d s in
    push_item-IsItem d (first_item d s).0 (first_item d s).1 clean items
