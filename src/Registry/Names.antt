-- ===== src/Registry/Names.antt =====
-- ValidatePackageName and PackagePatternMatches (RegistryIdentifiers.hpp).
use Prim.Native.Char.{Char, code}
use Prim.Native.String.append
use mathlib.Core.Option.{some-injective}
use text.Mathlib.TextEquality.{Char-path}
use styio_platform.Base.{
  String, concat, ◌≡◌, ◌↔◌, ◌⊎◌, inl, inr, refl, sym, ap, ◌∙◌, Bool, true, false, ◌&&◌, ◌||◌,
  Option, none, some, ◌==◌, arith, eq_iff, Bool-cases, Option-cases, eqb,
}
use styio_platform.Base.Text.{strip_prefix, strip_prefix_sound, all_chars, and-split}
use styio_platform.Registry.{
  is_lower, is_digit, is_safe_lowercase_identifier, cut_at_slash, refusal, validate_package_name,
  namespace_of, package_pattern_matches,
}

abbrev pub slash : String → String
slash s = String.◌∷◌ "/" s

is_slash : (c : Char) → eqb (code c) (code "/") ≡ true → c ≡ "/"
is_slash c h = Char-path c "/" (ground arith)

cut_at_slash_sound : (s l r : String) → cut_at_slash s ≡ some (l, r) → s ≡ concat l (slash r)
unfolding cut_at_slash
cut_at_slash_sound String.[] l r h = cc
cut_at_slash_sound (String.◌∷◌ c s) l r h = elim (Bool-cases (eqb (code c) (code "/"))) [
  | inl here ↦
      let e : ("", s) ≡ (l, r) = some-injective _ _ (rw (cut_at_slash, here) at h) in
      rw
        (
          is_slash c here,
          ← ap (λ (x : String × String). x.0) e,
          ← ap (λ (x : String × String). x.1) e,
        )
        (sym (append.nil (slash s)))
  | inr later ↦ elim (Option-cases (cut_at_slash s)) [
    | inl e ↦ cc (rw (cut_at_slash, later, e) at h)
    | inr ((m, q), e) ↦
        let f : (String.◌∷◌ c m, q) ≡ (l, r) =
          some-injective _ _ (rw (cut_at_slash, later, e) at h) in
        rw (← ap (λ (x : String × String). x.0) f, ← ap (λ (x : String × String). x.1) f)
          (ap (String.◌∷◌ c) (cut_at_slash_sound s m q e) ∙ sym (append.cons c m (slash q)))
  ]
]

abbrev pub is_safe_char : Char → Bool
is_safe_char c = is_lower c || is_digit c || eqb (code c) (code "-") || eqb (code c) (code "_")

safe_char-slash : (c : Char) → is_safe_char c ≡ true → eqb (code c) (code "/") ≡ false
safe_char-slash c h = ground arith

safe-cut_at_slash : (s : String) → all_chars is_safe_char s ≡ true → cut_at_slash s ≡ none
unfolding cut_at_slash all_chars
safe-cut_at_slash String.[] h = refl
safe-cut_at_slash (String.◌∷◌ c s) h =
    rw (safe_char-slash c (ground arith), safe-cut_at_slash s (ground arith)) refl

pub cut_at_slash-concat :
    (s t : String)
    → all_chars is_safe_char s ≡ true
    → cut_at_slash (concat s (slash t)) ≡ some (s, t)
unfolding cut_at_slash all_chars
cut_at_slash-concat String.[] t h = rw (append.nil (slash t)) refl
cut_at_slash-concat (String.◌∷◌ c s) t h =
    rw (append.cons c s (slash t))
      (rw (safe_char-slash c (ground arith), cut_at_slash-concat s t (ground arith)) refl)

namespace_of_sound :
    (s p : String)
    → namespace_of s ≡ some p
    → (space : String) × (s ≡ concat space "/*") × (p ≡ concat space "/")
unfolding namespace_of
namespace_of_sound String.[] p h = cc
namespace_of_sound (String.◌∷◌ c s) p h = elim (Bool-cases (eqb (code c) (code "/") && s == "*")) [
  | inl here ↦
      let first : String.◌∷◌ c s ≡ "/*" =
        rw (is_slash c (ground arith), (eq_iff s "*").0 (ground arith)) refl in
      let rest : p ≡ "/" = sym (some-injective _ _ (rw (namespace_of, here) at h)) in
      ("", first, rest)
  | inr later ↦ elim (Option-cases (namespace_of s)) [
    | inl e ↦ cc (rw (namespace_of, later, e) at h)
    | inr (q, e) ↦
        let (space, f, g) = namespace_of_sound s q e in
        (
          String.◌∷◌ c space,
          ap (String.◌∷◌ c) f ∙ sym (append.cons c space "/*"),
          sym (some-injective _ _ (rw (namespace_of, later, e) at h))
              ∙ ap (String.◌∷◌ c) g
              ∙ sym (append.cons c space "/"),
        )
  ]
]

-- A pattern other than "*" matches the package that it names and, where it is a namespace followed
-- by "/*", the packages of that namespace; it matches nothing else.
pub package_pattern_matches_sound :
    (pattern_text package_id : String)
    → package_pattern_matches pattern_text package_id ≡ true
    → (pattern_text ≡ "*")
      ⊎ (pattern_text ≡ package_id)
      ⊎ ((space : String) × (name : String) × (pattern_text ≡ concat space "/*")
          × (package_id ≡ concat (concat space "/") name))
unfolding package_pattern_matches
package_pattern_matches_sound pattern_text package_id h = elim (Bool-cases (pattern_text == "*")) [
  | inl all ↦ inl ((eq_iff pattern_text "*").0 all)
  | inr part ↦ elim (Option-cases (namespace_of pattern_text)) [
    | inl e ↦
        inr (inl ((eq_iff pattern_text package_id).0 (rw (package_pattern_matches, part, e) at h)))
    | inr (prefix, e) ↦
        let (space, f, g) = namespace_of_sound pattern_text prefix e in
        elim (Option-cases (strip_prefix prefix package_id)) [
          | inl k ↦ cc (rw (package_pattern_matches, part, e, k) at h)
          | inr (name, k) ↦ inr (
              inr (
                space,
                name,
                f,
                strip_prefix_sound prefix package_id name k ∙ ap (λ p. concat p name) g,
              ))
        ]
  ]
]

pub safe-chars :
    (s : String) → is_safe_lowercase_identifier s ≡ true → all_chars is_safe_char s ≡ true
unfolding is_safe_lowercase_identifier
safe-chars String.[] h = cc
safe-chars (String.◌∷◌ c s) h = (and-split h).1

refusal-none :
    (o : Option (String × String))
    → refusal o ≡ none
    → (space : String) × (name : String) × (o ≡ some (space, name))
      × (is_safe_lowercase_identifier space ≡ true)
      × (is_safe_lowercase_identifier name ≡ true)
unfolding refusal
refusal-none none h = cc
refusal-none (some (space, name)) h = (space, name, refl, ground arith, ground arith)

refusal-safe :
    (space name : String)
    → is_safe_lowercase_identifier space ≡ true
    → is_safe_lowercase_identifier name ≡ true
    → refusal (some (space, name)) ≡ none
unfolding refusal
refusal-safe space name left right =
    rw (safe-cut_at_slash name (safe-chars name right), left, right) refl

-- A package name is accepted exactly if it is a namespace and a name around one slash, both of
-- them safe lowercase identifiers.
pub validate_package_name-none :
    (package_id : String)
    → (validate_package_name package_id ≡ none) ↔ (
        (space : String) × (name : String) × (package_id ≡ concat space (slash name))
        × (is_safe_lowercase_identifier space ≡ true)
        × (is_safe_lowercase_identifier name ≡ true))
unfolding validate_package_name
validate_package_name-none package_id = (
  λ h.
      let (space, name, e, left, right) = refusal-none (cut_at_slash package_id) h in
      (space, name, cut_at_slash_sound package_id space name e, left, right),
  λ (space, name, e, left, right).
      ap refusal (ap cut_at_slash e ∙ cut_at_slash-concat space name (safe-chars space left))
      ∙ refusal-safe space name left right,
)
