-- ===== src/Manifest/Print/Quoted.antt =====
-- Manifest.cpp: the texts that QuoteTomlString writes, and how a reader of TOML takes them back.
use Prim.Native.String.append
use Prim.Native.Char.{Char}
use text.Mathlib.TextLemmas.{append_assoc}
use styio_platform.Base.{
  String, ◌≡◌, refl, ap, inl, inr, ◌∙◌, Bool, true, false, ◌||◌, Option, none, some, concat, arith,
  if◌then◌else◌, Bool-cases,
}
use styio_platform.Base.Text.{same_char}
use styio_platform.Manifest.Print.{escaped, quote_toml_string}

abbrev before : Char → Option (String × String) → Option (String × String)
before c none = none
before c (some (value, rest)) = some (String.◌∷◌ c value, rest)

-- A basic string of TOML behind its opening quote, up to the closing one, and what follows it. A
-- backslash stands for the character behind it, which is all that std::quoted writes.
unfoldable pub read_basic : Bool → String → Option (String × String)
read_basic escape String.[] = none
read_basic true (String.◌∷◌ c s) = before c (read_basic false s)
read_basic false (String.◌∷◌ c s) =
    let plain = before c (read_basic false s) in
    let behind = read_basic true s in
    if same_char c "\\" then behind else if same_char c "\"" then some ("", s) else plain

unfoldable pub read_toml_string : String → Option (String × String)
unfolding read_basic
read_toml_string String.[] = none
read_toml_string (String.◌∷◌ c s) = if same_char c "\"" then read_basic false s else none

abbrev ending : String → String
ending rest = String.◌∷◌ "\"" rest

read_basic-special :
    (c : Char) (t : String)
    → read_basic false (String.◌∷◌ "\\" (String.◌∷◌ c t)) ≡ before c (read_basic false t)
unfolding read_basic
read_basic-special c t = refl

read_basic-plain :
    (c : Char) (t : String)
    → (same_char c "\"" || same_char c "\\") ≡ false
    → read_basic false (String.◌∷◌ c t) ≡ before c (read_basic false t)
unfolding read_basic
read_basic-plain c t h = ground arith

escaped-special :
    (c : Char) (value t : String)
    → (same_char c "\"" || same_char c "\\") ≡ true
    → concat (escaped (String.◌∷◌ c value)) t
      ≡ String.◌∷◌ "\\" (String.◌∷◌ c (concat (escaped value) t))
unfolding escaped
escaped-special c value t h = rw h (
    append.cons "\\" (String.◌∷◌ c (escaped value)) t
    ∙ ap (String.◌∷◌ "\\") (append.cons c (escaped value) t))

escaped-plain :
    (c : Char) (value t : String)
    → (same_char c "\"" || same_char c "\\") ≡ false
    → concat (escaped (String.◌∷◌ c value)) t ≡ String.◌∷◌ c (concat (escaped value) t)
unfolding escaped
escaped-plain c value t h = rw h (append.cons c (escaped value) t)

read_basic-escaped :
    (value rest : String)
    → read_basic false (concat (escaped value) (ending rest)) ≡ some (value, rest)
unfolding read_basic escaped
read_basic-escaped String.[] rest = rw (append.nil (ending rest)) refl
read_basic-escaped (String.◌∷◌ c value) rest =
    let t = concat (escaped value) (ending rest) in
    elim (Bool-cases (same_char c "\"" || same_char c "\\")) [
      | inl special ↦
          ap (read_basic false) (escaped-special c value (ending rest) special)
          ∙ read_basic-special c t
          ∙ ap (before c) (read_basic-escaped value rest)
      | inr plain ↦
          ap (read_basic false) (escaped-plain c value (ending rest) plain)
          ∙ read_basic-plain c t plain
          ∙ ap (before c) (read_basic-escaped value rest)
    ]

one_quote : (rest : String) → concat "\"" rest ≡ ending rest
one_quote rest = append.cons "\"" "" rest ∙ ap (String.◌∷◌ "\"") (append.nil rest)

-- A reader that undoes the two escapes, and takes each other character as it stands, reads from what
-- QuoteTomlString writes the very text, and leaves what follows it.
pub read_toml_string-quote_toml_string :
    (value rest : String)
    → read_toml_string (concat (quote_toml_string value) rest) ≡ some (value, rest)
unfolding read_toml_string quote_toml_string
read_toml_string-quote_toml_string value rest =
    let joined : concat (quote_toml_string value) rest
        ≡ String.◌∷◌ "\"" (concat (escaped value) (ending rest)) =
      append.cons "\"" (concat (escaped value) "\"") rest
      ∙ ap (String.◌∷◌ "\"")
          (append_assoc (escaped value) "\"" rest ∙ ap (concat (escaped value)) (one_quote rest)) in
    ap read_toml_string joined ∙ read_basic-escaped value rest
