-- ===== src/Json.antt =====
-- nlohmann::json as the sources use it: an interface, since the library is not part of the
-- repository, with the library's documented behaviour as its laws. `Json.Tree` meets it.
pub mod Tree
use styio_platform.Base.{
  ℕ, String, ◌≡◌, Bool, true, false, ◌&&◌, not, Option, none, some, List, [], ◌∷◌, ◌==◌,
  if◌then◌else◌, is_some, Result, ok, err, ◌>>=◌,
}
use styio_platform.Base.Dict.{get}

-- A C++ `int`; `negsuc n` is -(n + 1).
pub data ℤ : Type 0 where
  pos : ℕ → ℤ
  negsuc : ℕ → ℤ

-- `n < 1`
abbrev pub lt_one : ℤ → Bool
lt_one (ℤ.pos ℕ.zero) = true
lt_one (ℤ.pos (ℕ.suc n)) = not true
lt_one (ℤ.negsuc n) = true

pub record Json : Type 1 where
  pub Value : Type 0
  -- json()
  pub null : Value
  pub string : String → Value
  pub number : ℤ → Value
  pub boolean : Bool → Value
  pub array : List Value → Value
  -- json{{"k", v}, …}
  pub object : List (String × Value) → Value
  -- v["k"] = w on an object
  pub set : Value → String → Value → Value
  pub is_object : Value → Bool
  pub is_string : Value → Bool
  pub is_array : Value → Bool
  pub is_number_integer : Value → Bool
  pub is_empty : Value → Bool
  -- v.find("k"); `none` also on a value that is no object
  pub find : Value → String → Option Value
  -- the entries that `for (entry : v)` visits
  pub entries : Value → List Value
  -- v.get<std::string>() and v.get<int>(), which throw on another kind
  pub get_string : Value → Result String
  pub get_int : Value → Result ℤ
  pub is_object-object : (fs : List (String × Value)) → is_object (object fs) ≡ true
  pub find-object : (fs : List (String × Value)) (k : String) → find (object fs) k ≡ get k fs
  pub is_object-set : (v w : Value) (k : String) → is_object v ≡ true → is_object (set v k w) ≡ true
  pub find-set :
      (v w : Value) (k j : String)
      → is_object v ≡ true
      → find (set v k w) j ≡ (if k == j then some w else find v j)
  pub is_string-string : (s : String) → is_string (string s) ≡ true
  pub get_string-string : (s : String) → get_string (string s) ≡ ok s
  pub is_string-object : (fs : List (String × Value)) → is_string (object fs) ≡ false
  pub is_number_integer-number : (n : ℤ) → is_number_integer (number n) ≡ true
  pub get_string-is_string : (v : Value) → is_string v ≡ true → (s : String) × (get_string v ≡ ok s)

module _ (J : Json) where
  open J use {Value, is_object, is_string, find, get_string, get_int}

  -- v.contains("k")
  abbrev pub contains : Value → String → Bool
  contains v k = is_some (find v k)

  -- v.at("k"), which throws where the key is missing
  abbrev pub at : Value → String → Result Value
  at v k = elim (find v k) [ none ↦ err "key not found" | some w ↦ ok w ]

  -- v["k"].get<std::string>() behind a test for the key
  abbrev pub field : Value → String → Result String
  field v k = at v k >>= get_string

  -- v.value("k", fallback), which throws on a value that is no object or an entry of another kind
  abbrev pub value_string : Value → String → String → Result String
  value_string v k fallback =
      if is_object v
      then elim (find v k) [ none ↦ ok fallback | some w ↦ get_string w ]
      else err "cannot use value() with a non-object"

  abbrev pub value_int : Value → String → ℤ → Result ℤ
  value_int v k fallback =
      if is_object v
      then elim (find v k) [ none ↦ ok fallback | some w ↦ get_int w ]
      else err "cannot use value() with a non-object"

  -- v.contains("k") && v["k"].is_string()
  abbrev pub has_string : Value → String → Bool
  has_string v k = elim (find v k) [ none ↦ not true | some w ↦ is_string w ]
