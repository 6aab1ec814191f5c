-- ===== src/Manifest/Toml.antt =====
-- toml++ as Manifest.cpp uses it: an interface, since the library is not part of the repository. A
-- table is its entries, in the order in which the library visits them.
use styio_platform.Base.{String, Bool, Option, none, some, List, Result, ok, err, concat}
use styio_platform.Base.Dict.{Dict, get}
use styio_platform.Json.{ℤ}

pub record Toml : Type 1 where
  pub Node : Type 0
  pub as_table : Node → Option (Dict Node)
  pub as_array : Node → Option (List Node)
  -- `node.value<std::string>()`, `node.value<bool>()`, `node.value<int64_t>()`
  pub value_string : Node → Option String
  pub value_bool : Node → Option Bool
  pub value_integer : Node → Option ℤ
  -- `toml::parse_file`; `err` is a parse_error with its description
  pub parse_file : String → Result (Dict Node)

abbrev pub Table : Toml → Type 0
Table T = Dict T.Node

-- `f` of the node under a key, if there is one: `table[key].f()`
abbrev pub at_key {ℓ} : {A : Type ℓ} (T : Toml) → (T.Node → Option A) → Table T → String → Option A
at_key T f table key = elim (get key table) [ none ↦ none | some node ↦ f node ]

module _ (T : Toml) where
  open T use {Node, as_table, as_array, value_string, value_bool}

  unfoldable pub require_table : Table T → String → String → Result (Table T)
  require_table parent key context = elim (at_key T as_table parent key) [
    | some table ↦ ok table
    | none ↦ err (concat "missing or invalid [" (concat key (concat "] table in " context)))
  ]

  unfoldable pub require_value {ℓ} :
      {A : Type ℓ} → (Node → Option A) → Table T → String → String → Result A
  require_value value table key context = elim (at_key T value table key) [
    | some v ↦ ok v
    | none ↦ err (concat "missing or invalid '" (concat key (concat "' in " context)))
  ]

  abbrev pub require_string : Table T → String → String → Result String
  require_string table key context = require_value value_string table key context

  abbrev pub optional_string : Table T → String → Option String
  optional_string table key = at_key T value_string table key

  abbrev pub optional_bool : Table T → String → Option Bool
  optional_bool table key = at_key T value_bool table key
