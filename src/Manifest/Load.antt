-- ===== src/Manifest/Load.antt =====
-- Manifest.cpp: the tables of a package and of a workspace, and LoadManifest.
use styio_platform.Base.{
  String, Bool, true, false, not, ◌||◌, ◌&&◌, Option, none, some, List, [], ◌∷◌, ◌==◌, concat,
  if◌then◌else◌, eqb, is_some, member, Result, ok, err, require, ◌>>=◌, ◌>>◌,
}
use styio_platform.Base.Dict.{contains}
use styio_platform.Base.Files.{Files}
use styio_platform.Json.{ℤ}
use styio_platform.Manifest.{
  Toolchain, LibTarget, BinTarget, TestTarget, WorkspaceConfig, PackageConfig, ManifestDocument,
}
use styio_platform.Manifest.Toml.{
  Toml, Table, require_table, require_value, require_string, optional_bool, at_key,
}
use styio_platform.Manifest.Parse.{
  require_package_name, require_semver, require_filled, require_relative_path, parse_dependencies,
}

abbrev pub bool_or : Option Bool → Bool → Bool
bool_or none fallback = fallback
bool_or (some b) fallback = b

abbrev pub is_nil {ℓ} : {A : Type ℓ} → List A → Bool
is_nil [] = true
is_nil (x ∷ xs) = false

module _ (files : Files) (T : Toml) where
  open T use {Node, as_table, as_array, value_string, value_integer, parse_file}

  -- `if (!implicit_std.has_value()) throw`
  unfoldable pub require_bool : Option Bool → String → Result Bool
  require_bool none message = err message
  require_bool (some b) message = ok b

  unfoldable pub parse_toolchain : Table T → Result Toolchain
  unfolding require_table require_value require_bool
  parse_toolchain doc = do
    table ← require_table T doc "toolchain" "package manifest"
    channel ← require_string T table "channel" "[toolchain]"
    require_filled channel "[toolchain].channel must be a non-empty string"
    implicit_std ←
        require_bool (optional_bool T table "implicit-std")
          "[toolchain].implicit-std must be a boolean"
    ok (record { channel = channel; implicit_std = implicit_std })

  unfoldable pub parse_lib_table : Option (Table T) → Result (Option LibTarget)
  unfolding require_value require_relative_path
  parse_lib_table none = ok none
  parse_lib_table (some table) = do
    path ← require_string T table "path" "[lib]"
    require_relative_path files T path "[lib].path"
    ok (some (record { path = path }))

  unfoldable pub parse_lib : Table T → Result (Option LibTarget)
  unfolding parse_lib_table
  parse_lib doc = parse_lib_table (at_key T as_table doc "lib")

  -- The name and the path of one entry of ParseBins or of ParseTests; `seen_names` holds those of the
  -- entries before. The two loops differ in the word `bin` or `test` of their messages alone.
  unfoldable pub parse_target : String → List String → Option (Table T) → Result (String × String)
  unfolding require_value require_relative_path
  parse_target word seen_names none = err (concat "[[" (concat word "]] entries must be tables"))
  parse_target word seen_names (some table) = do
    name ← require_string T table "name" (concat "[[" (concat word "]]"))
    path ← require_string T table "path" (concat "[[" (concat word "]]"))
    require_filled name (concat "[[" (concat word "]].name must be a non-empty string"))
    require_relative_path files T path (concat "[[" (concat word "]].path"))
    require (not (member name seen_names))
        (concat "duplicate [[" (concat word (concat "]].name in package manifest: " name)))
    ok (name, path)

  unfoldable pub parse_bins_from : List String → List Node → Result (List BinTarget)
  unfolding parse_target
  parse_bins_from seen_names [] = ok []
  parse_bins_from seen_names (node ∷ nodes) = do
    target ← parse_target "bin" seen_names (as_table node)
    bins ← parse_bins_from (target.0 ∷ seen_names) nodes
    ok (record { name = target.0; path = target.1 } ∷ bins)

  unfoldable pub parse_tests_from : List String → List Node → Result (List TestTarget)
  unfolding parse_target
  parse_tests_from seen_names [] = ok []
  parse_tests_from seen_names (node ∷ nodes) = do
    target ← parse_target "test" seen_names (as_table node)
    tests ← parse_tests_from (target.0 ∷ seen_names) nodes
    ok (record { name = target.0; path = target.1 } ∷ tests)

  -- `doc[key].as_array()`, with no entries where it is null
  abbrev pub nodes_or_none : Option (List Node) → List Node
  nodes_or_none none = []
  nodes_or_none (some nodes) = nodes

  unfoldable pub parse_bins : Table T → Result (List BinTarget)
  unfolding parse_bins_from
  parse_bins doc = parse_bins_from [] (nodes_or_none (at_key T as_array doc "bin"))

  unfoldable pub parse_tests : Table T → Result (List TestTarget)
  unfolding parse_tests_from
  parse_tests doc = parse_tests_from [] (nodes_or_none (at_key T as_array doc "test"))

  -- The checks that end ParsePackage.
  unfoldable pub check_config : PackageConfig → Result (Unit {0})
  unfolding require_package_name require_semver
  check_config p = do
    require_package_name p.name "package.name"
    require_semver p.version "package.version"
    require_filled p.edition "package.edition must be an explicit string"
    require (is_some p.lib || not (is_nil p.bins) || not (is_nil p.tests))
        "package manifests must define at least one explicit [lib], [[bin]], or [[test]] target"

  unfoldable pub parse_package : Table T → Result PackageConfig
  unfolding parse_toolchain parse_lib parse_bins parse_tests parse_dependencies check_config
  parse_package doc = do
    table ← require_table T doc "package" "manifest"
    name ← require_string T table "name" "[package]"
    version ← require_string T table "version" "[package]"
    edition ← require_string T table "edition" "[package]"
    toolchain ← parse_toolchain doc
    lib ← parse_lib doc
    bins ← parse_bins doc
    tests ← parse_tests doc
    dependencies ← parse_dependencies files T doc "dependencies"
    dev_dependencies ← parse_dependencies files T doc "dev-dependencies"
    let parsed : PackageConfig = record {
      name = name;
      version = version;
      edition = edition;
      publish = bool_or (optional_bool T table "publish") false;
      toolchain = toolchain;
      lib = lib;
      bins = bins;
      tests = tests;
      dependencies = dependencies;
      dev_dependencies = dev_dependencies;
    }
    check_config parsed
    ok parsed

  unfoldable pub strings_of : String → String → List Node → Result (List String)
  unfolding require_value
  strings_of key context [] = ok []
  strings_of key context (node ∷ nodes) = elim (value_string node) [
    | none ↦ err (
        concat "array '"
          (concat key (concat "' in " (concat context " must contain only strings"))))
    | some value ↦ strings_of key context nodes >>= λ values. ok (value ∷ values)
  ]

  unfoldable pub require_string_array :
      Option (List Node) → String → String → Bool → Result (List String)
  unfolding strings_of
  require_string_array none key context require_non_empty =
      err (concat "missing or invalid '" (concat key (concat "' array in " context)))
  require_string_array (some nodes) key context require_non_empty = do
    values ← strings_of key context nodes
    require (not (require_non_empty && is_nil values))
        (concat "array '" (concat key (concat "' in " (concat context " must not be empty"))))
    ok values

  -- `for (const std::string &entry : entries) ValidateRelativePath(entry, context);`
  unfoldable pub require_relative_paths : List String → String → Result (Unit {0})
  unfolding require_relative_path
  require_relative_paths [] context = ok tt
  require_relative_paths (entry ∷ entries) context =
      require_relative_path files T entry context >> require_relative_paths entries context

  unfoldable pub parse_workspace : Table T → Result WorkspaceConfig
  unfolding require_string_array require_relative_paths
  parse_workspace doc = do
    table ← require_table T doc "workspace" "manifest"
    members ← require_string_array (at_key T as_array table "members") "members" "[workspace]" true
    exclude ←
        if contains "exclude" table
        then require_string_array (at_key T as_array table "exclude") "exclude" "[workspace]" false
        else ok []
    resolver ← require_string T table "resolver" "[workspace]"
    require (resolver == "1") "[workspace].resolver must be \"1\""
    require_relative_paths members "[workspace].members entry"
    require_relative_paths exclude "[workspace].exclude entry"
    ok (record { members = members; exclude = exclude; resolver = resolver })

  -- `*manifest_version != 1`, on a value that may be missing
  unfoldable pub is_version_one : Option ℤ → Bool
  is_version_one (some (ℤ.pos n)) = eqb n 1
  is_version_one (some (ℤ.negsuc n)) = false
  is_version_one none = false

  -- `if (has) parsed = parse(doc);`
  unfoldable pub parse_if {ℓ} : {A : Type ℓ} → Bool → Result A → Result (Option A)
  parse_if false parsed = ok none
  parse_if true parsed = parsed >>= λ a. ok (some a)

  unfoldable pub load_document : Table T → Result ManifestDocument
  unfolding parse_package parse_workspace is_version_one parse_if
  load_document doc = do
    spio ← require_table T doc "spio" "manifest"
    require (is_version_one (at_key T value_integer spio "manifest-version"))
        "spio manifest-version must be 1"
    require (contains "package" doc || contains "workspace" doc)
        "manifest must contain [package], [workspace], or both"
    pkg ← parse_if (contains "package" doc) (parse_package doc)
    workspace ← parse_if (contains "workspace" doc) (parse_workspace doc)
    ok (record { pkg = pkg; workspace = workspace })

  -- The parse error of the library with the words that LoadManifest puts before it.
  unfoldable pub parsed_or_throw : String → Result (Table T) → Result (Table T)
  parsed_or_throw path (err description) =
      err (concat "failed to parse manifest '" (concat path (concat "': " description)))
  parsed_or_throw path (ok doc) = ok doc

  unfoldable pub load_manifest : String → Result ManifestDocument
  unfolding load_document parsed_or_throw
  load_manifest manifest_path = do
    doc ← parsed_or_throw manifest_path (parse_file manifest_path)
    load_document doc
