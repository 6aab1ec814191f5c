-- ===== src/Manifest/Parse.antt =====
-- PlatformCore/Manifest/Manifest.cpp: how a manifest is read and checked (LoadManifest).
use Prim.Native.Char.{code}
use styio_platform.Base.{
  ℕ, zero, suc, ◌+◌, String, Bool, true, false, not, ◌||◌, ◌&&◌, Option, none, some, List, [], ◌∷◌,
  ◌==◌, concat, if◌then◌else◌, eqb, is_some, Result, ok, err, require, ◌>>=◌, ◌>>◌,
}
use styio_platform.Base.Text.{strip_prefix}
use styio_platform.Base.Dict.{contains}
use styio_platform.Base.Files.{Files}
use styio_platform.Registry.{is_digit, is_safe_lowercase_identifier, cut_at_slash}
use styio_platform.Manifest.{path, git, registry, Dependency}
use styio_platform.Manifest.Toml.{
  Toml, Table, require_value, require_string, optional_string, at_key,
}

-- NameRegex, ^[a-z0-9][a-z0-9_-]*/[a-z0-9][a-z0-9_-]*$: two safe identifiers around the first slash
unfoldable pub matches_name : String → Bool
unfolding cut_at_slash is_safe_lowercase_identifier
matches_name name = elim (cut_at_slash name) [
  | none ↦ false
  | some (space, short) ↦ is_safe_lowercase_identifier space && is_safe_lowercase_identifier short
]

-- SemverRegex, ^\d+\.\d+\.\d+$: `seen` says that the current number has a digit, `dots` are to come.
unfoldable pub matches_numbers : Bool → ℕ → String → Bool
matches_numbers seen zero String.[] = seen
matches_numbers seen (suc dots) String.[] = not true
matches_numbers seen zero (String.◌∷◌ c s) = is_digit c && matches_numbers true zero s
matches_numbers seen (suc dots) (String.◌∷◌ c s) =
    let number = matches_numbers true (suc dots) s in
    let next = matches_numbers (not true) dots s in
    if is_digit c then number else if eqb (code c) (code ".") && seen then next else not true

unfoldable pub matches_semver : String → Bool
unfolding matches_numbers
matches_semver version = matches_numbers (not true) 2 version

-- `IsRegistryRootUrl`
unfoldable pub is_registry_root_url : String → Bool
unfolding strip_prefix
is_registry_root_url value =
    is_some (strip_prefix "file://" value)
    || is_some (strip_prefix "http://" value)
    || is_some (strip_prefix "https://" value)

-- `ValidatePackageName`
unfoldable pub require_package_name : String → String → Result (Unit {0})
unfolding matches_name
require_package_name name context =
    require (matches_name name) (concat context " must match namespace/name")

-- `ValidateSemver`
unfoldable pub require_semver : String → String → Result (Unit {0})
unfolding matches_semver
require_semver version context =
    require (matches_semver version) (concat context " must be strict semver x.y.z")

-- `ValidateRegistryRoot`
unfoldable pub require_registry_root : String → String → Result (Unit {0})
unfolding is_registry_root_url
require_registry_root root context =
    require (is_registry_root_url root) (concat context " must use file://, http://, or https://")

abbrev pub require_filled : String → String → Result (Unit {0})
require_filled value message = require (not (value == "")) message

module _ (files : Files) (T : Toml) where
  open T use {Node, as_table, as_array, value_string, value_bool, value_integer}

  -- `IsNonEmptyRelativePath`
  abbrev pub is_non_empty_relative_path : String → Bool
  is_non_empty_relative_path value = not (value == "") && not (files.is_absolute value)

  -- `ValidateRelativePath`
  unfoldable pub require_relative_path : String → String → Result (Unit {0})
  require_relative_path value context =
      require (is_non_empty_relative_path value)
        (concat context " must be an explicit relative path")

  -- How many of three tests hold: `source_kind_count`.
  abbrev pub count_of : Bool → ℕ
  count_of true = 1
  count_of false = 0

  abbrev pub quoted : String → String
  quoted alias = concat "dependency '" (concat alias "'")

  -- if (dependency.package.has_value()) ValidatePackageName(…)
  unfoldable pub check_package : Option String → String → Result (Unit {0})
  unfolding require_package_name
  check_package none alias = ok tt
  check_package (some name) alias = require_package_name name (concat (quoted alias) " package")

  -- if (has_path)
  unfoldable pub path_dependency : String → Option String → Table T → Result Dependency
  unfolding require_value require_relative_path
  path_dependency alias pkg dep = do
    source ← require_string T dep "path" (quoted alias)
    require_relative_path source (concat (quoted alias) " path")
    ok (record {
      alias = alias;
      package_name = pkg;
      source_kind = path;
      source = source;
      rev = none;
      version = none;
    })

  -- else if (has_git)
  unfoldable pub git_dependency : String → Option String → Table T → Result Dependency
  unfolding require_value
  git_dependency alias pkg dep = do
    source ← require_string T dep "git" (quoted alias)
    require_filled source (concat (quoted alias) " git must be a non-empty string")
    rev ← require_string T dep "rev" (quoted alias)
    require_filled rev (concat (quoted alias) " rev must be a non-empty string")
    ok (record {
      alias = alias;
      package_name = pkg;
      source_kind = git;
      source = source;
      rev = some rev;
      version = none;
    })

  -- The sources of the registry: `dependency.package.has_value()` is tested first.
  unfoldable pub registry_dependency : String → Option String → Table T → Result Dependency
  unfolding require_value require_semver require_registry_root
  registry_dependency alias none dep =
      err (concat (quoted alias) " must declare package = \"namespace/name\" for registry sources")
  registry_dependency alias (some pkg) dep = do
    version ← require_string T dep "version" (quoted alias)
    require_semver version (concat (quoted alias) " version")
    source ← require_string T dep "registry" (quoted alias)
    require_registry_root source (concat (quoted alias) " registry")
    ok (record {
      alias = alias;
      package_name = some pkg;
      source_kind = registry;
      source = source;
      rev = none;
      version = some version;
    })

  -- The dependency of one table, by the keys it has: `path`, else `git`, else the registry's.
  unfoldable pub dependency_of : Bool → Bool → String → Option String → Table T → Result Dependency
  unfolding path_dependency git_dependency registry_dependency
  dependency_of true has_git alias pkg dep = path_dependency alias pkg dep
  dependency_of false true alias pkg dep = git_dependency alias pkg dep
  dependency_of false false alias pkg dep = registry_dependency alias pkg dep

  abbrev pub in_table : String → String → String
  in_table alias table_name = concat (quoted alias) (concat " in [" (concat table_name "]"))

  abbrev pub source_kind_count : Table T → ℕ
  source_kind_count dep =
      count_of (contains "path" dep)
      + count_of (contains "git" dep)
      + count_of (contains "version" dep || contains "registry" dep)

  -- The body of the loop of ParseDependencies.
  unfoldable pub parse_dependency : String → String → Option (Table T) → Result Dependency
  unfolding check_package dependency_of
  parse_dependency table_name alias none =
      err (concat (in_table alias table_name) " must be an inline table")
  parse_dependency table_name alias (some dep) = do
    require (eqb (source_kind_count dep) 1)
        (concat (in_table alias table_name) " must declare exactly one source kind")
    check_package (optional_string T dep "package") alias
    dependency_of (contains "path" dep) (contains "git" dep) alias (optional_string T dep "package")
        dep

  unfoldable pub parse_dependency_entries : String → Table T → Result (List Dependency)
  unfolding parse_dependency
  parse_dependency_entries table_name [] = ok []
  parse_dependency_entries table_name ((alias, node) ∷ entries) = do
    dependency ← parse_dependency table_name alias (as_table node)
    parsed ← parse_dependency_entries table_name entries
    ok (dependency ∷ parsed)

  abbrev pub entries_or_none : Option (Table T) → Table T
  entries_or_none none = []
  entries_or_none (some table) = table

  unfoldable pub parse_dependencies : Table T → String → Result (List Dependency)
  unfolding parse_dependency_entries
  parse_dependencies doc table_name =
      parse_dependency_entries table_name (entries_or_none (at_key T as_table doc table_name))
