-- ===== src/Plan/Target.antt =====
-- `ResolveEntryTarget` of CompilePlan.cpp: which target of the entry package a plan is for.
pub mod Declared
use styio_platform.Base.{
  String, Bool, true, false, not, ◌&&◌, Option, none, some, List, [], ◌∷◌, ◌==◌, concat,
  if◌then◌else◌, is_some, Result, ok, err, require, ◌>>=◌, ◌>>◌,
}
use styio_platform.Base.Files.{Files, canonical_absolute_path}
use styio_platform.Manifest.{LibTarget, BinTarget, TestTarget}
use styio_platform.Resolve.{ResolvedPackage}
use styio_platform.Plan.{BuildPlanRequest}

-- `package` points to the package that ResolveEntryTarget is given, so the record holds its id.
pub record SelectedTarget : Type 0 where
  pub pkg : String
  pub kind : String
  pub name : String
  pub file : String

-- The checks that open ResolveEntryTarget, which do not look at the package.
unfoldable pub check_selection : BuildPlanRequest → Result (Unit {0})
check_selection request = do
  require (not (request.select_lib && is_some request.bin_name))
      (concat request.intent " target selection cannot combine --lib and --bin")
  require (not (request.select_lib && is_some request.test_name))
      (concat request.intent " target selection cannot combine --lib and --test")
  require (not (is_some request.bin_name && is_some request.test_name))
      (concat request.intent " target selection cannot combine --bin and --test")

module _ (files : Files) where
  unfoldable pub absolute_target_path : ResolvedPackage → String → String
  absolute_target_path pkg relative_path =
      canonical_absolute_path files (files.join pkg.root_dir relative_path)

  unfoldable pub require_existing_source_file : String → String → Result (Unit {0})
  require_existing_source_file path context = do
    require (files.exists path) (concat context (concat " source file not found: " path))
    require (files.is_regular_file path)
        (concat context (concat " source path is not a file: " path))

  -- The target that a branch of ResolveEntryTarget returns, once its file is looked up.
  unfoldable pub selected :
      ResolvedPackage → String → String → String → String → Result SelectedTarget
  unfolding absolute_target_path require_existing_source_file
  selected pkg kind context name path = do
    require_existing_source_file (absolute_target_path pkg path) context
    ok (record { pkg = pkg.id; kind = kind; name = name; file = absolute_target_path pkg path })

  abbrev pub lib_target : ResolvedPackage → LibTarget → Result SelectedTarget
  lib_target pkg lib = selected pkg "lib" "library" pkg.pkg.name lib.path

  abbrev pub bin_target : ResolvedPackage → BinTarget → Result SelectedTarget
  bin_target pkg bin = selected pkg "bin" "binary" bin.name bin.path

  abbrev pub test_target : ResolvedPackage → TestTarget → Result SelectedTarget
  test_target pkg test = selected pkg "test" "test" test.name test.path

  -- `if (!package.package.lib.has_value()) throw`, and the library's target
  unfoldable pub require_lib : ResolvedPackage → Option LibTarget → Result SelectedTarget
  unfolding selected
  require_lib pkg none = err (concat "selected package does not define [lib]: " pkg.pkg.name)
  require_lib pkg (some lib) = lib_target pkg lib

  -- if (request.select_lib)
  unfoldable pub select_lib :
      BuildPlanRequest → ResolvedPackage → Option LibTarget → Result SelectedTarget
  unfolding require_lib
  select_lib request pkg lib = do
    require (not (request.intent == "run")) "run requires a binary target and does not accept --lib"
    require (not (request.intent == "test"))
        "test requires an explicit [[test]] target and does not accept --lib"
    require_lib pkg lib

  -- if (request.bin_name.has_value())
  unfoldable pub select_bin : ResolvedPackage → String → List BinTarget → Result SelectedTarget
  select_bin pkg name [] =
      err (concat "selected package does not define [[bin]].name = \"" (concat name "\""))
  select_bin pkg name (bin ∷ bins) =
      let rest = select_bin pkg name bins in if bin.name == name then bin_target pkg bin else rest

  -- if (request.test_name.has_value())
  unfoldable pub select_test : ResolvedPackage → String → List TestTarget → Result SelectedTarget
  select_test pkg name [] =
      err (concat "selected package does not define [[test]].name = \"" (concat name "\""))
  select_test pkg name (test ∷ tests) =
      let rest = select_test pkg name tests in
      if test.name == name then test_target pkg test else rest

  -- if (require_test): the package's only test
  unfoldable pub only_test : ResolvedPackage → List TestTarget → Result SelectedTarget
  only_test pkg (test ∷ []) = test_target pkg test
  only_test pkg [] =
      err (concat "selected package does not define any [[test]] target: " pkg.pkg.name)
  only_test pkg (test ∷ other ∷ tests) = err (
      concat "test target is ambiguous for package '"
        (concat pkg.pkg.name "'; select --test <name>"))

  -- if (require_binary): the package's only binary
  unfoldable pub only_bin : ResolvedPackage → List BinTarget → Result SelectedTarget
  only_bin pkg (bin ∷ []) = bin_target pkg bin
  only_bin pkg [] =
      err (concat "selected package does not define any [[bin]] target: " pkg.pkg.name)
  only_bin pkg (bin ∷ other ∷ bins) = err (
      concat "run target is ambiguous for package '" (concat pkg.pkg.name "'; select --bin <name>"))

  abbrev ambiguous : ResolvedPackage → Result SelectedTarget
  ambiguous pkg = err (
      concat "build target is ambiguous for package '"
        (concat pkg.pkg.name "'; select --lib or --bin <name>"))

  -- The library if there are no binaries, or the only binary if there is no library.
  unfoldable pub only_target :
      ResolvedPackage → Option LibTarget → List BinTarget → Result SelectedTarget
  only_target pkg (some lib) [] = lib_target pkg lib
  only_target pkg none (bin ∷ []) = bin_target pkg bin
  only_target pkg none [] = ambiguous pkg
  only_target pkg none (bin ∷ other ∷ bins) = ambiguous pkg
  only_target pkg (some lib) (bin ∷ bins) = ambiguous pkg

  -- What is taken where the request names no target.
  unfoldable pub default_target : BuildPlanRequest → ResolvedPackage → Result SelectedTarget
  unfolding only_test only_bin only_target
  default_target request pkg =
      if request.intent == "test"
      then only_test pkg pkg.pkg.tests
      else if request.intent == "run"
      then only_bin pkg pkg.pkg.bins
      else only_target pkg pkg.pkg.lib pkg.pkg.bins

  -- The branches behind `select_lib`, by the names of the request.
  unfoldable pub named_target :
      BuildPlanRequest → ResolvedPackage → Option String → Option String → Result SelectedTarget
  unfolding select_bin select_test default_target
  named_target request pkg (some bin) test = select_bin pkg bin pkg.pkg.bins
  named_target request pkg none (some test) = select_test pkg test pkg.pkg.tests
  named_target request pkg none none = default_target request pkg

  unfoldable pub resolve_entry_target : BuildPlanRequest → ResolvedPackage → Result SelectedTarget
  unfolding check_selection select_lib named_target
  resolve_entry_target request pkg = do
    check_selection request
    if request.select_lib
        then select_lib request pkg pkg.pkg.lib
        else named_target request pkg request.bin_name request.test_name
