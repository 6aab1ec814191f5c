-- ===== src/Manifest/Loaded.antt =====
-- LoadManifest (Manifest.cpp) returns manifests that keep what its checks promise.
use styio_platform.Base.{
  String, ◌≡◌, refl, subst, Bool, true, false, not, ◌||◌, Option, none, some, List, [], ◌∷◌, ◌==◌,
  arith, eq_iff, if◌then◌else◌, is_some, All, ok, inl, inr, Result-cases, ok-injective, >>=-ok,
  require,
}
use styio_platform.Base.Dict.{contains}
use styio_platform.Base.Files.{Files}
use styio_platform.Base.Ensures.{require-ok}
use styio_platform.Manifest.{WorkspaceConfig, PackageConfig, ManifestDocument}
use styio_platform.Manifest.Toml.{Toml, Table, require_table, require_string, optional_bool, at_key}
use styio_platform.Manifest.Parse.{
  matches_name, matches_semver, require_package_name, require_semver, require_relative_path,
  parse_dependencies,
}
use styio_platform.Manifest.Load.{
  bool_or, is_nil, parse_toolchain, parse_lib, parse_bins, parse_tests, check_config, parse_package,
  strings_of, require_string_array, require_relative_paths, parse_workspace, parse_if,
  is_version_one, load_document, parsed_or_throw, load_manifest,
}
use styio_platform.Manifest.Valid.{
  IsFilled, IsRelative, IsPackage, IsWorkspace, HasPackage, HasWorkspace, IsManifest, HasDeclared,
}
use styio_platform.Manifest.Targets.{
  parse_toolchain_lem, parse_lib-IsLib, parse_bins_from-AreBins, parse_tests_from-AreTests,
}
use styio_platform.Manifest.Declared.{parse_dependency_entries-AreDeclared}
use styio_platform.Manifest.Sources.{parse_dependency_entries-All}

module _ (files : Files) (T : Toml) where
  pub record Parts (doc : Table T) (p : PackageConfig) : Type 0 where
    pub toolchain : parse_toolchain files T doc ≡ ok p.toolchain
    pub lib : parse_lib files T doc ≡ ok p.lib
    pub bins : parse_bins files T doc ≡ ok p.bins
    pub tests : parse_tests files T doc ≡ ok p.tests
    pub dependencies : parse_dependencies files T doc "dependencies" ≡ ok p.dependencies
    pub dev_dependencies : parse_dependencies files T doc "dev-dependencies" ≡ ok p.dev_dependencies
    pub config : check_config files T p ≡ ok tt

  parse_package-Parts :
      (doc : Table T) (p : PackageConfig) → parse_package files T doc ≡ ok p → Parts doc p
  unfolding parse_package
  parse_package-Parts doc p h =
      let (table, e1, h1) = >>=-ok (require_table T doc "package" "manifest") h in
      let (name, e2, h2) = >>=-ok (require_string T table "name" "[package]") h1 in
      let (version, e3, h3) = >>=-ok (require_string T table "version" "[package]") h2 in
      let (edition, e4, h4) = >>=-ok (require_string T table "edition" "[package]") h3 in
      let (toolchain, e5, h5) = >>=-ok (parse_toolchain files T doc) h4 in
      let (lib, e6, h6) = >>=-ok (parse_lib files T doc) h5 in
      let (bins, e7, h7) = >>=-ok (parse_bins files T doc) h6 in
      let (tests, e8, h8) = >>=-ok (parse_tests files T doc) h7 in
      let (deps, e9, h9) = >>=-ok (parse_dependencies files T doc "dependencies") h8 in
      let (dev, e10, h10) = >>=-ok (parse_dependencies files T doc "dev-dependencies") h9 in
      let parsed : PackageConfig = record {
        name = name;
        version = version;
        edition = edition;
        publish = bool_or (optional_bool T table "publish") false;
        toolchain = toolchain;
        lib = lib;
        bins = bins;
        tests = tests;
        dependencies = deps;
        dev_dependencies = dev;
      } in
      let (done, e11, h11) = >>=-ok (check_config files T parsed) h10 in
      let whole : Parts doc parsed = record {
        toolchain = e5;
        lib = e6;
        bins = e7;
        tests = e8;
        dependencies = e9;
        dev_dependencies = e10;
        config = e11;
      } in
      subst (Parts doc) (ok-injective h11) whole

  check_config_lem :
      (p : PackageConfig)
      → check_config files T p ≡ ok tt
      → (matches_name p.name ≡ true)
        × (matches_semver p.version ≡ true)
        × IsFilled p.edition
        × ((is_some p.lib || not (is_nil p.bins) || not (is_nil p.tests)) ≡ true)
  unfolding check_config require_package_name require_semver
  check_config_lem p h = (ground arith, ground arith, ground arith, ground arith)

  parse_package-IsPackage :
      (doc : Table T) (p : PackageConfig) → parse_package files T doc ≡ ok p → IsPackage files p
  unfolding parse_bins parse_tests parse_dependencies
  parse_package-IsPackage doc p h =
      let parts = parse_package-Parts doc p h in
      let (named, versioned, edition, targets) = check_config_lem p parts.config in
      record {
        named = named;
        versioned = versioned;
        edition = edition;
        channel = parse_toolchain_lem files T doc p.toolchain parts.toolchain;
        lib = parse_lib-IsLib files T doc p.lib parts.lib;
        bins = parse_bins_from-AreBins files T [] _ p.bins parts.bins;
        tests = parse_tests_from-AreTests files T [] _ p.tests parts.tests;
        targets = targets;
        dependencies =
            parse_dependency_entries-All files T "dependencies" _ p.dependencies parts.dependencies;
        dev_dependencies =
            parse_dependency_entries-All files T "dev-dependencies" _ p.dev_dependencies
              parts.dev_dependencies;
      }

  parse_package-HasDeclared :
      (doc : Table T) (p : PackageConfig)
      → parse_package files T doc ≡ ok p
      → HasDeclared T files doc (some p)
  unfolding parse_dependencies
  parse_package-HasDeclared doc p h =
      let parts = parse_package-Parts doc p h in
      (
        parse_dependency_entries-AreDeclared files T "dependencies" _ p.dependencies
            parts.dependencies,
        parse_dependency_entries-AreDeclared files T "dev-dependencies" _ p.dev_dependencies
            parts.dev_dependencies,
      )

  require_relative_paths-All :
      (entries : List String) (context : String)
      → require_relative_paths files T entries context ≡ ok tt
      → All (IsRelative files) entries
  unfolding require_relative_paths require_relative_path
  require_relative_paths-All [] context h = tt
  require_relative_paths-All (entry ∷ entries) context h =
      let (done, e, rest) = >>=-ok (require_relative_path files T entry context) h in
      ((ground arith), require_relative_paths-All entries context rest)

  require_string_array_lem :
      (nodes : Option (List T.Node)) (key context : String) (values : List String)
      → require_string_array files T nodes key context true ≡ ok values
      → is_nil values ≡ false
  unfolding require_string_array
  require_string_array_lem none key context values h = cc
  require_string_array_lem (some nodes) key context values h =
      let (vs, e, h1) = >>=-ok (strings_of files T key context nodes) h in ground arith

  parse_workspace-IsWorkspace :
      (doc : Table T) (w : WorkspaceConfig)
      → parse_workspace files T doc ≡ ok w
      → IsWorkspace files w
  unfolding parse_workspace
  parse_workspace-IsWorkspace doc w h =
      let (table, e1, h1) = >>=-ok (require_table T doc "workspace" "manifest") h in
      let (members, e2, h2) =
        >>=-ok
          (require_string_array files T (at_key T T.as_array table "members") "members"
            "[workspace]" true)
          h1 in
      let (exclude, e3, h3) =
        >>=-ok
          (if contains "exclude" table
            then require_string_array files T (at_key T T.as_array table "exclude") "exclude"
                "[workspace]" false
            else ok [])
          h2 in
      let (resolver, e4, h4) = >>=-ok (require_string T table "resolver" "[workspace]") h3 in
      let (one, e5, h5) =
        >>=-ok (require (resolver == "1") "[workspace].resolver must be \"1\"") h4 in
      let (done6, e6, h6) =
        >>=-ok (require_relative_paths files T members "[workspace].members entry") h5 in
      let (done7, e7, h7) =
        >>=-ok (require_relative_paths files T exclude "[workspace].exclude entry") h6 in
      subst (IsWorkspace files) (ok-injective h7) (record {
        inhabited =
            require_string_array_lem (at_key T T.as_array table "members") "members" "[workspace]"
              members e2;
        resolver = (eq_iff resolver "1").0 (require-ok _ _ e5);
        members = require_relative_paths-All members "[workspace].members entry" e6;
        exclude = require_relative_paths-All exclude "[workspace].exclude entry" e7;
      })

  parse_if-package :
      (has : Bool) (doc : Table T) (o : Option PackageConfig)
      → parse_if files T has (parse_package files T doc) ≡ ok o
      → HasPackage files o × (is_some o ≡ has) × HasDeclared T files doc o
  unfolding parse_if
  parse_if-package false doc o h =
      subst (λ o. HasPackage files o × (is_some o ≡ false) × HasDeclared T files doc o)
        (ok-injective h) (tt, refl, tt)
  parse_if-package true doc o h =
      let (p, e, h1) = >>=-ok (parse_package files T doc) h in
      subst (λ o. HasPackage files o × (is_some o ≡ true) × HasDeclared T files doc o)
        (ok-injective h1) (parse_package-IsPackage doc p e, refl, parse_package-HasDeclared doc p e)

  parse_if-workspace :
      (has : Bool) (doc : Table T) (o : Option WorkspaceConfig)
      → parse_if files T has (parse_workspace files T doc) ≡ ok o
      → HasWorkspace files o × (is_some o ≡ has)
  unfolding parse_if
  parse_if-workspace false doc o h =
      subst (λ o. HasWorkspace files o × (is_some o ≡ false)) (ok-injective h) (tt, refl)
  parse_if-workspace true doc o h =
      let (w, e, h1) = >>=-ok (parse_workspace files T doc) h in
      subst (λ o. HasWorkspace files o × (is_some o ≡ true)) (ok-injective h1)
        (parse_workspace-IsWorkspace doc w e, refl)

  load_document-IsManifest :
      (doc : Table T) (m : ManifestDocument)
      → load_document files T doc ≡ ok m
      → IsManifest files m × HasDeclared T files doc m.pkg
  unfolding load_document
  load_document-IsManifest doc m h =
      let (spio, e1, h1) = >>=-ok (require_table T doc "spio" "manifest") h in
      let (done2, e2, h2) =
        >>=-ok
          (require (is_version_one files T (at_key T T.value_integer spio "manifest-version"))
            "spio manifest-version must be 1")
          h1 in
      let (done3, e3, h3) =
        >>=-ok
          (require (contains "package" doc || contains "workspace" doc)
            "manifest must contain [package], [workspace], or both")
          h2 in
      let (p, e4, h4) =
        >>=-ok (parse_if files T (contains "package" doc) (parse_package files T doc)) h3 in
      let (w, e5, h5) =
        >>=-ok (parse_if files T (contains "workspace" doc) (parse_workspace files T doc)) h4 in
      let (has_p, some_p, declared) = parse_if-package (contains "package" doc) doc p e4 in
      let (has_w, some_w) = parse_if-workspace (contains "workspace" doc) doc w e5 in
      subst (λ n. IsManifest files n × HasDeclared T files doc n.pkg) (ok-injective h5)
        ((rw (some_p, some_w) (require-ok _ _ e3), has_p, has_w), declared)

  -- A manifest that LoadManifest returns has a package, a workspace, or both. Its package has a
  -- namespaced name, a version of three numbers, an edition, a channel and a target; its binaries and
  -- its tests have names that differ and relative paths; each dependency has the source that its kind
  -- needs. Its workspace has members, which are relative paths, and the resolver "1". The file was
  -- parsed, and the package's dependencies are the entries of the two tables of its document, in
  -- their order: each entry is an inline table that declares exactly one of a path, a Git repository
  -- and a registry, the one that is the dependency's kind.
  pub load_manifest-IsManifest :
      (manifest_path : String) (m : ManifestDocument)
      → load_manifest files T manifest_path ≡ ok m
      → IsManifest files m
        × ((doc : Table T) × (T.parse_file manifest_path ≡ ok doc) × HasDeclared T files doc m.pkg)
  unfolding load_manifest parsed_or_throw
  load_manifest-IsManifest manifest_path m h = elim (Result-cases (T.parse_file manifest_path)) [
    | inl (why, e) ↦ cc (rw (e, load_manifest) at h)
    | inr (doc, e) ↦
        let (manifest, declared) = load_document-IsManifest doc m (rw (e, load_manifest) at h) in
        (manifest, (doc, e, declared))
  ]
