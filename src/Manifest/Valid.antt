-- ===== src/Manifest/Valid.antt =====
-- What the checks of Manifest.cpp promise of a manifest.
use styio_platform.Base.{
  String, ◌≡◌, Bool, true, false, not, ◌||◌, Option, none, some, List, [], ◌∷◌, ◌==◌, is_some,
  member, All,
}
use styio_platform.Base.Dict.{contains}
use styio_platform.Base.Files.{Files}
use styio_platform.Manifest.{
  DependencySourceKind, path, git, registry, Dependency, LibTarget, BinTarget, TestTarget,
  WorkspaceConfig, PackageConfig, ManifestDocument,
}
use styio_platform.Manifest.Parse.{
  matches_name, matches_semver, is_registry_root_url, entries_or_none,
}
use styio_platform.Manifest.Load.{is_nil}
use styio_platform.Manifest.Toml.{Toml, Table, at_key}

abbrev pub IsFilled : String → Type 0
IsFilled s = (s == "") ≡ false

module _ (files : Files) where
  -- An explicit relative path.
  abbrev pub IsRelative : String → Type 0
  IsRelative s = IsFilled s × (files.is_absolute s ≡ false)

  -- The source that a dependency of each kind names.
  abbrev pub IsSourced : DependencySourceKind → Dependency → Type 0
  IsSourced path d = IsRelative d.source
  IsSourced git d = IsFilled d.source × ((rev : String) × (d.rev ≡ some rev) × IsFilled rev)
  IsSourced registry d =
      ((name : String) × (d.package_name ≡ some name))
      × ((version : String) × (d.version ≡ some version) × (matches_semver version ≡ true))
      × (is_registry_root_url d.source ≡ true)

  abbrev pub IsNamed : Option String → Type 0
  IsNamed none = Unit
  IsNamed (some name) = matches_name name ≡ true

  abbrev pub IsDependency : Dependency → Type 0
  IsDependency d = IsNamed d.package_name × IsSourced d.source_kind d

  -- Each binary has a name, which no other binary has, and a relative path.
  abbrev pub AreBins : List String → List BinTarget → Type 0
  AreBins seen [] = Unit
  AreBins seen (b ∷ bins) =
      IsFilled b.name
      × IsRelative b.path
      × (member b.name seen ≡ false)
      × AreBins (b.name ∷ seen) bins

  abbrev pub AreTests : List String → List TestTarget → Type 0
  AreTests seen [] = Unit
  AreTests seen (t ∷ tests) =
      IsFilled t.name
      × IsRelative t.path
      × (member t.name seen ≡ false)
      × AreTests (t.name ∷ seen) tests

  abbrev pub IsLib : Option LibTarget → Type 0
  IsLib none = Unit
  IsLib (some lib) = IsRelative lib.path

  pub record IsPackage (p : PackageConfig) : Type 0 where
    pub named : matches_name p.name ≡ true
    pub versioned : matches_semver p.version ≡ true
    pub edition : IsFilled p.edition
    pub channel : IsFilled p.toolchain.channel
    pub lib : IsLib p.lib
    pub bins : AreBins [] p.bins
    pub tests : AreTests [] p.tests
    pub targets : (is_some p.lib || not (is_nil p.bins) || not (is_nil p.tests)) ≡ true
    pub dependencies : All IsDependency p.dependencies
    pub dev_dependencies : All IsDependency p.dev_dependencies

  pub record IsWorkspace (w : WorkspaceConfig) : Type 0 where
    pub inhabited : is_nil w.members ≡ false
    pub resolver : w.resolver ≡ "1"
    pub members : All IsRelative w.members
    pub exclude : All IsRelative w.exclude

  abbrev pub HasPackage : Option PackageConfig → Type 0
  HasPackage none = Unit
  HasPackage (some p) = IsPackage p

  abbrev pub HasWorkspace : Option WorkspaceConfig → Type 0
  HasWorkspace none = Unit
  HasWorkspace (some w) = IsWorkspace w

  -- A package, a workspace, or both, and each as it has to be.
  abbrev pub IsManifest : ManifestDocument → Type 0
  IsManifest m =
      ((is_some m.pkg || is_some m.workspace) ≡ true) × HasPackage m.pkg × HasWorkspace m.workspace

-- Exactly one of three tests holds, the one of the source kind.
abbrev pub OneOf : DependencySourceKind → Bool → Bool → Bool → Type 0
OneOf path has_path has_git has_registry =
    (has_path ≡ true) × (has_git ≡ false) × (has_registry ≡ false)
OneOf git has_path has_git has_registry =
    (has_path ≡ false) × (has_git ≡ true) × (has_registry ≡ false)
OneOf registry has_path has_git has_registry =
    (has_path ≡ false) × (has_git ≡ false) × (has_registry ≡ true)

module _ (T : Toml) where
  -- The inline table names exactly one source, of this kind: a path, a Git repository, or a registry
  -- by its version or its root.
  abbrev pub DeclaresOne : DependencySourceKind → Table T → Type 0
  DeclaresOne kind dep =
      OneOf kind (contains "path" dep) (contains "git" dep)
        (contains "version" dep || contains "registry" dep)

  -- The dependencies are those of the entries, in their order: each has the alias of its entry, which
  -- is an inline table that declares one source, of the dependency's kind.
  abbrev pub AreDeclared : Table T → List Dependency → Type 0
  AreDeclared [] [] = Unit
  AreDeclared [] (d ∷ ds) = ⊥
  AreDeclared (entry ∷ entries) [] = ⊥
  AreDeclared ((alias, node) ∷ entries) (d ∷ ds) =
      (d.alias ≡ alias)
      × ((dep : Table T) × (T.as_table node ≡ some dep) × DeclaresOne d.source_kind dep)
      × AreDeclared entries ds

  -- A package has the dependencies that the document's two tables declare.
  abbrev pub HasDeclared : Files → Table T → Option PackageConfig → Type 0
  HasDeclared files doc none = Unit
  HasDeclared files doc (some p) =
      AreDeclared (entries_or_none files T (at_key T T.as_table doc "dependencies")) p.dependencies
      × AreDeclared (entries_or_none files T (at_key T T.as_table doc "dev-dependencies"))
          p.dev_dependencies
