-- ===== src/Manifest/Sources.antt =====
-- LoadManifest (Manifest.cpp): the dependencies that it reads have the sources that their kinds need.
use styio_platform.Base.{
  String, ◌≡◌, sym, subst, Bool, true, false, Option, none, some, List, [], ◌∷◌, arith, eqb, All,
  inl, inr, ok, Result-cases, ok-injective, require, ◌>>=◌, ◌>>◌,
}
use styio_platform.Base.Dict.{contains}
use styio_platform.Base.Files.{Files}
use styio_platform.Base.Ensures.{Ensures, Ensures_ok, Ensures-all, >>-Ensures, then-Ensures}
use styio_platform.Manifest.{DependencySourceKind, path, git, registry, Dependency}
use styio_platform.Manifest.Toml.{Toml, Table, optional_string}
use styio_platform.Manifest.Parse.{
  matches_semver, is_registry_root_url, require_package_name, require_semver, require_registry_root,
  require_relative_path, check_package, path_dependency, git_dependency, registry_dependency,
  dependency_of, parse_dependency, parse_dependency_entries, source_kind_count,
}
use styio_platform.Manifest.Valid.{IsFilled, IsRelative, IsSourced, IsNamed, IsDependency}

abbrev or_empty : Option String → String
or_empty none = ""
or_empty (some s) = s

module _ (files : Files) (T : Toml) where
  path_dependency_lem :
      (alias : String) (pkg : Option String) (dep : Table T) (d : Dependency)
      → path_dependency files T alias pkg dep ≡ ok d
      → (d.package_name ≡ pkg) × (d.source_kind ≡ path) × IsRelative files d.source
  unfolding path_dependency require_relative_path
  path_dependency_lem alias pkg dep d h = ground arith

  git_dependency_lem :
      (alias : String) (pkg : Option String) (dep : Table T) (d : Dependency)
      → git_dependency files T alias pkg dep ≡ ok d
      → (d.package_name ≡ pkg)
        × (d.source_kind ≡ git)
        × IsFilled d.source
        × ((rev : String) × (d.rev ≡ some rev) × IsFilled rev)
  unfolding git_dependency
  git_dependency_lem alias pkg dep d h =
      (ground arith, ground arith, ground arith, (or_empty d.rev, ground arith, ground arith))

  registry_dependency_lem :
      (alias name : String) (dep : Table T) (d : Dependency)
      → registry_dependency files T alias (some name) dep ≡ ok d
      → (d.package_name ≡ some name)
        × (d.source_kind ≡ registry)
        × ((version : String) × (d.version ≡ some version) × (matches_semver version ≡ true))
        × (is_registry_root_url d.source ≡ true)
  unfolding registry_dependency require_semver require_registry_root
  registry_dependency_lem alias name dep d h =
      (ground arith, ground arith, (or_empty d.version, ground arith, ground arith), ground arith)

  of_kind :
      (d : Dependency) (k : DependencySourceKind)
      → d.source_kind ≡ k
      → IsSourced files k d
      → IsSourced files d.source_kind d
  of_kind d k e s = subst (λ j. IsSourced files j d) (sym e) s

  dependency_of-IsDependency :
      (has_path has_git : Bool) (alias : String) (pkg : Option String) (dep : Table T)
      (d : Dependency)
      → IsNamed files pkg
      → dependency_of files T has_path has_git alias pkg dep ≡ ok d
      → IsDependency files d
  unfolding dependency_of
  dependency_of-IsDependency true g alias pkg dep d n h =
      let (e, k, s) = path_dependency_lem alias pkg dep d h in
      (subst (IsNamed files) (sym e) n, of_kind d path k s)
  dependency_of-IsDependency false true alias pkg dep d n h =
      let (e, k, s, r) = git_dependency_lem alias pkg dep d h in
      (subst (IsNamed files) (sym e) n, of_kind d git k (s, r))
  dependency_of-IsDependency false false alias none dep d n h = unfold registry_dependency in cc h
  dependency_of-IsDependency false false alias (some name) dep d n h =
      let (e, k, v, u) = registry_dependency_lem alias name dep d h in
      (subst (IsNamed files) (sym e) n, of_kind d registry k ((name, e), v, u))

  check_package-IsNamed :
      (pkg : Option String) (alias : String)
      → check_package files T pkg alias ≡ ok tt
      → IsNamed files pkg
  unfolding check_package require_package_name
  check_package-IsNamed none alias h = tt
  check_package-IsNamed (some name) alias h = ground arith

  parse_dependency-IsDependency :
      (table_name alias : String) (table : Option (Table T))
      → Ensures (IsDependency files) (parse_dependency files T table_name alias table)
  unfolding parse_dependency
  parse_dependency-IsDependency table_name alias none = tt
  parse_dependency-IsDependency table_name alias (some dep) =
      let pkg = optional_string T dep "package" in
      >>-Ensures (IsDependency files) (require (eqb (source_kind_count files T dep) 1) _)
        (check_package files T pkg alias
          >> dependency_of files T (contains "path" dep) (contains "git" dep) alias pkg dep)
        (then-Ensures (IsDependency files) (check_package files T pkg alias)
          (dependency_of files T (contains "path" dep) (contains "git" dep) alias pkg dep)
          λ e.
            Ensures-all (IsDependency files)
              (dependency_of files T (contains "path" dep) (contains "git" dep) alias pkg dep)
              λ d.
                dependency_of-IsDependency (contains "path" dep) (contains "git" dep) alias pkg dep
                  d (check_package-IsNamed pkg alias e))

  pub parse_dependency_entries-All :
      (table_name : String) (entries : Table T) (ds : List Dependency)
      → parse_dependency_entries files T table_name entries ≡ ok ds
      → All (IsDependency files) ds
  unfolding parse_dependency_entries
  parse_dependency_entries-All table_name [] ds h =
      subst (All (IsDependency files)) (ok-injective h) tt
  parse_dependency_entries-All table_name ((alias, node) ∷ entries) ds h =
      elim (Result-cases (parse_dependency files T table_name alias (T.as_table node))) [
        | inl (m, e) ↦ cc (rw (e, ◌>>=◌) at h)
        | inr (d, e) ↦ elim (Result-cases (parse_dependency_entries files T table_name entries)) [
          | inl (m, f) ↦ cc (rw (e, f, ◌>>=◌) at h)
          | inr (rest, f) ↦
              let g : d ∷ rest ≡ ds = ok-injective (rw (e, f, ◌>>=◌) at h) in
              subst (All (IsDependency files)) g (
                Ensures_ok (IsDependency files) _ d
                    (parse_dependency-IsDependency table_name alias (T.as_table node)) e,
                parse_dependency_entries-All table_name entries rest f,
              )
        ]
      ]
