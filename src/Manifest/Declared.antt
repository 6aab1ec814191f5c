-- ===== src/Manifest/Declared.antt =====
-- ParseDependencies (Manifest.cpp): each dependency comes from an entry with exactly one source kind.
use styio_platform.Base.{
  ◌+◌, String, ◌≡◌, refl, sym, subst, Bool, true, false, ◌||◌, Option, none, some, List, [], ◌∷◌,
  arith, eqb, ok, ok-injective, require, >>=-ok,
}
use styio_platform.Base.Dict.{contains}
use styio_platform.Base.Files.{Files}
use styio_platform.Base.Ensures.{require-ok}
use styio_platform.Manifest.{DependencySourceKind, path, git, registry, Dependency}
use styio_platform.Manifest.Toml.{Toml, Table, optional_string}
use styio_platform.Manifest.Parse.{
  count_of, check_package, path_dependency, git_dependency, registry_dependency, dependency_of,
  parse_dependency, parse_dependency_entries, source_kind_count,
}
use styio_platform.Manifest.Valid.{OneOf, DeclaresOne, AreDeclared}

-- The kind that the body of the loop takes.
abbrev kind_of : Bool → Bool → DependencySourceKind
kind_of true has_git = path
kind_of false true = git
kind_of false false = registry

module _ (files : Files) (T : Toml) where
  one_source :
      (p g r : Bool)
      → eqb (count_of files T p + count_of files T g + count_of files T r) 1 ≡ true
      → OneOf (kind_of p g) p g r
  one_source true true true h = cc
  one_source true true false h = cc
  one_source true false true h = cc
  one_source true false false h = (refl, refl, refl)
  one_source false true true h = cc
  one_source false true false h = (refl, refl, refl)
  one_source false false true h = (refl, refl, refl)
  one_source false false false h = cc

  dependency_of_lem :
      (has_path has_git : Bool) (alias : String) (pkg : Option String) (dep : Table T)
      (d : Dependency)
      → dependency_of files T has_path has_git alias pkg dep ≡ ok d
      → (d.alias ≡ alias) × (d.source_kind ≡ kind_of has_path has_git)
  unfolding dependency_of path_dependency git_dependency registry_dependency
  dependency_of_lem true g alias pkg dep d h = ground arith
  dependency_of_lem false true alias pkg dep d h = ground arith
  dependency_of_lem false false alias none dep d h = cc
  dependency_of_lem false false alias (some name) dep d h = ground arith

  parse_dependency-DeclaresOne :
      (table_name alias : String) (table : Option (Table T)) (d : Dependency)
      → parse_dependency files T table_name alias table ≡ ok d
      → (d.alias ≡ alias) × ((dep : Table T) × (table ≡ some dep) × DeclaresOne T d.source_kind dep)
  unfolding parse_dependency
  parse_dependency-DeclaresOne table_name alias none d h = cc
  parse_dependency-DeclaresOne table_name alias (some dep) d h =
      let pkg = optional_string T dep "package" in
      let (one, e1, h1) = >>=-ok (require (eqb (source_kind_count files T dep) 1) _) h in
      let (named, e2, h2) = >>=-ok (check_package files T pkg alias) h1 in
      let (a, k) =
        dependency_of_lem (contains "path" dep) (contains "git" dep) alias pkg dep d h2 in
      (
        a,
        (
          dep,
          refl,
          subst (λ j. DeclaresOne T j dep) (sym k)
              (one_source (contains "path" dep) (contains "git" dep)
                (contains "version" dep || contains "registry" dep) (require-ok _ _ e1)),
        ),
      )

  pub parse_dependency_entries-AreDeclared :
      (table_name : String) (entries : Table T) (ds : List Dependency)
      → parse_dependency_entries files T table_name entries ≡ ok ds
      → AreDeclared T entries ds
  unfolding parse_dependency_entries
  parse_dependency_entries-AreDeclared table_name [] ds h =
      subst (AreDeclared T []) (ok-injective h) tt
  parse_dependency_entries-AreDeclared table_name ((alias, node) ∷ entries) ds h =
      let (d, e, h1) = >>=-ok (parse_dependency files T table_name alias (T.as_table node)) h in
      let (rest, f, h2) = >>=-ok (parse_dependency_entries files T table_name entries) h1 in
      let (a, (dep, t, one)) =
        parse_dependency-DeclaresOne table_name alias (T.as_table node) d e in
      subst (AreDeclared T ((alias, node) ∷ entries)) (ok-injective h2)
        (a, (dep, t, one), parse_dependency_entries-AreDeclared table_name entries rest f)
