-- ===== src/Plan/Examples.antt =====
-- The build order of a program and the library that it depends on.
use styio_platform.Base.{
  String, ◌≡◌, ◌≢◌, refl, sym, subst, ◌∙◌, true, false, none, some, List, [], ◌∷◌, ◌++◌, ◌==◌,
  eq_iff, eq_refl, arith, inl, inr, member, Bool-cases, Option,
}
use styio_platform.Base.Dict.{get, put}
use styio_platform.Base.Order.{text_lt}
use styio_platform.Manifest.{PackageConfig}
use styio_platform.Resolve.{ResolvedPackage, ResolvedGraphResult}
use styio_platform.Plan.Order.{build_package_order, finished, cyclic, unknown_package, find_package}
use styio_platform.Plan.Order.Graph.{Edge, IsCycle, IsMissing, IsChain}
use styio_platform.Plan.Order.Total.{Shows, build_package_order-Shows, build_package_order_total}

abbrev config : PackageConfig
config = record {
  name = "acme/app";
  version = "1.0.0";
  edition = "2026";
  publish = false;
  toolchain = record { channel = "stable"; implicit_std = true };
  lib = none;
  bins = record { name = "app"; path = "src/main.styio" } ∷ [];
  tests = [];
  dependencies = [];
  dev_dependencies = [];
}

abbrev package_of : String → List String → ResolvedPackage
package_of id dependencies = record {
  manifest_path = "/work/spio.toml";
  root_dir = "/work";
  pkg = config;
  id = id;
  source_kind = "path";
  git = none;
  rev = none;
  registry = none;
  sha256 = none;
  repo_hash = none;
  snapshot_root = none;
  dependencies = dependencies;
  dependency_aliases = [];
}

abbrev graph_of : List ResolvedPackage → ResolvedGraphResult
graph_of packages = record {
  manifest_path = "/work/spio.toml";
  root_ids = "app" ∷ [];
  packages = packages;
}

abbrev two_packages : List ResolvedPackage
two_packages = package_of "app" ("lib" ∷ []) ∷ package_of "lib" [] ∷ []

orders_dependencies_first :
    build_package_order (graph_of two_packages) ≡ finished ("lib" ∷ "app" ∷ [])
unfolding build_package_order get put text_lt find_package
orders_dependencies_first = refl

reports_cycle :
    build_package_order
      (graph_of (package_of "app" ("lib" ∷ []) ∷ package_of "lib" ("app" ∷ []) ∷ []))
    ≡ cyclic ("app" ∷ "lib" ∷ "app" ∷ [])
unfolding build_package_order get put text_lt find_package
reports_cycle = refl

reports_unknown :
    build_package_order (graph_of (package_of "app" ("lib" ∷ []) ∷ [])) ≡ unknown_package "lib"
unfolding build_package_order get put text_lt find_package
reports_unknown = refl

build_package_order-Shows_example : Shows two_packages (build_package_order (graph_of two_packages))
build_package_order-Shows_example = build_package_order-Shows (graph_of two_packages)

of_found :
    (b : String) (o : Option ResolvedPackage) (p q : ResolvedPackage)
    → o ≡ some q
    → o ≡ some p
    → member b p.dependencies ≡ true
    → member b q.dependencies ≡ true
of_found b o p q e f m = let same : p ≡ q = cc in subst (λ r. member b r.dependencies ≡ true) same m

finds_app :
    (a : String)
    → ("app" == a) ≡ true
    → find_package two_packages a ≡ some (package_of "app" ("lib" ∷ []))
unfolding find_package
finds_app a e = rw e refl

finds_lib :
    (a : String)
    → ("app" == a) ≡ false
    → ("lib" == a) ≡ true
    → find_package two_packages a ≡ some (package_of "lib" [])
unfolding find_package
finds_lib a e f = rw (e, f) refl

finds_none :
    (a : String) → ("app" == a) ≡ false → ("lib" == a) ≡ false → find_package two_packages a ≡ none
unfolding find_package
finds_none a e f = rw (e, f) refl

edge_from :
    (a b : String) (p : ResolvedPackage)
    → find_package two_packages a ≡ some p
    → member b p.dependencies ≡ true
    → (a ≡ "app") × (b ≡ "lib")
edge_from a b p found m = elim (Bool-cases ("app" == a)) [
  | inl is_app ↦
      let n = of_found b _ p (package_of "app" ("lib" ∷ [])) (finds_app a is_app) found m in
      (sym ((eq_iff "app" a).0 is_app), sym ((eq_iff "lib" b).0 (ground arith)))
  | inr not_app ↦ elim (Bool-cases ("lib" == a)) [
    | inl is_lib ↦
        let n = of_found b _ p (package_of "lib" []) (finds_lib a not_app is_lib) found m in cc
    | inr not_lib ↦ let n = finds_none a not_app not_lib in cc
  ]
]

only-Edge : (a b : String) → Edge two_packages a b → (a ≡ "app") × (b ≡ "lib")
only-Edge a b (p, found, m) = edge_from a b p found m

unequal : ("lib" == "app") ≡ false
unequal = refl

lib_is_app : ◌≢◌ {A = String} "lib" "app"
lib_is_app e = cc (e, eq_refl "lib", unequal)

acyclic_from :
    (id : String) (between : List String) → ¬ IsChain two_packages (id ∷ between ++ id ∷ [])
acyclic_from id [] (e, chain) = let (x, y) = only-Edge id id e in lib_is_app (sym y ∙ x)
acyclic_from id (x ∷ []) (e, (f, chain)) =
    let (a, b) = only-Edge id x e in let (c, d) = only-Edge x id f in lib_is_app (sym b ∙ c)
acyclic_from id (x ∷ y ∷ rest) (e, (f, chain)) =
    let (a, b) = only-Edge id x e in let (c, d) = only-Edge x y f in lib_is_app (sym b ∙ c)

acyclic : (ids : List String) → ¬ IsCycle two_packages ids
acyclic ids (id, between, same, chain) =
    acyclic_from id between (subst (IsChain two_packages) same chain)

missing_lib : (id : String) → id ≡ "lib" → ¬ (find_package two_packages id ≡ none)
missing_lib id e missing = let found = finds_lib id (rw e refl) (rw e refl) in cc

complete : (id : String) → ¬ IsMissing two_packages id
complete id ((a, e), missing) = let (x, y) = only-Edge a id e in missing_lib id y missing

build_package_order_total_example :
    (order : List String) × (build_package_order (graph_of two_packages) ≡ finished order)
build_package_order_total_example =
    build_package_order_total (graph_of two_packages) acyclic complete
