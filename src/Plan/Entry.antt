-- ===== src/Plan/Entry.antt =====
-- CompilePlan.cpp: the checks of the request and of the graph, the entry package, and the profile.
use styio_platform.Base.{
  ℕ, String, Bool, true, false, not, ◌||◌, Option, none, some, List, [], ◌∷◌, ◌==◌, concat,
  if◌then◌else◌, Result, ok, err, require, ◌>>=◌, ◌>>◌,
}
use styio_platform.Base.Sorting.{sort_by}
use styio_platform.Resolve.{ResolvedPackage, ResolvedGraphResult}
use styio_platform.Plan.{BuildPlanRequest}
use styio_platform.Plan.Order.{find_package}

pub record ProfileConfig : Type 0 where
  pub name : String
  pub opt_level : ℕ
  pub debug : Bool
  pub lto : Bool

unfoldable pub validate_intent : String → Result (Unit {0})
validate_intent intent =
    require (intent == "build" || intent == "run" || intent == "test")
      (concat "unsupported compile-plan intent for the current native core: " intent)

-- `roots.push_back(&RequirePackageById(packages_by_id, root_id));` for each root
unfoldable pub require_roots : List ResolvedPackage → List String → Result (List ResolvedPackage)
unfolding find_package
require_roots packages [] = ok []
require_roots packages (id ∷ ids) = elim (find_package packages id) [
  | none ↦ err (concat "resolver graph references unknown package id: " id)
  | some pkg ↦ require_roots packages ids >>= λ roots. ok (pkg ∷ roots)
]

unfoldable pub collect_root_packages : ResolvedGraphResult → Result (List ResolvedPackage)
unfolding require_roots sort_by
collect_root_packages graph = do
  roots ← require_roots graph.packages graph.root_ids
  ok (sort_by (λ p. p.id) roots)

-- The first root that passes a test: `matches.front()`, and the loop that returns at its first hit.
unfoldable pub first_root : (ResolvedPackage → Bool) → List ResolvedPackage → Option ResolvedPackage
first_root p [] = none
first_root p (pkg ∷ roots) = if p pkg then some pkg else first_root p roots

unfoldable pub require_root : Option ResolvedPackage → String → Result ResolvedPackage
require_root none message = err message
require_root (some pkg) message = ok pkg

-- `if (roots.size() == 1U)`
unfoldable pub single_root : List ResolvedPackage → Option ResolvedPackage
single_root (pkg ∷ []) = some pkg
single_root [] = none
single_root (pkg ∷ other ∷ roots) = none

unfoldable pub root_of_manifest :
    List ResolvedPackage → Option ResolvedPackage → Option ResolvedPackage
unfolding single_root
root_of_manifest roots (some pkg) = some pkg
root_of_manifest roots none = single_root roots

unfoldable pub select_root :
    ResolvedGraphResult → List ResolvedPackage → Option String → Result ResolvedPackage
unfolding require_root first_root root_of_manifest
select_root graph roots (some name) =
    require_root (first_root (λ p. p.pkg.name == name) roots)
      (concat "selected package is not a root package of the active manifest: " name)
select_root graph roots none =
    require_root
      (root_of_manifest roots (first_root (λ p. p.manifest_path == graph.manifest_path) roots))
      "workspace build is ambiguous; select a root package with --package <namespace/name>"

-- `if (roots.empty()) throw`, and the rest of ResolveEntryPackage
unfoldable pub select_from_roots :
    BuildPlanRequest → ResolvedGraphResult → List ResolvedPackage → Result ResolvedPackage
unfolding select_root
select_from_roots request graph [] =
    err "compile-plan generation requires at least one root package"
select_from_roots request graph (pkg ∷ roots) = select_root graph (pkg ∷ roots) request.package_name

unfoldable pub resolve_entry_package :
    BuildPlanRequest → ResolvedGraphResult → Result ResolvedPackage
unfolding collect_root_packages select_from_roots
resolve_entry_package request graph = do
  roots ← collect_root_packages graph
  select_from_roots request graph roots

unfoldable pub resolve_profile : String → Result ProfileConfig
resolve_profile profile_name =
    if profile_name == "dev"
    then ok (record { name = "dev"; opt_level = 0; debug = true; lto = false })
    else if profile_name == "release"
    then ok (record { name = "release"; opt_level = 3; debug = false; lto = true })
    else err (concat "unsupported build profile: " profile_name)

abbrev pub same_bool : Bool → Bool → Bool
same_bool true b = b
same_bool false b = not b

-- The body of the loop of ValidateUniformToolchain.
unfoldable pub require_uniform : ResolvedPackage → List ResolvedPackage → Result (Unit {0})
require_uniform baseline [] = ok tt
require_uniform baseline (p ∷ ps) = do
  require (p.pkg.edition == baseline.pkg.edition)
      "compile-plan v1 requires a uniform package.edition across the resolved graph"
  require (p.pkg.toolchain.channel == baseline.pkg.toolchain.channel)
      "compile-plan v1 requires a uniform [toolchain].channel across the resolved graph"
  require (same_bool p.pkg.toolchain.implicit_std baseline.pkg.toolchain.implicit_std)
      "compile-plan v1 requires a uniform [toolchain].implicit-std across the resolved graph"
  require_uniform baseline ps

unfoldable pub validate_uniform_toolchain : List ResolvedPackage → Result (Unit {0})
unfolding require_uniform
validate_uniform_toolchain [] = err "compile-plan generation requires at least one resolved package"
validate_uniform_toolchain (baseline ∷ packages) = require_uniform baseline (baseline ∷ packages)

unfoldable pub build_std_package_id : ResolvedPackage → String
build_std_package_id entry =
    concat (if entry.pkg.toolchain.implicit_std then "builtin:std@" else "builtin:std-disabled@")
      (concat entry.pkg.toolchain.channel (concat "/" entry.pkg.edition))
