-- ===== src/Plan/Order/Total.antt =====
-- `BuildPackageOrder` (CompilePlan.cpp) ends, and what each of its ends shows.
use styio_platform.Base.{
  String, ◌≡◌, ◌↔◌, refl, Bool, true, some, List, [], ◌∷◌, ◌++◌, ◌==◌, arith, inl, inr, eq_iff,
  Bool-cases, member, any, all,
}
use styio_platform.Base.Sorting.{sort_texts}
use styio_platform.Resolve.{ResolvedPackage, ResolvedGraphResult}
use styio_platform.Plan.Order.{
  Walk, Outcome, out_of_fuel, unknown_package, cyclic, finished, and_then, find_package,
  package_ids, walk_packages, build_package_order, start,
}
use styio_platform.Plan.Order.Graph.{IsBuildOrder, IsCycle, IsMissing, find_package-package_ids}
use styio_platform.Plan.Order.Ends.{member-sort_texts, walk_packages-Ends}
use styio_platform.Plan.Order.Walks.{Ends}

-- What `BuildPackageOrder` may leave, and what it then shows of the graph.
abbrev pub Shows : List ResolvedPackage → Outcome (List String) → Type 0
Shows packages out_of_fuel = ⊥
Shows packages (unknown_package id) = IsMissing packages id
Shows packages (cyclic ids) = IsCycle packages ids
Shows packages (finished order) =
    IsBuildOrder packages [] order
    × ((id : String) → (member id order ≡ true) ↔ (member id (package_ids packages) ≡ true))

any-true :
    (p q : String → Bool) (xs : List String)
    → all q xs ≡ true
    → any p xs ≡ true
    → (x : String) × (p x ≡ true) × (q x ≡ true)
any-true p q [] h m = cc
any-true p q (x ∷ xs) h m = elim (Bool-cases (p x)) [
  | inl found ↦ (x, found, ground arith)
  | inr other ↦ any-true p q xs (ground arith) (ground arith)
]

-- A member of a build order is a package.
IsBuildOrder-find :
    (packages : List ResolvedPackage) (before ids : List String) (id : String)
    → IsBuildOrder packages before ids
    → member id ids ≡ true
    → (p : ResolvedPackage) × (find_package packages id ≡ some p)
IsBuildOrder-find packages before [] id o m = cc
IsBuildOrder-find packages before (x ∷ xs) id o m = elim (Bool-cases (x == id)) [
  | inl same ↦ let (p, found, deps) = o.0.1 in rw (← (eq_iff x id).0 same) (p, found)
  | inr other ↦ IsBuildOrder-find packages (before ++ x ∷ []) xs id o.1 (ground arith)
]

order-Shows :
    (packages : List ResolvedPackage) (o : Outcome Walk)
    → Ends packages start (sort_texts (package_ids packages)) o
    → Shows packages (and_then o (λ w. finished w.order))
order-Shows packages out_of_fuel e = e
order-Shows packages (unknown_package id) e = e
order-Shows packages (cyclic ids) e = e
order-Shows packages (finished w) e = (
  e.sound.ordered,
  λ id. (
    λ m.
        let (p, found) = IsBuildOrder-find packages [] w.order id e.sound.ordered m in
        find_package-package_ids packages id p found,
    λ m.
        let (x, same, built) =
          any-true (λ x. x == id) (λ j. member j w.order) (sort_texts (package_ids packages))
            e.built (rw (member-sort_texts packages id (package_ids packages)) m) in
        rw (← (eq_iff x id).0 same) built,
  ),
)

-- Whatever the graph, BuildPackageOrder ends, and it leaves one of three things: an order that holds
-- exactly the packages, each once and after all its dependencies; a cycle of dependencies that the
-- graph has; or the id of a dependency that is no package.
pub build_package_order-Shows :
    (graph : ResolvedGraphResult) → Shows graph.packages (build_package_order graph)
unfolding build_package_order
build_package_order-Shows graph =
    order-Shows graph.packages (walk_packages graph.packages) (walk_packages-Ends graph.packages)

total_from :
    (packages : List ResolvedPackage) (o : Outcome (List String))
    → Shows packages o
    → ((ids : List String) → ¬ IsCycle packages ids)
    → ((id : String) → ¬ IsMissing packages id)
    → (order : List String) × (o ≡ finished order)
total_from packages out_of_fuel s acyclic complete = absurd s
total_from packages (unknown_package id) s acyclic complete = absurd (complete id s)
total_from packages (cyclic ids) s acyclic complete = absurd (acyclic ids s)
total_from packages (finished order) s acyclic complete = (order, refl)

-- In a graph with no cycle, whose dependencies are all packages, BuildPackageOrder gives an order.
pub build_package_order_total :
    (graph : ResolvedGraphResult)
    → ((ids : List String) → ¬ IsCycle graph.packages ids)
    → ((id : String) → ¬ IsMissing graph.packages id)
    → (order : List String) × (build_package_order graph ≡ finished order)
build_package_order_total graph acyclic complete =
    total_from graph.packages (build_package_order graph) (build_package_order-Shows graph) acyclic
      complete
