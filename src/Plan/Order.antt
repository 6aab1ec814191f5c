-- ===== src/Plan/Order.antt =====
-- `BuildPackageOrder` of CompilePlan.cpp. The walk is recursion on fuel, which counts the calls of
-- `visit` that are open; the fuel given is one more than the packages, and Plan/Order/Total shows
-- that it is enough.
pub mod Graph
pub mod Walks
pub mod Ends
pub mod Total
use styio_platform.Base.{
  ℕ, zero, suc, ◌+◌, String, Bool, true, false, Option, none, some, List, [], ◌∷◌, ◌++◌, map, ◌==◌,
  if◌then◌else◌, length,
}
use styio_platform.Base.Dict.{Dict, get, put}
use styio_platform.Base.Sorting.{sort_texts}
use styio_platform.Resolve.{ResolvedPackage, ResolvedGraphResult}

pub data VisitState : Type 0 where
  unseen active done : VisitState

-- What is caught by reference in the lambda `visit`.
pub record Walk : Type 0 where
  pub visit_state : Dict VisitState
  pub order : List String
  pub stack : List String

-- What a call of `visit` leaves: a PlanError (a package id that is not in the graph, or a cycle),
-- or a value. `out_of_fuel` has no counterpart in the source.
pub data Outcome {ℓ} (T : Type ℓ) : Type ℓ where
  out_of_fuel : Outcome T
  unknown_package : String → Outcome T
  cyclic : List String → Outcome T
  finished : T → Outcome T

abbrev pub and_then {ℓ κ} : {T : Type ℓ} {U : Type κ} → Outcome T → (T → Outcome U) → Outcome U
and_then out_of_fuel next = out_of_fuel
and_then (unknown_package id) next = unknown_package id
and_then (cyclic cycle) next = cyclic cycle
and_then (finished t) next = next t

-- `packages_by_id`: `emplace` keeps the first package of an id.
unfoldable pub find_package : List ResolvedPackage → String → Option ResolvedPackage
find_package [] id = none
find_package (pkg ∷ packages) id = if pkg.id == id then some pkg else find_package packages id

-- `RequirePackageById`
unfoldable pub require_package_by_id : List ResolvedPackage → String → Outcome ResolvedPackage
require_package_by_id packages id = elim (find_package packages id) [
  | none ↦ unknown_package id
  | some pkg ↦ finished pkg
]

-- `visit_state[package_id]`: an id that has no entry yet is unseen.
abbrev pub state_or_unseen : Option VisitState → VisitState
state_or_unseen none = unseen
state_or_unseen (some s) = s

abbrev pub state_of : Walk → String → VisitState
state_of w id = state_or_unseen (get id w.visit_state)

-- `std::find(stack.begin(), stack.end(), package_id)` to the end
unfoldable pub from_item : String → List String → List String
from_item id [] = []
from_item id (x ∷ xs) = if x == id then x ∷ xs else from_item id xs

-- `stack.pop_back()`
unfoldable pub pop_back : List String → List String
pop_back [] = []
pop_back (x ∷ []) = []
pop_back (x ∷ y ∷ xs) = x ∷ pop_back (y ∷ xs)

unfoldable pub enter : String → Walk → Walk
enter id w = record w { visit_state = put id active w.visit_state; stack = w.stack ++ id ∷ [] }

unfoldable pub leave : String → Walk → Walk
unfolding pop_back
leave id w = record {
  visit_state = put id done w.visit_state;
  order = w.order ++ id ∷ [];
  stack = pop_back w.stack;
}

-- `for (const std::string &id : ids) visit(id);`
unfoldable pub visit_each : (String → Walk → Outcome Walk) → List String → Walk → Outcome Walk
visit_each visit [] w = finished w
visit_each visit (id ∷ ids) w = and_then (visit id w) (visit_each visit ids)

-- The rest of `visit`, from the lookup of the package on.
unfoldable pub visit_package :
    (String → Walk → Outcome Walk) → String → Outcome ResolvedPackage → Walk → Outcome Walk
unfolding visit_each leave
visit_package visit id pkg w =
    and_then pkg (λ p. and_then (visit_each visit p.dependencies w) (λ v. finished (leave id v)))

-- The two early returns of `visit`, and its rest.
unfoldable pub visit_by_state :
    (String → Walk → Outcome Walk)
    → List ResolvedPackage
    → String
    → VisitState
    → Walk
    → Outcome Walk
unfolding visit_package require_package_by_id enter from_item
visit_by_state visit packages id done w = finished w
visit_by_state visit packages id active w = cyclic (from_item id w.stack ++ id ∷ [])
visit_by_state visit packages id unseen w =
    visit_package visit id (require_package_by_id packages id) (enter id w)

unfoldable pub visit : List ResolvedPackage → ℕ → String → Walk → Outcome Walk
unfolding visit_by_state
visit packages zero id w = out_of_fuel
visit packages (suc fuel) id w = visit_by_state (visit packages fuel) packages id (state_of w id) w

abbrev pub start : Walk
start = record { visit_state = []; order = []; stack = [] }

abbrev pub package_ids : List ResolvedPackage → List String
package_ids packages = map (λ p. p.id) packages

-- The walk from every package.
unfoldable pub walk_packages : List ResolvedPackage → Outcome Walk
unfolding visit visit_each sort_texts
walk_packages packages =
    visit_each (visit packages (suc (length packages))) (sort_texts (package_ids packages)) start

unfoldable pub build_package_order : ResolvedGraphResult → Outcome (List String)
unfolding walk_packages
build_package_order graph = and_then (walk_packages graph.packages) (λ w. finished w.order)
