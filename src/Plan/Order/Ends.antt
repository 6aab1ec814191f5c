-- ===== src/Plan/Order/Ends.antt =====
-- The calls of `visit` in BuildPackageOrder (CompilePlan.cpp) end: the recursion has enough fuel, and
-- each end shows something of the graph.
use styio_platform.Base.{
  ℕ, zero, suc, ◌≤◌, ◌<◌, String, ◌≡◌, ◌⊎◌, refl, sym, subst, true, none, some, List, [], ◌∷◌, ◌++◌,
  ◌==◌, arith, inl, inr, eq_refl, member, All, length, Option-cases,
}
use styio_platform.Base.Dict.{get}
use styio_platform.Base.Sorting.{sort_texts, any-sort_by}
use styio_platform.Resolve.{ResolvedPackage}
use styio_platform.Plan.Order.{
  VisitState, unseen, active, done, Walk, Outcome, out_of_fuel, unknown_package, cyclic, finished,
  and_then, state_of, enter, leave, find_package, visit, visit_each, visit_package, visit_by_state,
  require_package_by_id, package_ids, walk_packages, start,
}
use styio_platform.Plan.Order.Graph.{
  Edge, IsMissing, IsChain, IsChain-snoc, from_item-IsCycle, dependencies-Edge,
  find_package-package_ids, package_ids-find_package,
}
use styio_platform.Plan.Order.Walks.{
  unseen_count, unseen_count_mono, unseen_count-lt, SeesMore, IsSound, Reached, Ends, Reached-nil,
  Reached-cons, enter-IsSound, leave-Reached, state_of-enter, stack-enter,
}

require_package_by_id-none :
    (packages : List ResolvedPackage) (id : String)
    → find_package packages id ≡ none
    → require_package_by_id packages id ≡ unknown_package id
unfolding require_package_by_id
require_package_by_id-none packages id h = rw (h, require_package_by_id) refl

require_package_by_id-some :
    (packages : List ResolvedPackage) (id : String) (p : ResolvedPackage)
    → find_package packages id ≡ some p
    → require_package_by_id packages id ≡ finished p
unfolding require_package_by_id
require_package_by_id-some packages id p h = rw (h, require_package_by_id) refl

module _ (packages : List ResolvedPackage) where
  abbrev ids_of : List String
  ids_of = package_ids packages

  -- An id for which `visit` is called: a package's own, or one among the dependencies of a package.
  abbrev IsNamed : String → Type 0
  IsNamed id = (member id ids_of ≡ true) ⊎ ((a : String) × Edge packages a id)

  -- A `visit` whose calls end, for walks with less than `n` unseen packages.
  abbrev VisitEnds : ℕ → (String → Walk → Outcome Walk) → Type 0
  VisitEnds n visit' =
      (id : String) (w : Walk)
      → IsSound packages w
      → IsChain packages (w.stack ++ id ∷ [])
      → IsNamed id
      → unseen_count ids_of w < n
      → Ends packages w (id ∷ []) (visit' id w)

  -- The ends of a call and of what follows it.
  and_then-Ends :
      (w w' : Walk) (ids ids' : List String) (o : Outcome Walk) (next : Walk → Outcome Walk)
      → Ends packages w ids o
      → ((u : Walk) → Reached packages w ids u → Ends packages w' ids' (next u))
      → Ends packages w' ids' (and_then o next)
  and_then-Ends w w' ids ids' out_of_fuel next e k = absurd e
  and_then-Ends w w' ids ids' (unknown_package id) next e k = e
  and_then-Ends w w' ids ids' (cyclic c) next e k = e
  and_then-Ends w w' ids ids' (finished u) next e k = k u e

  Ends-cons :
      (w u : Walk) (id : String) (ids : List String) (o : Outcome Walk)
      → Reached packages w (id ∷ []) u
      → Ends packages u ids o
      → Ends packages w (id ∷ ids) o
  Ends-cons w u id ids out_of_fuel r e = e
  Ends-cons w u id ids (unknown_package j) r e = e
  Ends-cons w u id ids (cyclic c) r e = e
  Ends-cons w u id ids (finished v) r e = Reached-cons packages w u v id ids r e

  abbrev Leads : Walk → List String → Type 0
  Leads w ids = All (λ d. IsChain packages (w.stack ++ d ∷ []) × IsNamed d) ids

  visit_each-Ends :
      (n : ℕ) (visit' : String → Walk → Outcome Walk)
      → VisitEnds n visit'
      → (ids : List String) (w : Walk) → IsSound packages w
      → Leads w ids
      → unseen_count ids_of w < n
      → Ends packages w ids (visit_each visit' ids w)
  unfolding visit_each
  visit_each-Ends n visit' v [] w s c lt = Reached-nil packages w s
  visit_each-Ends n visit' v (id ∷ ids) w s c lt =
      and_then-Ends w w (id ∷ []) (id ∷ ids) (visit' id w) (visit_each visit' ids)
        (v id w s c.0.0 c.0.1 lt)
        λ u r. Ends-cons w u id ids (visit_each visit' ids u) r (
          visit_each-Ends n visit' v ids u r.sound
            (subst (λ stack. All (λ d. IsChain packages (stack ++ d ∷ []) × IsNamed d) ids)
              (sym r.same_stack) c.1)
            (omega (arith, unseen_count_mono ids_of w u r.sees)))

  enter-SeesMore : (id : String) (w : Walk) → SeesMore w (enter id w)
  enter-SeesMore id w j h = ground (arith, state_of-enter id j w)

  Edges-Leads :
      (id : String) (stack ids : List String)
      → IsChain packages (stack ++ id ∷ [])
      → All (λ d. Edge packages id d) ids
      → All (λ d. IsChain packages ((stack ++ id ∷ []) ++ d ∷ []) × IsNamed d) ids
  Edges-Leads id stack [] c es = tt
  Edges-Leads id stack (d ∷ ids) c es =
      ((IsChain-snoc packages stack id d c es.0, inr (id, es.0)), Edges-Leads id stack ids c es.1)

  -- The branch of an unseen package that is in the graph.
  visit_found-Ends :
      (n : ℕ) (visit' : String → Walk → Outcome Walk)
      → VisitEnds n visit'
      → (id : String) (w : Walk) (p : ResolvedPackage) → IsSound packages w
      → IsChain packages (w.stack ++ id ∷ [])
      → unseen_count ids_of w < suc n
      → state_of w id ≡ unseen
      → find_package packages id ≡ some p
      → Ends packages w (id ∷ []) (visit_package visit' id (finished p) (enter id w))
  unfolding visit_package
  visit_found-Ends n visit' v id w p s c lt e found =
      let fewer : unseen_count ids_of (enter id w) < unseen_count ids_of w =
        unseen_count-lt ids_of w (enter id w) id (enter-SeesMore id w)
          (find_package-package_ids packages id p found) (rw e refl)
          (ground (arith, state_of-enter id id w, eq_refl id)) in
      and_then-Ends (enter id w) w p.dependencies (id ∷ [])
        (visit_each visit' p.dependencies (enter id w)) (λ u. finished (leave id u))
        (visit_each-Ends n visit' v p.dependencies (enter id w) (enter-IsSound packages id w s e)
          (subst (λ stack. All (λ d. IsChain packages (stack ++ d ∷ []) × IsNamed d) p.dependencies)
            (sym (stack-enter id w))
            (Edges-Leads id w.stack p.dependencies c (dependencies-Edge packages id p found)))
          (omega arith))
        (λ u r. leave-Reached packages id w u p s e found r)

  named-IsMissing :
      (id : String) → IsNamed id → find_package packages id ≡ none → IsMissing packages id
  named-IsMissing id (inl root) h = let (p, found) = package_ids-find_package packages id root in cc
  named-IsMissing id (inr edge) h = (edge, h)

  visit_unseen-Ends :
      (n : ℕ) (visit' : String → Walk → Outcome Walk)
      → VisitEnds n visit'
      → (id : String) (w : Walk) → IsSound packages w
      → IsChain packages (w.stack ++ id ∷ [])
      → IsNamed id
      → unseen_count ids_of w < suc n
      → state_of w id ≡ unseen
      → Ends packages w
          (id ∷ [])
          (visit_package visit' id (require_package_by_id packages id) (enter id w))
  unfolding visit_package
  visit_unseen-Ends n visit' v id w s c named lt e =
      elim (Option-cases (find_package packages id)) [
        | inl missing ↦
            rw (require_package_by_id-none packages id missing) (named-IsMissing id named missing)
        | inr (p, found) ↦
            rw (require_package_by_id-some packages id p found)
              (visit_found-Ends n visit' v id w p s c lt e found)
      ]

  visit_by_state-Ends :
      (n : ℕ) (visit' : String → Walk → Outcome Walk)
      → VisitEnds n visit'
      → (id : String) (w : Walk) (state : VisitState) → state_of w id ≡ state
      → IsSound packages w
      → IsChain packages (w.stack ++ id ∷ [])
      → IsNamed id
      → unseen_count ids_of w < suc n
      → Ends packages w (id ∷ []) (visit_by_state visit' packages id state w)
  unfolding visit_by_state
  visit_by_state-Ends n visit' v id w done e s c named lt = record {
    sound = s;
    same_stack = refl;
    built = ground (arith, s.done_order id);
    keeps = λ j h. h;
    sees = λ j h. h;
  }
  visit_by_state-Ends n visit' v id w active e s c named lt =
      from_item-IsCycle packages id w.stack (ground (arith, s.active_stack id)) c
  visit_by_state-Ends n visit' v id w unseen e s c named lt =
      visit_unseen-Ends n visit' v id w s c named lt e

  visit-Ends : (n : ℕ) → VisitEnds n (visit packages n)
  unfolding visit
  visit-Ends zero id w s c named lt = absurd (omega arith)
  visit-Ends (suc n) id w s c named lt =
      visit_by_state-Ends n (visit packages n) (visit-Ends n) id w (state_of w id) refl s c named lt

  start-IsSound : IsSound packages start
  unfolding get
  start-IsSound = record { done_order = λ j. refl; active_stack = λ j. refl; ordered = tt }

  roots-Leads :
      (ids : List String)
      → ((j : String) → member j ids ≡ true → member j ids_of ≡ true)
      → Leads start ids
  roots-Leads [] h = tt
  roots-Leads (id ∷ ids) h =
      ((tt, inl (h id (ground (arith, eq_refl id)))), roots-Leads ids (λ j m. h j (ground arith)))

  unseen_count-le : (ids : List String) (w : Walk) → unseen_count ids w ≤ length ids
  unseen_count-le [] w = omega arith
  unseen_count-le (id ∷ ids) w = ground (arith, unseen_count-le ids w)

  pub member-sort_texts :
      (j : String) (ids : List String) → member j (sort_texts ids) ≡ member j ids
  unfolding sort_texts
  member-sort_texts j ids = any-sort_by (λ s. s) (λ x. x == j) ids

  length-package_ids : (ps : List ResolvedPackage) → length (package_ids ps) ≡ length ps
  length-package_ids [] = refl
  length-package_ids (p ∷ ps) = omega (arith, length-package_ids ps)

  pub walk_packages-Ends : Ends packages start (sort_texts ids_of) (walk_packages packages)
  unfolding walk_packages
  walk_packages-Ends =
      visit_each-Ends (suc (length packages)) (visit packages (suc (length packages)))
        (visit-Ends (suc (length packages))) (sort_texts ids_of) start start-IsSound
        (roots-Leads (sort_texts ids_of) (λ j m. rw (← member-sort_texts j ids_of) m))
        (omega (arith, unseen_count-le ids_of start, length-package_ids packages))
