-- ===== src/Plan/Order/Graph.antt =====
-- The package graph behind BuildPackageOrder (CompilePlan.cpp): its edges, chains and cycles, and
-- what an order for building its packages is.
use styio_platform.Base.{
  append-nil, append_assoc, String, ◌≡◌, refl, sym, subst, Bool, true, false, ◌||◌, ◌&&◌, none,
  some, List, [], ◌∷◌, ◌++◌, ◌==◌, eq_iff, eq_refl, arith, inl, inr, member, any, all, All,
  Bool-cases,
}
use styio_platform.Resolve.{ResolvedPackage}
use styio_platform.Plan.Order.{find_package, from_item, pop_back, package_ids}

pub any-append {ℓ} :
    {A : Type ℓ} (p : A → Bool) (xs ys : List A) → any p (xs ++ ys) ≡ (any p xs || any p ys)
any-append p [] ys = refl
any-append p (x ∷ xs) ys = ground (arith, any-append p xs ys)

pub all-append {ℓ} :
    {A : Type ℓ} (p : A → Bool) (xs ys : List A) → all p (xs ++ ys) ≡ (all p xs && all p ys)
all-append p [] ys = refl
all-append p (x ∷ xs) ys = ground (arith, all-append p xs ys)

pub member-snoc :
    (j id : String) (xs : List String) → member j (xs ++ id ∷ []) ≡ (member j xs || (id == j))
member-snoc j id xs = ground (arith, any-append (λ x. x == j) xs (id ∷ []))

pub member_self : (id : String) (xs : List String) → member id (xs ++ id ∷ []) ≡ true
member_self id xs = ground (arith, member-snoc id id xs, eq_refl id)

pub pop_back-snoc : (xs : List String) (id : String) → pop_back (xs ++ id ∷ []) ≡ xs
unfolding pop_back
pop_back-snoc [] id = refl
pop_back-snoc (x ∷ []) id = refl
pop_back-snoc (x ∷ y ∷ xs) id = rw (pop_back-snoc (y ∷ xs) id)

pub all_mono :
    (p q : String → Bool)
    → ((j : String) → p j ≡ true → q j ≡ true)
    → (xs : List String) → all p xs ≡ true
    → all q xs ≡ true
all_mono p q keep [] h = refl
all_mono p q keep (x ∷ xs) h = ground (arith, keep x, all_mono p q keep xs)

module _ (packages : List ResolvedPackage) where
  -- The package `a` names `b` among its dependencies.
  abbrev pub Edge : String → String → Type 0
  Edge a b =
      (p : ResolvedPackage) × (find_package packages a ≡ some p) × (member b p.dependencies ≡ true)

  -- A package names `b` among its dependencies, and no package has this id.
  abbrev pub IsMissing : String → Type 0
  IsMissing b = ((a : String) × Edge a b) × (find_package packages b ≡ none)

  abbrev pub IsChain : List String → Type 0
  IsChain [] = Unit
  IsChain (x ∷ []) = Unit
  IsChain (x ∷ y ∷ rest) = Edge x y × IsChain (y ∷ rest)

  -- A chain of dependencies from a package to itself.
  abbrev pub IsCycle : List String → Type 0
  IsCycle ids =
      (id : String) × (between : List String) × (ids ≡ id ∷ between ++ id ∷ []) × IsChain ids

  -- `id` may be built after `before`: it is new, a package, and has its dependencies there.
  abbrev pub CanBuild : List String → String → Type 0
  CanBuild before id =
      (member id before ≡ false)
      × ((p : ResolvedPackage) × (find_package packages id ≡ some p)
          × (all (λ d. member d before) p.dependencies ≡ true))

  -- Each id may be built after those in front of it.
  abbrev pub IsBuildOrder : List String → List String → Type 0
  IsBuildOrder before [] = Unit
  IsBuildOrder before (id ∷ ids) = CanBuild before id × IsBuildOrder (before ++ id ∷ []) ids

  pub IsBuildOrder-snoc :
      (before ids : List String) (id : String)
      → IsBuildOrder before ids
      → CanBuild (before ++ ids) id
      → IsBuildOrder before (ids ++ id ∷ [])
  IsBuildOrder-snoc before [] id o c = (subst (λ b. CanBuild b id) (append-nil before) c, tt)
  IsBuildOrder-snoc before (x ∷ xs) id o c = (
    o.0,
    IsBuildOrder-snoc (before ++ x ∷ []) xs id o.1
        (subst (λ b. CanBuild b id) (sym (append_assoc before (x ∷ []) xs)) c),
  )

  pub IsChain-snoc :
      (xs : List String) (a b : String)
      → IsChain (xs ++ a ∷ [])
      → Edge a b
      → IsChain ((xs ++ a ∷ []) ++ b ∷ [])
  IsChain-snoc [] a b c e = (e, tt)
  IsChain-snoc (x ∷ []) a b c e = (c.0, (e, tt))
  IsChain-snoc (x ∷ y ∷ xs) a b c e = (c.0, IsChain-snoc (y ∷ xs) a b c.1 e)

  IsChain-tail : (x : String) (xs : List String) → IsChain (x ∷ xs) → IsChain xs
  IsChain-tail x [] c = tt
  IsChain-tail x (y ∷ xs) c = c.1

  -- From its first mention of `id` on, a chain that comes back to `id` is a cycle.
  pub from_item-IsCycle :
      (id : String) (stack : List String)
      → member id stack ≡ true
      → IsChain (stack ++ id ∷ [])
      → IsCycle (from_item id stack ++ id ∷ [])
  unfolding from_item
  from_item-IsCycle id [] m c = cc
  from_item-IsCycle id (x ∷ xs) m c = elim (Bool-cases (x == id)) [
    | inl same ↦ rw same (x, xs, rw ((eq_iff x id).0 same) refl, c)
    | inr other ↦
        rw other (from_item-IsCycle id xs (ground arith) (IsChain-tail x (xs ++ id ∷ []) c))
  ]

  Edges_from :
      (id : String) (p : ResolvedPackage)
      → find_package packages id ≡ some p
      → (ds : List String) → ((d : String) → member d ds ≡ true → member d p.dependencies ≡ true)
      → All (λ d. Edge id d) ds
  Edges_from id p f [] sub = tt
  Edges_from id p f (d ∷ ds) sub = (
    (p, f, sub d (ground (arith, eq_refl d))),
    Edges_from id p f ds (λ j h. sub j (ground arith)),
  )

  pub dependencies-Edge :
      (id : String) (p : ResolvedPackage)
      → find_package packages id ≡ some p
      → All (λ d. Edge id d) p.dependencies
  dependencies-Edge id p f = Edges_from id p f p.dependencies (λ d h. h)

pub find_package-package_ids :
    (packages : List ResolvedPackage) (id : String) (p : ResolvedPackage)
    → find_package packages id ≡ some p
    → member id (package_ids packages) ≡ true
unfolding find_package
find_package-package_ids [] id p h = cc
find_package-package_ids (q ∷ packages) id p h =
    ground (arith, find_package-package_ids packages id p)

pub package_ids-find_package :
    (packages : List ResolvedPackage) (id : String)
    → member id (package_ids packages) ≡ true
    → (p : ResolvedPackage) × (find_package packages id ≡ some p)
unfolding find_package
package_ids-find_package [] id h = cc
package_ids-find_package (q ∷ packages) id h = elim (Bool-cases (q.id == id)) [
  | inl same ↦ rw same (q, refl)
  | inr other ↦ rw other (package_ids-find_package packages id (ground arith))
]
