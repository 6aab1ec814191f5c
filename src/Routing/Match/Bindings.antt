-- ===== src/Routing/Match/Bindings.antt =====
-- The parameters that MatchRoute binds.
use styio_platform.Base.{
  String, ◌≡◌, ◌⊎◌, false, inl, inr, refl, subst, Bool, true, not, ◌&&◌, ◌||◌, some, List, [], ◌∷◌,
  ◌==◌, if◌then◌else◌, arith, eq_iff, Bool-cases, Option-cases, all, eqb, length, eq_refl, ◌∙◌,
}
use mathlib.Core.Option.{some-injective}
use styio_platform.Base.Dict.{Dict, get, put, get-put}
use styio_platform.Base.Text.{split_items}
use styio_platform.Routing.{
  HttpMethod, RouteSpec, RouteMatch, same_method, split_route, is_parameter, parameter_name,
  match_segments, try_route, first_match, match_route, take_chars,
}
use styio_platform.Routing.Catalog.{all_routes}

abbrev pub Bound : List String → List String → Dict String → Type 0
Bound [] actual m = Unit
Bound (r ∷ rs) [] m = Unit
Bound (r ∷ rs) (a ∷ actual) m =
    ((is_parameter r ≡ false) ⊎ (get (parameter_name r) m ≡ some a)) × Bound rs actual m

-- No parameter of the segments has the name.
abbrev pub is_unnamed : String → List String → Bool
is_unnamed n rs = all (λ r. not (is_parameter r && parameter_name r == n)) rs

abbrev pub distinct_names : List String → Bool
distinct_names [] = true
distinct_names (r ∷ rs) = is_unnamed (parameter_name r) rs && distinct_names rs

-- The segments that follow leave a name alone that none of them has.
get-match_segments :
    (rs actual : List String) (d m : Dict String) (n a : String)
    → is_unnamed n rs ≡ true
    → match_segments rs actual d ≡ some m
    → get n d ≡ some a
    → get n m ≡ some a
unfolding match_segments
get-match_segments [] actual d m n a u h g = rw (← some-injective _ _ h) g
get-match_segments (r ∷ rs) [] d m n a u h g = cc
get-match_segments (r ∷ rs) (b ∷ actual) d m n a u h g =
    let next = if is_parameter r then put (parameter_name r) b d else d in
    elim (Bool-cases (is_parameter r || r == b)) [
      | inr failed ↦ cc (rw failed at h)
      | inl passed ↦
          get-match_segments rs actual next m n a (ground arith) (rw passed at h)
            (ground (arith, eq_iff (parameter_name r) n, get-put (parameter_name r) n b d))
    ]

match_segments-Bound :
    (rs actual : List String) (d m : Dict String)
    → distinct_names rs ≡ true
    → match_segments rs actual d ≡ some m
    → Bound rs actual m
unfolding match_segments
match_segments-Bound [] actual d m u h = tt
match_segments-Bound (r ∷ rs) [] d m u h = tt
match_segments-Bound (r ∷ rs) (b ∷ actual) d m u h =
    let next = if is_parameter r then put (parameter_name r) b d else d in
    elim (Bool-cases (is_parameter r || r == b)) [
      | inr failed ↦ cc (rw failed at h)
      | inl passed ↦ (
        elim (Bool-cases (is_parameter r)) [
          | inr fixed ↦ inl fixed
          | inl named ↦ inr (
              get-match_segments rs actual next m (parameter_name r) b (ground arith)
                (rw passed at h)
                (ground (
                  arith,
                  eq_refl (parameter_name r),
                  get-put (parameter_name r) (parameter_name r) b d,
                )))
        ],
        match_segments-Bound rs actual next m (ground arith) (rw passed at h),
      )
    ]

try_route-Bound :
    (route : RouteSpec) (method : HttpMethod) (actual : List String) (m : RouteMatch)
    → distinct_names (split_route route.path) ≡ true
    → try_route route method actual ≡ some m
    → Bound (split_route m.route.path) actual m.parameters
unfolding try_route
try_route-Bound route method actual m u h = elim (Bool-cases (same_method route.method method)) [
  | inr other ↦ cc (rw other at h)
  | inl same ↦ elim (Bool-cases (eqb (length (split_route route.path)) (length actual))) [
    | inr longer ↦ cc (rw (same, longer) at h)
    | inl level ↦ elim (Option-cases (match_segments (split_route route.path) actual [])) [
      | inl e ↦ cc (rw (same, level, e) at h)
      | inr (d, e) ↦
          subst (λ (x : RouteMatch). Bound (split_route x.route.path) actual x.parameters)
            (some-injective _ _ (rw (same, level, e) at h))
            (match_segments-Bound (split_route route.path) actual [] d u e)
    ]
  ]
]

first_match-Bound :
    (routes : List RouteSpec) (method : HttpMethod) (actual : List String) (m : RouteMatch)
    → all (λ r. distinct_names (split_route r.path)) routes ≡ true
    → first_match routes method actual ≡ some m
    → Bound (split_route m.route.path) actual m.parameters
unfolding first_match
first_match-Bound [] method actual m u h = cc
first_match-Bound (route ∷ routes) method actual m u h =
    elim (Option-cases (try_route route method actual)) [
      | inl e ↦ first_match-Bound routes method actual m (ground arith) (rw (first_match, e) at h)
      | inr (n, e) ↦
          try_route-Bound route method actual m (ground arith) (e ∙ (rw (first_match, e) at h))
    ]

all_routes-distinct : all (λ r. distinct_names (split_route r.path)) all_routes ≡ true
unfolding all_routes split_route is_parameter split_items parameter_name take_chars
all_routes-distinct = refl

-- A route of the platform that is found for a request binds every one of its parameters to the
-- segment of the request's path that stands in its place.
pub match_route-Bound :
    (method : HttpMethod) (path : String) (m : RouteMatch)
    → match_route all_routes method path ≡ some m
    → Bound (split_route m.route.path) (split_route path) m.parameters
unfolding match_route
match_route-Bound method path m h =
    first_match-Bound all_routes method (split_route path) m all_routes-distinct h
