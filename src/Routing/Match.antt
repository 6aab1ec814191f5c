-- ===== src/Routing/Match.antt =====
-- MatchRoute (Http.cpp) against what it means for a path to fit a route.
pub mod Tables
pub mod Bindings
use mathlib.Core.List.{Memᴰ}
use mathlib.Core.List.Memᴰ
use mathlib.Core.Option.{some-injective}
use styio_platform.Base.{
  String, ◌≡◌, ◌≢◌, ◌↔◌, ◌⊎◌, inl, inr, refl, sym, ap, ◌∙◌, subst, Bool, true, false, not, ◌&&◌,
  ◌||◌, Option, none, some, List, [], ◌∷◌, ◌==◌, if◌then◌else◌, eqb, length, arith, eq_iff,
  Bool-cases, Option-cases, eqb_iff,
}
use styio_platform.Base.Dict.{Dict, put}
use styio_platform.Routing.{
  HttpMethod, RouteSpec, RouteMatch, same_method, split_route, is_parameter, parameter_name,
  match_segments, try_route, first_match, match_route,
}

-- The segments of a route's path against those of a request's: a parameter takes any segment, and
-- any other segment takes itself.
abbrev pub Fits : List String → List String → Type 0
Fits [] [] = Unit
Fits (r ∷ rs) (a ∷ actual) = ((is_parameter r ≡ true) ⊎ (r ≡ a)) × Fits rs actual
Fits _ _ = ⊥

-- The route has the request's method, and its path fits.
abbrev pub Answers : HttpMethod → List String → RouteSpec → Type 0
Answers method actual route =
    (same_method route.method method ≡ true) × Fits (split_route route.path) actual

Fits-length : (rs actual : List String) → Fits rs actual → length rs ≡ length actual
Fits-length [] [] f = refl
Fits-length [] (a ∷ actual) f = absurd f
Fits-length (r ∷ rs) [] f = absurd f
Fits-length (r ∷ rs) (a ∷ actual) f = omega (arith, Fits-length rs actual f.1)

match_segments-Fits :
    (rs actual : List String) (d m : Dict String)
    → length rs ≡ length actual
    → match_segments rs actual d ≡ some m
    → Fits rs actual
unfolding match_segments
match_segments-Fits [] [] d m l h = tt
match_segments-Fits [] (a ∷ actual) d m l h = absurd (omega arith)
match_segments-Fits (r ∷ rs) [] d m l h = absurd (omega arith)
match_segments-Fits (r ∷ rs) (a ∷ actual) d m l h =
    let next = if is_parameter r then put (parameter_name r) a d else d in
    elim (Bool-cases (is_parameter r || r == a)) [
      | inr failed ↦ cc (rw failed at h)
      | inl passed ↦ (
        ground (arith, eq_iff r a),
        match_segments-Fits rs actual next m (omega arith) (rw passed at h),
      )
    ]

Fits-match_segments :
    (rs actual : List String) (d : Dict String)
    → Fits rs actual
    → (m : Dict String) × (match_segments rs actual d ≡ some m)
unfolding match_segments
Fits-match_segments [] [] d f = (d, refl)
Fits-match_segments [] (a ∷ actual) d f = absurd f
Fits-match_segments (r ∷ rs) [] d f = absurd f
Fits-match_segments (r ∷ rs) (a ∷ actual) d f =
    let next = if is_parameter r then put (parameter_name r) a d else d in
    let test : (is_parameter r || r == a) ≡ true = ground (arith, eq_iff r a) in
    rw test (Fits-match_segments rs actual next f.1)

pub try_route_sound :
    (route : RouteSpec) (method : HttpMethod) (actual : List String) (m : RouteMatch)
    → try_route route method actual ≡ some m
    → (m.route ≡ route) × Answers method actual route
unfolding try_route
try_route_sound route method actual m h = elim (Bool-cases (same_method route.method method)) [
  | inr other ↦ cc (rw other at h)
  | inl same ↦ elim (Bool-cases (eqb (length (split_route route.path)) (length actual))) [
    | inr longer ↦ cc (rw (same, longer) at h)
    | inl level ↦ elim (Option-cases (match_segments (split_route route.path) actual [])) [
      | inl e ↦ cc (rw (same, level, e) at h)
      | inr (d, e) ↦ (
        ap (λ (x : RouteMatch). x.route) (sym (some-injective _ _ (rw (same, level, e) at h))),
        (same, match_segments-Fits (split_route route.path) actual [] d ((eqb_iff _ _).0 level) e),
      )
    ]
  ]
]

pub try_route_complete :
    (route : RouteSpec) (method : HttpMethod) (actual : List String)
    → Answers method actual route
    → (m : RouteMatch) × (try_route route method actual ≡ some m)
unfolding try_route
try_route_complete route method actual (same, f) =
    let (d, e) = Fits-match_segments (split_route route.path) actual [] f in
    let level : eqb (length (split_route route.path)) (length actual) ≡ true =
      (eqb_iff _ _).1 (Fits-length (split_route route.path) actual f) in
    rw (same, level, e) (record { route = route; parameters = d }, refl)

-- What the search finds is a route of the table that answers the request.
pub first_match_sound :
    (routes : List RouteSpec) (method : HttpMethod) (actual : List String) (m : RouteMatch)
    → first_match routes method actual ≡ some m
    → Memᴰ m.route routes × Answers method actual m.route
unfolding first_match
first_match_sound [] method actual m h = cc
first_match_sound (route ∷ routes) method actual m h =
    elim (Option-cases (try_route route method actual)) [
      | inl e ↦
          let (found, answers) =
            first_match_sound routes method actual m (rw (first_match, e) at h) in
          (Memᴰ.tail found, answers)
      | inr (n, e) ↦
          let same : n ≡ m = some-injective _ _ (rw (first_match, e) at h) in
          let (own, answers) = try_route_sound route method actual n e in
          let named : m.route ≡ route = subst (λ (x : RouteMatch). x.route ≡ route) same own in
          (Memᴰ.head named, subst (Answers method actual) (sym named) answers)
    ]

pub first_match_complete :
    (routes : List RouteSpec) (method : HttpMethod) (actual : List String) (route : RouteSpec)
    → Memᴰ route routes
    → Answers method actual route
    → (m : RouteMatch) × (first_match routes method actual ≡ some m)
unfolding first_match
first_match_complete (r ∷ routes) method actual route at_place answers =
    elim (Option-cases (try_route r method actual)) [
      | inr (n, e) ↦ rw (first_match, e) (n, refl)
      | inl e ↦ elim (Memᴰ.cases_cons at_place) [
        | inl same ↦
            let (n, f) =
              try_route_complete r method actual (subst (Answers method actual) same answers) in
            cc (e, f)
        | inr later ↦
            rw (first_match, e) (first_match_complete routes method actual route later answers)
      ]
    ]
first_match_complete [] method actual route at_place answers = absurd (Memᴰ.not-nil at_place)
