-- ===== src/Routing/Match/Tables.antt =====
-- MatchRoute on the two route tables of the platform.
use mathlib.Core.List.{Memᴰ}
use mathlib.Core.List.Memᴰ
use styio_platform.Base.{
  String, ◌≡◌, ◌↔◌, inl, inr, refl, sym, ◌∙◌, subst, Bool, true, false, not, ◌&&◌, ◌||◌, some, List,
  [], ◌∷◌, ◌==◌, arith, eq_iff, all,
}
use styio_platform.Routing.{
  HttpMethod, get_method, post_method, delete_method, RouteSpec, RouteMatch, same_method,
  split_route, is_parameter, match_route,
}
use styio_platform.Routing.Match.{Fits, Answers, first_match_sound, first_match_complete}
use styio_platform.Routing.Catalog.{all_routes}
use styio_platform.Base.Text.{split_items}

-- Whether some path could fit both.
abbrev pub can_meet : List String → List String → Bool
can_meet [] [] = true
can_meet (r ∷ rs) (q ∷ qs) = (is_parameter r || is_parameter q || r == q) && can_meet rs qs
can_meet _ _ = false

abbrev pub clashes : RouteSpec → RouteSpec → Bool
clashes r q = same_method r.method q.method && can_meet (split_route r.path) (split_route q.path)

abbrev pub no_clashes : List RouteSpec → Bool
no_clashes [] = true
no_clashes (r ∷ routes) = all (λ q. not (clashes r q)) routes && no_clashes routes

Fits-can_meet :
    (rs qs actual : List String) → Fits rs actual → Fits qs actual → can_meet rs qs ≡ true
Fits-can_meet [] [] [] f g = refl
Fits-can_meet (r ∷ rs) (q ∷ qs) (a ∷ actual) f g =
    ground (arith, eq_iff r q, eq_iff r a, Fits-can_meet rs qs actual f.1 g.1)
Fits-can_meet [] (q ∷ qs) [] f g = absurd g
Fits-can_meet (r ∷ rs) [] [] f g = absurd f
Fits-can_meet (r ∷ rs) (q ∷ qs) [] f g = absurd f
Fits-can_meet [] [] (a ∷ actual) f g = absurd f
Fits-can_meet [] (q ∷ qs) (a ∷ actual) f g = absurd f
Fits-can_meet (r ∷ rs) [] (a ∷ actual) f g = absurd g

same_method-eq : (a b : HttpMethod) → same_method a b ≡ true → a ≡ b
same_method-eq get_method get_method h = refl
same_method-eq post_method post_method h = refl
same_method-eq delete_method delete_method h = refl
same_method-eq a b h = cc

same_method_refl : (a : HttpMethod) → same_method a a ≡ true
same_method_refl get_method = refl
same_method_refl post_method = refl
same_method_refl delete_method = refl

-- Two routes that answer one request clash.
Answers-clashes :
    (method : HttpMethod) (actual : List String) (r q : RouteSpec)
    → Answers method actual r
    → Answers method actual q
    → clashes r q ≡ true
Answers-clashes method actual r q a b =
    let same : r.method ≡ q.method = same_method-eq _ _ a.0 ∙ sym (same_method-eq _ _ b.0) in
    rw
      (
        same,
        same_method_refl q.method,
        Fits-can_meet (split_route r.path) (split_route q.path) actual a.1 b.1,
      )
      refl

all-Memᴰ :
    (p : RouteSpec → Bool) (routes : List RouteSpec) (q : RouteSpec)
    → all p routes ≡ true
    → Memᴰ q routes
    → p q ≡ true
all-Memᴰ p [] q h at_place = absurd (Memᴰ.not-nil at_place)
all-Memᴰ p (r ∷ routes) q h at_place = elim (Memᴰ.cases_cons at_place) [
  | inl e ↦ rw e (ground arith)
  | inr later ↦ all-Memᴰ p routes q (ground arith) later
]

-- In a table without clashes, one route at most answers a request.
pub no_clashes_unique :
    (routes : List RouteSpec) (method : HttpMethod) (actual : List String) (r q : RouteSpec)
    → no_clashes routes ≡ true
    → Memᴰ r routes
    → Answers method actual r
    → Memᴰ q routes
    → Answers method actual q
    → r ≡ q
no_clashes_unique [] method actual r q h m a n b = absurd (Memᴰ.not-nil m)
no_clashes_unique (x ∷ routes) method actual r q h m a n b =
    let first : all (λ y. not (clashes x y)) routes ≡ true = ground arith in
    let rest : no_clashes routes ≡ true = ground arith in
    elim (Memᴰ.cases_cons m) [
      | inl e ↦ elim (Memᴰ.cases_cons n) [
        | inl f ↦ e ∙ sym f
        | inr k ↦ cc (
          all-Memᴰ (λ y. not (clashes x y)) routes q first k,
          Answers-clashes method actual x q (subst (Answers method actual) e a) b,
        )
      ]
      | inr l ↦ elim (Memᴰ.cases_cons n) [
        | inl f ↦ cc (
          all-Memᴰ (λ y. not (clashes x y)) routes r first l,
          Answers-clashes method actual x r (subst (Answers method actual) f b) a,
        )
        | inr k ↦ no_clashes_unique routes method actual r q rest l a k b
      ]
    ]

all_routes-no_clashes : no_clashes all_routes ≡ true
unfolding all_routes split_route is_parameter split_items
all_routes-no_clashes = refl

-- A route of the platform is the one found for a request exactly where its method is the
-- request's and its segments fit the request's path; the order of the table plays no part.
pub match_route-all_routes :
    (method : HttpMethod) (path : String) (route : RouteSpec)
    → Memᴰ route all_routes
    → ((m : RouteMatch) × (match_route all_routes method path ≡ some m) × (m.route ≡ route))
      ↔ Answers method (split_route path) route
unfolding match_route
match_route-all_routes method path route at_place = (
  λ (m, e, own).
      subst (Answers method (split_route path)) own
        (first_match_sound all_routes method (split_route path) m e).1,
  λ answers.
      let (m, e) =
        first_match_complete all_routes method (split_route path) route at_place answers in
      let (found, fits) = first_match_sound all_routes method (split_route path) m e in
      (
        m,
        e,
        no_clashes_unique all_routes method (split_route path) m.route route all_routes-no_clashes
            found fits at_place answers,
      ),
)
