-- ===== src/Routing.antt =====
-- PlatformService/Http.cpp and Http.hpp: requests, responses, and how a route is found for a path.
mod Examples
pub mod Catalog
pub mod Match
use Prim.Native.Char.{Char, code}
use Prim.Native.Nat.{zero, suc, ◌-◌}
use Prim.Native.String.{count}
use styio_platform.Base.{
  ℕ, String, Bool, true, false, not, ◌&&◌, ◌||◌, Option, none, some, List, [], ◌∷◌, ◌==◌,
  if◌then◌else◌, eqb, ltb, length,
}
use styio_platform.Base.Dict.{Dict, put}
use styio_platform.Base.Text.{split_items, same_char}
use styio_platform.Json.{Json, ℤ}

pub data HttpMethod : Type 0 where
  get_method : HttpMethod
  post_method : HttpMethod
  delete_method : HttpMethod

-- The role, tenant and node that a client certificate names.
pub record MtlsIdentity : Type 0 where
  pub role : String
  pub tenant_id : String
  pub node_id : String

pub record HttpRequest (V : Type 0) : Type 0 where
  pub method : HttpMethod
  pub path : String
  pub headers : Dict String
  pub body : V
  pub identity : Option MtlsIdentity

pub record HttpResponse (V : Type 0) : Type 0 where
  pub status_code : ℕ
  pub body : V

pub record RouteSpec : Type 0 where
  pub operation_id : String
  pub method : HttpMethod
  pub path : String
  pub internal : Bool

pub record RouteMatch : Type 0 where
  pub route : RouteSpec
  pub parameters : Dict String

abbrev pub same_method : HttpMethod → HttpMethod → Bool
same_method get_method get_method = true
same_method post_method post_method = true
same_method delete_method delete_method = true
same_method m n = false

unfoldable pub parse_http_method : String → Option HttpMethod
parse_http_method method =
    if method == "GET"
    then some get_method
    else if method == "POST"
    then some post_method
    else if method == "DELETE"
    then some delete_method
    else none

unfoldable pub method_text : HttpMethod → String
method_text get_method = "GET"
method_text post_method = "POST"
method_text delete_method = "DELETE"

unfoldable pub split_route : String → List String
split_route route = split_items "/" route

-- `s.front() == c` and `s.back() == c`
abbrev pub front_is : Char → String → Bool
front_is c String.[] = false
front_is c (String.◌∷◌ d s) = same_char d c

unfoldable pub back_is : Char → String → Bool
back_is c String.[] = false
back_is c (String.◌∷◌ d s) = let rest = back_is c s in if s == "" then same_char d c else rest

unfoldable pub is_parameter : String → Bool
unfolding back_is
is_parameter segment = ltb 2 (count segment) && front_is "{" segment && back_is "}" segment

unfoldable pub take_chars : ℕ → String → String
take_chars zero s = ""
take_chars (suc n) String.[] = ""
take_chars (suc n) (String.◌∷◌ c s) = String.◌∷◌ c (take_chars n s)

abbrev pub drop_first : String → String
drop_first String.[] = ""
drop_first (String.◌∷◌ c s) = s

-- `segment.substr(1, segment.size() - 2)`
unfoldable pub parameter_name : String → String
unfolding take_chars
parameter_name segment = take_chars (count segment - 2) (drop_first segment)

-- The loop over the segments; `none` where it leaves with `matched = false`.
unfoldable pub match_segments : List String → List String → Dict String → Option (Dict String)
unfolding is_parameter parameter_name
match_segments [] actual parameters = some parameters
match_segments (r ∷ rs) [] parameters = none
match_segments (r ∷ rs) (a ∷ actual) parameters =
    let next = if is_parameter r then put (parameter_name r) a parameters else parameters in
    let rest = match_segments rs actual next in if is_parameter r || r == a then rest else none

-- One turn of the loop over the routes.
unfoldable pub try_route : RouteSpec → HttpMethod → List String → Option RouteMatch
unfolding match_segments split_route
try_route route method actual =
    let parts = split_route route.path in
    if not (same_method route.method method)
    then none
    else if not (eqb (length parts) (length actual))
    then none
    else elim (match_segments parts actual []) [
      | none ↦ none
      | some parameters ↦ some (record { route = route; parameters = parameters })
    ]

unfoldable pub first_match : List RouteSpec → HttpMethod → List String → Option RouteMatch
unfolding try_route
first_match [] method actual = none
first_match (route ∷ routes) method actual =
    let rest = first_match routes method actual in
    elim (try_route route method actual) [ none ↦ rest | some found ↦ some found ]

unfoldable pub match_route : List RouteSpec → HttpMethod → String → Option RouteMatch
unfolding first_match split_route
match_route routes method path = first_match routes method (split_route path)

module _ (J : Json) where
  open J use {Value, string, number, object}

  unfoldable pub success_envelope : String → Value → Value
  success_envelope message payload = object (
      ("returncode", number (ℤ.pos 0))
      ∷ ("message", string message)
      ∷ ("stdout", string "")
      ∷ ("stderr", string "")
      ∷ ("payload", payload)
      ∷ [])

  unfoldable pub failure_envelope : String → String → String → String → ℕ → Value
  failure_envelope message detail category operation_id returncode = object (
      ("returncode", number (ℤ.pos returncode))
      ∷ ("message", string message)
      ∷ ("stdout", string "")
      ∷ ("stderr", string detail)
      ∷ (
        "error_payload",
        object (
            ("category", string category)
            ∷ ("detail", string detail)
            ∷ ("operation_id", string operation_id)
            ∷ []),
      )
      ∷ [])
