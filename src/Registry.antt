-- ===== src/Registry.antt =====
-- Who may write to the package registry: package names and publish tokens
-- (RegistryIdentifiers.hpp, RouterSupport.hpp) and RegistryWriteAuthorized (RegistryControlPlane.cpp)
-- on the memory store.
mod Examples
pub mod Writers
pub mod Names
pub mod Tables
use Prim.Native.Char.{Char, code}
use Prim.Native.String.{count}
use styio_platform.Base.{
  ℕ, String, Bool, true, false, not, ◌&&◌, ◌||◌, Option, none, some, List, [], ◌∷◌, ◌==◌,
  if◌then◌else◌, any, member, is_some, leb, eqb,
}
use styio_platform.Base.Dict.{Dict}
use styio_platform.Base.Order.{text_lt}
use styio_platform.Base.Text.{strip_prefix, all_chars}
use styio_platform.Routing.{MtlsIdentity, HttpRequest}
use styio_platform.Access.{registry_token_from_headers}
use styio_platform.Store.Records.{RegistryPublishTokenRecord}
use styio_platform.Store.State.{MemoryStateStore}
use styio_platform.Store.Registry.{has_registry_package_owner, find_registry_publish_token_by_hash}

-- `ch >= 'a' && ch <= 'z'`, and std::isdigit
abbrev pub is_lower : Char → Bool
is_lower c = leb (code "a") (code c) && leb (code c) (code "z")

abbrev pub is_digit : Char → Bool
is_digit c = leb (code "0") (code c) && leb (code c) (code "9")

unfoldable pub is_safe_lowercase_identifier : String → Bool
is_safe_lowercase_identifier String.[] = false
is_safe_lowercase_identifier (String.◌∷◌ first rest) =
    (is_lower first || is_digit first)
    && all_chars
        (λ c. is_lower c || is_digit c || eqb (code c) (code "-") || eqb (code c) (code "_"))
        (String.◌∷◌ first rest)

-- What stands before the first slash, and what stands after it; `none` without a slash.
unfoldable pub cut_at_slash : String → Option (String × String)
cut_at_slash String.[] = none
cut_at_slash (String.◌∷◌ c s) =
    let rest = cut_at_slash s in
    if eqb (code c) (code "/")
    then some ("", s)
    else elim rest [ none ↦ none | some (left, right) ↦ some (String.◌∷◌ c left, right) ]

-- The tests on the two sides of the first slash. A second slash makes `find` and `rfind` differ.
unfoldable pub refusal : Option (String × String) → Option String
unfolding is_safe_lowercase_identifier
refusal none = some "package must use namespace/name form"
refusal (some (space, name)) =
    if is_some (cut_at_slash name)
    then some "package must use namespace/name form"
    else if not (is_safe_lowercase_identifier space) || not (is_safe_lowercase_identifier name)
    then some "package must use lowercase namespace/name segments"
    else none

-- The message of a package name that is refused.
unfoldable pub validate_package_name : String → Option String
unfolding cut_at_slash refusal
validate_package_name package_id = refusal (cut_at_slash package_id)

-- The pattern without its last character where it ends in "/*".
unfoldable pub namespace_of : String → Option String
namespace_of String.[] = none
namespace_of (String.◌∷◌ c s) =
    let rest = namespace_of s in
    if eqb (code c) (code "/") && s == "*"
    then some "/"
    else elim rest [ none ↦ none | some p ↦ some (String.◌∷◌ c p) ]

unfoldable pub package_pattern_matches : String → String → Bool
unfolding namespace_of
package_pattern_matches pattern package_id =
    if pattern == "*" then true else elim (namespace_of pattern) [
      | some prefix ↦ is_some (strip_prefix prefix package_id)
      | none ↦ pattern == package_id
    ]

unfoldable pub token_has_scope : RegistryPublishTokenRecord → String → Bool
token_has_scope token scope = member scope token.scopes

unfoldable pub token_matches_package : RegistryPublishTokenRecord → String → Bool
unfolding package_pattern_matches
token_matches_package token package_id =
    if package_id == ""
    then true
    else any (λ p. package_pattern_matches p package_id) token.package_patterns

-- The tests on a token that was found.
unfoldable pub token_grants : String → RegistryPublishTokenRecord → String → String → Bool
unfolding token_has_scope token_matches_package
token_grants now token scope package_id =
    if not (token.revoked_at == "")
      || (not (token.expires_at == "") && text_lt token.expires_at now)
    then false
    else token_has_scope token scope && token_matches_package token package_id

module _ {V : Type 0} where
  -- The tests on a certificate that let a write pass without a token.
  unfoldable pub identity_grants : MemoryStateStore V → MtlsIdentity → String → String → Bool
  identity_grants store identity scope package_id =
      if identity.role == "operator"
      then true
      else if scope == "package:publish" && identity.role == "registry-writer"
      then true
      else if (scope == "package:publish" || scope == "package:yank" || scope == "package:owner")
          && not (package_id == "")
      then has_registry_package_owner store package_id identity.node_id
      else false

  -- `sha256` is Sha256Bytes, and `now` the text that UtcTimestampNow gives.
  unfoldable pub token_of_request_grants :
      (String → String) → String → MemoryStateStore V → Dict String → String → String → Bool
  unfolding token_grants
  token_of_request_grants sha256 now store headers scope package_id =
      elim (registry_token_from_headers headers) [
        | none ↦ false
        | some clear_token ↦ elim (find_registry_publish_token_by_hash store (sha256 clear_token)) [
          | none ↦ false
          | some token ↦ token_grants now token scope package_id
        ]
      ]

  unfoldable pub registry_write_authorized :
      (String → String) → String → MemoryStateStore V → HttpRequest V → String → String → Bool
  unfolding identity_grants token_of_request_grants
  registry_write_authorized sha256 now store request scope package_id = elim request.identity [
    | none ↦ token_of_request_grants sha256 now store request.headers scope package_id
    | some identity ↦
        if identity_grants store identity scope package_id
        then true
        else token_of_request_grants sha256 now store request.headers scope package_id
  ]
