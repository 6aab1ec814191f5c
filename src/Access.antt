-- ===== src/Access.antt =====
-- PlatformSecurity/PlatformClientAuth (Identity.cpp, Authorization.cpp) and the gate that the router
-- puts before every operation (RequireIdentity and FailureResponse of PlatformService).
mod Examples
pub mod Roles
pub mod Authority
pub mod Certificates
pub mod Gate
use styio_platform.Base.{
  ℕ, String, Bool, true, false, not, ◌&&◌, ◌||◌, Option, none, some, List, [], ◌∷◌, ◌==◌,
  if◌then◌else◌, member, is_some,
}
use styio_platform.Base.Dict.{Dict, get}
use styio_platform.Base.Text.{strip_prefix, split_items}
use styio_platform.Json.{Json, ℤ}
use styio_platform.Routing.{MtlsIdentity, HttpRequest, HttpResponse, RouteMatch, failure_envelope}
use styio_platform.Routing.Catalog.{is_registry_operation, is_registry_token_capable_operation}

-- `RoleIn(identity, {…})`
abbrev pub role_in : MtlsIdentity → List String → Bool
role_in identity allowed = member identity.role allowed

unfoldable pub is_internal_role : MtlsIdentity → Bool
is_internal_role identity =
    identity.role == "control-plane"
    || identity.role == "worker"
    || identity.role == "mirror"
    || identity.role == "registry-writer"
    || identity.role == "operator"
    || identity.role == "cluster-registrar"
    || identity.role == "package-owner"

unfoldable pub is_authorized_for_operation : String → MtlsIdentity → Bool
unfolding is_internal_role
is_authorized_for_operation op identity =
    if op == "registryStatus"
    then role_in identity ("control-plane" ∷ "registry-writer" ∷ "mirror" ∷ "operator" ∷ [])
    else if op == "registryDescriptor"
    then role_in identity ("control-plane" ∷ "registry-writer" ∷ "mirror" ∷ "operator" ∷ [])
    else if op == "publishRelease"
    then role_in identity ("registry-writer" ∷ "operator" ∷ "package-owner" ∷ [])
    else if op == "verifyRegistry"
    then role_in identity ("registry-writer" ∷ "mirror" ∷ "operator" ∷ [])
    else if op == "getPackage"
        || op == "listPackageReleases"
        || op == "getPackageRelease"
        || op == "listPackageOwners"
        || op == "listRepositories"
        || op == "listRepositoryVersions"
        || op == "getPublication"
        || op == "listDistributions"
    then role_in identity
        ("control-plane" ∷ "registry-writer" ∷ "mirror" ∷ "operator" ∷ "package-owner" ∷ [])
    else if op == "yankPackageRelease"
        || op == "unyankPackageRelease"
        || op == "addPackageOwner"
        || op == "removePackageOwner"
    then role_in identity ("operator" ∷ "package-owner" ∷ "registry-writer" ∷ [])
    else if op == "createPublishToken" || op == "listPublishTokens" || op == "revokePublishToken"
    then role_in identity ("operator" ∷ "package-owner" ∷ "registry-writer" ∷ [])
    else if op == "promoteDistribution" || op == "rollbackDistribution"
    then role_in identity ("operator" ∷ [])
    else if op == "listReleaseChannels"
    then role_in identity ("operator" ∷ "registry-writer" ∷ "mirror" ∷ [])
    else if op == "rolloutReleaseChannel"
    then role_in identity ("operator" ∷ [])
    else if op == "createRecoverySnapshot"
        || op == "restoreRecoverySnapshot"
        || op == "listAuditEvents"
        || op == "platformMetrics"
        || op == "storageStatus"
    then role_in identity ("operator" ∷ "control-plane" ∷ [])
    else if op == "listRecoverySnapshots"
    then role_in identity ("operator" ∷ "control-plane" ∷ "mirror" ∷ [])
    else if op == "verifyPublication"
    then role_in identity ("operator" ∷ "mirror" ∷ "registry-writer" ∷ [])
    else if op == "mirrorStatus"
    then role_in identity ("control-plane" ∷ "registry-writer" ∷ "mirror" ∷ "operator" ∷ [])
    else if op == "listDocumentationGovernance" || op == "planDocumentationChange"
    then role_in identity ("control-plane" ∷ "operator" ∷ [])
    else if op == "listEcosystemRepositories" || op == "planEcosystemRelease"
    then role_in identity ("control-plane" ∷ "operator" ∷ [])
    else if op == "registerWorkgroupCluster"
    then role_in identity ("control-plane" ∷ "operator" ∷ "cluster-registrar" ∷ [])
    else if op == "listWorkgroupClusters"
    then is_internal_role identity
    else true

abbrev pub platform_service_roles : List String
platform_service_roles =
    "control-plane" ∷ "worker" ∷ "registry-writer" ∷ "mirror" ∷ "operator" ∷ "cluster-registrar"
    ∷ "package-owner" ∷ []

unfoldable pub is_platform_service_role : String → Bool
is_platform_service_role role = member role platform_service_roles

unfoldable pub split_path : String → List String
split_path input = split_items "/" input

-- The part after the first one that is the key; empty where there is none.
unfoldable pub value_after : List String → String → String
value_after [] key = ""
value_after (p ∷ []) key = ""
value_after (p ∷ q ∷ parts) key =
    let rest = value_after (q ∷ parts) key in if p == key then q else rest

abbrev pub identity_of : List String → MtlsIdentity
identity_of parts = record {
  role = value_after parts "role";
  tenant_id = value_after parts "tenant";
  node_id = value_after parts "node";
}

-- The tests on what follows the prefix, where the prefix is there.
unfoldable pub checked_identity : Option String → Option MtlsIdentity
unfolding split_path value_after is_platform_service_role
checked_identity none = none
checked_identity (some rest) =
    let identity = identity_of (split_path rest) in
    if not (is_platform_service_role identity.role) || identity.node_id == ""
    then none
    else some identity

unfoldable pub parse_mtls_uri_san : String → Option MtlsIdentity
unfolding checked_identity
parse_mtls_uri_san value = checked_identity (strip_prefix "spiffe://styio-platform/" value)

-- `authorization->second.starts_with("Bearer ")`, and the rest of it
unfoldable pub bearer_token : Option String → Option String
bearer_token none = none
bearer_token (some authorization) = strip_prefix "Bearer " authorization

unfoldable pub registry_token_from_headers : Dict String → Option String
unfolding bearer_token
registry_token_from_headers headers = elim (get "x-styio-registry-token" headers) [
  | none ↦ bearer_token (get "authorization" headers)
  | some direct ↦
      if not (direct == "") then some direct else bearer_token (get "authorization" headers)
]

module _ (J : Json) where
  open J use {Value, null, string, number, object}

  unfoldable pub registry_failure_envelope : String → String → String → ℕ → Value
  registry_failure_envelope message detail category returncode = object (
      ("returncode", number (ℤ.pos returncode))
      ∷ ("message", string message)
      ∷ ("stdout", string "")
      ∷ ("stderr", string detail)
      ∷ ("error_payload", object (("category", string category) ∷ ("detail", string detail) ∷ []))
      ∷ [])

  unfoldable pub failure_response : ℕ → String → String → String → String → ℕ → HttpResponse Value
  unfolding registry_failure_envelope
  failure_response status message detail category operation_id returncode = record {
    status_code = status;
    body =
        if is_registry_operation operation_id
        then registry_failure_envelope message detail category returncode
        else failure_envelope J message detail category operation_id returncode;
  }

  -- `JsonResponse(200, {})`: the empty braces make the null value.
  abbrev pub passed : HttpResponse Value
  passed = record { status_code = 200; body = null }

  abbrev pub denied : ℕ → String → String → String → HttpResponse Value
  denied status message detail operation_id =
      failure_response status message detail "AuthError" operation_id 2

  -- `mtls_required` is `config_.mtls.required`.
  unfoldable pub require_identity : Bool → RouteMatch → HttpRequest Value → HttpResponse Value
  unfolding failure_response registry_token_from_headers is_authorized_for_operation
  require_identity mtls_required match request =
      let op = match.route.operation_id in
      if op == "exchangeExternalIdentity"
      then passed
      else if not mtls_required
      then passed
      else if not (is_some request.identity)
          && match.route.internal
          && is_registry_token_capable_operation op
          && is_some (registry_token_from_headers request.headers)
      then passed
      else elim request.identity [
        | none ↦ denied 401 "mTLS identity is required" "missing client certificate identity" op
        | some identity ↦
            if match.route.internal && not (is_internal_role identity)
            then denied 403 "mTLS identity is not authorized"
                "internal route requires a service role" op
            else if not (is_authorized_for_operation op identity)
            then denied 403 "mTLS identity is not authorized"
                "identity role is not allowed for this operation" op
            else passed
      ]
