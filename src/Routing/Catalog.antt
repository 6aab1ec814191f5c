-- ===== src/Routing/Catalog.antt =====
-- The tables of routes and operations: PlatformService/RouteCatalog.cpp and
-- PlatformCloud/PackageRegistry/ControlPlane/RegistryRoutes.cpp.
use styio_platform.Base.{String, Bool, true, false, ◌||◌, List, [], ◌∷◌, ◌++◌, ◌==◌, member}
use styio_platform.Routing.{HttpMethod, get_method, post_method, delete_method, RouteSpec}

abbrev pub registry_operations : List String
registry_operations =
    "registryStatus" ∷ "registryDescriptor" ∷ "publishRelease" ∷ "verifyRegistry" ∷ "getPackage"
    ∷ "listPackageReleases" ∷ "getPackageRelease" ∷ "yankPackageRelease" ∷ "unyankPackageRelease"
    ∷ "listPackageOwners" ∷ "addPackageOwner" ∷ "removePackageOwner" ∷ "createPublishToken"
    ∷ "listPublishTokens" ∷ "revokePublishToken" ∷ "listRepositories" ∷ "listRepositoryVersions"
    ∷ "getPublication" ∷ "verifyPublication" ∷ "listDistributions" ∷ "promoteDistribution"
    ∷ "rollbackDistribution" ∷ "listReleaseChannels" ∷ "rolloutReleaseChannel" ∷ "mirrorStatus" ∷ []

unfoldable pub is_registry_operation : String → Bool
is_registry_operation operation_id = member operation_id registry_operations

unfoldable pub is_registry_token_capable_operation : String → Bool
is_registry_token_capable_operation operation_id =
    operation_id == "publishRelease"
    || operation_id == "yankPackageRelease"
    || operation_id == "unyankPackageRelease"
    || operation_id == "addPackageOwner"
    || operation_id == "removePackageOwner"
    || operation_id == "promoteDistribution"
    || operation_id == "rollbackDistribution"

abbrev pub route_spec : String → HttpMethod → String → Bool → RouteSpec
route_spec operation_id method path internal = record {
  operation_id = operation_id;
  method = method;
  path = path;
  internal = internal;
}

unfoldable pub platform_control_plane_routes : List RouteSpec
platform_control_plane_routes =
    route_spec "health" get_method "/health" false
    ∷ route_spec "nodeSelf" get_method "/nodes/self" false
    ∷ route_spec "submitJob" post_method "/jobs" false
    ∷ route_spec "getJob" get_method "/jobs/{job_id}" false
    ∷ route_spec "getJobEvents" get_method "/jobs/{job_id}/events" false
    ∷ route_spec "cancelJob" post_method "/jobs/{job_id}/cancel" false
    ∷ route_spec "registerWorker" post_method "/workers/register" true
    ∷ route_spec "registerCompileContainer" post_method "/compile-containers/register" true
    ∷ route_spec "getCompileContainer" get_method "/compile-containers/{container_id}" true
    ∷ route_spec "switchCompileContainerWorkspace" post_method
        "/compile-containers/{container_id}/switch-workspace" true
    ∷ route_spec "claimJob" post_method "/jobs/claim" true
    ∷ route_spec "heartbeatJob" post_method "/jobs/{job_id}/heartbeat" true
    ∷ route_spec "completeJob" post_method "/jobs/{job_id}/complete" true
    ∷ route_spec "registerWorkgroupCluster" post_method
        "/workgroups/{workgroup_id}/clusters/register" true
    ∷ route_spec "listWorkgroupClusters" get_method "/workgroups/{workgroup_id}/clusters" true
    ∷ route_spec "mirrorStatus" get_method "/mirrors/{mirror_id}/status" false
    ∷ route_spec "listDocumentationGovernance" get_method "/docs/governance" true
    ∷ route_spec "planDocumentationChange" post_method "/docs/change-plan" true
    ∷ route_spec "listEcosystemRepositories" get_method "/ecosystem/repositories" true
    ∷ route_spec "planEcosystemRelease" post_method "/ecosystem/releases/plan" true
    ∷ route_spec "createRecoverySnapshot" post_method "/ops/recovery/snapshots" true
    ∷ route_spec "listRecoverySnapshots" get_method "/ops/recovery/snapshots" true
    ∷ route_spec "restoreRecoverySnapshot" post_method
        "/ops/recovery/snapshots/{snapshot_id}/restore" true
    ∷ route_spec "listAuditEvents" get_method "/ops/audit-events" true
    ∷ route_spec "platformMetrics" get_method "/ops/metrics" true
    ∷ route_spec "storageStatus" get_method "/storage/status" true
    ∷ route_spec "exchangeExternalIdentity" post_method "/identity/external/exchange" false
    ∷ []

unfoldable pub registry_control_plane_routes : List RouteSpec
registry_control_plane_routes =
    route_spec "registryStatus" get_method "/api/spio-registry-control/v1/status" true
    ∷ route_spec "registryDescriptor" get_method "/api/spio-registry-control/v1/descriptor" true
    ∷ route_spec "publishRelease" post_method "/api/spio-registry-control/v1/publish" true
    ∷ route_spec "verifyRegistry" post_method "/api/spio-registry-control/v1/verify" true
    ∷ route_spec "getPackage" get_method "/api/spio-registry-control/v1/packages/{namespace}/{name}"
        true
    ∷ route_spec "listPackageReleases" get_method
        "/api/spio-registry-control/v1/packages/{namespace}/{name}/releases" true
    ∷ route_spec "getPackageRelease" get_method
        "/api/spio-registry-control/v1/packages/{namespace}/{name}/releases/{version}" true
    ∷ route_spec "yankPackageRelease" post_method
        "/api/spio-registry-control/v1/packages/{namespace}/{name}/releases/{version}/yank" true
    ∷ route_spec "unyankPackageRelease" post_method
        "/api/spio-registry-control/v1/packages/{namespace}/{name}/releases/{version}/unyank" true
    ∷ route_spec "listPackageOwners" get_method
        "/api/spio-registry-control/v1/packages/{namespace}/{name}/owners" true
    ∷ route_spec "addPackageOwner" post_method
        "/api/spio-registry-control/v1/packages/{namespace}/{name}/owners" true
    ∷ route_spec "removePackageOwner" delete_method
        "/api/spio-registry-control/v1/packages/{namespace}/{name}/owners/{owner_id}" true
    ∷ route_spec "createPublishToken" post_method "/api/spio-registry-control/v1/tokens" true
    ∷ route_spec "listPublishTokens" get_method "/api/spio-registry-control/v1/tokens" true
    ∷ route_spec "revokePublishToken" delete_method
        "/api/spio-registry-control/v1/tokens/{token_id}" true
    ∷ route_spec "listRepositories" get_method "/api/spio-registry-control/v1/repositories" true
    ∷ route_spec "listRepositoryVersions" get_method
        "/api/spio-registry-control/v1/repositories/{repository_id}/versions" true
    ∷ route_spec "getPublication" get_method
        "/api/spio-registry-control/v1/publications/{publication_id}" true
    ∷ route_spec "verifyPublication" post_method
        "/api/spio-registry-control/v1/publications/{publication_id}/verify" true
    ∷ route_spec "listDistributions" get_method "/api/spio-registry-control/v1/distributions" true
    ∷ route_spec "promoteDistribution" post_method
        "/api/spio-registry-control/v1/distributions/{distribution_id}/promote" true
    ∷ route_spec "rollbackDistribution" post_method
        "/api/spio-registry-control/v1/distributions/{distribution_id}/rollback" true
    ∷ route_spec "listReleaseChannels" get_method "/api/spio-registry-control/v1/release-channels"
        true
    ∷ route_spec "rolloutReleaseChannel" post_method
        "/api/spio-registry-control/v1/release-channels/{channel}/rollout" true
    ∷ []

-- The routes of the router: the constructor appends the registry's.
unfoldable pub all_routes : List RouteSpec
unfolding platform_control_plane_routes registry_control_plane_routes
all_routes = platform_control_plane_routes ++ registry_control_plane_routes
