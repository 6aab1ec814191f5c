-- ===== src/Execution/Examples.antt =====
-- The execution policy's theorems at one project state.
use styio_platform.Base.{◌≡◌, ◌↔◌, true, false, none}
use styio_platform.Execution.{
  Host, ProjectToolchainState, resolve_cloud_execution_policy, default_security_profile,
}
use styio_platform.Execution.Lanes.{resolve-warm_shared}
use styio_platform.Execution.Profiles.{security_profile-resolve, resolve-worker_pool}
use styio_platform.Execution.Fallback.{resolve-fallback_applied}

abbrev host : Host
host = record { platform = "linux"; architecture = "x86_64"; base_image_variable = none }

abbrev state : ProjectToolchainState
state = record {
  mode = "binary";
  channel = "stable";
  build_mode = "minimal";
  risk_class = "partner-controlled";
  preferred_execution_lane = "warm-shared";
  security_profile = "trusted-warm";
  source_revision = none;
}

resolve-warm_shared_example :
    ((resolve_cloud_execution_policy host state).execution_lane ≡ "warm-shared")
    ↔ ((state.risk_class ≡ "trusted-internal") × (state.preferred_execution_lane ≡ "warm-shared"))
resolve-warm_shared_example = resolve-warm_shared host state

resolve-fallback_applied_example :
    ((resolve_cloud_execution_policy host state).fallback_applied ≡ false) ↔ (
      ((resolve_cloud_execution_policy host state).risk_class ≡ state.risk_class)
      × ((resolve_cloud_execution_policy host state).execution_lane
          ≡ state.preferred_execution_lane)
      × ((resolve_cloud_execution_policy host state).security_profile ≡ state.security_profile))
resolve-fallback_applied_example = resolve-fallback_applied host state

security_profile-resolve_example :
    (resolve_cloud_execution_policy host state).security_profile
    ≡ default_security_profile
        (resolve_cloud_execution_policy host state).risk_class
        (resolve_cloud_execution_policy host state).execution_lane
security_profile-resolve_example = security_profile-resolve host state

resolve-worker_pool_example :
    (((resolve_cloud_execution_policy host state).cache_policy.worker_local_reuse ≡ true) ↔ (
      (state.risk_class ≡ "trusted-internal") × (state.preferred_execution_lane ≡ "warm-shared")))
    × (((resolve_cloud_execution_policy host state).worker_pool_key.worker_trust_tier
          ≡ "internal-warm")
        ↔ ((state.risk_class ≡ "trusted-internal")
            × (state.preferred_execution_lane ≡ "warm-shared")))
resolve-worker_pool_example = resolve-worker_pool host state
