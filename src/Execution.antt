-- ===== src/Execution.antt =====
-- SpioPlatformProtocols/Execution.cpp, with the vocabulary and the project state that it reads
-- (PlatformCore/Toolchain): how the cloud execution policy of a build is resolved.
mod Examples
pub mod Lanes
pub mod Profiles
pub mod Fallback
use styio_platform.Base.{
  String, Bool, true, false, not, ◌||◌, ◌&&◌, Option, none, some, List, [], ◌∷◌, ◌==◌,
  if◌then◌else◌, member, concat,
}

-- The parts of ProjectToolchainState that the policy depends on.
pub record ProjectToolchainState : Type 0 where
  pub mode : String
  pub channel : String
  pub build_mode : String
  pub risk_class : String
  pub preferred_execution_lane : String
  pub security_profile : String
  pub source_revision : Option String

-- What the build and its environment decide: the compiler's platform macros, and
-- SPIO_CLOUD_BASE_IMAGE_REVISION, unset or with its text.
pub record Host : Type 0 where
  pub platform : String
  pub architecture : String
  pub base_image_variable : Option String

pub record SharedCachePolicy : Type 0 where
  pub shared_toolchain_read_only : Bool
  pub shared_source_read_only : Bool
  pub shared_registry_read_only : Bool
  pub worker_local_reuse : Bool
  pub shared_cache_promotion_eligible : Bool
  pub promotion_policy : String

pub record WorkerPoolKey : Type 0 where
  pub platform : String
  pub architecture : String
  pub execution_lane : String
  pub worker_trust_tier : String
  pub toolchain_mode : String
  pub channel : String
  pub build_mode : String
  pub compiler_fingerprint : String
  pub base_image_revision : String

pub record CloudExecutionPolicy : Type 0 where
  pub risk_class : String
  pub requested_execution_lane : String
  pub execution_lane : String
  pub worker_trust_tier : String
  pub requested_security_profile : String
  pub security_profile : String
  pub fallback_applied : Bool
  pub platform_protection_priority : Bool
  pub tenant_isolation_priority : Bool
  pub network_egress_default_deny : Bool
  pub requires_container_sandbox : Bool
  pub routing_reason : String
  pub cache_policy : SharedCachePolicy
  pub worker_pool_key : WorkerPoolKey

abbrev pub supported_cloud_risk_classes : List String
supported_cloud_risk_classes = "trusted-internal" ∷ "partner-controlled" ∷ "untrusted-user" ∷ []

abbrev pub supported_cloud_execution_lanes : List String
supported_cloud_execution_lanes = "isolated" ∷ "warm-shared" ∷ []

abbrev pub supported_cloud_security_profiles : List String
supported_cloud_security_profiles = "sandbox-default" ∷ "partner-restricted" ∷ "trusted-warm" ∷ []

-- `VocabularyContains(value, supported)` is `member value supported`.
unfoldable pub is_supported_cloud_risk_class : String → Bool
is_supported_cloud_risk_class value = member value supported_cloud_risk_classes

unfoldable pub is_supported_cloud_execution_lane : String → Bool
is_supported_cloud_execution_lane value = member value supported_cloud_execution_lanes

unfoldable pub is_supported_cloud_security_profile : String → Bool
is_supported_cloud_security_profile value = member value supported_cloud_security_profiles

unfoldable pub default_security_profile : String → String → String
default_security_profile risk_class execution_lane =
    if execution_lane == "warm-shared"
    then "trusted-warm"
    else if risk_class == "partner-controlled"
    then "partner-restricted"
    else "sandbox-default"

unfoldable pub default_worker_trust_tier : String → String → String
default_worker_trust_tier risk_class execution_lane =
    if execution_lane == "warm-shared"
    then "internal-warm"
    else if risk_class == "trusted-internal"
    then "trusted-isolated"
    else if risk_class == "partner-controlled"
    then "partner-isolated"
    else "untrusted-isolated"

abbrev pub value_or : Option String → String → String
value_or none fallback = fallback
value_or (some v) fallback = v

unfoldable pub compiler_fingerprint_for_state : ProjectToolchainState → String
compiler_fingerprint_for_state state =
    if state.mode == "build"
    then value_or state.source_revision "source-revision-unset"
    else concat "published-" (concat state.channel (concat "-" state.build_mode))

unfoldable pub detect_cloud_base_image_revision : Host → String
detect_cloud_base_image_revision host = elim host.base_image_variable [
  | none ↦ "dev-unset"
  | some revision ↦ if revision == "" then "dev-unset" else revision
]

-- The policy before the first test: the request's fields, and the members' initialisers.
unfoldable pub requested_policy : ProjectToolchainState → CloudExecutionPolicy
requested_policy state = record {
  risk_class = state.risk_class;
  requested_execution_lane = state.preferred_execution_lane;
  execution_lane = state.preferred_execution_lane;
  worker_trust_tier = "";
  requested_security_profile = state.security_profile;
  security_profile = state.security_profile;
  fallback_applied = false;
  platform_protection_priority = true;
  tenant_isolation_priority = true;
  network_egress_default_deny = true;
  requires_container_sandbox = true;
  routing_reason = "";
  cache_policy = record {
    shared_toolchain_read_only = true;
    shared_source_read_only = true;
    shared_registry_read_only = true;
    worker_local_reuse = false;
    shared_cache_promotion_eligible = false;
    promotion_policy = "verified-only";
  };
  worker_pool_key = record {
    platform = "";
    architecture = "";
    execution_lane = "";
    worker_trust_tier = "";
    toolchain_mode = "";
    channel = "";
    build_mode = "";
    compiler_fingerprint = "";
    base_image_revision = "";
  };
}

-- The risk class test.
unfoldable pub with_risk_class : CloudExecutionPolicy → CloudExecutionPolicy
with_risk_class policy =
    if not (is_supported_cloud_risk_class policy.risk_class)
    then record policy {
      risk_class = "untrusted-user";
      fallback_applied = true;
      routing_reason = "unknown risk class fell back to untrusted-user";
    }
    else policy

-- The execution lane test.
unfoldable pub with_execution_lane : CloudExecutionPolicy → CloudExecutionPolicy
with_execution_lane policy =
    if not (is_supported_cloud_execution_lane policy.execution_lane)
    then record policy {
      execution_lane = "isolated";
      fallback_applied = true;
      routing_reason = "unknown execution lane fell back to isolated";
    }
    else policy

-- The routing chain.
unfoldable pub with_routing : CloudExecutionPolicy → CloudExecutionPolicy
with_routing policy =
    if policy.risk_class == "untrusted-user" && not (policy.execution_lane == "isolated")
    then record policy {
      execution_lane = "isolated";
      fallback_applied = true;
      routing_reason = "untrusted-user jobs require isolated execution";
    }
    else if policy.risk_class == "partner-controlled" && policy.execution_lane == "warm-shared"
    then record policy {
      execution_lane = "isolated";
      fallback_applied = true;
      routing_reason =
          "partner-controlled jobs require explicit allowlist before warm-shared execution";
    }
    else if policy.routing_reason == ""
    then record policy {
      routing_reason =
          if policy.execution_lane == "warm-shared"
          then "trusted internal workload is eligible for warm-shared execution"
          else "default isolated execution protects the platform before enabling warm-shared reuse";
    }
    else policy

-- The security profile test.
unfoldable pub with_security_profile : CloudExecutionPolicy → CloudExecutionPolicy
with_security_profile policy =
    let expected = default_security_profile policy.risk_class policy.execution_lane in
    if not (is_supported_cloud_security_profile policy.security_profile)
      || not (policy.security_profile == expected)
    then record policy { security_profile = expected; fallback_applied = true }
    else policy

-- The trust tier, the cache policy and the worker pool key.
unfoldable pub with_worker_pool :
    Host → ProjectToolchainState → CloudExecutionPolicy → CloudExecutionPolicy
with_worker_pool host state policy =
    let tier = default_worker_trust_tier policy.risk_class policy.execution_lane in
    record policy {
      worker_trust_tier = tier;
      cache_policy = record policy.cache_policy {
        worker_local_reuse = policy.execution_lane == "warm-shared";
        shared_cache_promotion_eligible = policy.risk_class == "trusted-internal";
      };
      worker_pool_key = record {
        platform = host.platform;
        architecture = host.architecture;
        execution_lane = policy.execution_lane;
        worker_trust_tier = tier;
        toolchain_mode = state.mode;
        channel = state.channel;
        build_mode = state.build_mode;
        compiler_fingerprint = compiler_fingerprint_for_state state;
        base_image_revision = detect_cloud_base_image_revision host;
      };
    }

unfoldable pub resolve_cloud_execution_policy : Host → ProjectToolchainState → CloudExecutionPolicy
unfolding requested_policy with_risk_class with_execution_lane with_routing with_security_profile
    with_worker_pool
resolve_cloud_execution_policy host state = with_worker_pool host state (
    with_security_profile
      (with_routing (with_execution_lane (with_risk_class (requested_policy state)))))
