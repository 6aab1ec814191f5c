-- ===== src/Protocol/Contract.antt =====
-- SpioPlatformProtocols/Contract.cpp and BuildCloudBuildJobRequestPayload of Job.cpp: what the client
-- sends. SerializeProjectToolchainState and BuildCloudStatusPayload write paths that the state of
-- the model does not hold.
use styio_platform.Base.{String, Option, none, some, [], ◌∷◌}
use styio_platform.Json.{Json, ℤ}
use styio_platform.Execution.{SharedCachePolicy, WorkerPoolKey, CloudExecutionPolicy}
use styio_platform.Protocol.{CloudBuildJobRequest, CloudJobTargetSelection, CloudJobSourceSelection}

-- `fs::absolute(*root).string()`
unfoldable pub absolute_root : (String → String) → Option String → Option String
absolute_root absolute none = none
absolute_root absolute (some root) = some (absolute root)

module _ (J : Json) where
  open J use {Value, null, string, number, boolean, object, set}

  unfoldable pub serialize_shared_cache_policy : SharedCachePolicy → Value
  serialize_shared_cache_policy policy = object (
      ("shared_toolchain_read_only", boolean policy.shared_toolchain_read_only)
      ∷ ("shared_source_read_only", boolean policy.shared_source_read_only)
      ∷ ("shared_registry_read_only", boolean policy.shared_registry_read_only)
      ∷ ("worker_local_reuse", boolean policy.worker_local_reuse)
      ∷ ("shared_cache_promotion_eligible", boolean policy.shared_cache_promotion_eligible)
      ∷ ("promotion_policy", string policy.promotion_policy)
      ∷ [])

  unfoldable pub serialize_worker_pool_key : WorkerPoolKey → Value
  serialize_worker_pool_key key = object (
      ("platform", string key.platform)
      ∷ ("architecture", string key.architecture)
      ∷ ("execution_lane", string key.execution_lane)
      ∷ ("worker_trust_tier", string key.worker_trust_tier)
      ∷ ("toolchain_mode", string key.toolchain_mode)
      ∷ ("channel", string key.channel)
      ∷ ("build_mode", string key.build_mode)
      ∷ ("compiler_fingerprint", string key.compiler_fingerprint)
      ∷ ("base_image_revision", string key.base_image_revision)
      ∷ [])

  unfoldable pub serialize_cloud_execution_policy : CloudExecutionPolicy → Value
  unfolding serialize_shared_cache_policy serialize_worker_pool_key
  serialize_cloud_execution_policy policy = object (
      ("contract_version", number (ℤ.pos 1))
      ∷ ("risk_class", string policy.risk_class)
      ∷ ("requested_execution_lane", string policy.requested_execution_lane)
      ∷ ("execution_lane", string policy.execution_lane)
      ∷ ("worker_trust_tier", string policy.worker_trust_tier)
      ∷ ("requested_security_profile", string policy.requested_security_profile)
      ∷ ("security_profile", string policy.security_profile)
      ∷ ("fallback_applied", boolean policy.fallback_applied)
      ∷ ("platform_protection_priority", boolean policy.platform_protection_priority)
      ∷ ("tenant_isolation_priority", boolean policy.tenant_isolation_priority)
      ∷ ("network_egress_default_deny", boolean policy.network_egress_default_deny)
      ∷ ("requires_container_sandbox", boolean policy.requires_container_sandbox)
      ∷ ("routing_reason", string policy.routing_reason)
      ∷ ("cache_policy", serialize_shared_cache_policy policy.cache_policy)
      ∷ ("worker_pool_key", serialize_worker_pool_key policy.worker_pool_key)
      ∷ [])

  -- `x.has_value() ? json(*x) : json(nullptr)`
  abbrev pub text_or_null : Option String → Value
  text_or_null none = null
  text_or_null (some s) = string s

  -- `if (x.has_value()) payload["source"][key] = *x;`, on the source object
  unfoldable pub with_text : Option String → String → Value → Value
  with_text none key source = source
  with_text (some s) key source = set source key (string s)

  -- `absolute` is std::filesystem::absolute.
  unfoldable pub source_payload : (String → String) → CloudJobSourceSelection → Value
  source_payload absolute source = with_text source.resolved_revision "resolved_revision" (
      with_text source.requested_revision "requested_revision" (
        with_text (absolute_root absolute source.explicit_source_root) "explicit_root" (
          object (
            ("origin", string source.origin)
            ∷ ("allow_fetch", boolean source.allow_fetch)
            ∷ ("assume_yes", boolean source.assume_yes)
            ∷ ("non_interactive", boolean source.non_interactive)
            ∷ ("offline", boolean source.offline)
            ∷ []))))

  unfoldable pub target_payload : CloudJobTargetSelection → Value
  target_payload target = object (
      ("package", text_or_null target.package_name)
      ∷ ("bin", text_or_null target.bin_name)
      ∷ ("test", text_or_null target.test_name)
      ∷ ("lib", boolean target.select_lib)
      ∷ [])

  unfoldable pub build_cloud_build_job_request_payload :
      (String → String) → CloudBuildJobRequest → Value
  unfolding source_payload target_payload serialize_cloud_execution_policy
  build_cloud_build_job_request_payload absolute request = object (
      ("schema_version", number (ℤ.pos request.schema_version))
      ∷ ("api_path", string request.api_path)
      ∷ ("action", string request.action)
      ∷ ("manifest_path", string (absolute request.manifest_path))
      ∷ (
        "toolchain",
        object (
            ("mode", string request.toolchain_mode)
            ∷ ("channel", string request.channel)
            ∷ ("build_mode", string request.build_mode)
            ∷ []),
      )
      ∷ ("profile", string request.profile)
      ∷ (
        "workflow",
        object (("locked", boolean request.locked) ∷ ("offline", boolean request.offline) ∷ []),
      )
      ∷ ("target", target_payload request.target)
      ∷ ("source", source_payload absolute request.source)
      ∷ ("cloud", serialize_cloud_execution_policy request.cloud_policy)
      ∷ [])
