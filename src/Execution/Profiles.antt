-- ===== src/Execution/Profiles.antt =====
-- The security profile and the worker pool of ResolveCloudExecutionPolicy.
use styio_platform.Base.{◌≡◌, ◌↔◌, true, refl, arith, eq_iff}
use styio_platform.Execution.{
  Host, ProjectToolchainState, CloudExecutionPolicy, resolve_cloud_execution_policy,
  default_security_profile, default_worker_trust_tier, with_security_profile, with_worker_pool,
}
use styio_platform.Execution.Lanes.{
  resolve-warm_shared, routed, risk_class-with_security_profile,
  execution_lane-with_security_profile,
}

security_profile-with_security_profile :
    (p : CloudExecutionPolicy)
    → (with_security_profile p).security_profile
      ≡ default_security_profile p.risk_class p.execution_lane
unfolding with_security_profile
security_profile-with_security_profile p =
    ground
      (arith, eq_iff p.security_profile (default_security_profile p.risk_class p.execution_lane))

-- The profile that a policy ends with is the default one of its own class and lane, whatever
-- profile was asked for.
pub security_profile-resolve :
    (h : Host) (s : ProjectToolchainState)
    → (resolve_cloud_execution_policy h s).security_profile
      ≡ default_security_profile
          (resolve_cloud_execution_policy h s).risk_class
          (resolve_cloud_execution_policy h s).execution_lane
unfolding resolve_cloud_execution_policy with_worker_pool with_security_profile
security_profile-resolve h s =
    rw
      (
        security_profile-with_security_profile (routed s),
        risk_class-with_security_profile (routed s),
        execution_lane-with_security_profile (routed s),
      )
      refl

pool-tier :
    (h : Host) (s : ProjectToolchainState) (p : CloudExecutionPolicy)
    → ((with_worker_pool h s p).cache_policy.worker_local_reuse ≡ true)
      ↔ ((with_worker_pool h s p).worker_pool_key.worker_trust_tier ≡ "internal-warm")
unfolding with_worker_pool default_worker_trust_tier
pool-tier h s p = ground (
  arith,
  eq_iff "trusted-isolated" "internal-warm",
  eq_iff "partner-isolated" "internal-warm",
  eq_iff "untrusted-isolated" "internal-warm",
)

worker_pool-resolve :
    (h : Host) (s : ProjectToolchainState)
    → ((resolve_cloud_execution_policy h s).cache_policy.worker_local_reuse ≡ true)
      ↔ ((resolve_cloud_execution_policy h s).worker_pool_key.worker_trust_tier ≡ "internal-warm")
unfolding resolve_cloud_execution_policy
worker_pool-resolve h s = pool-tier h s (with_security_profile (routed s))

reuse-lane :
    (h : Host) (s : ProjectToolchainState) (p : CloudExecutionPolicy)
    → ((with_worker_pool h s p).cache_policy.worker_local_reuse ≡ true)
      ↔ ((with_worker_pool h s p).execution_lane ≡ "warm-shared")
unfolding with_worker_pool
reuse-lane h s p = ground (arith, eq_iff p.execution_lane "warm-shared")

worker_local_reuse-resolve :
    (h : Host) (s : ProjectToolchainState)
    → ((resolve_cloud_execution_policy h s).cache_policy.worker_local_reuse ≡ true)
      ↔ ((resolve_cloud_execution_policy h s).execution_lane ≡ "warm-shared")
unfolding resolve_cloud_execution_policy
worker_local_reuse-resolve h s = reuse-lane h s (with_security_profile (routed s))

-- A build reuses a worker's local state exactly where its project state has the class
-- trusted-internal and asks for the warm shared lane, and exactly then its worker pool key has the
-- tier of the internal warm workers.
pub resolve-worker_pool :
    (h : Host) (s : ProjectToolchainState)
    → (((resolve_cloud_execution_policy h s).cache_policy.worker_local_reuse ≡ true)
        ↔ ((s.risk_class ≡ "trusted-internal") × (s.preferred_execution_lane ≡ "warm-shared")))
      × (((resolve_cloud_execution_policy h s).worker_pool_key.worker_trust_tier ≡ "internal-warm")
          ↔ ((s.risk_class ≡ "trusted-internal") × (s.preferred_execution_lane ≡ "warm-shared")))
resolve-worker_pool h s =
    let (lane, asked) = resolve-warm_shared h s in
    let (shown, reused) = worker_local_reuse-resolve h s in
    let (there, back) = worker_pool-resolve h s in
    (
      (λ e. lane (shown e), λ a. reused (asked a)),
      (λ e. lane (shown (back e)), λ a. there (reused (asked a))),
    )
