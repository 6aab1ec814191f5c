-- ===== src/Execution/Fallback.antt =====
-- The fallback flag of ResolveCloudExecutionPolicy.
use styio_platform.Base.{
  String, ◌≡◌, ◌↔◌, ◌⊎◌, Bool, true, false, not, refl, arith, eq_iff, ◌==◌, ◌&&◌, ◌||◌,
  if◌then◌else◌, ◌∙◌, Bool-cases, inl, inr,
}
use styio_platform.Execution.{
  Host, ProjectToolchainState, CloudExecutionPolicy, resolve_cloud_execution_policy,
  default_security_profile, is_supported_cloud_risk_class, is_supported_cloud_execution_lane,
  is_supported_cloud_security_profile, requested_policy, with_risk_class, with_execution_lane,
  with_routing, with_security_profile, with_worker_pool,
}
use styio_platform.Execution.Profiles.{security_profile-resolve}
use styio_platform.Execution.Lanes.{
  settled_risk_class, settled_lane, routed, risk_class-routed, execution_lane-routed,
  risk_class-resolve, execution_lane-resolve, supported_class-cases, supported_lane-cases,
  unsupported_class-user, unsupported_lane-isolated, unsupported_lane, risk_class-with_risk_class,
  execution_lane-with_risk_class, risk_class-with_execution_lane,
  execution_lane-with_execution_lane,
}

fallback-with_risk_class :
    (p : CloudExecutionPolicy)
    → (with_risk_class p).fallback_applied
      ≡ (not (is_supported_cloud_risk_class p.risk_class) || p.fallback_applied)
unfolding with_risk_class
fallback-with_risk_class p = ground arith

fallback-with_execution_lane :
    (p : CloudExecutionPolicy)
    → (with_execution_lane p).fallback_applied
      ≡ (not (is_supported_cloud_execution_lane p.execution_lane) || p.fallback_applied)
unfolding with_execution_lane
fallback-with_execution_lane p = ground arith

-- The two tests of the routing that set the flag.
abbrev rerouted : String → String → Bool
rerouted r l =
    (r == "untrusted-user" && not (l == "isolated"))
    || (r == "partner-controlled" && l == "warm-shared")

fallback-with_routing :
    (p : CloudExecutionPolicy)
    → (with_routing p).fallback_applied
      ≡ (rerouted p.risk_class p.execution_lane || p.fallback_applied)
unfolding with_routing
fallback-with_routing p = ground arith

abbrev moved : String → String → Bool
moved r l = not (settled_risk_class r == r && settled_lane r l == l)

settled-tests :
    (r l : String)
    → (r ≡ "trusted-internal") ⊎ (r ≡ "partner-controlled") ⊎ (r ≡ "untrusted-user")
    → (l ≡ "isolated") ⊎ (l ≡ "warm-shared")
    → (rerouted r l || false) ≡ not (r == r && settled_lane r l == l)
settled-tests r l (inl f) (inl e) = rw (f, e) refl
settled-tests r l (inl f) (inr e) = rw (f, e) refl
settled-tests r l (inr (inl f)) (inl e) = rw (f, e) refl
settled-tests r l (inr (inl f)) (inr e) = rw (f, e) refl
settled-tests r l (inr (inr f)) (inl e) = rw (f, e) refl
settled-tests r l (inr (inr f)) (inr e) = rw (f, e) refl

moved-tests :
    (r l : String)
    → (rerouted
          (settled_risk_class r)
          (if is_supported_cloud_execution_lane l then l else "isolated")
        || (not (is_supported_cloud_execution_lane l)
            || (not (is_supported_cloud_risk_class r) || false)))
      ≡ moved r l
moved-tests r l = elim (Bool-cases (is_supported_cloud_risk_class r)) [
  | inr unknown ↦ elim (Bool-cases (is_supported_cloud_execution_lane l)) [
    | inr other ↦ rw (unknown, other) (rw (unsupported_class-user r unknown) refl)
    | inl known ↦ rw (unknown, known) (rw (unsupported_class-user r unknown) (ground arith))
  ]
  | inl supported ↦ elim (Bool-cases (is_supported_cloud_execution_lane l)) [
    | inr other ↦
        rw (supported, other)
          (rw (unsupported_lane l other) (elim (supported_class-cases r supported) [
            | inl f ↦ rw (f, unsupported_lane-isolated l other) refl
            | inr (inl f) ↦ rw (f, unsupported_lane-isolated l other) refl
            | inr (inr f) ↦ rw (f, unsupported_lane-isolated l other) refl
          ]))
    | inl known ↦
        rw (supported, known)
          (settled-tests r l (supported_class-cases r supported) (supported_lane-cases l known))
  ]
]

fallback-routed :
    (s : ProjectToolchainState)
    → (routed s).fallback_applied ≡ moved s.risk_class s.preferred_execution_lane
unfolding requested_policy
fallback-routed s =
    let asked = requested_policy s in
    let classed = with_risk_class asked in
    rw
      (
        fallback-with_routing (with_execution_lane classed),
        execution_lane-with_execution_lane classed,
        risk_class-with_execution_lane classed,
        fallback-with_execution_lane classed,
        risk_class-with_risk_class asked,
        execution_lane-with_risk_class asked,
        fallback-with_risk_class asked,
      )
      (moved-tests s.risk_class s.preferred_execution_lane)

default-IsSupported :
    (r l : String) → is_supported_cloud_security_profile (default_security_profile r l) ≡ true
unfolding is_supported_cloud_security_profile default_security_profile
default-IsSupported r l = elim (Bool-cases (l == "warm-shared")) [
  | inl warm ↦ rw warm refl
  | inr cold ↦
      rw cold
        (elim (Bool-cases (r == "partner-controlled")) [ inl e ↦ rw e refl | inr e ↦ rw e refl ])
]

-- The default profiles are supported, so that a profile that differs is the only reason to replace it.
fallback-with_security_profile :
    (p : CloudExecutionPolicy)
    → (with_security_profile p).fallback_applied ≡ (
        not (p.security_profile == default_security_profile p.risk_class p.execution_lane)
        || p.fallback_applied)
unfolding with_security_profile
fallback-with_security_profile p = ground (
  arith,
  eq_iff p.security_profile (default_security_profile p.risk_class p.execution_lane),
  default-IsSupported p.risk_class p.execution_lane,
)

security_profile-with_risk_class :
    (p : CloudExecutionPolicy) → (with_risk_class p).security_profile ≡ p.security_profile
unfolding with_risk_class
security_profile-with_risk_class p = ground arith

security_profile-with_execution_lane :
    (p : CloudExecutionPolicy) → (with_execution_lane p).security_profile ≡ p.security_profile
unfolding with_execution_lane
security_profile-with_execution_lane p = ground arith

security_profile-with_routing :
    (p : CloudExecutionPolicy) → (with_routing p).security_profile ≡ p.security_profile
unfolding with_routing
security_profile-with_routing p = ground arith

security_profile-routed :
    (s : ProjectToolchainState) → (routed s).security_profile ≡ s.security_profile
unfolding requested_policy
security_profile-routed s =
    security_profile-with_routing _
    ∙ security_profile-with_execution_lane _
    ∙ security_profile-with_risk_class (requested_policy s)

all_equal :
    (d x a r b l : String)
    → ((not (x == d) || not (a == r && b == l)) ≡ false) ↔ ((a ≡ r) × (b ≡ l) × (d ≡ x))
all_equal d x a r b l = ground (arith, eq_iff x d, eq_iff a r, eq_iff b l)

fallback-settled :
    (h : Host) (s : ProjectToolchainState)
    → (resolve_cloud_execution_policy h s).fallback_applied ≡ (
        not (
          s.security_profile
          == default_security_profile
              (settled_risk_class s.risk_class)
              (settled_lane s.risk_class s.preferred_execution_lane))
        || moved s.risk_class s.preferred_execution_lane)
unfolding resolve_cloud_execution_policy with_worker_pool
fallback-settled h s =
    rw
      (
        fallback-with_security_profile (routed s),
        fallback-routed s,
        risk_class-routed s,
        execution_lane-routed s,
        security_profile-routed s,
      )
      refl

security_profile-settled :
    (h : Host) (s : ProjectToolchainState)
    → (resolve_cloud_execution_policy h s).security_profile
      ≡ default_security_profile
          (settled_risk_class s.risk_class)
          (settled_lane s.risk_class s.preferred_execution_lane)
security_profile-settled h s =
    rw (security_profile-resolve h s, risk_class-resolve h s, execution_lane-resolve h s) refl

-- A resolved policy reports no fallback exactly where it grants what was asked for: the risk class,
-- the lane and the security profile of the project state.
pub resolve-fallback_applied :
    (h : Host) (s : ProjectToolchainState)
    → ((resolve_cloud_execution_policy h s).fallback_applied ≡ false) ↔ (
        ((resolve_cloud_execution_policy h s).risk_class ≡ s.risk_class)
        × ((resolve_cloud_execution_policy h s).execution_lane ≡ s.preferred_execution_lane)
        × ((resolve_cloud_execution_policy h s).security_profile ≡ s.security_profile))
resolve-fallback_applied h s =
    rw
      (
        risk_class-resolve h s,
        execution_lane-resolve h s,
        security_profile-settled h s,
        fallback-settled h s,
      )
      (all_equal
        (default_security_profile (settled_risk_class s.risk_class)
          (settled_lane s.risk_class s.preferred_execution_lane))
        s.security_profile (settled_risk_class s.risk_class) s.risk_class
        (settled_lane s.risk_class s.preferred_execution_lane) s.preferred_execution_lane)
