-- ===== src/Execution/Lanes.antt =====
-- The risk class and the lane of ResolveCloudExecutionPolicy.
use styio_platform.Base.{
  String, ◌≡◌, ◌↔◌, ◌⊎◌, true, false, not, refl, arith, eq_iff, ◌==◌, ◌&&◌, if◌then◌else◌, ◌∙◌,
  Bool-cases, inl, inr,
}
use styio_platform.Execution.{
  Host, ProjectToolchainState, CloudExecutionPolicy, resolve_cloud_execution_policy,
  is_supported_cloud_risk_class, is_supported_cloud_execution_lane, requested_policy,
  with_risk_class, with_execution_lane, with_routing, with_security_profile, with_worker_pool,
}

-- The class that a request is handled under.
abbrev pub settled_risk_class : String → String
settled_risk_class r = if is_supported_cloud_risk_class r then r else "untrusted-user"

abbrev pub settled_lane : String → String → String
settled_lane r l =
    if r == "trusted-internal" && l == "warm-shared" then "warm-shared" else "isolated"

pub risk_class-with_risk_class :
    (p : CloudExecutionPolicy) → (with_risk_class p).risk_class ≡ settled_risk_class p.risk_class
unfolding with_risk_class
risk_class-with_risk_class p = ground arith

pub execution_lane-with_risk_class :
    (p : CloudExecutionPolicy) → (with_risk_class p).execution_lane ≡ p.execution_lane
unfolding with_risk_class
execution_lane-with_risk_class p = ground arith

pub risk_class-with_execution_lane :
    (p : CloudExecutionPolicy) → (with_execution_lane p).risk_class ≡ p.risk_class
unfolding with_execution_lane
risk_class-with_execution_lane p = ground arith

pub execution_lane-with_execution_lane :
    (p : CloudExecutionPolicy)
    → (with_execution_lane p).execution_lane ≡ (
        if is_supported_cloud_execution_lane p.execution_lane then p.execution_lane else "isolated")
unfolding with_execution_lane
execution_lane-with_execution_lane p = ground arith

risk_class-with_routing : (p : CloudExecutionPolicy) → (with_routing p).risk_class ≡ p.risk_class
unfolding with_routing
risk_class-with_routing p = ground arith

execution_lane-with_routing :
    (p : CloudExecutionPolicy)
    → (with_routing p).execution_lane ≡ (
        if p.risk_class == "untrusted-user" && not (p.execution_lane == "isolated")
        then "isolated"
        else if p.risk_class == "partner-controlled" && p.execution_lane == "warm-shared"
        then "isolated"
        else p.execution_lane)
unfolding with_routing
execution_lane-with_routing p = ground arith

pub risk_class-with_security_profile :
    (p : CloudExecutionPolicy) → (with_security_profile p).risk_class ≡ p.risk_class
unfolding with_security_profile
risk_class-with_security_profile p = ground arith

pub execution_lane-with_security_profile :
    (p : CloudExecutionPolicy) → (with_security_profile p).execution_lane ≡ p.execution_lane
unfolding with_security_profile
execution_lane-with_security_profile p = ground arith

pub supported_class-cases :
    (r : String)
    → is_supported_cloud_risk_class r ≡ true
    → (r ≡ "trusted-internal") ⊎ (r ≡ "partner-controlled") ⊎ (r ≡ "untrusted-user")
unfolding is_supported_cloud_risk_class
supported_class-cases r h =
    ground
      (arith, eq_iff "trusted-internal" r, eq_iff "partner-controlled" r, eq_iff "untrusted-user" r)

pub unsupported_class :
    (r : String) → is_supported_cloud_risk_class r ≡ false → (r == "trusted-internal") ≡ false
unfolding is_supported_cloud_risk_class
unsupported_class r h = ground (arith, eq_iff r "trusted-internal", eq_iff "trusted-internal" r)

pub supported_lane-cases :
    (l : String)
    → is_supported_cloud_execution_lane l ≡ true
    → (l ≡ "isolated") ⊎ (l ≡ "warm-shared")
unfolding is_supported_cloud_execution_lane
supported_lane-cases l h = ground (arith, eq_iff "isolated" l, eq_iff "warm-shared" l)

pub unsupported_lane :
    (l : String) → is_supported_cloud_execution_lane l ≡ false → (l == "warm-shared") ≡ false
unfolding is_supported_cloud_execution_lane
unsupported_lane l h = ground (arith, eq_iff l "warm-shared", eq_iff "warm-shared" l)

pub unsupported_class-user :
    (r : String) → is_supported_cloud_risk_class r ≡ false → ("untrusted-user" == r) ≡ false
unfolding is_supported_cloud_risk_class
unsupported_class-user r h = ground arith

pub unsupported_lane-isolated :
    (l : String) → is_supported_cloud_execution_lane l ≡ false → ("isolated" == l) ≡ false
unfolding is_supported_cloud_execution_lane
unsupported_lane-isolated l h = ground arith

-- The lane that the routing tests leave, from a class and a lane.
abbrev pub routed_lane : String → String → String
routed_lane r l =
    if r == "untrusted-user" && not (l == "isolated")
    then "isolated"
    else if r == "partner-controlled" && l == "warm-shared"
    then "isolated"
    else l

-- The routing tests, on a supported class and lane, come to one condition.
routed-settled :
    (r l : String)
    → routed_lane
        (settled_risk_class r)
        (if is_supported_cloud_execution_lane l then l else "isolated")
      ≡ settled_lane r l
routed-settled r l = elim (Bool-cases (is_supported_cloud_risk_class r)) [
  | inr unknown ↦ elim (Bool-cases (is_supported_cloud_execution_lane l)) [
    | inr other ↦ rw (unknown, other) (rw (unsupported_class r unknown) refl)
    | inl known ↦
        rw (unknown, known)
          (rw (unsupported_class r unknown)
            (elim (supported_lane-cases l known) [ inl e ↦ rw e refl | inr e ↦ rw e refl ]))
  ]
  | inl supported ↦ elim (Bool-cases (is_supported_cloud_execution_lane l)) [
    | inr other ↦ rw (supported, other) (rw (unsupported_lane l other) (ground arith))
    | inl known ↦
        rw (supported, known)
          (elim (supported_lane-cases l known) [
            | inl e ↦ rw e (ground arith)
            | inr e ↦ rw e (elim (supported_class-cases r supported) [
              | inl f ↦ rw f refl
              | inr (inl f) ↦ rw f refl
              | inr (inr f) ↦ rw f refl
            ])
          ])
  ]
]

-- What the routing decides, before the profile and the pool are filled in.
abbrev pub routed : ProjectToolchainState → CloudExecutionPolicy
routed s = with_routing (with_execution_lane (with_risk_class (requested_policy s)))

pub risk_class-routed :
    (s : ProjectToolchainState) → (routed s).risk_class ≡ settled_risk_class s.risk_class
unfolding requested_policy
risk_class-routed s =
    risk_class-with_routing _
    ∙ risk_class-with_execution_lane _
    ∙ risk_class-with_risk_class (requested_policy s)

pub execution_lane-routed :
    (s : ProjectToolchainState)
    → (routed s).execution_lane ≡ settled_lane s.risk_class s.preferred_execution_lane
unfolding requested_policy
execution_lane-routed s =
    rw
      (
        execution_lane-with_routing (with_execution_lane (with_risk_class (requested_policy s))),
        execution_lane-with_execution_lane (with_risk_class (requested_policy s)),
        risk_class-with_execution_lane (with_risk_class (requested_policy s)),
        risk_class-with_risk_class (requested_policy s),
        execution_lane-with_risk_class (requested_policy s),
      )
      (routed-settled s.risk_class s.preferred_execution_lane)

-- The class of a resolved policy.
pub risk_class-resolve :
    (h : Host) (s : ProjectToolchainState)
    → (resolve_cloud_execution_policy h s).risk_class ≡ settled_risk_class s.risk_class
unfolding resolve_cloud_execution_policy with_worker_pool
risk_class-resolve h s = risk_class-with_security_profile (routed s) ∙ risk_class-routed s

pub execution_lane-resolve :
    (h : Host) (s : ProjectToolchainState)
    → (resolve_cloud_execution_policy h s).execution_lane
      ≡ settled_lane s.risk_class s.preferred_execution_lane
unfolding resolve_cloud_execution_policy with_worker_pool
execution_lane-resolve h s =
    execution_lane-with_security_profile (routed s) ∙ execution_lane-routed s

-- A build runs in the warm shared lane exactly where its project state asks for that lane and has
-- the class trusted-internal.
pub resolve-warm_shared :
    (h : Host) (s : ProjectToolchainState)
    → ((resolve_cloud_execution_policy h s).execution_lane ≡ "warm-shared")
      ↔ ((s.risk_class ≡ "trusted-internal") × (s.preferred_execution_lane ≡ "warm-shared"))
resolve-warm_shared h s = rw (execution_lane-resolve h s) (
    ground (
      arith,
      eq_iff s.risk_class "trusted-internal",
      eq_iff s.preferred_execution_lane "warm-shared",
      eq_iff "isolated" "warm-shared",
    ))

-- Every lane that a build runs in is one of the two that exist.
pub resolve-lanes :
    (h : Host) (s : ProjectToolchainState)
    → ((resolve_cloud_execution_policy h s).execution_lane ≡ "isolated")
      ⊎ ((resolve_cloud_execution_policy h s).execution_lane ≡ "warm-shared")
resolve-lanes h s = rw (execution_lane-resolve h s) (ground arith)
