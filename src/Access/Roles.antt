-- ===== src/Access/Roles.antt =====
-- The role tests of Authorization.cpp against the operation sets of RouteCatalog.cpp.
use styio_platform.Base.{
  String, ◌≡◌, inl, inr, refl, Bool, true, false, List, [], ◌∷◌, ◌==◌, arith, eq_iff, if◌then◌else◌,
  Bool-cases, All, all, member,
}
use styio_platform.Routing.{MtlsIdentity}
use styio_platform.Routing.Catalog.{registry_operations, is_registry_operation}
use styio_platform.Access.{is_internal_role, is_authorized_for_operation, is_platform_service_role}

abbrev pub registry_roles : List String
registry_roles = "control-plane" ∷ "registry-writer" ∷ "mirror" ∷ "operator" ∷ "package-owner" ∷ []

member-head :
    (s : String) (xs ys : List String)
    → member s xs ≡ true
    → all (λ x. member x ys) xs ≡ true
    → member s ys ≡ true
member-head s [] ys h k = cc
member-head s (x ∷ xs) ys h k = elim (Bool-cases (x == s)) [
  | inl same ↦ rw (← (eq_iff x s).0 same) (ground arith)
  | inr other ↦ member-head s xs ys (rw other at h) (ground arith)
]

All-member :
    (P : String → Type 0) (xs : List String) (s : String) → All P xs → member s xs ≡ true → P s
All-member P [] s ps h = cc
All-member P (x ∷ xs) s ps h = elim (Bool-cases (x == s)) [
  | inl same ↦ rw (← (eq_iff x s).0 same) ps.0
  | inr other ↦ All-member P xs s ps.1 (rw other at h)
]

eq_sym : (s t : String) → (s == t) ≡ (t == s)
eq_sym s t = ground (arith, eq_iff s t, eq_iff t s)

abbrev InRegistry : MtlsIdentity → String → Type 0
InRegistry i op = is_authorized_for_operation op i ≡ true → member i.role registry_roles ≡ true

registry_operations-roles : (i : MtlsIdentity) → All (InRegistry i) registry_operations
unfolding is_authorized_for_operation
registry_operations-roles i = ground arith

-- No registry operation is open to a role outside the registry: who is authorised for one is a
-- control plane, a registry writer, a mirror, an operator or a package owner.
pub registry_operation-roles :
    (op : String) (i : MtlsIdentity)
    → is_registry_operation op ≡ true
    → is_authorized_for_operation op i ≡ true
    → member i.role registry_roles ≡ true
unfolding is_registry_operation
registry_operation-roles op i h =
    All-member (InRegistry i) registry_operations op (registry_operations-roles i) h

-- The roles that certificates may carry are those that internal routes accept.
pub is_internal_role-service :
    (i : MtlsIdentity) → is_internal_role i ≡ is_platform_service_role i.role
unfolding is_internal_role is_platform_service_role
is_internal_role-service i =
    rw
      (
        eq_sym i.role "control-plane",
        eq_sym i.role "worker",
        eq_sym i.role "mirror",
        eq_sym i.role "registry-writer",
        eq_sym i.role "operator",
        eq_sym i.role "cluster-registrar",
        eq_sym i.role "package-owner",
      )
      (ground arith)

if_same : (b : Bool) → (if b then true else true) ≡ true
if_same true = refl
if_same false = refl

-- The operator may run every operation.
pub operator-is_authorized :
    (op : String) (i : MtlsIdentity) → i.role ≡ "operator" → is_authorized_for_operation op i ≡ true
unfolding is_authorized_for_operation is_internal_role
operator-is_authorized op i h = rw h (simp if_same refl)
