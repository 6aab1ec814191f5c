-- ===== src/Access/Gate.antt =====
-- Which requests pass the gate RequireIdentity of PlatformService/Router.cpp.
use styio_platform.Base.{
  ◌≡◌, ◌↔◌, ◌⊎◌, inl, inr, refl, Bool, true, false, not, ◌&&◌, none, some, ◌==◌, if◌then◌else◌,
  is_some, arith, eq_iff, Option-cases, subst, sym, ◌∙◌,
}
use mathlib.Core.Option.{some-injective}
use styio_platform.Json.{Json}
use styio_platform.Routing.{MtlsIdentity, HttpRequest, HttpResponse, RouteMatch}
use styio_platform.Routing.Catalog.{is_registry_token_capable_operation}
use styio_platform.Access.{
  is_internal_role, is_authorized_for_operation, registry_token_from_headers, failure_response,
  require_identity,
}

-- A caller without a certificate, who shows a registry token for an operation that takes one.
abbrev pub HasToken : {V : Type 0} → RouteMatch → HttpRequest V → Type 0
HasToken match request =
    (match.route.internal ≡ true)
    × (is_registry_token_capable_operation match.route.operation_id ≡ true)
    × (is_some (registry_token_from_headers request.headers) ≡ true)

-- A certificate whose role may run the operation, and is a service's on an internal route.
abbrev pub HasRole : RouteMatch → MtlsIdentity → Type 0
HasRole match identity =
    ((match.route.internal ≡ false) ⊎ (is_internal_role identity ≡ true))
    × (is_authorized_for_operation match.route.operation_id identity ≡ true)

abbrev pub Admitted : {V : Type 0} → RouteMatch → HttpRequest V → Type 0
Admitted match request =
    (match.route.operation_id ≡ "exchangeExternalIdentity")
    ⊎ ((request.identity ≡ none) × HasToken match request)
    ⊎ ((identity : MtlsIdentity) × (request.identity ≡ some identity) × HasRole match identity)

module _ (J : Json) where
  open J use {Value}

  -- Without certificate: the exchange, or a token.
  gate-none :
      (match : RouteMatch) (request : HttpRequest Value)
      → request.identity ≡ none
      → ((require_identity J true match request).status_code ≡ 200)
        ↔ ((match.route.operation_id ≡ "exchangeExternalIdentity") ⊎ HasToken match request)
  unfolding require_identity failure_response
  gate-none match request e =
      rw (require_identity, e)
        (ground (arith, eq_iff match.route.operation_id "exchangeExternalIdentity"))

  -- The tests on a certificate, with the answers of each.
  gate_tests :
      (x i r a : Bool) (p d e : HttpResponse Value)
      → p.status_code ≡ 200
      → d.status_code ≡ 403
      → e.status_code ≡ 403
      → ((if x then p else if i && not r then d else if not a then e else p).status_code ≡ 200)
        ↔ ((x ≡ true) ⊎ (((i ≡ false) ⊎ (r ≡ true)) × (a ≡ true)))
  gate_tests true i r a p d e u v w = ground arith
  gate_tests false true true true p d e u v w = ground arith
  gate_tests false true true false p d e u v w = ground arith
  gate_tests false true false a p d e u v w = ground arith
  gate_tests false false r true p d e u v w = ground arith
  gate_tests false false r false p d e u v w = ground arith

  gate-some :
      (match : RouteMatch) (request : HttpRequest Value) (identity : MtlsIdentity)
      → request.identity ≡ some identity
      → ((require_identity J true match request).status_code ≡ 200) ↔ (
          ((match.route.operation_id == "exchangeExternalIdentity") ≡ true)
          ⊎ HasRole match identity)
  unfolding require_identity failure_response
  gate-some match request identity e =
      rw (require_identity, e)
        (gate_tests (match.route.operation_id == "exchangeExternalIdentity") match.route.internal
          (is_internal_role identity)
          (is_authorized_for_operation match.route.operation_id identity) _ _ _ refl refl refl)

  -- Where certificates are required, a request passes the gate exactly if it is for the identity
  -- exchange, or has no certificate but a registry token on an internal route of an operation that
  -- takes tokens, or has a certificate whose role may run the operation and is a service's where
  -- the route is internal.
  pub require_identity-Admitted :
      (match : RouteMatch) (request : HttpRequest Value)
      → ((require_identity J true match request).status_code ≡ 200) ↔ Admitted match request
  require_identity-Admitted match request = elim (Option-cases request.identity) [
    | inl e ↦
        let (to, from) = gate-none match request e in
        (
          λ h. elim (to h) [ inl x ↦ inl x | inr t ↦ inr (inl (e, t)) ],
          λ a. elim a [
            | inl x ↦ from (inl x)
            | inr (inl (f, t)) ↦ from (inr t)
            | inr (inr (i, f, r)) ↦ cc (e, f)
          ],
        )
    | inr (identity, e) ↦
        let (to, from) = gate-some match request identity e in
        (
          λ h. elim (to h) [
            | inl x ↦ inl ((eq_iff match.route.operation_id "exchangeExternalIdentity").0 x)
            | inr r ↦ inr (inr (identity, e, r))
          ],
          λ a. elim a [
            | inl x ↦ from (inl ((eq_iff match.route.operation_id "exchangeExternalIdentity").1 x))
            | inr (inl (f, t)) ↦ cc (e, f)
            | inr (inr (i, f, r)) ↦
                from (inr (subst (HasRole match) (some-injective _ _ (sym f ∙ e)) r))
          ],
        )
  ]
