-- ===== src/Workspace/Dispatch/Guarded.antt =====
-- What Dispatch (PlatformService/Router.cpp) lets a request do to the store.
use styio_platform.Base.{
  ℕ, String, ◌≡◌, ◌≢◌, ◌⊎◌, inl, inr, refl, Bool, true, false, Option, none, some, List, [], ◌∷◌,
  ◌==◌, if◌then◌else◌, eqb, eqb_iff, Bool-cases,
}
use styio_platform.Json.{Json, ℤ}
use styio_platform.Store.State.{MemoryStateStore}
use styio_platform.Store.JobLog.{IsConsistent}
use styio_platform.Routing.{HttpRequest, HttpResponse, RouteMatch, match_route}
use styio_platform.Routing.Catalog.{all_routes}
use styio_platform.Access.{require_identity}
use styio_platform.Access.Gate.{Admitted, require_identity-Admitted}
use styio_platform.Ops.{PlatformRateLimiter, allow}
use styio_platform.Workspace.Handlers.{Handled}
use styio_platform.Workspace.Handlers.Requests.{
  submit-IsConsistent, get-IsConsistent, events-IsConsistent, cancel-IsConsistent,
  heartbeat-IsConsistent, complete-IsConsistent, worker-IsConsistent, container-IsConsistent,
  get_container-IsConsistent, switch-IsConsistent, claim-IsConsistent,
}
use styio_platform.Workspace.Handlers.Consistent.{reading-IsConsistent}
use styio_platform.Workspace.Dispatch.{
  parameter, dispatch_workspace_operation, Router, Config, dispatch_matched, dispatch_limited,
  dispatch_gated, dispatch_found, dispatch,
}

module _ (J : Json) where
  open J use {Value}

  -- What holds of the handled request, if there is one.
  abbrev WhenHandled : (Handled J → Type 0) → Option (Handled J) → Type 0
  WhenHandled P none = Unit
  WhenHandled P (some h) = P h

  if-WhenHandled :
      (P : Handled J → Type 0) (b : Bool) (x y : Option (Handled J))
      → WhenHandled P x
      → WhenHandled P y
      → WhenHandled P (if b then x else y)
  if-WhenHandled P true x y h k = h
  if-WhenHandled P false x y h k = k

  dispatch_workspace_operation-IsConsistent :
      (region : String) (s : MemoryStateStore Value) (match : RouteMatch)
      (request : HttpRequest Value)
      → IsConsistent s
      → WhenHandled (λ h. IsConsistent h.0) (dispatch_workspace_operation J region s match request)
  unfolding dispatch_workspace_operation
  dispatch_workspace_operation-IsConsistent region s match request c =
      let op = match.route.operation_id in
      let P : Handled J → Type 0 = λ h. IsConsistent h.0 in
      let job = parameter J match "job_id" in
      let container = parameter J match "container_id" in
      if-WhenHandled P (op == "submitJob") _ _ (submit-IsConsistent J s c region request.body) (
        if-WhenHandled P (op == "getJob") _ _
          (reading-IsConsistent J s job _ c λ id e. get-IsConsistent J s c id)
          (if-WhenHandled P (op == "getJobEvents") _ _
            (reading-IsConsistent J s job _ c λ id e. events-IsConsistent J s c id)
            (if-WhenHandled P (op == "cancelJob") _ _
              (reading-IsConsistent J s job _ c λ id e. cancel-IsConsistent J s c id request.body)
              (if-WhenHandled P (op == "registerWorker") _ _
                (worker-IsConsistent J s c request.body)
                (if-WhenHandled P (op == "registerCompileContainer") _ _
                  (container-IsConsistent J s c request.body)
                  (if-WhenHandled P (op == "getCompileContainer") _ _
                    (reading-IsConsistent J s container _ c
                      λ id e. get_container-IsConsistent J s c id)
                    (if-WhenHandled P (op == "switchCompileContainerWorkspace") _ _
                      (reading-IsConsistent J s container _ c
                        λ id e. switch-IsConsistent J s c id request.body)
                      (if-WhenHandled P (op == "claimJob") _ _
                        (claim-IsConsistent J s c request.body)
                        (if-WhenHandled P (op == "heartbeatJob") _ _
                          (reading-IsConsistent J s job _ c
                            λ id e. heartbeat-IsConsistent J s c id request.body)
                          (if-WhenHandled P (op == "completeJob") _ _
                            (reading-IsConsistent J s job _ c
                              λ id e. complete-IsConsistent J s c id request.body)
                            tt))))))))))

  -- The handlers of the other operations keep the store consistent.
  abbrev pub OthersConsistent : Config J → Type 0
  OthersConsistent config =
      (s : MemoryStateStore Value) (match : RouteMatch) (request : HttpRequest Value)
      → IsConsistent s
      → IsConsistent (config.others s match request).0

  matched-IsConsistent :
      (config : Config J) (r : Router J) (match : RouteMatch) (request : HttpRequest Value)
      (o : Option (Handled J))
      → OthersConsistent config
      → IsConsistent r.memory
      → WhenHandled (λ h. IsConsistent h.0) o
      → IsConsistent (dispatch_matched J config r match request o).0.memory
  unfolding dispatch_matched
  matched-IsConsistent config r match request (some (memory, response)) others c h = h
  matched-IsConsistent config r match request none others c h = others r.memory match request c

  limited-IsConsistent :
      (config : Config J) (memory : MemoryStateStore Value) (match : RouteMatch)
      (request : HttpRequest Value) (l : PlatformRateLimiter × Bool)
      → OthersConsistent config
      → IsConsistent memory
      → IsConsistent (dispatch_limited J config memory match request l).0.memory
  unfolding dispatch_limited
  limited-IsConsistent config memory match request (limiter, false) others c = c
  limited-IsConsistent config memory match request (limiter, true) others c =
      matched-IsConsistent config (record { memory = memory; rate_limiter = limiter }) match request
        (dispatch_workspace_operation J config.region memory match request) others c
        (dispatch_workspace_operation-IsConsistent config.region memory match request c)

  -- Past the gate: what a test of its answer leaves.
  gated-IsConsistent :
      (config : Config J) (r : Router J) (now : ℕ) (match : RouteMatch)
      (request : HttpRequest Value) (answer : HttpResponse Value)
      → OthersConsistent config
      → IsConsistent r.memory
      → IsConsistent (dispatch_gated J config r now match request answer).0.memory
  unfolding dispatch_gated
  gated-IsConsistent config r now match request answer others c =
      elim (Bool-cases (eqb answer.status_code 200)) [
        | inl passed ↦ rw passed (
            limited-IsConsistent config r.memory match request
              (allow r.rate_limiter (config.subject request) match.route.operation_id (ℤ.pos 600)
                (ℤ.pos 60) now)
              others c)
        | inr denied ↦ rw denied c
      ]

  found-IsConsistent :
      (config : Config J) (r : Router J) (now : ℕ) (request : HttpRequest Value)
      (o : Option RouteMatch)
      → OthersConsistent config
      → IsConsistent r.memory
      → IsConsistent (dispatch_found J config r now request o).0.memory
  unfolding dispatch_found
  found-IsConsistent config r now request none others c = c
  found-IsConsistent config r now request (some match) others c =
      gated-IsConsistent config r now match request
        (require_identity J config.mtls_required match request) others c

  -- The router after requests at their times, in the order in which it takes them.
  abbrev pub after_requests : Config J → Router J → List (ℕ × HttpRequest Value) → Router J
  after_requests config r [] = r
  after_requests config r ((now, request) ∷ requests) =
      after_requests config (dispatch J config r now request).0 requests

  -- If the handlers outside the workspace keep the store consistent, so does the router: after any
  -- requests, whatever their paths, bodies and certificates, the job table is sorted, each job stands
  -- under its own id, and the newest event of its log reports its status.
  pub after_requests-IsConsistent :
      (config : Config J) (r : Router J) (requests : List (ℕ × HttpRequest Value))
      → OthersConsistent config
      → IsConsistent r.memory
      → IsConsistent (after_requests config r requests).memory
  unfolding dispatch
  after_requests-IsConsistent config r [] others c = c
  after_requests-IsConsistent config r ((now, request) ∷ requests) others c =
      after_requests-IsConsistent config (dispatch J config r now request).0 requests others (
        found-IsConsistent config r now request (match_route all_routes request.method request.path)
          others c)

  -- A request that may reach a handler.
  pub record IsServed (config : Config J) (r : Router J) (now : ℕ) (request : HttpRequest Value)
      (match : RouteMatch) : Type 0 where
    pub routed : match_route all_routes request.method request.path ≡ some match
    pub admitted : config.mtls_required ≡ true → Admitted match request
    pub within_limit :
        (allow r.rate_limiter
          (config.subject request)
          match.route.operation_id
          (ℤ.pos 600)
          (ℤ.pos 60)
          now).1
        ≡ true

  limited-same :
      (config : Config J) (memory : MemoryStateStore Value) (match : RouteMatch)
      (request : HttpRequest Value) (l : PlatformRateLimiter × Bool)
      → (l.1 ≡ true) ⊎ ((dispatch_limited J config memory match request l).0.memory ≡ memory)
  unfolding dispatch_limited
  limited-same config memory match request (limiter, false) = inr refl
  limited-same config memory match request (limiter, true) = inl refl

  gated-same :
      (config : Config J) (r : Router J) (now : ℕ) (match : RouteMatch)
      (request : HttpRequest Value) (answer : HttpResponse Value)
      → ((answer.status_code ≡ 200)
          × ((allow r.rate_limiter
                (config.subject request)
                match.route.operation_id
                (ℤ.pos 600)
                (ℤ.pos 60)
                now).1
              ≡ true))
        ⊎ ((dispatch_gated J config r now match request answer).0.memory ≡ r.memory)
  unfolding dispatch_gated
  gated-same config r now match request answer = elim (Bool-cases (eqb answer.status_code 200)) [
    | inl passed ↦
        rw passed
          (elim (limited-same config r.memory match request (
            allow r.rate_limiter (config.subject request) match.route.operation_id (ℤ.pos 600)
              (ℤ.pos 60) now)) [
                | inl allowed ↦ inl ((eqb_iff answer.status_code 200).0 passed, allowed)
                | inr same ↦ inr same
              ])
    | inr denied ↦ rw denied (inr refl)
  ]

  gate_passed :
      (required : Bool) (match : RouteMatch) (request : HttpRequest Value)
      → (require_identity J required match request).status_code ≡ 200
      → required ≡ true
      → Admitted match request
  gate_passed true match request h e = (require_identity-Admitted J match request).0 h
  gate_passed false match request h e = cc

  found-same :
      (config : Config J) (r : Router J) (now : ℕ) (request : HttpRequest Value)
      (o : Option RouteMatch)
      → match_route all_routes request.method request.path ≡ o
      → ((dispatch_found J config r now request o).0.memory ≢ r.memory)
      → (match : RouteMatch) × IsServed config r now request match
  unfolding dispatch_found
  found-same config r now request none e changed = absurd (changed refl)
  found-same config r now request (some match) e changed =
      elim (gated-same config r now match request
        (require_identity J config.mtls_required match request)) [
          | inl (passed, allowed) ↦ (
            match,
            record {
              routed = e;
              admitted = gate_passed config.mtls_required match request passed;
              within_limit = allowed;
            },
          )
          | inr same ↦ absurd (changed same)
        ]

  -- A request changes the store only if a route of the platform is found for it, the gate admits it
  -- where certificates are required, and the rate limiter lets it through.
  pub dispatch-IsServed :
      (config : Config J) (r : Router J) (now : ℕ) (request : HttpRequest Value)
      → (dispatch J config r now request).0.memory ≢ r.memory
      → (match : RouteMatch) × IsServed config r now request match
  unfolding dispatch
  dispatch-IsServed config r now request changed =
      found-same config r now request (match_route all_routes request.method request.path) refl
        changed
