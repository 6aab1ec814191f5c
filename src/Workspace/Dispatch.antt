-- ===== src/Workspace/Dispatch.antt =====
-- PlatformRouter::Dispatch and DispatchWorkspaceOperation (PlatformService/Router.cpp) on the in-memory
-- store. The request metrics, which no answer but their own depends on, are left out. The
-- operations of the other groups are an argument; RequestSubject and the clock are arguments too.
pub mod Guarded
use styio_platform.Base.{
  ℕ, String, Bool, true, false, not, Option, none, some, ◌==◌, if◌then◌else◌, eqb, Result, ok, err,
}
use styio_platform.Base.Dict.{get}
use styio_platform.Json.{Json, ℤ}
use styio_platform.Store.State.{MemoryStateStore}
use styio_platform.Routing.{HttpRequest, HttpResponse, RouteMatch, match_route, failure_envelope}
use styio_platform.Routing.Catalog.{all_routes}
use styio_platform.Access.{require_identity, failure_response}
use styio_platform.Ops.{PlatformRateLimiter, allow}
use styio_platform.Workspace.Handlers.{
  Handled, reading, handle_submit_job, handle_get_job, handle_get_job_events, handle_cancel_job,
  handle_heartbeat_job, handle_complete_job,
}
use styio_platform.Workspace.Handlers.Containers.{
  handle_register_worker, handle_register_compile_container, handle_get_compile_container,
}
use styio_platform.Workspace.Handlers.Claims.{
  handle_switch_compile_container_workspace, handle_claim_job,
}

module _ (J : Json) where
  open J use {Value}

  -- `match.parameters.at(key)`, which throws where the key is missing
  abbrev pub parameter : RouteMatch → String → Result String
  parameter match key = elim (get key match.parameters) [ none ↦ err "map::at" | some s ↦ ok s ]

  unfoldable pub dispatch_workspace_operation :
      String → MemoryStateStore Value → RouteMatch → HttpRequest Value → Option (Handled J)
  unfolding reading handle_submit_job handle_get_job handle_get_job_events handle_cancel_job
      handle_register_worker handle_register_compile_container handle_get_compile_container
      handle_switch_compile_container_workspace handle_claim_job handle_heartbeat_job
      handle_complete_job
  dispatch_workspace_operation region s match request =
      let op = match.route.operation_id in
      if op == "submitJob"
      then some (handle_submit_job J s region request.body)
      else if op == "getJob"
      then some (reading J s (parameter match "job_id") (handle_get_job J s))
      else if op == "getJobEvents"
      then some (reading J s (parameter match "job_id") (handle_get_job_events J s))
      else if op == "cancelJob"
      then some (reading J s (parameter match "job_id") λ id. handle_cancel_job J s id request.body)
      else if op == "registerWorker"
      then some (handle_register_worker J s request.body)
      else if op == "registerCompileContainer"
      then some (handle_register_compile_container J s request.body)
      else if op == "getCompileContainer"
      then some (reading J s (parameter match "container_id") (handle_get_compile_container J s))
      else if op == "switchCompileContainerWorkspace"
      then some (
          reading J s (parameter match "container_id")
            λ id. handle_switch_compile_container_workspace J s id request.body)
      else if op == "claimJob"
      then some (handle_claim_job J s request.body)
      else if op == "heartbeatJob"
      then some
          (reading J s (parameter match "job_id") λ id. handle_heartbeat_job J s id request.body)
      else if op == "completeJob"
      then some
          (reading J s (parameter match "job_id") λ id. handle_complete_job J s id request.body)
      else none

  -- What the router holds: the store and the rate limiter's buckets.
  pub record Router : Type 0 where
    pub memory : MemoryStateStore Value
    pub rate_limiter : PlatformRateLimiter

  pub record Config : Type 0 where
    pub region : String
    pub mtls_required : Bool
    -- `RequestSubject`
    pub subject : HttpRequest Value → String
    -- the handlers of the other groups of operations
    pub others : MemoryStateStore Value → RouteMatch → HttpRequest Value → Handled J

  abbrev pub Answer : Type 0
  Answer = Router × Result (HttpResponse Value)

  -- DispatchMatchedOperation: the workspace's operation, or one of the others.
  unfoldable pub dispatch_matched :
      Config → Router → RouteMatch → HttpRequest Value → Option (Handled J) → Answer
  dispatch_matched config r match request (some (memory, response)) =
      (record r { memory = memory }, response)
  dispatch_matched config r match request none =
      let (memory, response) = config.others r.memory match request in
      (record r { memory = memory }, response)

  -- After the rate limiter has answered.
  unfoldable pub dispatch_limited :
      Config
      → MemoryStateStore Value
      → RouteMatch
      → HttpRequest Value
      → PlatformRateLimiter × Bool
      → Answer
  unfolding dispatch_matched dispatch_workspace_operation failure_response
  dispatch_limited config memory match request (limiter, false) = (
    record { memory = memory; rate_limiter = limiter },
    ok (
        failure_response J 429 "request rate limited" "rate limit exceeded" "RateLimitError"
          match.route.operation_id 17),
  )
  dispatch_limited config memory match request (limiter, true) =
      dispatch_matched config (record { memory = memory; rate_limiter = limiter }) match request
        (dispatch_workspace_operation config.region memory match request)

  -- After the gate has answered, at the time `now`.
  unfoldable pub dispatch_gated :
      Config → Router → ℕ → RouteMatch → HttpRequest Value → HttpResponse Value → Answer
  unfolding dispatch_limited allow
  dispatch_gated config r now match request identity_response =
      if not (eqb identity_response.status_code 200)
      then (r, ok identity_response)
      else dispatch_limited config r.memory match request (
          allow r.rate_limiter (config.subject request) match.route.operation_id (ℤ.pos 600)
            (ℤ.pos 60) now)

  unfoldable pub dispatch_found :
      Config → Router → ℕ → HttpRequest Value → Option RouteMatch → Answer
  unfolding dispatch_gated require_identity
  dispatch_found config r now request none = (
    r,
    ok (record {
      status_code = 404;
      body = failure_envelope J "route not found" request.path "NotFound" "unknown" 17;
    }),
  )
  dispatch_found config r now request (some match) =
      dispatch_gated config r now match request
        (require_identity J config.mtls_required match request)

  unfoldable pub dispatch : Config → Router → ℕ → HttpRequest Value → Answer
  unfolding dispatch_found match_route
  dispatch config r now request =
      dispatch_found config r now request (match_route all_routes request.method request.path)
