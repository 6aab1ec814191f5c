-- ===== src/Workspace/Handlers/Claims.antt =====
-- WorkspaceControlPlane.cpp: the handlers of claims and of switches to another workspace.
use styio_platform.Base.{
  ℕ, String, Bool, true, false, not, Option, none, some, [], ◌∷◌, ◌==◌, if◌then◌else◌, Result, ok,
  err,
}
use styio_platform.Base.Checks.{◌or_else◌, reject_if}
use styio_platform.Json.{Json, field, value_string}
use styio_platform.Store.Records.{PlatformJobRecord, CompileContainerRecord}
use styio_platform.Store.State.{MemoryStateStore}
use styio_platform.Store.Payloads.{serialize_job_record, serialize_compile_container_record}
use styio_platform.Store.Jobs.{claim_job}
use styio_platform.Store.Containers.{
  get_compile_container, switch_compile_container_workspace, claim_job_for_compile_container,
}
use styio_platform.Workspace.Sources.{contains_text}
use styio_platform.Workspace.Queue.{text_at, require_text, present_without_text}
use styio_platform.Workspace.Handlers.{Handled, success, failure, reading}
use styio_platform.Workspace.Handlers.Containers.{missing_string}

module _ (J : Json) where
  open J use {Value, string, number, boolean, object, set, is_object, is_string, find}

  -- The `payload["compile_container"]` of a claim in the name of a container.
  unfoldable pub with_container : Option CompileContainerRecord → Value → Value
  with_container none payload = payload
  with_container (some container) payload =
      set payload "compile_container" (serialize_compile_container_record J container)

  unfoldable pub container_of_claim :
      MemoryStateStore Value → Option String → Option CompileContainerRecord
  unfolding get_compile_container
  container_of_claim s none = none
  container_of_claim s (some container_id) = get_compile_container s container_id

  -- The catch clause of HandleClaimJob.
  unfoldable pub claim_failure : MemoryStateStore Value → String → Handled J
  unfolding contains_text
  claim_failure s detail =
      if contains_text detail "worker is not registered"
      then failure J s 403 "job claim failed" "worker is not registered" "WorkerError" "claimJob" 17
      else if contains_text detail "compile container is not registered"
      then failure J s 403 "job claim failed" "compile container is not registered" "WorkerError"
          "claimJob" 17
      else if contains_text detail "compile container is not available"
      then failure J s 403 "job claim failed" "compile container is not available for this worker"
          "WorkerError" "claimJob" 17
      else failure J s 503 "job claim failed" detail "MemoryStateError" "claimJob" 17

  unfoldable pub claimed :
      MemoryStateStore Value
      → Option String
      → Result (MemoryStateStore Value × Option (PlatformJobRecord Value))
      → Handled J
  unfolding claim_failure with_container container_of_claim
  claimed s container_id (err detail) = claim_failure s detail
  claimed s container_id (ok (t, none)) =
      success J t "no platform job available" (object (("claimed", boolean false) ∷ []))
  claimed s container_id (ok (t, some job)) = success J t "claimed platform job" (
      with_container (container_of_claim t container_id)
        (object (("claimed", boolean true) ∷ ("job", serialize_job_record J job) ∷ [])))

  unfoldable pub claim_by :
      MemoryStateStore Value → String → String → String → Option String → Handled J
  unfolding claimed claim_job claim_job_for_compile_container
  claim_by s worker_id region pool none = claimed s none (claim_job s worker_id region pool)
  claim_by s worker_id region pool (some container_id) =
      claimed s (some container_id)
        (claim_job_for_compile_container s worker_id region pool container_id)

  unfoldable pub claim_unless : MemoryStateStore Value → Value → Option String → Handled J
  unfolding claim_by reading
  claim_unless s body (some error) =
      failure J s 400 "job claim failed" error "ValidationError" "claimJob" 2
  claim_unless s body none = reading J s (field J body "worker_id") λ worker_id.
      reading J s (field J body "region") λ region.
        reading J s (field J body "worker_pool_key") λ pool.
          if present_without_text J body "compile_container_id"
          then failure J s 400 "job claim failed"
              "compile_container_id must be a non-empty string when present" "ValidationError"
              "claimJob" 2
          else claim_by s worker_id region pool (text_at J body "compile_container_id")

  unfoldable pub handle_claim_job : MemoryStateStore Value → Value → Handled J
  unfolding missing_string claim_unless
  handle_claim_job s body =
      claim_unless s body (missing_string J body ("worker_id" ∷ "region" ∷ "worker_pool_key" ∷ []))

  -- `ValidateCompileContainerSwitch`
  unfoldable pub validate_compile_container_switch : Value → Option String
  unfolding ◌or_else◌ reject_if
  validate_compile_container_switch body =
      reject_if (not (is_object body)) "request body must be an object"
      or_else require_text J body "worker_id"
      or_else require_text J body "workspace_id"
      or_else reject_if (present_without_text J body "tenant_id")
          "tenant_id must be a non-empty string when present"
      or_else reject_if (present_without_text J body "user_id")
          "user_id must be a non-empty string when present"
      or_else reject_if (present_without_text J body "reason")
          "reason must be a non-empty string when present"

  abbrev pub switch_rejected : MemoryStateStore Value → String → String → ℕ → Handled J
  switch_rejected s detail category returncode =
      failure J s 403 "compile container workspace switch rejected" detail category
        "switchCompileContainerWorkspace" returncode

  -- `request.body.contains(key) && request.body[key].get<std::string>() != bound`
  abbrev pub is_bound_otherwise : Value → String → String → Bool
  is_bound_otherwise body key bound = elim (text_at J body key) [
    | none ↦ not true
    | some s ↦ not (s == bound)
  ]

  unfoldable pub switch_answer :
      MemoryStateStore Value
      → Result (MemoryStateStore Value × Option CompileContainerRecord)
      → Handled J
  switch_answer s (err detail) = switch_rejected s detail "WorkerError" 17
  switch_answer s (ok (t, none)) =
      switch_rejected t "compile container is not active" "StateError" 17
  switch_answer s (ok (t, some container)) =
      success J t "switched compile container workspace"
        (serialize_compile_container_record J container)

  -- The tests on the container, and the switch.
  unfoldable pub switch_current :
      MemoryStateStore Value
      → Value
      → String
      → String
      → String
      → String
      → Option CompileContainerRecord
      → Handled J
  unfolding switch_answer switch_compile_container_workspace
  switch_current s body container_id worker_id workspace_id reason none =
      failure J s 404 "compile container workspace switch failed" "compile container not found"
        "NotFound" "switchCompileContainerWorkspace" 17
  switch_current s body container_id worker_id workspace_id reason (some current) =
      if not (current.worker_id == worker_id)
      then switch_rejected s "worker does not own compile container" "WorkerError" 17
      else if is_bound_otherwise body "tenant_id" current.tenant_id
      then switch_rejected s "tenant binding mismatch" "BindingError" 2
      else if is_bound_otherwise body "user_id" current.user_id
      then switch_rejected s "user binding mismatch" "BindingError" 2
      else switch_answer s
          (switch_compile_container_workspace s container_id worker_id workspace_id reason)

  unfoldable pub switch_unless : MemoryStateStore Value → String → Value → Option String → Handled J
  unfolding switch_current reading get_compile_container
  switch_unless s container_id body (some error) =
      failure J s 400 "compile container workspace switch rejected" error "ValidationError"
        "switchCompileContainerWorkspace" 2
  switch_unless s container_id body none = reading J s (field J body "worker_id") λ worker_id.
      reading J s (field J body "workspace_id") λ workspace_id.
        reading J s (value_string J body "reason" "manual switch") λ reason.
          switch_current s body container_id worker_id workspace_id reason
            (get_compile_container s container_id)

  unfoldable pub handle_switch_compile_container_workspace :
      MemoryStateStore Value → String → Value → Handled J
  unfolding switch_unless validate_compile_container_switch
  handle_switch_compile_container_workspace s container_id body =
      switch_unless s container_id body (validate_compile_container_switch body)
