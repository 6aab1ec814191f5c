-- ===== src/Workspace/Handlers/Containers.antt =====
-- WorkspaceControlPlane.cpp: the handlers of workers and of compile containers.
use styio_platform.Base.{
  String, Bool, true, not, ◌||◌, ◌&&◌, Option, none, some, List, [], ◌∷◌, ◌==◌, concat,
  if◌then◌else◌, Result, ok, err, ◌>>=◌,
}
use styio_platform.Base.Checks.{◌or_else◌, reject_if}
use styio_platform.Json.{Json, ℤ, lt_one, has_string, field, value_int}
use styio_platform.Store.Records.{CompileContainerRecord}
use styio_platform.Store.State.{MemoryStateStore}
use styio_platform.Store.Payloads.{serialize_compile_container_record, create_from_registration}
use styio_platform.Store.Containers.{
  register_worker, register_compile_container, get_compile_container,
}
use styio_platform.Workspace.Sources.{contains_text}
use styio_platform.Workspace.Queue.{text_at, require_text}
use styio_platform.Workspace.Handlers.{Handled, success, failure, reading}

module _ (J : Json) where
  open J use {Value, string, number, boolean, object, set, is_object, is_string, find}

  -- The first of the fields that is missing or no text.
  unfoldable pub missing_string : Value → List String → Option String
  missing_string body [] = none
  missing_string body (k ∷ ks) =
      let rest = missing_string body ks in
      if has_string J body k then rest else some (concat k " is required")

  unfoldable pub register_checked_worker : MemoryStateStore Value → Value → ℤ → Handled J
  unfolding register_worker reading
  register_checked_worker s body capacity =
      if lt_one capacity
      then failure J s 400 "worker registration rejected" "capacity must be positive"
          "ValidationError" "registerWorker" 2
      else reading J s (field J body "worker_id") λ worker_id.
        reading J s (field J body "region") λ region.
          reading J s (field J body "worker_pool_key") λ pool.
            reading J s
              (register_worker J s (
                object (
                  ("worker_id", string worker_id)
                  ∷ ("region", string region)
                  ∷ ("worker_pool_key", string pool)
                  ∷ ("capacity", number capacity)
                  ∷ ("status", string "registered")
                  ∷ [])))
              λ (t, worker). success J t "registered platform worker" worker

  unfoldable pub register_worker_unless : MemoryStateStore Value → Value → Option String → Handled J
  unfolding register_checked_worker
  register_worker_unless s body (some error) =
      failure J s 400 "worker registration rejected" error "ValidationError" "registerWorker" 2
  register_worker_unless s body none =
      reading J s (value_int J body "capacity" (ℤ.pos 0)) (register_checked_worker s body)

  unfoldable pub handle_register_worker : MemoryStateStore Value → Value → Handled J
  unfolding missing_string register_worker_unless
  handle_register_worker s body =
      register_worker_unless s body
        (missing_string body ("worker_id" ∷ "region" ∷ "worker_pool_key" ∷ []))

  -- `body.contains("status") && body["status"] != "active" && body["status"] != "draining"`
  abbrev pub bad_status : Value → Bool
  bad_status body = elim (find body "status") [
    | none ↦ not true
    | some w ↦ elim (text_at J body "status") [
      | none ↦ true
      | some status ↦ not (status == "active") && not (status == "draining")
    ]
  ]

  -- The fields that a registration has to have.
  unfoldable pub registration_field_error : Value → Option String
  unfolding ◌or_else◌ reject_if
  registration_field_error body =
      reject_if (not (is_object body)) "request body must be an object"
      or_else require_text J body "container_id"
      or_else require_text J body "worker_id"
      or_else require_text J body "tenant_id"
      or_else require_text J body "user_id"
      or_else require_text J body "workspace_id"
      or_else require_text J body "region"
      or_else require_text J body "worker_pool_key"

  -- From the capacity on, which is read where no field is missing.
  unfoldable pub registration_error : Value → Option String → Result (Option String)
  unfolding ◌or_else◌ reject_if
  registration_error body (some error) = ok (some error)
  registration_error body none = value_int J body "capacity" (ℤ.pos 0) >>= λ capacity. ok (
      reject_if (lt_one capacity) "capacity must be positive"
      or_else reject_if (bad_status body) "status must be active or draining when present")

  unfoldable pub validate_compile_container_registration : Value → Result (Option String)
  unfolding registration_field_error registration_error
  validate_compile_container_registration body =
      registration_error body (registration_field_error body)

  -- The catch clause of HandleRegisterCompileContainer.
  unfoldable pub registration_failure : MemoryStateStore Value → String → Handled J
  unfolding contains_text
  registration_failure s detail =
      if contains_text detail "worker is not registered"
        || contains_text detail "worker region or pool"
      then failure J s 403 "compile container registration rejected" detail "WorkerError"
          "registerCompileContainer" 17
      else if contains_text detail "user binding mismatch"
      then failure J s 409 "compile container registration rejected"
          "compile container user binding mismatch" "BindingError" "registerCompileContainer" 2
      else if contains_text detail "worker owner mismatch"
      then failure J s 409 "compile container registration rejected"
          "compile container worker owner mismatch" "BindingError" "registerCompileContainer" 2
      else failure J s 503 "compile container registration failed" detail "MemoryStateError"
          "registerCompileContainer" 17

  unfoldable pub registered :
      MemoryStateStore Value → Result (MemoryStateStore Value × CompileContainerRecord) → Handled J
  unfolding registration_failure
  registered s (ok (t, container)) =
      success J t "registered compile container" (serialize_compile_container_record J container)
  registered s (err detail) = registration_failure s detail

  unfoldable pub register_container_unless :
      MemoryStateStore Value → Value → Option String → Handled J
  unfolding registered reading register_compile_container create_from_registration
  register_container_unless s body (some error) =
      failure J s 400 "compile container registration rejected" error "ValidationError"
        "registerCompileContainer" 2
  register_container_unless s body none =
      reading J s (create_from_registration J body)
        λ container. registered s (register_compile_container J s container)

  unfoldable pub handle_register_compile_container : MemoryStateStore Value → Value → Handled J
  unfolding register_container_unless validate_compile_container_registration reading
  handle_register_compile_container s body =
      reading J s (validate_compile_container_registration body) (register_container_unless s body)

  unfoldable pub container_or_not_found :
      MemoryStateStore Value → Option CompileContainerRecord → Handled J
  container_or_not_found s none =
      failure J s 404 "compile container lookup failed" "compile container not found" "NotFound"
        "getCompileContainer" 17
  container_or_not_found s (some container) =
      success J s "loaded compile container" (serialize_compile_container_record J container)

  unfoldable pub handle_get_compile_container : MemoryStateStore Value → String → Handled J
  unfolding container_or_not_found get_compile_container
  handle_get_compile_container s container_id =
      container_or_not_found s (get_compile_container s container_id)
