-- ===== src/Workspace/Handlers.antt =====
-- WorkspaceControlPlane.cpp on the in-memory store (the branches where `postgres_` is null), with the
-- checks of WorkspaceControlPlaneSupport.hpp. A handler leaves the store and its response; `err` is an
-- exception that leaves the handler, with the store as it was when it was thrown.
pub mod Containers
pub mod Claims
pub mod Consistent
pub mod Hosting
pub mod Requests
use styio_platform.Base.{
  ℕ, String, Bool, true, false, not, ◌||◌, ◌&&◌, Option, none, some, List, [], ◌∷◌, map, ◌==◌,
  concat, if◌then◌else◌, is_some, Result, ok, err, ◌>>=◌,
}
use styio_platform.Json.{Json, ℤ, lt_one, has_string, contains, field, value_string, value_int}
use styio_platform.Store.Records.{
  ArtifactRecord, PlatformJobRecord, JobEventRecord, CompileContainerRecord,
}
use styio_platform.Store.State.{MemoryStateStore}
use styio_platform.Store.Payloads.{serialize_job_record, serialize_job_event}
use styio_platform.Store.Jobs.{
  next_job_id, submit_job, get_job, get_job_events, cancel_job, heartbeat_job, complete_job,
}
use styio_platform.Routing.{HttpResponse, success_envelope, failure_envelope}
use styio_platform.Workspace.Queue.{text_at, validate_submit_job_request, build_queued_job_record}

module _ (J : Json) where
  open J use {Value, string, number, boolean, array, object, is_object, is_array, find, entries}

  abbrev pub Handled : Type 0
  Handled = MemoryStateStore Value × Result (HttpResponse Value)

  -- `JsonResponse(200, SuccessEnvelope(message, payload))`
  abbrev pub success : MemoryStateStore Value → String → Value → Handled
  success s message payload =
      (s, ok (record { status_code = 200; body = success_envelope J message payload }))

  -- `JsonResponse(status, FailureEnvelope(message, detail, category, operation_id, returncode))`
  abbrev pub failure : MemoryStateStore Value → ℕ → String → String → String → String → ℕ → Handled
  failure s status message detail category op returncode = (
    s,
    ok (record {
      status_code = status;
      body = failure_envelope J message detail category op returncode;
    }),
  )

  -- What follows a read that may throw.
  unfoldable pub reading {ℓ} :
      {A : Type ℓ} → MemoryStateStore Value → Result A → (A → Handled) → Handled
  reading s (err e) next = (s, err e)
  reading s (ok a) next = next a

  -- HandleSubmitJob, once the request is accepted; `region` is `config_.region`
  unfoldable pub submit_accepted : String → Value → String × MemoryStateStore Value → Handled
  unfolding build_queued_job_record reading
  submit_accepted region body (job_id, s) =
      reading s (build_queued_job_record J body region job_id)
        λ job. success (submit_job s job) "queued platform job" (serialize_job_record J job)

  unfoldable pub submit_checked : MemoryStateStore Value → String → Value → Option String → Handled
  unfolding submit_accepted next_job_id
  submit_checked s region body (some error) =
      failure s 400 "job submission rejected" error "ValidationError" "submitJob" 2
  submit_checked s region body none = submit_accepted region body (next_job_id s)

  unfoldable pub handle_submit_job : MemoryStateStore Value → String → Value → Handled
  unfolding submit_checked validate_submit_job_request
  handle_submit_job s region body =
      submit_checked s region body (validate_submit_job_request J body)

  unfoldable pub job_or_not_found :
      MemoryStateStore Value × Option (PlatformJobRecord Value) → String → String → String → Handled
  job_or_not_found (s, none) message failed op =
      failure s 404 failed "job not found" "NotFound" op 17
  job_or_not_found (s, some job) message failed op = success s message (serialize_job_record J job)

  unfoldable pub handle_get_job : MemoryStateStore Value → String → Handled
  unfolding job_or_not_found get_job
  handle_get_job s job_id =
      job_or_not_found (s, get_job s job_id) "loaded platform job" "job lookup failed" "getJob"

  unfoldable pub handle_get_job_events : MemoryStateStore Value → String → Handled
  unfolding get_job get_job_events
  handle_get_job_events s job_id =
      if not (is_some (get_job s job_id))
      then failure s 404 "job event lookup failed" "job not found" "NotFound" "getJobEvents" 17
      else success s "loaded platform job events" (
          object (
            ("job_id", string job_id)
            ∷ ("events", array (map (serialize_job_event J) (get_job_events s job_id)))
            ∷ []))

  unfoldable pub cancel_with : MemoryStateStore Value → String → Option String → Handled
  unfolding job_or_not_found cancel_job
  cancel_with s job_id none =
      failure s 400 "job cancellation failed" "reason is required" "ValidationError" "cancelJob" 2
  cancel_with s job_id (some reason) =
      job_or_not_found (cancel_job s job_id reason) "cancelled platform job"
        "job cancellation failed" "cancelJob"

  unfoldable pub handle_cancel_job : MemoryStateStore Value → String → Value → Handled
  unfolding cancel_with
  handle_cancel_job s job_id body = cancel_with s job_id (text_at J body "reason")

  -- `request.body["worker_id"] != existing->worker_id`, on a value that may be missing
  abbrev pub owns : Value → PlatformJobRecord Value → Bool
  owns body job = elim (text_at J body "worker_id") [
    | none ↦ not true
    | some worker_id ↦ worker_id == job.worker_id
  ]

  -- `SerializeJobRecord(*job)`, where `job` cannot be empty: the worker has been found to own it.
  unfoldable pub answered :
      MemoryStateStore Value × Option (PlatformJobRecord Value) → String → Handled
  answered (s, some job) message = success s message (serialize_job_record J job)
  answered (s, none) message = (s, err "bad optional access")

  unfoldable pub heartbeat_existing :
      MemoryStateStore Value → String → Value → Option (PlatformJobRecord Value) → Handled
  unfolding answered heartbeat_job reading
  heartbeat_existing s job_id body none =
      failure s 404 "job heartbeat failed" "job not found" "NotFound" "heartbeatJob" 17
  heartbeat_existing s job_id body (some existing) =
      if not (owns body existing)
      then failure s 403 "job heartbeat failed" "worker does not own job" "WorkerError"
          "heartbeatJob" 17
      else reading s (field J body "worker_id") λ worker_id.
        reading s (value_string J body "message" "worker heartbeat") λ message.
          answered (heartbeat_job s job_id worker_id message) "recorded platform job heartbeat"

  unfoldable pub handle_heartbeat_job : MemoryStateStore Value → String → Value → Handled
  unfolding heartbeat_existing get_job
  handle_heartbeat_job s job_id body = heartbeat_existing s job_id body (get_job s job_id)

  unfoldable pub artifacts_from : List Value → Result (List ArtifactRecord)
  artifacts_from [] = ok []
  artifacts_from (artifact ∷ artifacts) = do
    artifact_id ← value_string J artifact "artifact_id" "artifact"
    object_key ← value_string J artifact "object_key" ""
    kind ← value_string J artifact "kind" "artifact"
    rest ← artifacts_from artifacts
    ok (record { artifact_id = artifact_id; object_key = object_key; kind = kind } ∷ rest)

  -- `if (request.body.contains("artifacts") && request.body["artifacts"].is_array())`, and its loop
  unfoldable pub artifacts_of : Option Value → Result (List ArtifactRecord)
  unfolding artifacts_from
  artifacts_of none = ok []
  artifacts_of (some artifacts) =
      if is_array artifacts then artifacts_from (entries artifacts) else ok []

  abbrev pub is_final_status : String → Bool
  is_final_status status = status == "succeeded" || status == "failed" || status == "cancelled"

  -- From the status of the request on.
  unfoldable pub complete_owned : MemoryStateStore Value → String → Value → String → Handled
  unfolding answered complete_job artifacts_of reading
  complete_owned s job_id body status =
      if not (is_final_status status)
      then failure s 400 "job completion failed" "status must be succeeded, failed, or cancelled"
          "ValidationError" "completeJob" 2
      else reading s (artifacts_of (find body "artifacts")) λ artifacts.
        reading s (field J body "worker_id") λ worker_id.
          reading s (value_string J body "message" "job completed") λ message.
            answered (complete_job s job_id worker_id status message artifacts)
              "completed platform job"

  unfoldable pub complete_existing :
      MemoryStateStore Value → String → Value → Option (PlatformJobRecord Value) → Handled
  unfolding complete_owned
  complete_existing s job_id body none =
      failure s 404 "job completion failed" "job not found" "NotFound" "completeJob" 17
  complete_existing s job_id body (some existing) =
      if not (owns body existing)
      then failure s 403 "job completion failed" "worker does not own job" "WorkerError"
          "completeJob" 17
      else reading s (value_string J body "status" "") (complete_owned s job_id body)

  unfoldable pub handle_complete_job : MemoryStateStore Value → String → Value → Handled
  unfolding complete_existing get_job
  handle_complete_job s job_id body = complete_existing s job_id body (get_job s job_id)
