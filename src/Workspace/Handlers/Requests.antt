-- ===== src/Workspace/Handlers/Requests.antt =====
-- Each handler of WorkspaceControlPlane.cpp keeps the store consistent, whatever the body holds.
use styio_platform.Base.{String, not, is_some, [], ◌∷◌}
use styio_platform.Json.{Json}
use styio_platform.Store.State.{MemoryStateStore}
use styio_platform.Store.Jobs.{get_job}
use styio_platform.Store.Containers.{get_compile_container}
use styio_platform.Store.JobLog.{IsConsistent}
use styio_platform.Workspace.Queue.{text_at, validate_submit_job_request}
use styio_platform.Workspace.Handlers.{
  handle_submit_job, handle_get_job, handle_get_job_events, handle_cancel_job, handle_heartbeat_job,
  handle_complete_job,
}
use styio_platform.Workspace.Handlers.Containers.{
  missing_string, validate_compile_container_registration, handle_register_worker,
  handle_register_compile_container, handle_get_compile_container,
}
use styio_platform.Workspace.Handlers.Claims.{
  validate_compile_container_switch, handle_switch_compile_container_workspace, handle_claim_job,
}
use styio_platform.Workspace.Handlers.Consistent.{
  reading-IsConsistent, if-IsConsistent, submit_checked-IsConsistent, job_or_not_found_lem,
  cancel_with-IsConsistent, heartbeat_existing-IsConsistent, complete_existing-IsConsistent,
}
use styio_platform.Workspace.Handlers.Hosting.{
  register_worker_unless-IsConsistent, register_container_unless-IsConsistent,
  container_or_not_found-IsConsistent, claim_unless-IsConsistent, switch_unless-IsConsistent,
}

module _ (J : Json) where
  open J use {Value}

  module _ (s : MemoryStateStore Value) (c : IsConsistent s) where
    pub submit-IsConsistent :
        (region : String) (body : Value) → IsConsistent (handle_submit_job J s region body).0
    unfolding handle_submit_job
    submit-IsConsistent region body =
        submit_checked-IsConsistent J s region body (validate_submit_job_request J body) c

    pub get-IsConsistent : (job_id : String) → IsConsistent (handle_get_job J s job_id).0
    unfolding handle_get_job
    get-IsConsistent job_id = job_or_not_found_lem J (s, get_job s job_id) _ _ _ c

    pub events-IsConsistent : (job_id : String) → IsConsistent (handle_get_job_events J s job_id).0
    unfolding handle_get_job_events
    events-IsConsistent job_id = if-IsConsistent J (not (is_some (get_job s job_id))) _ _ c (λ e. c)

    pub cancel-IsConsistent :
        (job_id : String) (body : Value) → IsConsistent (handle_cancel_job J s job_id body).0
    unfolding handle_cancel_job
    cancel-IsConsistent job_id body =
        cancel_with-IsConsistent J s job_id (text_at J body "reason") c

    pub heartbeat-IsConsistent :
        (job_id : String) (body : Value) → IsConsistent (handle_heartbeat_job J s job_id body).0
    unfolding handle_heartbeat_job
    heartbeat-IsConsistent job_id body =
        heartbeat_existing-IsConsistent J s job_id body (get_job s job_id) c

    pub complete-IsConsistent :
        (job_id : String) (body : Value) → IsConsistent (handle_complete_job J s job_id body).0
    unfolding handle_complete_job
    complete-IsConsistent job_id body =
        complete_existing-IsConsistent J s job_id body (get_job s job_id) c

    pub worker-IsConsistent : (body : Value) → IsConsistent (handle_register_worker J s body).0
    unfolding handle_register_worker
    worker-IsConsistent body =
        register_worker_unless-IsConsistent J s body
          (missing_string J body ("worker_id" ∷ "region" ∷ "worker_pool_key" ∷ [])) c

    pub container-IsConsistent :
        (body : Value) → IsConsistent (handle_register_compile_container J s body).0
    unfolding handle_register_compile_container
    container-IsConsistent body =
        reading-IsConsistent J s (validate_compile_container_registration J body) _ c
          λ error e. register_container_unless-IsConsistent J s body error c

    pub get_container-IsConsistent :
        (id : String) → IsConsistent (handle_get_compile_container J s id).0
    unfolding handle_get_compile_container
    get_container-IsConsistent id =
        container_or_not_found-IsConsistent J s (get_compile_container s id) c

    pub switch-IsConsistent :
        (id : String) (body : Value)
        → IsConsistent (handle_switch_compile_container_workspace J s id body).0
    unfolding handle_switch_compile_container_workspace
    switch-IsConsistent id body =
        switch_unless-IsConsistent J s id body (validate_compile_container_switch J body) c

    pub claim-IsConsistent : (body : Value) → IsConsistent (handle_claim_job J s body).0
    unfolding handle_claim_job
    claim-IsConsistent body =
        claim_unless-IsConsistent J s body
          (missing_string J body ("worker_id" ∷ "region" ∷ "worker_pool_key" ∷ [])) c
