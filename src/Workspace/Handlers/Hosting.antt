-- ===== src/Workspace/Handlers/Hosting.antt =====
-- The handlers of workers, containers and claims (WorkspaceControlPlane.cpp) keep the store consistent.
use styio_platform.Base.{
  String, ◌≡◌, sym, subst, not, Option, none, some, arith, ◌==◌, Result, ok, err,
}
use styio_platform.Json.{Json, ℤ, lt_one, field, value_string, value_int}
use styio_platform.Store.Records.{PlatformJobRecord, CompileContainerRecord}
use styio_platform.Store.State.{MemoryStateStore}
use styio_platform.Store.Jobs.{claim_job}
use styio_platform.Store.Payloads.{create_from_registration}
use styio_platform.Store.Containers.{
  register_worker, register_compile_container, get_compile_container,
  switch_compile_container_workspace, claim_job_for_compile_container,
}
use styio_platform.Store.Calls.{after}
use styio_platform.Store.JobLog.{IsConsistent}
use styio_platform.Store.JobLog.Histories.{
  switches-IsConsistent, registers_worker-IsConsistent, registers_container-IsConsistent,
}
use styio_platform.Store.JobLog.Claims.{claim_job-IsConsistent, claim_job_for-IsConsistent}
use styio_platform.Workspace.Queue.{text_at, present_without_text}
use styio_platform.Workspace.Handlers.Containers.{
  register_checked_worker, register_worker_unless, registration_failure, registered,
  register_container_unless, container_or_not_found,
}
use styio_platform.Workspace.Handlers.Claims.{
  claim_failure, claimed, claim_by, claim_unless, is_bound_otherwise, switch_answer, switch_current,
  switch_unless,
}
use styio_platform.Workspace.Handlers.Consistent.{if-IsConsistent, reading-IsConsistent}

module _ (J : Json) where
  open J use {Value}

  register_checked_worker-IsConsistent :
      (s : MemoryStateStore Value) (body : Value) (capacity : ℤ)
      → IsConsistent s
      → IsConsistent (register_checked_worker J s body capacity).0
  unfolding register_checked_worker
  register_checked_worker-IsConsistent s body capacity c =
      if-IsConsistent J (lt_one capacity) _ _ c λ e.
        reading-IsConsistent J s (field J body "worker_id") _ c λ w e1.
          reading-IsConsistent J s (field J body "region") _ c λ r e2.
            reading-IsConsistent J s (field J body "worker_pool_key") _ c λ p e3.
              reading-IsConsistent J s (register_worker J s _) _ c λ (t, worker) e4.
                subst (λ x. IsConsistent (after s x)) e4 (registers_worker-IsConsistent J s _ c)

  pub register_worker_unless-IsConsistent :
      (s : MemoryStateStore Value) (body : Value) (error : Option String)
      → IsConsistent s
      → IsConsistent (register_worker_unless J s body error).0
  unfolding register_worker_unless
  register_worker_unless-IsConsistent s body (some e) c = c
  register_worker_unless-IsConsistent s body none c =
      reading-IsConsistent J s (value_int J body "capacity" (ℤ.pos 0)) _ c
        λ capacity e. register_checked_worker-IsConsistent s body capacity c

  store-registration_failure :
      (s : MemoryStateStore Value) (detail : String) → (registration_failure J s detail).0 ≡ s
  unfolding registration_failure
  store-registration_failure s detail = ground arith

  registered-IsConsistent :
      (s : MemoryStateStore Value) (r : Result (MemoryStateStore Value × CompileContainerRecord))
      → IsConsistent s
      → IsConsistent (after s r)
      → IsConsistent (registered J s r).0
  unfolding registered
  registered-IsConsistent s (err detail) c d =
      subst IsConsistent (sym (store-registration_failure s detail)) c
  registered-IsConsistent s (ok (t, container)) c d = d

  pub register_container_unless-IsConsistent :
      (s : MemoryStateStore Value) (body : Value) (error : Option String)
      → IsConsistent s
      → IsConsistent (register_container_unless J s body error).0
  unfolding register_container_unless
  register_container_unless-IsConsistent s body (some e) c = c
  register_container_unless-IsConsistent s body none c =
      reading-IsConsistent J s (create_from_registration J body) _ c λ container e.
        registered-IsConsistent s (register_compile_container J s container) c
          (registers_container-IsConsistent J s container c)

  pub container_or_not_found-IsConsistent :
      (s : MemoryStateStore Value) (o : Option CompileContainerRecord)
      → IsConsistent s
      → IsConsistent (container_or_not_found J s o).0
  unfolding container_or_not_found
  container_or_not_found-IsConsistent s none c = c
  container_or_not_found-IsConsistent s (some container) c = c

  store-claim_failure :
      (s : MemoryStateStore Value) (detail : String) → (claim_failure J s detail).0 ≡ s
  unfolding claim_failure
  store-claim_failure s detail = ground arith

  claimed-IsConsistent :
      (s : MemoryStateStore Value) (container_id : Option String)
      (r : Result (MemoryStateStore Value × Option (PlatformJobRecord Value)))
      → IsConsistent s
      → IsConsistent (after s r)
      → IsConsistent (claimed J s container_id r).0
  unfolding claimed
  claimed-IsConsistent s container_id (err detail) c d =
      subst IsConsistent (sym (store-claim_failure s detail)) c
  claimed-IsConsistent s container_id (ok (t, none)) c d = d
  claimed-IsConsistent s container_id (ok (t, some job)) c d = d

  claim_by-IsConsistent :
      (s : MemoryStateStore Value) (w region pool : String) (container_id : Option String)
      → IsConsistent s
      → IsConsistent (claim_by J s w region pool container_id).0
  unfolding claim_by
  claim_by-IsConsistent s w region pool none c =
      claimed-IsConsistent s none (claim_job s w region pool) c
        (claim_job-IsConsistent s w region pool c)
  claim_by-IsConsistent s w region pool (some id) c =
      claimed-IsConsistent s (some id) (claim_job_for_compile_container s w region pool id) c
        (claim_job_for-IsConsistent s w region pool id c)

  pub claim_unless-IsConsistent :
      (s : MemoryStateStore Value) (body : Value) (error : Option String)
      → IsConsistent s
      → IsConsistent (claim_unless J s body error).0
  unfolding claim_unless
  claim_unless-IsConsistent s body (some e) c = c
  claim_unless-IsConsistent s body none c =
      reading-IsConsistent J s (field J body "worker_id") _ c λ w e1.
        reading-IsConsistent J s (field J body "region") _ c λ r e2.
          reading-IsConsistent J s (field J body "worker_pool_key") _ c λ p e3.
            if-IsConsistent J (present_without_text J body "compile_container_id") _ _ c
              λ e. claim_by-IsConsistent s w r p (text_at J body "compile_container_id") c

  switch_answer-IsConsistent :
      (s : MemoryStateStore Value)
      (r : Result (MemoryStateStore Value × Option CompileContainerRecord))
      → IsConsistent s
      → IsConsistent (after s r)
      → IsConsistent (switch_answer J s r).0
  unfolding switch_answer
  switch_answer-IsConsistent s (err detail) c d = c
  switch_answer-IsConsistent s (ok (t, none)) c d = d
  switch_answer-IsConsistent s (ok (t, some container)) c d = d

  switch_current-IsConsistent :
      (s : MemoryStateStore Value) (body : Value) (id w ws reason : String)
      (o : Option CompileContainerRecord)
      → IsConsistent s
      → IsConsistent (switch_current J s body id w ws reason o).0
  unfolding switch_current
  switch_current-IsConsistent s body id w ws reason none c = c
  switch_current-IsConsistent s body id w ws reason (some current) c =
      if-IsConsistent J (not (current.worker_id == w)) _ _ c λ e.
        if-IsConsistent J (is_bound_otherwise J body "tenant_id" current.tenant_id) _ _ c λ f.
          if-IsConsistent J (is_bound_otherwise J body "user_id" current.user_id) _ _ c λ g.
            switch_answer-IsConsistent s (switch_compile_container_workspace s id w ws reason) c
              (switches-IsConsistent s id w ws reason c)

  pub switch_unless-IsConsistent :
      (s : MemoryStateStore Value) (id : String) (body : Value) (error : Option String)
      → IsConsistent s
      → IsConsistent (switch_unless J s id body error).0
  unfolding switch_unless
  switch_unless-IsConsistent s id body (some e) c = c
  switch_unless-IsConsistent s id body none c =
      reading-IsConsistent J s (field J body "worker_id") _ c λ w e1.
        reading-IsConsistent J s (field J body "workspace_id") _ c λ ws e2.
          reading-IsConsistent J s (value_string J body "reason" "manual switch") _ c λ reason e3.
            switch_current-IsConsistent s body id w ws reason (get_compile_container s id) c
