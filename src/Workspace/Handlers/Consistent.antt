-- ===== src/Workspace/Handlers/Consistent.antt =====
-- The requests of the workspace (WorkspaceControlPlane.cpp) keep the job table and the event log
-- consistent, whatever their bodies hold.
use styio_platform.Base.{
  String, ◌≡◌, refl, sym, Bool, true, false, not, Option, none, some, if◌then◌else◌, Result, ok,
  err, ap, >>=-ok, ok-injective,
}
use styio_platform.Json.{Json, at, field, value_string}
use styio_platform.Store.Records.{PlatformJobRecord}
use styio_platform.Store.State.{MemoryStateStore}
use styio_platform.Store.Jobs.{next_job_id, cancel_job, heartbeat_job, complete_job}
use styio_platform.Store.JobLog.{
  IsConsistent, submit_job-IsConsistent, cancel_job-IsConsistent, heartbeat_job-IsConsistent,
  complete_job-IsConsistent,
}
use styio_platform.Store.JobLog.Histories.{same_tables-IsConsistent}
use styio_platform.Workspace.Queue.{build_queued_job_record}
use styio_platform.Workspace.Handlers.{
  Handled, reading, submit_accepted, submit_checked, job_or_not_found, cancel_with, answered,
  heartbeat_existing, owns, is_final_status, artifacts_of, complete_owned, complete_existing,
}

module _ (J : Json) where
  open J use {Value}

  -- A read that throws leaves the store as it is.
  pub reading-IsConsistent {ℓ} :
      {A : Type ℓ} (s : MemoryStateStore Value) (r : Result A) (next : A → Handled J)
      → IsConsistent s
      → ((a : A) → r ≡ ok a → IsConsistent (next a).0)
      → IsConsistent (reading J s r next).0
  unfolding reading
  reading-IsConsistent s (err e) next c h = c
  reading-IsConsistent s (ok a) next c h = h a refl

  -- Whatever BuildQueuedJobRecord returns is queued.
  build_queued_job_record-queued :
      (body : Value) (region job_id : String) (job : PlatformJobRecord Value)
      → build_queued_job_record J body region job_id ≡ ok job
      → job.status ≡ "queued"
  unfolding build_queued_job_record
  build_queued_job_record-queued body region job_id job h =
      let (tenant, e1, h1) = >>=-ok (field J body "tenant_id") h in
      let (user, e2, h2) = >>=-ok (field J body "user_id") h1 in
      let (workspace, e3, h3) = >>=-ok (field J body "workspace_id") h2 in
      let (action, e4, h4) = >>=-ok (field J body "action") h3 in
      let (at_region, e5, h5) = >>=-ok (value_string J body "region" region) h4 in
      let (job_request, e6, h6) = >>=-ok (at J body "job_request") h5 in
      sym (ap (λ (j : PlatformJobRecord Value). j.status) (ok-injective h6))

  next_job_id-IsConsistent :
      (s : MemoryStateStore Value) → IsConsistent s → IsConsistent (next_job_id s).1
  unfolding next_job_id
  next_job_id-IsConsistent s c = same_tables-IsConsistent s (next_job_id s).1 c refl refl

  pub submit_checked-IsConsistent :
      (s : MemoryStateStore Value) (region : String) (body : Value) (error : Option String)
      → IsConsistent s
      → IsConsistent (submit_checked J s region body error).0
  unfolding submit_checked submit_accepted
  submit_checked-IsConsistent s region body (some e) c = c
  submit_checked-IsConsistent s region body none c =
      let t = (next_job_id s).1 in
      let id = (next_job_id s).0 in
      reading-IsConsistent t (build_queued_job_record J body region id) _
        (next_job_id-IsConsistent s c)
        λ job e.
          submit_job-IsConsistent t job (next_job_id-IsConsistent s c)
            (build_queued_job_record-queued body region id job e)

  pub job_or_not_found_lem :
      (r : MemoryStateStore Value × Option (PlatformJobRecord Value)) (m f op : String)
      → IsConsistent r.0
      → IsConsistent (job_or_not_found J r m f op).0
  unfolding job_or_not_found
  job_or_not_found_lem (s, none) m f op c = c
  job_or_not_found_lem (s, some job) m f op c = c

  answered-IsConsistent :
      (r : MemoryStateStore Value × Option (PlatformJobRecord Value)) (m : String)
      → IsConsistent r.0
      → IsConsistent (answered J r m).0
  unfolding answered
  answered-IsConsistent (s, none) m c = c
  answered-IsConsistent (s, some job) m c = c

  pub cancel_with-IsConsistent :
      (s : MemoryStateStore Value) (job_id : String) (reason : Option String)
      → IsConsistent s
      → IsConsistent (cancel_with J s job_id reason).0
  unfolding cancel_with
  cancel_with-IsConsistent s job_id none c = c
  cancel_with-IsConsistent s job_id (some reason) c =
      job_or_not_found_lem (cancel_job s job_id reason) _ _ _
        (cancel_job-IsConsistent s job_id reason c)

  pub if-IsConsistent :
      (b : Bool) (x y : Handled J)
      → IsConsistent x.0
      → (b ≡ false → IsConsistent y.0)
      → IsConsistent (if b then x else y).0
  if-IsConsistent true x y c d = c
  if-IsConsistent false x y c d = d refl

  pub heartbeat_existing-IsConsistent :
      (s : MemoryStateStore Value) (job_id : String) (body : Value)
      (existing : Option (PlatformJobRecord Value))
      → IsConsistent s
      → IsConsistent (heartbeat_existing J s job_id body existing).0
  unfolding heartbeat_existing
  heartbeat_existing-IsConsistent s job_id body none c = c
  heartbeat_existing-IsConsistent s job_id body (some job) c =
      if-IsConsistent (not (owns J body job)) _ _ c λ e.
        reading-IsConsistent s (field J body "worker_id") _ c λ w e1.
          reading-IsConsistent s (value_string J body "message" "worker heartbeat") _ c λ m e2.
            answered-IsConsistent (heartbeat_job s job_id w m) _
              (heartbeat_job-IsConsistent s job_id w m c)

  complete_owned-IsConsistent :
      (s : MemoryStateStore Value) (job_id : String) (body : Value) (status : String)
      → IsConsistent s
      → IsConsistent (complete_owned J s job_id body status).0
  unfolding complete_owned
  complete_owned-IsConsistent s job_id body status c =
      if-IsConsistent (not (is_final_status J status)) _ _ c λ e.
        reading-IsConsistent s (artifacts_of J (J.find body "artifacts")) _ c λ artifacts e1.
          reading-IsConsistent s (field J body "worker_id") _ c λ w e2.
            reading-IsConsistent s (value_string J body "message" "job completed") _ c λ m e3.
              answered-IsConsistent (complete_job s job_id w status m artifacts) _
                (complete_job-IsConsistent s job_id w status m artifacts c)

  pub complete_existing-IsConsistent :
      (s : MemoryStateStore Value) (job_id : String) (body : Value)
      (existing : Option (PlatformJobRecord Value))
      → IsConsistent s
      → IsConsistent (complete_existing J s job_id body existing).0
  unfolding complete_existing
  complete_existing-IsConsistent s job_id body none c = c
  complete_existing-IsConsistent s job_id body (some job) c =
      if-IsConsistent (not (owns J body job)) _ _ c λ e.
        reading-IsConsistent s (value_string J body "status" "") _ c
          λ status e1. complete_owned-IsConsistent s job_id body status c
