-- ===== src/Store/Calls.antt =====
-- The calls that the workspace handlers make on the store, and histories of them. A call that
-- throws has changed nothing before it throws.
use styio_platform.Base.{String, List, [], ◌∷◌, Result, ok, err}
use styio_platform.Json.{Json}
use styio_platform.Store.Records.{ArtifactRecord, PlatformJobRecord, CompileContainerRecord}
use styio_platform.Store.State.{MemoryStateStore}
use styio_platform.Store.Jobs.{submit_job, cancel_job, claim_job, heartbeat_job, complete_job}
use styio_platform.Store.Containers.{
  register_worker, register_compile_container, switch_compile_container_workspace,
  claim_job_for_compile_container,
}

pub data Call (V : Type 0) : Type 0 where
  submits : PlatformJobRecord V → Call V
  cancels : String → String → Call V
  registers_worker : V → Call V
  registers_container : CompileContainerRecord → Call V
  switches : String → String → String → String → Call V
  claims : String → String → String → Call V
  claims_for : String → String → String → String → Call V
  heartbeats : String → String → String → Call V
  completes : String → String → String → String → List ArtifactRecord → Call V

abbrev pub after {ℓ} :
    {A : Type ℓ} {V : Type 0}
    → MemoryStateStore V
    → Result (MemoryStateStore V × A)
    → MemoryStateStore V
after s (ok (t, a)) = t
after s (err e) = s

module _ (J : Json) where
  open J use {Value}

  unfoldable pub step : MemoryStateStore Value → Call Value → MemoryStateStore Value
  step s (submits job) = submit_job s job
  step s (cancels job_id reason) = (cancel_job s job_id reason).0
  step s (registers_worker worker) = after s (register_worker J s worker)
  step s (registers_container container) = after s (register_compile_container J s container)
  step s (switches container_id worker_id workspace_id reason) =
      after s (switch_compile_container_workspace s container_id worker_id workspace_id reason)
  step s (claims worker_id region pool) = after s (claim_job s worker_id region pool)
  step s (claims_for worker_id region pool container_id) =
      after s (claim_job_for_compile_container s worker_id region pool container_id)
  step s (heartbeats job_id worker_id message) = (heartbeat_job s job_id worker_id message).0
  step s (completes job_id worker_id status message artifacts) =
      (complete_job s job_id worker_id status message artifacts).0

  unfoldable pub run : MemoryStateStore Value → List (Call Value) → MemoryStateStore Value
  unfolding step
  run s [] = s
  run s (c ∷ cs) = run (step s c) cs
