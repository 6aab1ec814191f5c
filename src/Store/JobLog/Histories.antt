-- ===== src/Store/JobLog/Histories.antt =====
-- The job table and the event log under histories of calls.
use styio_platform.Base.{String, ◌≡◌, List, [], ◌∷◌, arith, All, sym, ap, subst}
use styio_platform.Base.Dict.{get}
use styio_platform.Base.Dict.Sorted.{IsSorted}
use styio_platform.Json.{Json}
use styio_platform.Store.Records.{CompileContainerRecord}
use styio_platform.Store.State.{MemoryStateStore, empty}
use styio_platform.Store.Jobs.{get_job_events}
use styio_platform.Store.Containers.{
  register_worker, register_compile_container, store_container, switch_compile_container_workspace,
}
use styio_platform.Store.Calls.{
  Call, submits, cancels, registers_worker, registers_container, switches, claims, claims_for,
  heartbeats, completes, after, step, run,
}
use styio_platform.Store.JobLog.{
  IsConsistent, submit_job-IsConsistent, cancel_job-IsConsistent, heartbeat_job-IsConsistent,
  complete_job-IsConsistent,
}
use styio_platform.Store.JobLog.Claims.{claim_job-IsConsistent, claim_job_for-IsConsistent}

module _ {V : Type 0} where
  -- What reads only the two tables does not see the others.
  pub same_tables-IsConsistent :
      (s t : MemoryStateStore V)
      → IsConsistent s
      → t.jobs ≡ s.jobs
      → t.events ≡ s.events
      → IsConsistent t
  unfolding get_job_events
  same_tables-IsConsistent s t c js es = record {
    sorted = subst IsSorted (sym js) c.sorted;
    agrees = λ k j h. ground (arith, ap (get k) js, ap (get k) es, c.agrees k j);
  }

  pub switches-IsConsistent :
      (s : MemoryStateStore V) (cid w ws reason : String)
      → IsConsistent s
      → IsConsistent (after s (switch_compile_container_workspace s cid w ws reason))
  unfolding switch_compile_container_workspace
  switches-IsConsistent s cid w ws reason c =
      same_tables-IsConsistent s _ c (ground arith) (ground arith)

module _ (J : Json) where
  open J use {Value}

  pub registers_worker-IsConsistent :
      (s : MemoryStateStore Value) (w : Value)
      → IsConsistent s
      → IsConsistent (after s (register_worker J s w))
  unfolding register_worker
  registers_worker-IsConsistent s w c = same_tables-IsConsistent s _ c (ground arith) (ground arith)

  pub registers_container-IsConsistent :
      (s : MemoryStateStore Value) (b : CompileContainerRecord)
      → IsConsistent s
      → IsConsistent (after s (register_compile_container J s b))
  unfolding register_compile_container store_container
  registers_container-IsConsistent s b c =
      same_tables-IsConsistent s _ c (ground arith) (ground arith)

  -- A submitted job is queued, as `BuildQueuedJobRecord` makes it.
  abbrev pub IsQueuedSubmit : Call Value → Type 0
  IsQueuedSubmit (submits job) = job.status ≡ "queued"
  IsQueuedSubmit _ = Unit

  pub step-IsConsistent :
      (s : MemoryStateStore Value) (c : Call Value)
      → IsQueuedSubmit c
      → IsConsistent s
      → IsConsistent (step J s c)
  unfolding step
  step-IsConsistent s (submits job) q h = submit_job-IsConsistent s job h q
  step-IsConsistent s (cancels k reason) q h = cancel_job-IsConsistent s k reason h
  step-IsConsistent s (registers_worker w) q h = registers_worker-IsConsistent s w h
  step-IsConsistent s (registers_container b) q h = registers_container-IsConsistent s b h
  step-IsConsistent s (switches cid w ws reason) q h = switches-IsConsistent s cid w ws reason h
  step-IsConsistent s (claims w region pool) q h = claim_job-IsConsistent s w region pool h
  step-IsConsistent s (claims_for w region pool cid) q h =
      claim_job_for-IsConsistent s w region pool cid h
  step-IsConsistent s (heartbeats k w message) q h = heartbeat_job-IsConsistent s k w message h
  step-IsConsistent s (completes k w status message artifacts) q h =
      complete_job-IsConsistent s k w status message artifacts h

  -- From a consistent store, after any history of calls whose submitted jobs are queued, the job
  -- table is sorted, each job stands under its own id, and the newest event of each job's log
  -- reports the status that the job has.
  pub run-IsConsistent :
      (s : MemoryStateStore Value) (cs : List (Call Value))
      → All IsQueuedSubmit cs
      → IsConsistent s
      → IsConsistent (run J s cs)
  unfolding run
  run-IsConsistent s [] q h = h
  run-IsConsistent s (c ∷ cs) q h =
      run-IsConsistent (step J s c) cs q.1 (step-IsConsistent s c q.0 h)

pub empty-IsConsistent : {V : Type 0} → IsConsistent (empty {V = V})
unfolding empty get
empty-IsConsistent = record { sorted = tt; agrees = λ k j h. cc }
