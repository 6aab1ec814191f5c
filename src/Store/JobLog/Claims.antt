-- ===== src/Store/JobLog/Claims.antt =====
-- The job table and the event log under claims.
use styio_platform.Base.{
  String, ◌≡◌, refl, Option, none, some, [], ◌∷◌, ◌++◌, arith, eq_iff, if◌then◌else◌, ◌==◌, sym,
  Option-cases, Bool-cases, ap, subst, ◌∙◌, inl, inr,
}
use styio_platform.Base.Dict.{get, put, get-put, find_first, contains}
use styio_platform.Base.Dict.Sorted.{IsSorted, put-IsSorted, find_first-get}
use styio_platform.Store.Records.{CompileContainerRecord, PlatformJobRecord}
use styio_platform.Store.State.{MemoryStateStore}
use styio_platform.Store.Jobs.{
  event_list, get_job_events, push_event, require_worker, running_event, put_job, claim_job,
  claim_found, claim_first, is_claimable,
}
use styio_platform.Store.Containers.{
  claim_for_container, claim_first_for, claim_with, switch_for_claim,
  claim_job_for_compile_container, is_claimable_for, is_available,
}
use styio_platform.Store.Calls.{after}
use styio_platform.Store.JobLog.{IsConsistent, write-IsConsistent, logged-IsConsistent}

module _ {V : Type 0} where
  claimed-IsConsistent :
      (s : MemoryStateStore V) (worker_id k : String) (j : PlatformJobRecord V)
      → IsConsistent s
      → get k s.jobs ≡ some j
      → IsConsistent (claim_found s worker_id (k, j)).0
  unfolding claim_found running_event
  claimed-IsConsistent s worker_id k j c found =
      logged-IsConsistent s k k (record j { status = "running"; worker_id = worker_id }) _ c refl
        (c.agrees k j found).0 refl

  pub claim_job-IsConsistent :
      (s : MemoryStateStore V) (worker_id region pool : String)
      → IsConsistent s
      → IsConsistent (after s (claim_job s worker_id region pool))
  unfolding claim_job claim_first require_worker
  claim_job-IsConsistent s worker_id region pool c =
      elim (Bool-cases (contains worker_id s.workers)) [
        | inr unknown ↦ rw unknown c
        | inl known ↦ elim (Option-cases (find_first (is_claimable region pool) s.jobs)) [
          | inl e ↦ rw known (rw e c)
          | inr ((k, j), e) ↦ rw known (
              rw e
                (claimed-IsConsistent s worker_id k j c (find_first-get _ s.jobs k j c.sorted e)))
        ]
      ]

  jobs-switch_for_claim :
      (s : MemoryStateStore V) (cid k w : String) (container : CompileContainerRecord)
      → (switch_for_claim s cid container k w).jobs ≡ s.jobs
  unfolding switch_for_claim push_event
  jobs-switch_for_claim s cid k w container = ground arith

  -- A switch touches the log of its own job only.
  events-switch_for_claim :
      (s : MemoryStateStore V) (cid k w i : String) (container : CompileContainerRecord)
      → get i (switch_for_claim s cid container k w).events
        ≡ (if k == i then get i (switch_for_claim s cid container k w).events else get i s.events)
  unfolding switch_for_claim push_event get_job_events
  events-switch_for_claim s cid k w i container =
      elim (Bool-cases (container.current_workspace_id == w)) [
        | inl same ↦ rw same (ground arith)
        | inr moved ↦ rw moved (simp get-put (ground arith))
      ]

  claimed_for-IsConsistent :
      (s : MemoryStateStore V) (worker_id cid : String) (container : CompileContainerRecord)
      (k : String) (j : PlatformJobRecord V)
      → IsConsistent s
      → get k s.jobs ≡ some j
      → IsConsistent (claim_for_container s worker_id cid container (k, j)).0
  unfolding claim_for_container push_event get_job_events
  claimed_for-IsConsistent s worker_id cid container k j c found =
      let claimed : PlatformJobRecord V = record j { status = "running"; worker_id = worker_id } in
      let u = switch_for_claim (put_job k claimed s) cid container k j.workspace_id in
      let es = event_list (get k u.events) in
      let e = running_event k "job claimed by compile container" in
      let jobs : u.jobs ≡ put k claimed s.jobs =
        jobs-switch_for_claim (put_job k claimed s) cid k j.workspace_id container in
      write-IsConsistent s _ k claimed es e c (c.agrees k j found).0 refl
        (subst IsSorted (sym jobs) (put-IsSorted k claimed s.jobs c.sorted))
        (λ i. ap (get i) jobs ∙ get-put k i claimed s.jobs)
        (λ i. ground (
          arith,
          eq_iff k i,
          get-put k i (es ++ e ∷ []) u.events,
          events-switch_for_claim (put_job k claimed s) cid k j.workspace_id i container,
        ))

  claim_with-IsConsistent :
      (s : MemoryStateStore V) (worker_id region pool cid : String)
      (o : Option CompileContainerRecord)
      → IsConsistent s
      → IsConsistent (after s (claim_with s worker_id region pool cid o))
  unfolding claim_with claim_first_for
  claim_with-IsConsistent s worker_id region pool cid none c = c
  claim_with-IsConsistent s worker_id region pool cid (some b) c =
      elim (Bool-cases (is_available b worker_id region pool)) [
        | inr busy ↦ rw busy c
        | inl free ↦
            rw free (elim (Option-cases (find_first (is_claimable_for b region pool) s.jobs)) [
              | inl f ↦ rw f c
              | inr ((k, j), f) ↦ rw f (
                  claimed_for-IsConsistent s worker_id cid b k j c
                    (find_first-get _ s.jobs k j c.sorted f))
            ])
      ]

  pub claim_job_for-IsConsistent :
      (s : MemoryStateStore V) (worker_id region pool cid : String)
      → IsConsistent s
      → IsConsistent (after s (claim_job_for_compile_container s worker_id region pool cid))
  unfolding claim_job_for_compile_container require_worker
  claim_job_for-IsConsistent s worker_id region pool cid c =
      elim (Bool-cases (contains worker_id s.workers)) [
        | inr unknown ↦ rw unknown c
        | inl known ↦
            rw known
              (claim_with-IsConsistent s worker_id region pool cid (get cid s.compile_containers) c)
      ]
