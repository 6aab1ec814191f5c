-- ===== src/Store/JobLog.antt =====
-- The job table and the event log of MemoryStateStore: the invariant, and the calls on one job.
pub mod Claims
pub mod Histories
use styio_platform.Base.{
  String, ◌≡◌, refl, Option, none, some, List, [], ◌∷◌, ◌++◌, arith, All, eq_iff, if◌then◌else◌,
  ◌==◌, sym, Option-cases, Bool-cases, ap, subst, ◌∙◌, inl, inr,
}
use styio_platform.Base.Dict.{Dict, get, put, get-put, find_first, contains}
use styio_platform.Base.Dict.Sorted.{IsSorted, put-IsSorted, find_first-get}
use styio_platform.Json.{Json}
use styio_platform.Store.Records.{
  ArtifactRecord, CompileContainerRecord, PlatformJobRecord, JobEventRecord,
}
use styio_platform.Store.State.{MemoryStateStore, empty}
use styio_platform.Store.Jobs.{
  event_list, get_job_events, push_event, require_worker, running_event, put_job, submit_job,
  cancel_job, claim_job, claim_found, heartbeat_job, heartbeat_event, complete_job, is_claimable,
}
use styio_platform.Store.Containers.{
  register_worker, register_compile_container, switch_compile_container_workspace,
  claim_for_container, switch_for_claim, claim_job_for_compile_container, is_claimable_for,
  is_available,
}
use styio_platform.Store.Calls.{
  Call, submits, cancels, registers_worker, registers_container, switches, claims, claims_for,
  heartbeats, completes, after, step, run,
}

-- The status that the newest event reports.
abbrev pub last_status : List JobEventRecord → Option String
last_status [] = none
last_status (e ∷ []) = some e.status
last_status (e ∷ f ∷ es) = last_status (f ∷ es)

pub last_status-append :
    (es : List JobEventRecord) (e : JobEventRecord) → last_status (es ++ e ∷ []) ≡ some e.status
last_status-append [] e = refl
last_status-append (d ∷ []) e = refl
last_status-append (d ∷ f ∷ es) e = last_status-append (f ∷ es) e

module _ {V : Type 0} where
  -- A job stands under its own id, and the newest event of its log reports its status.
  abbrev pub Agrees : String → PlatformJobRecord V → List JobEventRecord → Type 0
  Agrees k j es = (j.job_id ≡ k) × (last_status es ≡ some j.status)

  pub record IsConsistent (s : MemoryStateStore V) : Type 0 where
    pub sorted : IsSorted s.jobs
    pub agrees :
        (k : String) (j : PlatformJobRecord V)
        → get k s.jobs ≡ some j
        → Agrees k j (get_job_events s k)

  -- One job is written, and the last event appended to its log reports its status.
  pub write-IsConsistent :
      (s t : MemoryStateStore V) (k : String) (j : PlatformJobRecord V) (es : List JobEventRecord)
      (e : JobEventRecord)
      → IsConsistent s
      → j.job_id ≡ k
      → e.status ≡ j.status
      → IsSorted t.jobs
      → ((i : String) → get i t.jobs ≡ (if k == i then some j else get i s.jobs))
      → ((i : String) → get_job_events t i ≡ (if k == i then es ++ e ∷ [] else get_job_events s i))
      → IsConsistent t
  write-IsConsistent s t k j es e c own same order js evs = record {
    sorted = order;
    agrees =
        λ i l h. ground (arith, eq_iff k i, js i, evs i, last_status-append es e, c.agrees i l);
  }

  pub logged-IsConsistent :
      (s : MemoryStateStore V) (i k : String) (j : PlatformJobRecord V) (e : JobEventRecord)
      → IsConsistent s
      → i ≡ k
      → j.job_id ≡ k
      → e.status ≡ j.status
      → IsConsistent (push_event e i (put_job k j s))
  unfolding push_event put_job get_job_events
  logged-IsConsistent s i k j e c at_key own same =
      write-IsConsistent s _ k j (event_list (get i s.events)) e c own same
        (put-IsSorted k j s.jobs c.sorted) (λ l. get-put k l j s.jobs)
        (λ l. ground (
          arith,
          eq_iff k l,
          eq_iff i l,
          get-put i l (event_list (get i s.events) ++ e ∷ []) s.events,
        ))

  pub submit_job-IsConsistent :
      (s : MemoryStateStore V) (j : PlatformJobRecord V)
      → IsConsistent s
      → j.status ≡ "queued"
      → IsConsistent (submit_job s j)
  unfolding submit_job
  submit_job-IsConsistent s j c q = logged-IsConsistent s j.job_id j.job_id j _ c refl refl (sym q)

  pub cancel_job-IsConsistent :
      (s : MemoryStateStore V) (k reason : String)
      → IsConsistent s
      → IsConsistent (cancel_job s k reason).0
  unfolding cancel_job
  cancel_job-IsConsistent s k reason c = elim (Option-cases (get k s.jobs)) [
    | inl e ↦ rw (e, cancel_job) c
    | inr (j, e) ↦
        let own : j.job_id ≡ k = (c.agrees k j e).0 in
        rw (e, cancel_job)
          (logged-IsConsistent s j.job_id k
            (record j { status = "cancelled"; finished_at = "2026-04-24T00:01:00Z" }) _ c own own
            refl)
  ]

  heard-IsConsistent :
      (s : MemoryStateStore V) (k : String) (j : PlatformJobRecord V) (message : String)
      → IsConsistent s
      → get k s.jobs ≡ some j
      → IsConsistent (push_event (heartbeat_event j message) j.job_id s)
  unfolding push_event get_job_events heartbeat_event
  heard-IsConsistent s k j message c found =
      let own : j.job_id ≡ k = (c.agrees k j found).0 in
      let es = event_list (get j.job_id s.events) in
      write-IsConsistent s _ k j es (heartbeat_event j message) c own refl c.sorted
        (λ l. ground (arith, eq_iff k l))
        (λ l. ground (
          arith,
          own,
          eq_iff k l,
          eq_iff j.job_id l,
          get-put j.job_id l (es ++ heartbeat_event j message ∷ []) s.events,
        ))

  pub heartbeat_job-IsConsistent :
      (s : MemoryStateStore V) (k worker_id message : String)
      → IsConsistent s
      → IsConsistent (heartbeat_job s k worker_id message).0
  unfolding heartbeat_job
  heartbeat_job-IsConsistent s k worker_id message c = elim (Option-cases (get k s.jobs)) [
    | inl e ↦ rw (e, heartbeat_job) c
    | inr (j, e) ↦ elim (Bool-cases (j.worker_id == worker_id)) [
      | inr other ↦ rw (e, heartbeat_job) (rw other c)
      | inl owner ↦ rw (e, heartbeat_job) (rw owner (heard-IsConsistent s k j message c e))
    ]
  ]

  pub complete_job-IsConsistent :
      (s : MemoryStateStore V) (k worker_id status message : String)
      (artifacts : List ArtifactRecord)
      → IsConsistent s
      → IsConsistent (complete_job s k worker_id status message artifacts).0
  unfolding complete_job
  complete_job-IsConsistent s k worker_id status message artifacts c =
      elim (Option-cases (get k s.jobs)) [
        | inl e ↦ rw (e, complete_job) c
        | inr (j, e) ↦ elim (Bool-cases (j.worker_id == worker_id)) [
          | inr other ↦ rw (e, complete_job) (rw other c)
          | inl owner ↦
              let own : j.job_id ≡ k = (c.agrees k j e).0 in
              rw (e, complete_job)
                (rw owner (
                  logged-IsConsistent s j.job_id k
                    (record j {
                      status = status;
                      finished_at = "2026-04-24T00:02:00Z";
                      artifacts = j.artifacts ++ artifacts;
                    })
                    _ c own own refl))
        ]
      ]
