-- ===== src/Store/Jobs.antt =====
-- The job operations of MemoryStateStore.
use styio_platform.Base.{
  ◌+◌, ◌%◌, ◌^◌, String, Bool, ◌&&◌, not, Option, none, some, List, [], ◌∷◌, ◌++◌, ◌==◌,
  if◌then◌else◌, Result, ok, ◌>>◌, require, concat,
}
use styio_platform.Base.Dict.{get, put, contains, find_first}
use styio_platform.Base.Padded.{padded_number}
use styio_platform.Store.Records.{ArtifactRecord, PlatformJobRecord, JobEventRecord}
use styio_platform.Store.State.{MemoryStateStore}

-- The default of `created_at` in the records.
abbrev pub epoch : String
epoch = "2026-04-24T00:00:00Z"

abbrev pub event_list : Option (List JobEventRecord) → List JobEventRecord
event_list none = []
event_list (some es) = es

unfoldable pub running_event : String → String → JobEventRecord
running_event job_id message = record {
  event_id = "event-running";
  job_id = job_id;
  status = "running";
  message = message;
  created_at = epoch;
}

module _ {V : Type 0} where
  -- job ids: `next_job_sequence_++` on a size_t
  unfoldable pub next_job_id : MemoryStateStore V → String × MemoryStateStore V
  next_job_id s = (
    concat "job-" (padded_number s.next_job_sequence 12),
    record s { next_job_sequence = (s.next_job_sequence + 1) % 2 ^ 64 },
  )

  unfoldable pub get_job : MemoryStateStore V → String → Option (PlatformJobRecord V)
  get_job s job_id = get job_id s.jobs

  unfoldable pub get_job_events : MemoryStateStore V → String → List JobEventRecord
  get_job_events s job_id = event_list (get job_id s.events)

  -- `events_[job_id].push_back(event)`
  unfoldable pub push_event : JobEventRecord → String → MemoryStateStore V → MemoryStateStore V
  unfolding get_job_events
  push_event e job_id s = record s {
    events = put job_id (get_job_events s job_id ++ e ∷ []) s.events;
  }

  -- A write through the reference that `find` or the loop gave.
  unfoldable pub put_job : String → PlatformJobRecord V → MemoryStateStore V → MemoryStateStore V
  put_job key job s = record s { jobs = put key job s.jobs }

  unfoldable pub submit_job : MemoryStateStore V → PlatformJobRecord V → MemoryStateStore V
  unfolding put_job
  submit_job s job =
      push_event
        (record {
          event_id = "event-queued";
          job_id = job.job_id;
          status = "queued";
          message = "job queued";
          created_at = epoch;
        })
        job.job_id (put_job job.job_id job s)

  unfoldable pub cancel_found :
      MemoryStateStore V
      → String
      → String
      → PlatformJobRecord V
      → MemoryStateStore V × Option (PlatformJobRecord V)
  unfolding put_job
  cancel_found s key reason found =
      let job = record found { status = "cancelled"; finished_at = "2026-04-24T00:01:00Z" } in
      (
        push_event
            (record {
              event_id = "event-cancelled";
              job_id = job.job_id;
              status = "cancelled";
              message = reason;
              created_at = job.finished_at;
            })
            job.job_id (put_job key job s),
        some job,
      )

  unfoldable pub cancel_job :
      MemoryStateStore V → String → String → MemoryStateStore V × Option (PlatformJobRecord V)
  unfolding cancel_found
  cancel_job s job_id reason = elim (get job_id s.jobs) [
    | none ↦ (s, none)
    | some found ↦ cancel_found s job_id reason found
  ]

  unfoldable pub require_worker : MemoryStateStore V → String → Result (Unit {0})
  require_worker s worker_id = require (contains worker_id s.workers) "worker is not registered"

  abbrev pub is_claimable : String → String → PlatformJobRecord V → Bool
  is_claimable region worker_pool_key job =
      job.status == "queued" && job.region == region && job.worker_pool_key == worker_pool_key

  unfoldable pub claim_found :
      MemoryStateStore V
      → String
      → String × PlatformJobRecord V
      → MemoryStateStore V × Option (PlatformJobRecord V)
  unfolding put_job running_event
  claim_found s worker_id (key, found) =
      let job = record found { status = "running"; worker_id = worker_id } in
      (push_event (running_event key "job claimed by worker") key (put_job key job s), some job)

  -- The end of the loop, or its return at the first claimable job.
  unfoldable pub claim_first :
      MemoryStateStore V
      → String
      → Option (String × PlatformJobRecord V)
      → MemoryStateStore V × Option (PlatformJobRecord V)
  unfolding claim_found
  claim_first s worker_id none = (s, none)
  claim_first s worker_id (some entry) = claim_found s worker_id entry

  unfoldable pub claim_job :
      MemoryStateStore V
      → String
      → String
      → String
      → Result (MemoryStateStore V × Option (PlatformJobRecord V))
  unfolding require_worker claim_first
  claim_job s worker_id region worker_pool_key = do
    require_worker s worker_id
    ok (claim_first s worker_id (find_first (is_claimable region worker_pool_key) s.jobs))

  unfoldable pub heartbeat_event : PlatformJobRecord V → String → JobEventRecord
  heartbeat_event job message = record {
    event_id = "event-heartbeat";
    job_id = job.job_id;
    status = job.status;
    message = message;
    created_at = epoch;
  }

  unfoldable pub heartbeat_job :
      MemoryStateStore V
      → String
      → String
      → String
      → MemoryStateStore V × Option (PlatformJobRecord V)
  unfolding heartbeat_event
  heartbeat_job s job_id worker_id message = elim (get job_id s.jobs) [
    | none ↦ (s, none)
    | some job ↦
        if not (job.worker_id == worker_id)
        then (s, none)
        else (push_event (heartbeat_event job message) job.job_id s, some job)
  ]

  unfoldable pub complete_found :
      MemoryStateStore V
      → String
      → String
      → String
      → List ArtifactRecord
      → PlatformJobRecord V
      → MemoryStateStore V × Option (PlatformJobRecord V)
  unfolding put_job
  complete_found s key status message artifacts found =
      let job = record found {
        status = status;
        finished_at = "2026-04-24T00:02:00Z";
        artifacts = found.artifacts ++ artifacts;
      } in
      (
        push_event
            (record {
              event_id = "event-completed";
              job_id = job.job_id;
              status = job.status;
              message = message;
              created_at = job.finished_at;
            })
            job.job_id (put_job key job s),
        some job,
      )

  -- The `result` argument is not read by the memory store.
  unfoldable pub complete_job :
      MemoryStateStore V
      → String
      → String
      → String
      → String
      → List ArtifactRecord
      → MemoryStateStore V × Option (PlatformJobRecord V)
  unfolding complete_found
  complete_job s job_id worker_id status message artifacts = elim (get job_id s.jobs) [
    | none ↦ (s, none)
    | some found ↦
        if not (found.worker_id == worker_id)
        then (s, none)
        else complete_found s job_id status message artifacts found
  ]
