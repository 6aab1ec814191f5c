-- ===== src/Store/Examples.antt =====
-- The store's theorems at one job, one worker and one container.
use styio_platform.Base.{
  ℕ, ◌^◌, ◌-◌, inr, arith, String, ◌≡◌, ◌⊎◌, refl, true, none, some, List, [], ◌∷◌, ◌<◌,
}
use styio_platform.Base.Dict.{get, put, find_first}
use styio_platform.Base.Order.{text_lt}
use styio_platform.Json.{ℤ}
use styio_platform.Json.Tree.{Tree, null, str, obj, entry, end, tree_json}
use styio_platform.Store.Records.{
  PlatformJobRecord, CompileContainerRecord, RegistryRepositoryVersionRecord,
}
use styio_platform.Store.State.{MemoryStateStore, empty}
use styio_platform.Store.Jobs.{claim_job, push_event, submit_job, get_job, next_job_id}
use styio_platform.Store.Containers.{
  get_compile_container, register_compile_container, register_worker,
  claim_job_for_compile_container,
}
use styio_platform.Store.Publications.{next_repository_version_sequence}
use styio_platform.Store.Calls.{
  Call, submits, registers_worker, registers_container, claims_for, completes, run, step, after,
}
use styio_platform.Store.JobLog.{IsConsistent}
use styio_platform.Store.JobLog.Histories.{run-IsConsistent, empty-IsConsistent}
use styio_platform.Store.Claims.{
  Claimable, Claimed, claim_job-Claimed, claim_job-least, claim_job-none,
}
use styio_platform.Store.Isolation.{Isolated, claim_job_for-Isolated}
use styio_platform.Store.Bindings.{SameBinding}
use styio_platform.Store.Bindings.Histories.{run-SameBinding}
use styio_platform.Store.JobIds.{next_job_id-lt}
use styio_platform.Store.RegistryLaws.{next_repository_version_sequence-lt}

abbrev queued_job : PlatformJobRecord Tree
queued_job = record {
  job_id = "job-000000000001";
  tenant_id = "tenant-a";
  user_id = "user-a";
  workspace_id = "workspace-a";
  action = "build";
  status = "queued";
  region = "eu";
  worker_pool_key = "pool";
  created_at = "2026-04-24T00:00:00Z";
  worker_id = "";
  finished_at = "";
  job_request = null;
  artifacts = [];
}

abbrev later_job : PlatformJobRecord Tree
later_job = record queued_job { job_id = "job-000000000002" }

abbrev container : CompileContainerRecord
container = record {
  container_id = "container-1";
  worker_id = "worker-1";
  tenant_id = "tenant-a";
  user_id = "user-a";
  current_workspace_id = "workspace-b";
  region = "eu";
  worker_pool_key = "pool";
  status = "active";
  capacity = ℤ.pos 1;
  workspace_generation = 0;
  created_at = "2026-04-24T00:00:00Z";
  last_switched_at = "";
  last_switch_reason = "";
}

abbrev worker : Tree
worker = obj (
    entry "worker_id" (str "worker-1")
      (entry "region" (str "eu") (entry "worker_pool_key" (str "pool") end)))

abbrev calls : List (Call Tree)
calls =
    registers_worker worker
    ∷ registers_container container
    ∷ submits later_job
    ∷ submits queued_job
    ∷ []

abbrev more_calls : List (Call Tree)
more_calls =
    claims_for "worker-1" "eu" "pool" "container-1"
    ∷ completes "job-000000000001" "worker-1" "succeeded" "done" []
    ∷ []

abbrev store : MemoryStateStore Tree
store = run tree_json empty calls

abbrev running_job : PlatformJobRecord Tree
running_job = record queued_job { status = "running"; worker_id = "worker-1" }

abbrev claimed_store : MemoryStateStore Tree
claimed_store = after store (claim_job store "worker-1" "eu" "pool")

abbrev hosting_store : MemoryStateStore Tree
hosting_store =
    after store (claim_job_for_compile_container store "worker-1" "eu" "pool" "container-1")

run-IsConsistent_example : IsConsistent (run tree_json empty calls)
run-IsConsistent_example =
    run-IsConsistent tree_json empty calls (tt, (tt, (refl, (refl, tt)))) empty-IsConsistent

run-SameBinding_example :
    (d : CompileContainerRecord) × (get_compile_container
        (run tree_json store more_calls)
        "container-1"
      ≡ some d)
    × SameBinding container d
unfolding get_compile_container run step empty get submit_job push_event register_compile_container
    register_worker put find_first text_lt
run-SameBinding_example = run-SameBinding tree_json store more_calls "container-1" container refl

claim_job_for-Isolated_example : Isolated store hosting_store "worker-1" "container-1" running_job
unfolding claim_job_for_compile_container run step empty get submit_job push_event
    register_compile_container register_worker put find_first text_lt
claim_job_for-Isolated_example =
    claim_job_for-Isolated store hosting_store "worker-1" "eu" "pool" "container-1" running_job refl

claim_job-Claimed_example :
    Claimable store "eu" "pool" "job-000000000001"
    × Claimed store claimed_store "worker-1" "job-000000000001" running_job
unfolding claim_job run step empty get submit_job push_event register_compile_container
    register_worker put find_first text_lt
claim_job-Claimed_example =
    claim_job-Claimed store claimed_store "worker-1" "eu" "pool" running_job
      (run-IsConsistent tree_json empty calls (tt, (tt, (refl, (refl, tt)))) empty-IsConsistent)
      refl

claim_job-least_example :
    (running_job.job_id ≡ later_job.job_id) ⊎ (text_lt running_job.job_id later_job.job_id ≡ true)
unfolding claim_job get_job run step empty get submit_job push_event register_compile_container
    register_worker put find_first text_lt
claim_job-least_example =
    claim_job-least store claimed_store "worker-1" "eu" "pool" later_job.job_id running_job
      (run-IsConsistent tree_json empty calls (tt, (tt, (refl, (refl, tt)))) empty-IsConsistent)
      refl
      (record { job = later_job; stored = refl; queued = refl; in_region = refl; in_pool = refl })

claim_job-none_example : (store ≡ store) × ((i : String) → ¬ Claimable store "us" "pool" i)
unfolding claim_job run step empty get submit_job push_event register_compile_container
    register_worker put find_first text_lt
claim_job-none_example = claim_job-none store store "worker-1" "us" "pool" refl

next_job_id-lt_example : text_lt (next_job_id store).0 (next_job_id (next_job_id store).1).0 ≡ true
unfolding run step empty get submit_job push_event register_compile_container register_worker put
    find_first text_lt
next_job_id-lt_example = next_job_id-lt store (omega arith)

abbrev version : RegistryRepositoryVersionRecord
version = record {
  repository_version_id = "main-0001";
  repository_id = "main";
  sequence = 1;
  change_kind = "publish";
  change_ref = "acme/tool@1.0.0";
  created_at = "2026-04-24T00:00:00Z";
}

abbrev versioned_store : MemoryStateStore Tree
versioned_store = record store { registry_repository_versions = ("main-0001", version) ∷ [] }

next_repository_version_sequence-lt_example :
    (n : ℕ) × (next_repository_version_sequence versioned_store "main" ≡ some n)
    × (n < 2 ^ 31)
    × (version.sequence < n)
unfolding get
next_repository_version_sequence-lt_example =
    next_repository_version_sequence-lt versioned_store "main" "main-0001" version
      (inr (omega arith), tt) refl refl

overflows :
    next_repository_version_sequence
      (record store {
        registry_repository_versions = ("main-0001", record version { sequence = 2 ^ 31 - 1 }) ∷ [];
      })
      "main"
    ≡ none
unfolding next_repository_version_sequence
overflows = refl
