-- ===== src/Store/Containers.antt =====
-- The worker and compile container operations of MemoryStateStore.
use styio_platform.Base.{
  ◌+◌, String, Bool, not, ◌&&◌, Option, none, some, ◌==◌, if◌then◌else◌, Result, ok, err, ◌>>=◌,
  ◌>>◌, require,
}
use styio_platform.Base.Dict.{get, put, find_first}
use styio_platform.Json.{Json, field, value_string}
use styio_platform.Store.Records.{PlatformJobRecord, CompileContainerRecord}
use styio_platform.Store.State.{MemoryStateStore}
use styio_platform.Store.Jobs.{
  epoch, push_event, put_job, require_worker, is_claimable, running_event,
}

-- A container id keeps its tenant, its user and its worker.
unfoldable pub require_binding :
    Option CompileContainerRecord → CompileContainerRecord → Result (Unit {0})
require_binding none container = ok tt
require_binding (some existing) container = do
  require (existing.tenant_id == container.tenant_id && existing.user_id == container.user_id)
      "compile container user binding mismatch"
  require (existing.worker_id == container.worker_id) "compile container worker owner mismatch"

-- The end of RegisterCompileContainer: the binding test and the write.
unfoldable pub store_container :
    {V : Type 0}
    → MemoryStateStore V
    → CompileContainerRecord
    → Result (MemoryStateStore V × CompileContainerRecord)
unfolding require_binding
store_container s container = do
  require_binding (get container.container_id s.compile_containers) container
  ok (
    record s { compile_containers = put container.container_id container s.compile_containers },
    container,
  )

module _ (J : Json) where
  open J use {Value}

  unfoldable pub register_worker :
      MemoryStateStore Value → Value → Result (MemoryStateStore Value × Value)
  register_worker s worker = do
    worker_id ← field J worker "worker_id"
    ok (record s { workers = put worker_id worker s.workers }, worker)

  -- `worker->second.value("region", "") != container.region || …`
  unfoldable pub require_worker_matches : Value → CompileContainerRecord → Result (Unit {0})
  require_worker_matches worker container = do
    region ← value_string J worker "region" ""
    require (region == container.region) "worker region or pool does not match container"
    pool ← value_string J worker "worker_pool_key" ""
    require (pool == container.worker_pool_key) "worker region or pool does not match container"

  unfoldable pub register_compile_container :
      MemoryStateStore Value
      → CompileContainerRecord
      → Result (MemoryStateStore Value × CompileContainerRecord)
  unfolding require_worker_matches store_container
  register_compile_container s container = elim (get container.worker_id s.workers) [
    | none ↦ err "worker is not registered"
    | some worker ↦ require_worker_matches worker container >> store_container s container
  ]

-- The container as a switch to `workspace_id` leaves it.
unfoldable pub switched : CompileContainerRecord → String → String → CompileContainerRecord
switched container workspace_id reason =
    if container.current_workspace_id == workspace_id then container else record container {
      current_workspace_id = workspace_id;
      workspace_generation = container.workspace_generation + 1;
      last_switched_at = "2026-04-24T00:01:00Z";
      last_switch_reason = reason;
    }

abbrev pub is_available : CompileContainerRecord → String → String → String → Bool
is_available container worker_id region worker_pool_key =
    container.worker_id == worker_id
    && container.region == region
    && container.worker_pool_key == worker_pool_key
    && container.status == "active"

module _ {V : Type 0} where
  unfoldable pub get_compile_container : MemoryStateStore V → String → Option CompileContainerRecord
  get_compile_container s container_id = get container_id s.compile_containers

  unfoldable pub switch_compile_container_workspace :
      MemoryStateStore V
      → String
      → String
      → String
      → String
      → Result (MemoryStateStore V × Option CompileContainerRecord)
  unfolding switched
  switch_compile_container_workspace s container_id worker_id workspace_id reason =
      elim (get container_id s.compile_containers) [
        | none ↦ ok (s, none)
        | some container ↦
            if not (container.worker_id == worker_id)
            then err "worker does not own compile container"
            else if not (container.status == "active")
            then ok (s, none)
            else let next = switched container workspace_id reason in
              ok (
                record s { compile_containers = put container_id next s.compile_containers },
                some next,
              )
      ]

  -- A container takes jobs of its own tenant and user only.
  abbrev pub is_claimable_for :
      CompileContainerRecord → String → String → PlatformJobRecord V → Bool
  is_claimable_for container region worker_pool_key job =
      is_claimable region worker_pool_key job
      && job.tenant_id == container.tenant_id
      && job.user_id == container.user_id

  -- The workspace switch that goes with a claim, with its event.
  unfoldable pub switch_for_claim :
      MemoryStateStore V → String → CompileContainerRecord → String → String → MemoryStateStore V
  unfolding switched
  switch_for_claim s container_id container key workspace_id =
      if container.current_workspace_id == workspace_id
      then s
      else push_event
          (record {
            event_id = "event-workspace-switched";
            job_id = key;
            status = "running";
            message = "compile container switched workspace";
            created_at = epoch;
          })
          key
          (record s {
            compile_containers =
                put container_id (switched container workspace_id "claimJob") s.compile_containers;
          })

  unfoldable pub claim_for_container :
      MemoryStateStore V
      → String
      → String
      → CompileContainerRecord
      → String × PlatformJobRecord V
      → MemoryStateStore V × Option (PlatformJobRecord V)
  unfolding switch_for_claim put_job running_event
  claim_for_container s worker_id container_id container (key, found) =
      let job = record found { status = "running"; worker_id = worker_id } in
      (
        push_event (running_event key "job claimed by compile container") key
            (switch_for_claim (put_job key job s) container_id container key job.workspace_id),
        some job,
      )

  unfoldable pub claim_first_for :
      MemoryStateStore V
      → String
      → String
      → CompileContainerRecord
      → Option (String × PlatformJobRecord V)
      → MemoryStateStore V × Option (PlatformJobRecord V)
  unfolding claim_for_container
  claim_first_for s worker_id container_id container none = (s, none)
  claim_first_for s worker_id container_id container (some entry) =
      claim_for_container s worker_id container_id container entry

  -- The tests on the container that the id names, and the claim in its name.
  unfoldable pub claim_with :
      MemoryStateStore V
      → String
      → String
      → String
      → String
      → Option CompileContainerRecord
      → Result (MemoryStateStore V × Option (PlatformJobRecord V))
  unfolding claim_first_for
  claim_with s worker_id region worker_pool_key container_id none =
      err "compile container is not registered"
  claim_with s worker_id region worker_pool_key container_id (some container) =
      if not (is_available container worker_id region worker_pool_key)
      then err "compile container is not available for this worker"
      else ok (
          claim_first_for s worker_id container_id container
            (find_first (is_claimable_for container region worker_pool_key) s.jobs))

  unfoldable pub claim_job_for_compile_container :
      MemoryStateStore V
      → String
      → String
      → String
      → String
      → Result (MemoryStateStore V × Option (PlatformJobRecord V))
  unfolding claim_with require_worker
  claim_job_for_compile_container s worker_id region worker_pool_key container_id = do
    require_worker s worker_id
    claim_with s worker_id region worker_pool_key container_id
        (get container_id s.compile_containers)
