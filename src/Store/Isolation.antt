-- ===== src/Store/Isolation.antt =====
-- ClaimJobForCompileContainer of MemoryStateStore.
use mathlib.Core.Option.{some-injective}
use styio_platform.Base.{
  String, ◌≡◌, refl, ap, subst, inl, inr, true, Option, none, some, arith, eq_iff, eq_refl, ◌==◌,
  ok, ok-injective, Bool-cases,
}
use styio_platform.Base.Dict.{get, contains, get-put, find_first, find_first_sound}
use styio_platform.Store.Records.{PlatformJobRecord, CompileContainerRecord}
use styio_platform.Store.State.{MemoryStateStore}
use styio_platform.Store.Jobs.{require_worker, push_event, put_job}
use styio_platform.Store.Containers.{
  claim_job_for_compile_container, claim_first_for, claim_with, claim_for_container,
  switch_for_claim, switched, is_available, is_claimable_for, get_compile_container,
}

-- What a call of a claim gives: the store it leaves, and the job.
abbrev Claim : Type 0 → Type 0
Claim V = MemoryStateStore V × Option (PlatformJobRecord V)

module _ {V : Type 0} where
  claim_first_for-found :
      (s t : MemoryStateStore V) (worker_id cid : String) (b : CompileContainerRecord)
      (j : PlatformJobRecord V) (o : Option (String × PlatformJobRecord V))
      → claim_first_for s worker_id cid b o ≡ (t, some j)
      → (k : String) × (l : PlatformJobRecord V) × (o ≡ some (k, l))
        × (claim_for_container s worker_id cid b (k, l) ≡ (t, some j))
  unfolding claim_first_for
  claim_first_for-found s t worker_id cid b j none h = cc (ap (λ (r : Claim V). r.1) h)
  claim_first_for-found s t worker_id cid b j (some (k, l)) h = (k, l, refl, h)

  -- The container that a claim goes to is registered, active and the worker's own.
  claim_with-ok :
      (s : MemoryStateStore V) (worker_id region pool cid : String)
      (o : Option CompileContainerRecord) (r : Claim V)
      → claim_with s worker_id region pool cid o ≡ ok r
      → (b : CompileContainerRecord) × (o ≡ some b)
        × (is_available b worker_id region pool ≡ true)
        × (claim_first_for s worker_id cid b (find_first (is_claimable_for b region pool) s.jobs)
            ≡ r)
  unfolding claim_with
  claim_with-ok s worker_id region pool cid none r h = cc
  claim_with-ok s worker_id region pool cid (some b) r h =
      elim (Bool-cases (is_available b worker_id region pool)) [
        | inr busy ↦ cc (rw busy at h)
        | inl free ↦ (b, refl, free, ok-injective (rw free at h))
      ]

  claim_job_for-ok :
      (s : MemoryStateStore V) (worker_id region pool cid : String) (r : Claim V)
      → claim_job_for_compile_container s worker_id region pool cid ≡ ok r
      → claim_with s worker_id region pool cid (get cid s.compile_containers) ≡ ok r
  unfolding claim_job_for_compile_container require_worker
  claim_job_for-ok s worker_id region pool cid r h =
      elim (Bool-cases (contains worker_id s.workers)) [
        | inr unknown ↦ cc (rw unknown at h)
        | inl known ↦ rw known at h
      ]

  -- After the switch the container stands in the job's workspace, bound to the same tenant, user
  -- and worker.
  pub record Hosts (t : MemoryStateStore V) (cid workspace_id : String) (b : CompileContainerRecord)
      : Type 0 where
    pub container : CompileContainerRecord
    pub stored : get_compile_container t cid ≡ some container
    pub in_workspace : container.current_workspace_id ≡ workspace_id
    pub same_tenant : container.tenant_id ≡ b.tenant_id
    pub same_user : container.user_id ≡ b.user_id
    pub same_worker : container.worker_id ≡ b.worker_id

  -- A switch puts the container in the workspace asked for and keeps its owner.
  switched-Hosts :
      (t : MemoryStateStore V) (cid w reason : String) (b : CompileContainerRecord)
      → get cid t.compile_containers ≡ some (switched b w reason)
      → Hosts t cid w b
  unfolding get_compile_container switched
  switched-Hosts t cid w reason b e = record {
    container = switched b w reason;
    stored = e;
    in_workspace = ground (arith, eq_iff b.current_workspace_id w);
    same_tenant = ground arith;
    same_user = ground arith;
    same_worker = ground arith;
  }

  compile_containers-switch_for_claim :
      (s : MemoryStateStore V) (cid k w : String) (b : CompileContainerRecord)
      → get cid s.compile_containers ≡ some b
      → get cid (switch_for_claim s cid b k w).compile_containers ≡ some (switched b w "claimJob")
  unfolding switch_for_claim push_event switched
  compile_containers-switch_for_claim s cid k w b e =
      elim (Bool-cases (b.current_workspace_id == w)) [
        | inl same ↦ rw same e
        | inr moved ↦ rw moved (rw (get-put cid cid _ s.compile_containers, eq_refl cid) refl)
      ]

  claim_for_container-Hosts :
      (s : MemoryStateStore V) (worker_id cid k : String) (b : CompileContainerRecord)
      (l : PlatformJobRecord V)
      → get cid s.compile_containers ≡ some b
      → Hosts (claim_for_container s worker_id cid b (k, l)).0 cid l.workspace_id b
  unfolding claim_for_container push_event put_job
  claim_for_container-Hosts s worker_id cid k b l e =
      switched-Hosts _ cid l.workspace_id "claimJob" b (
        compile_containers-switch_for_claim
          (put_job k (record l { status = "running"; worker_id = worker_id }) s) cid k
          l.workspace_id b e)

  claim_for_container-job :
      (s t : MemoryStateStore V) (worker_id cid k : String) (b : CompileContainerRecord)
      (l j : PlatformJobRecord V)
      → claim_for_container s worker_id cid b (k, l) ≡ (t, some j)
      → record l { status = "running"; worker_id = worker_id } ≡ j
  unfolding claim_for_container
  claim_for_container-job s t worker_id cid k b l j g =
      some-injective _ _ (ap (λ (r : Claim V). r.1) g)

  -- The job is of the container's tenant and user, and the container stands in its workspace.
  pub record Isolated (s t : MemoryStateStore V) (worker_id cid : String) (j : PlatformJobRecord V)
      : Type 0 where
    pub container : CompileContainerRecord
    pub registered : get_compile_container s cid ≡ some container
    pub active : container.status ≡ "active"
    pub owned : container.worker_id ≡ worker_id
    pub tenant : j.tenant_id ≡ container.tenant_id
    pub user : j.user_id ≡ container.user_id
    pub running : (j.status ≡ "running") × (j.worker_id ≡ worker_id)
    pub hosts : Hosts t cid j.workspace_id container

  claimed-Isolated :
      (s : MemoryStateStore V) (worker_id region pool cid k : String) (b : CompileContainerRecord)
      (l : PlatformJobRecord V)
      → get cid s.compile_containers ≡ some b
      → is_available b worker_id region pool ≡ true
      → is_claimable_for b region pool l ≡ true
      → Isolated s
          (claim_for_container s worker_id cid b (k, l)).0
          worker_id
          cid
          (record l { status = "running"; worker_id = worker_id })
  unfolding get_compile_container
  claimed-Isolated s worker_id region pool cid k b l e free fits = record {
    container = b;
    registered = e;
    active = ground (arith, eq_iff b.status "active");
    owned = ground (arith, eq_iff b.worker_id worker_id);
    tenant = ground (arith, eq_iff l.tenant_id b.tenant_id);
    user = ground (arith, eq_iff l.user_id b.user_id);
    running = (refl, refl);
    hosts = claim_for_container-Hosts s worker_id cid k b l e;
  }

  -- A job that a compile container claims is of the container's tenant and user; the container was
  -- registered, active and the claiming worker's, and afterwards it stands in the job's workspace,
  -- bound to the same tenant, user and worker.
  pub claim_job_for-Isolated :
      (s t : MemoryStateStore V) (worker_id region pool cid : String) (j : PlatformJobRecord V)
      → claim_job_for_compile_container s worker_id region pool cid ≡ ok (t, some j)
      → Isolated s t worker_id cid j
  claim_job_for-Isolated s t worker_id region pool cid j h =
      let (b, e, free, f) =
        claim_with-ok s worker_id region pool cid _ _
          (claim_job_for-ok s worker_id region pool cid _ h) in
      let (k, l, found, g) = claim_first_for-found s t worker_id cid b j _ f in
      subst (λ u. Isolated s u worker_id cid j) (ap (λ (r : Claim V). r.0) g)
        (subst (Isolated s (claim_for_container s worker_id cid b (k, l)).0 worker_id cid)
          (claim_for_container-job s t worker_id cid k b l j g)
          (claimed-Isolated s worker_id region pool cid k b l e free
            (find_first_sound (is_claimable_for b region pool) s.jobs k l found)))
