-- ===== src/Store/Bindings.antt =====
-- The tenant, the user and the worker of a compile container under the calls of the store.
pub mod Histories
use mathlib.Core.Option.{some-injective}
use styio_platform.Base.{
  String, ◌≡◌, refl, sym, ap, ◌∙◌, subst, inl, inr, Bool, true, false, not, ◌&&◌, Option, none,
  some, List, [], ◌∷◌, arith, eq_iff, ◌==◌, if◌then◌else◌, Result, ok, err, ok-injective,
  Bool-cases, Option-cases,
}
use styio_platform.Base.Dict.{Dict, get, put, contains, get-put, find_first}
use styio_platform.Json.{Json, value_string}
use styio_platform.Store.Records.{ArtifactRecord, PlatformJobRecord, CompileContainerRecord}
use styio_platform.Store.State.{MemoryStateStore}
use styio_platform.Store.Jobs.{
  push_event, put_job, submit_job, cancel_job, cancel_found, claim_job, claim_first, claim_found,
  require_worker, heartbeat_job, complete_job, complete_found,
}
use styio_platform.Store.Containers.{
  require_binding, register_worker, register_compile_container, switched,
  switch_compile_container_workspace, claim_for_container, claim_first_for, claim_with,
  switch_for_claim, claim_job_for_compile_container, is_available, is_claimable_for,
}
use styio_platform.Store.Calls.{
  Call, submits, cancels, registers_worker, registers_container, switches, claims, claims_for,
  heartbeats, completes, after, step, run,
}

-- The same tenant, user and worker.
abbrev pub SameBinding : CompileContainerRecord → CompileContainerRecord → Type 0
SameBinding b d =
    (d.tenant_id ≡ b.tenant_id) × (d.user_id ≡ b.user_id) × (d.worker_id ≡ b.worker_id)

SameBinding-trans :
    (b c d : CompileContainerRecord) → SameBinding b c → SameBinding c d → SameBinding b d
SameBinding-trans b c d h k = (k.0 ∙ h.0, k.1 ∙ h.1, k.2 ∙ h.2)

switched-SameBinding :
    (b : CompileContainerRecord) (w reason : String) → SameBinding b (switched b w reason)
unfolding switched
switched-SameBinding b w reason = (ground arith, ground arith, ground arith)

-- Who passes the binding test binds the id as before.
pub require_binding-SameBinding :
    (b d : CompileContainerRecord) → require_binding (some b) d ≡ ok tt → SameBinding b d
unfolding require_binding
require_binding-SameBinding b d h =
    elim (Bool-cases (b.tenant_id == d.tenant_id && b.user_id == d.user_id)) [
      | inr other ↦ cc (rw other at h)
      | inl same ↦ elim (Bool-cases (b.worker_id == d.worker_id)) [
        | inr moved ↦ cc (rw (same, moved) at h)
        | inl kept ↦ (
          ground (arith, eq_iff b.tenant_id d.tenant_id),
          ground (arith, eq_iff b.user_id d.user_id),
          sym ((eq_iff b.worker_id d.worker_id).0 kept),
        )
      ]
    ]

-- Every container of the first table is in the second, bound as it was.
abbrev pub KeepsBindings : Dict CompileContainerRecord → Dict CompileContainerRecord → Type 0
KeepsBindings m n =
    (cid : String) (b : CompileContainerRecord)
    → get cid m ≡ some b
    → (d : CompileContainerRecord) × (get cid n ≡ some d) × SameBinding b d

pub KeepsBindings-refl : (m : Dict CompileContainerRecord) → KeepsBindings m m
KeepsBindings-refl m cid b h = (b, h, (refl, refl, refl))

pub KeepsBindings-trans :
    (l m n : Dict CompileContainerRecord)
    → KeepsBindings l m
    → KeepsBindings m n
    → KeepsBindings l n
KeepsBindings-trans l m n f g cid b h =
    let (c, e, same) = f cid b h in
    let (d, k, more) = g cid c e in (d, k, SameBinding-trans b c d same more)

-- One container is written, bound as the one that was there.
pub put-KeepsBindings :
    (m : Dict CompileContainerRecord) (k : String) (c : CompileContainerRecord)
    → ((b : CompileContainerRecord) → get k m ≡ some b → SameBinding b c)
    → KeepsBindings m (put k c m)
put-KeepsBindings m k c same cid b h = elim (Bool-cases (k == cid)) [
  | inl here ↦
      let at_key : k ≡ cid = (eq_iff k cid).0 here in
      (c, get-put k cid c m ∙ (rw here refl), same b (subst (λ i. get i m ≡ some b) (sym at_key) h))
  | inr apart ↦ (b, get-put k cid c m ∙ (rw apart h), (refl, refl, refl))
]

pub put-switched-KeepsBindings :
    (m : Dict CompileContainerRecord) (k w reason : String) (b : CompileContainerRecord)
    → get k m ≡ some b
    → KeepsBindings m (put k (switched b w reason) m)
put-switched-KeepsBindings m k w reason b e = put-KeepsBindings m k (switched b w reason) (λ c h.
    subst (λ x. SameBinding x (switched b w reason)) (some-injective _ _ (sym e ∙ h))
      (switched-SameBinding b w reason))

module _ {V : Type 0} where
  if-KeepsBindings :
      (x : Bool) (s t : MemoryStateStore V) (m : Dict CompileContainerRecord)
      → KeepsBindings m s.compile_containers
      → KeepsBindings m t.compile_containers
      → KeepsBindings m (if x then s else t).compile_containers
  if-KeepsBindings true s t m f g = f
  if-KeepsBindings false s t m f g = g

  switch_for_claim-KeepsBindings :
      (s : MemoryStateStore V) (cid k w : String) (b : CompileContainerRecord)
      → get cid s.compile_containers ≡ some b
      → KeepsBindings s.compile_containers (switch_for_claim s cid b k w).compile_containers
  unfolding switch_for_claim push_event
  switch_for_claim-KeepsBindings s cid k w b e =
      if-KeepsBindings (b.current_workspace_id == w) s _ s.compile_containers
        (KeepsBindings-refl s.compile_containers)
        (put-switched-KeepsBindings s.compile_containers cid w "claimJob" b e)

  claim_first_for-KeepsBindings :
      (s : MemoryStateStore V) (worker_id cid : String) (b : CompileContainerRecord)
      (o : Option (String × PlatformJobRecord V))
      → get cid s.compile_containers ≡ some b
      → KeepsBindings s.compile_containers
          (claim_first_for s worker_id cid b o).0.compile_containers
  unfolding claim_first_for claim_for_container push_event put_job
  claim_first_for-KeepsBindings s worker_id cid b none e = KeepsBindings-refl s.compile_containers
  claim_first_for-KeepsBindings s worker_id cid b (some (k, l)) e =
      switch_for_claim-KeepsBindings
        (put_job k (record l { status = "running"; worker_id = worker_id }) s) cid k l.workspace_id
        b e

  claim_with-KeepsBindings :
      (s : MemoryStateStore V) (worker_id region pool cid : String)
      (o : Option CompileContainerRecord)
      → get cid s.compile_containers ≡ o
      → KeepsBindings s.compile_containers
          (after s (claim_with s worker_id region pool cid o)).compile_containers
  unfolding claim_with
  claim_with-KeepsBindings s worker_id region pool cid none e =
      KeepsBindings-refl s.compile_containers
  claim_with-KeepsBindings s worker_id region pool cid (some b) e =
      elim (Bool-cases (is_available b worker_id region pool)) [
        | inr busy ↦ rw busy (KeepsBindings-refl s.compile_containers)
        | inl free ↦ rw free (
            claim_first_for-KeepsBindings s worker_id cid b
              (find_first (is_claimable_for b region pool) s.jobs) e)
      ]

  pub claims_for-KeepsBindings :
      (s : MemoryStateStore V) (worker_id region pool cid : String)
      → KeepsBindings s.compile_containers
          (after s (claim_job_for_compile_container s worker_id region pool cid)).compile_containers
  unfolding claim_job_for_compile_container require_worker
  claims_for-KeepsBindings s worker_id region pool cid =
      elim (Bool-cases (contains worker_id s.workers)) [
        | inr unknown ↦ rw unknown (KeepsBindings-refl s.compile_containers)
        | inl known ↦ rw known (
            claim_with-KeepsBindings s worker_id region pool cid (get cid s.compile_containers)
              refl)
      ]

  -- The calls on jobs leave the containers alone.
  pub compile_containers-claim_job :
      (s : MemoryStateStore V) (worker_id region pool : String)
      → (after s (claim_job s worker_id region pool)).compile_containers ≡ s.compile_containers
  unfolding claim_job require_worker claim_first claim_found push_event put_job
  compile_containers-claim_job s worker_id region pool = ground arith

  pub compile_containers-cancel_job :
      (s : MemoryStateStore V) (k reason : String)
      → (cancel_job s k reason).0.compile_containers ≡ s.compile_containers
  unfolding cancel_job cancel_found push_event put_job
  compile_containers-cancel_job s k reason = ground arith

  pub compile_containers-heartbeat_job :
      (s : MemoryStateStore V) (k worker_id message : String)
      → (heartbeat_job s k worker_id message).0.compile_containers ≡ s.compile_containers
  unfolding heartbeat_job push_event
  compile_containers-heartbeat_job s k worker_id message = ground arith

  pub compile_containers-complete_job :
      (s : MemoryStateStore V) (k worker_id status message : String)
      (artifacts : List ArtifactRecord)
      → (complete_job s k worker_id status message artifacts).0.compile_containers
        ≡ s.compile_containers
  unfolding complete_job complete_found push_event put_job
  compile_containers-complete_job s k worker_id status message artifacts = ground arith
