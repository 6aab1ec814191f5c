-- ===== src/Store/Bindings/Histories.antt =====
-- The bindings of compile containers under histories of calls.
use styio_platform.Base.{
  String, ◌≡◌, refl, sym, subst, inl, inr, Option, some, List, [], ◌∷◌, ◌==◌, arith, Result, ok,
  err, ◌>>=◌, Bool-cases, Option-cases,
}
use styio_platform.Base.Dict.{Dict, get}
use styio_platform.Json.{Json}
use styio_platform.Store.Records.{CompileContainerRecord}
use styio_platform.Store.State.{MemoryStateStore}
use styio_platform.Store.Jobs.{submit_job, push_event, put_job}
use styio_platform.Store.Containers.{
  get_compile_container, require_binding, register_worker, require_worker_matches, store_container,
  register_compile_container, switch_compile_container_workspace,
}
use styio_platform.Store.Calls.{
  Call, submits, cancels, registers_worker, registers_container, switches, claims, claims_for,
  heartbeats, completes, after, step, run,
}
use styio_platform.Store.Bindings.{
  SameBinding, KeepsBindings, KeepsBindings-refl, KeepsBindings-trans, put-KeepsBindings,
  put-switched-KeepsBindings, require_binding-SameBinding, claims_for-KeepsBindings,
  compile_containers-claim_job, compile_containers-cancel_job, compile_containers-heartbeat_job,
  compile_containers-complete_job,
}

same-KeepsBindings : (m n : Dict CompileContainerRecord) → n ≡ m → KeepsBindings m n
same-KeepsBindings m n e = subst (KeepsBindings m) (sym e) (KeepsBindings-refl m)

module _ {V : Type 0} where
  -- A call that throws changes nothing.
  bind-KeepsBindings :
      {A B : Type 0} (s : MemoryStateStore V) (m : Result A)
      (f : A → Result (MemoryStateStore V × B))
      → ((a : A) → m ≡ ok a → KeepsBindings s.compile_containers (after s (f a)).compile_containers)
      → KeepsBindings s.compile_containers (after s (m >>= f)).compile_containers
  bind-KeepsBindings s (ok a) f h = h a refl
  bind-KeepsBindings s (err e) f h = KeepsBindings-refl s.compile_containers

  switches-KeepsBindings :
      (s : MemoryStateStore V) (cid w ws reason : String)
      → KeepsBindings s.compile_containers
          (after s (switch_compile_container_workspace s cid w ws reason)).compile_containers
  unfolding switch_compile_container_workspace
  switches-KeepsBindings s cid w ws reason = elim (Option-cases (get cid s.compile_containers)) [
    | inl e ↦ rw (switch_compile_container_workspace, e) (KeepsBindings-refl s.compile_containers)
    | inr (b, e) ↦ elim (Bool-cases (b.worker_id == w)) [
      | inr other ↦
          rw (switch_compile_container_workspace, e, other)
            (KeepsBindings-refl s.compile_containers)
      | inl own ↦ elim (Bool-cases (b.status == "active")) [
        | inr idle ↦
            rw (switch_compile_container_workspace, e, own, idle)
              (KeepsBindings-refl s.compile_containers)
        | inl active ↦
            rw (switch_compile_container_workspace, e, own, active)
              (put-switched-KeepsBindings s.compile_containers cid ws reason b e)
      ]
    ]
  ]

-- Any container of the id that is already there has the binding of the one that passed the test.
bound_before :
    (o : Option CompileContainerRecord) (c b : CompileContainerRecord)
    → require_binding o c ≡ ok tt
    → o ≡ some b
    → SameBinding b c
bound_before o c b h e =
    require_binding-SameBinding b c (subst (λ x. require_binding x c ≡ ok tt) e h)

store_container-KeepsBindings :
    {V : Type 0} (s : MemoryStateStore V) (c : CompileContainerRecord)
    → KeepsBindings s.compile_containers (after s (store_container s c)).compile_containers
unfolding store_container
store_container-KeepsBindings s c =
    bind-KeepsBindings s (require_binding (get c.container_id s.compile_containers) c) _ (λ u h.
      put-KeepsBindings s.compile_containers c.container_id c (λ b e. bound_before _ c b h e))

module _ (J : Json) where
  open J use {Value}

  registers_worker-KeepsBindings :
      (s : MemoryStateStore Value) (w : Value)
      → KeepsBindings s.compile_containers (after s (register_worker J s w)).compile_containers
  unfolding register_worker
  registers_worker-KeepsBindings s w = same-KeepsBindings s.compile_containers _ (ground arith)

  registers_container-KeepsBindings :
      (s : MemoryStateStore Value) (c : CompileContainerRecord)
      → KeepsBindings s.compile_containers
          (after s (register_compile_container J s c)).compile_containers
  unfolding register_compile_container
  registers_container-KeepsBindings s c = elim (Option-cases (get c.worker_id s.workers)) [
    | inl e ↦ rw (register_compile_container, e) (KeepsBindings-refl s.compile_containers)
    | inr (worker, e) ↦
        rw (register_compile_container, e)
          (bind-KeepsBindings s (require_worker_matches J worker c) (λ u. store_container s c)
            (λ u h. store_container-KeepsBindings s c))
  ]

  step-KeepsBindings :
      (s : MemoryStateStore Value) (c : Call Value)
      → KeepsBindings s.compile_containers (step J s c).compile_containers
  unfolding step submit_job push_event put_job
  step-KeepsBindings s (submits job) = KeepsBindings-refl s.compile_containers
  step-KeepsBindings s (cancels k reason) =
      same-KeepsBindings s.compile_containers _ (compile_containers-cancel_job s k reason)
  step-KeepsBindings s (registers_worker w) = registers_worker-KeepsBindings s w
  step-KeepsBindings s (registers_container c) = registers_container-KeepsBindings s c
  step-KeepsBindings s (switches cid w ws reason) = switches-KeepsBindings s cid w ws reason
  step-KeepsBindings s (claims w region pool) =
      same-KeepsBindings s.compile_containers _ (compile_containers-claim_job s w region pool)
  step-KeepsBindings s (claims_for w region pool cid) = claims_for-KeepsBindings s w region pool cid
  step-KeepsBindings s (heartbeats k w message) =
      same-KeepsBindings s.compile_containers _ (compile_containers-heartbeat_job s k w message)
  step-KeepsBindings s (completes k w status message artifacts) =
      same-KeepsBindings s.compile_containers _
        (compile_containers-complete_job s k w status message artifacts)

  run-KeepsBindings :
      (s : MemoryStateStore Value) (cs : List (Call Value))
      → KeepsBindings s.compile_containers (run J s cs).compile_containers
  unfolding run
  run-KeepsBindings s [] = KeepsBindings-refl s.compile_containers
  run-KeepsBindings s (c ∷ cs) =
      KeepsBindings-trans s.compile_containers (step J s c).compile_containers _
        (step-KeepsBindings s c) (run-KeepsBindings (step J s c) cs)

  -- After any history of calls, a compile container that was registered before is still there,
  -- bound to the same tenant, user and worker.
  pub run-SameBinding :
      (s : MemoryStateStore Value) (cs : List (Call Value)) (cid : String)
      (b : CompileContainerRecord)
      → get_compile_container s cid ≡ some b
      → (d : CompileContainerRecord) × (get_compile_container (run J s cs) cid ≡ some d)
        × SameBinding b d
  unfolding get_compile_container
  run-SameBinding s cs cid b e = run-KeepsBindings s cs cid b e
