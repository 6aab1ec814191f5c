-- ===== src/Store/Claims.antt =====
-- ClaimJob of MemoryStateStore: what is claimable, and what a claim leaves.
use mathlib.Core.Option.{some-injective}
use styio_platform.Base.{
  ◌==◌, if◌then◌else◌, ok-injective, String, ◌≡◌, refl, sym, ap, ◌⊎◌, inl, inr, true, Option, none,
  some, arith, eq_iff, ok, Bool-cases, ◌∙◌, subst,
}
use styio_platform.Base.Order.{text_lt}
use styio_platform.Base.Dict.{get-put, find_first, find_first_sound, find_first-none, contains}
use styio_platform.Base.Dict.Sorted.{find_first-get, find_first-least}
use styio_platform.Store.Records.{PlatformJobRecord}
use styio_platform.Store.State.{MemoryStateStore}
use styio_platform.Store.Jobs.{
  get_job, claim_job, claim_first, claim_found, require_worker, is_claimable, push_event,
}
use styio_platform.Store.JobLog.{IsConsistent}

module _ {V : Type 0} where
  -- A claimable job: queued, and of the region and pool asked for.
  pub record Claimable (s : MemoryStateStore V) (region pool k : String) : Type 0 where
    pub job : PlatformJobRecord V
    pub stored : get_job s k ≡ some job
    pub queued : job.status ≡ "queued"
    pub in_region : job.region ≡ region
    pub in_pool : job.worker_pool_key ≡ pool

  -- What a claim of job `k` by `worker_id` leaves in the job table.
  pub record Claimed (s t : MemoryStateStore V) (worker_id k : String) (j : PlatformJobRecord V)
      : Type 0 where
    pub running : j.status ≡ "running"
    pub owned : j.worker_id ≡ worker_id
    pub stored : (i : String) → get_job t i ≡ (if k == i then some j else get_job s i)

  Claimable-found :
      (s : MemoryStateStore V) (region pool k : String) (j : PlatformJobRecord V)
      → IsConsistent s
      → find_first (is_claimable region pool) s.jobs ≡ some (k, j)
      → Claimable s region pool k
  unfolding get_job
  Claimable-found s region pool k j c e =
      let test : is_claimable region pool j ≡ true =
        find_first_sound (is_claimable region pool) s.jobs k j e in
      record {
        job = j;
        stored = find_first-get (is_claimable region pool) s.jobs k j c.sorted e;
        queued = ground (arith, eq_iff j.status "queued");
        in_region = ground (arith, eq_iff j.region region);
        in_pool = ground (arith, eq_iff j.worker_pool_key pool);
      }

  Claimable-test :
      (s : MemoryStateStore V) (region pool k : String) (b : Claimable s region pool k)
      → is_claimable region pool b.job ≡ true
  Claimable-test s region pool k b = ground (
    arith,
    eq_iff b.job.status "queued",
    eq_iff b.job.region region,
    eq_iff b.job.worker_pool_key pool,
  )

  Claimed-found :
      (s : MemoryStateStore V) (worker_id k : String) (j : PlatformJobRecord V)
      → Claimed s
          (claim_found s worker_id (k, j)).0
          worker_id
          k
          (record j { status = "running"; worker_id = worker_id })
  unfolding claim_found push_event get_job
  Claimed-found s worker_id k j =
      let l = record j { status = "running"; worker_id = worker_id } in
      record { running = refl; owned = refl; stored = λ i. get-put k i l s.jobs }

  claim_found-job :
      (s t : MemoryStateStore V) (worker_id k : String) (l j : PlatformJobRecord V)
      → claim_found s worker_id (k, l) ≡ (t, some j)
      → record l { status = "running"; worker_id = worker_id } ≡ j
  unfolding claim_found
  claim_found-job s t worker_id k l j g =
      some-injective _ _ (ap (λ (r : MemoryStateStore V × Option (PlatformJobRecord V)). r.1) g)

  claim_first-found :
      (s t : MemoryStateStore V) (worker_id : String) (j : PlatformJobRecord V)
      (o : Option (String × PlatformJobRecord V))
      → claim_first s worker_id o ≡ (t, some j)
      → (k : String) × (l : PlatformJobRecord V) × (o ≡ some (k, l))
        × (claim_found s worker_id (k, l) ≡ (t, some j))
  unfolding claim_first
  claim_first-found s t worker_id j none h =
      cc (ap (λ (r : MemoryStateStore V × Option (PlatformJobRecord V)). r.1) h)
  claim_first-found s t worker_id j (some (k, l)) h = (k, l, refl, h)

  claim_first-none :
      (s t : MemoryStateStore V) (worker_id : String) (o : Option (String × PlatformJobRecord V))
      → claim_first s worker_id o ≡ (t, none)
      → (o ≡ none) × (t ≡ s)
  unfolding claim_first claim_found
  claim_first-none s t worker_id none h =
      (refl, ap (λ (r : MemoryStateStore V × Option (PlatformJobRecord V)). r.0) (sym h))
  claim_first-none s t worker_id (some (k, l)) h =
      cc (ap (λ (r : MemoryStateStore V × Option (PlatformJobRecord V)). r.1) h)

  -- A claim that returns is the loop's result.
  claim_job-ok :
      (s : MemoryStateStore V) (worker_id region pool : String)
      (r : MemoryStateStore V × Option (PlatformJobRecord V))
      → claim_job s worker_id region pool ≡ ok r
      → claim_first s worker_id (find_first (is_claimable region pool) s.jobs) ≡ r
  unfolding claim_job require_worker
  claim_job-ok s worker_id region pool r h = elim (Bool-cases (contains worker_id s.workers)) [
    | inr unknown ↦ cc (rw unknown at h)
    | inl known ↦ ok-injective (rw known at h)
  ]

  -- `k` is taken as the least claimable job.
  abbrev IsLeastClaim :
      MemoryStateStore V
      → MemoryStateStore V
      → String
      → String
      → String
      → PlatformJobRecord V
      → String
      → Type 0
  IsLeastClaim s t worker_id region pool j k =
      Claimable s region pool k
      × Claimed s t worker_id k j
      × ((i : String) → Claimable s region pool i → (k ≡ i) ⊎ (text_lt k i ≡ true))

  claim_found-least :
      (s t : MemoryStateStore V) (worker_id region pool k : String) (l j : PlatformJobRecord V)
      → IsConsistent s
      → find_first (is_claimable region pool) s.jobs ≡ some (k, l)
      → claim_found s worker_id (k, l) ≡ (t, some j)
      → IsLeastClaim s t worker_id region pool j j.job_id
  unfolding get_job
  claim_found-least s t worker_id region pool k l j c e g =
      let left : (claim_found s worker_id (k, l)).0 ≡ t =
        ap (λ (r : MemoryStateStore V × Option (PlatformJobRecord V)). r.0) g in
      let taken : record l { status = "running"; worker_id = worker_id } ≡ j =
        claim_found-job s t worker_id k l j g in
      let own : j.job_id ≡ k =
        ap (λ (x : PlatformJobRecord V). x.job_id) (sym taken)
        ∙ (c.agrees k l (find_first-get _ s.jobs k l c.sorted e)).0 in
      subst (IsLeastClaim s t worker_id region pool j) (sym own) (
        Claimable-found s region pool k l c e,
        subst (λ u. Claimed s u worker_id k j) left
            (subst (Claimed s (claim_found s worker_id (k, l)).0 worker_id k) taken
              (Claimed-found s worker_id k l)),
        λ i b.
            find_first-least (is_claimable region pool) s.jobs k i l b.job c.sorted e b.stored
              (Claimable-test s region pool i b),
      )

  claim_job-IsLeastClaim :
      (s t : MemoryStateStore V) (worker_id region pool : String) (j : PlatformJobRecord V)
      → IsConsistent s
      → claim_job s worker_id region pool ≡ ok (t, some j)
      → IsLeastClaim s t worker_id region pool j j.job_id
  claim_job-IsLeastClaim s t worker_id region pool j c h =
      let (k, l, e, g) =
        claim_first-found s t worker_id j (find_first (is_claimable region pool) s.jobs)
          (claim_job-ok s worker_id region pool _ h) in
      claim_found-least s t worker_id region pool k l j c e g

  -- In a consistent store, a claim that returns a job has taken one that was claimable; the job is
  -- running for the worker now, and every other job is as it was.
  pub claim_job-Claimed :
      (s t : MemoryStateStore V) (worker_id region pool : String) (j : PlatformJobRecord V)
      → IsConsistent s
      → claim_job s worker_id region pool ≡ ok (t, some j)
      → Claimable s region pool j.job_id × Claimed s t worker_id j.job_id j
  claim_job-Claimed s t worker_id region pool j c h =
      let (claimable, claimed, least) = claim_job-IsLeastClaim s t worker_id region pool j c h in
      (claimable, claimed)

  -- In a consistent store, the job that a claim returns has the least id of the claimable ones.
  pub claim_job-least :
      (s t : MemoryStateStore V) (worker_id region pool i : String) (j : PlatformJobRecord V)
      → IsConsistent s
      → claim_job s worker_id region pool ≡ ok (t, some j)
      → Claimable s region pool i
      → (j.job_id ≡ i) ⊎ (text_lt j.job_id i ≡ true)
  claim_job-least s t worker_id region pool i j c h b =
      let (claimable, claimed, least) = claim_job-IsLeastClaim s t worker_id region pool j c h in
      least i b

  -- A claim returns no job only where no job is claimable, and changes nothing then.
  pub claim_job-none :
      (s t : MemoryStateStore V) (worker_id region pool : String)
      → claim_job s worker_id region pool ≡ ok (t, none)
      → (t ≡ s) × ((i : String) → ¬ Claimable s region pool i)
  unfolding get_job
  claim_job-none s t worker_id region pool h =
      let (e, same) =
        claim_first-none s t worker_id (find_first (is_claimable region pool) s.jobs)
          (claim_job-ok s worker_id region pool _ h) in
      (
        same,
        λ i b. cc (
          Claimable-test s region pool i b,
          find_first-none (is_claimable region pool) s.jobs i b.job e b.stored,
        ),
      )
