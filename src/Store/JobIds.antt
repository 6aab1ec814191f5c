-- ===== src/Store/JobIds.antt =====
-- The order of the ids that NextJobId gives.
use styio_platform.Base.{◌+◌, ◌%◌, ◌^◌, ◌<◌, ◌≡◌, refl, true, arith}
use styio_platform.Base.Order.{text_lt}
use styio_platform.Base.Padded.{padded_number}
use styio_platform.Base.Padded.Order.{padded_number-lt, concat-lt}
use styio_platform.Store.State.{MemoryStateStore}
use styio_platform.Store.Jobs.{next_job_id}

module _ {V : Type 0} where
  -- While the sequence number has twelve digits, each new job id is greater, as a text, than the
  -- one before it.
  pub next_job_id-lt :
      (s : MemoryStateStore V)
      → s.next_job_sequence + 1 < 1000000000000
      → text_lt (next_job_id s).0 (next_job_id (next_job_id s).1).0 ≡ true
  unfolding next_job_id
  next_job_id-lt s h =
      let n = s.next_job_sequence in
      let wrapped : (n + 1) % 2 ^ 64 ≡ n + 1 = omega arith in
      let limit : 10 ^ 12 ≡ 1000000000000 = refl in
      rw (concat-lt "job-" (padded_number n 12) (padded_number ((n + 1) % 2 ^ 64) 12), wrapped)
        (padded_number-lt 12 n (n + 1) (omega arith) (omega (arith, limit)) (omega arith))
