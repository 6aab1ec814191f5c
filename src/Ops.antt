-- ===== src/Ops.antt =====
-- PlatformService/PlatformOps/OpsManager.cpp: the rate limiter. Times are seconds since the epoch;
-- a call with an earlier time than its window's start is in the window, as the signed difference
-- has it.
mod Examples
pub mod Windows
use styio_platform.Base.{
  ℕ, ◌+◌, ◌-◌, String, Bool, true, false, ◌||◌, Option, none, some, List, [], ◌∷◌, ◌==◌,
  if◌then◌else◌, concat, leb, eqb,
}
use styio_platform.Base.Dict.{Dict, get, put}
use styio_platform.Json.{ℤ, lt_one}

pub record Bucket : Type 0 where
  pub window_start : ℕ
  pub count : ℕ

pub record PlatformRateLimiter : Type 0 where
  pub buckets : Dict Bucket

-- `buckets_[key]`, which makes a bucket of zeros where there is none
abbrev pub bucket_or_new : Option Bucket → Bucket
bucket_or_new none = record { window_start = 0; count = 0 }
bucket_or_new (some b) = b

-- A bucket after a call at `now`: a new window where there is none or the last one is over.
unfoldable pub counted : ℕ → ℕ → Bucket → Bucket
counted window now b =
    let open_bucket =
      if eqb b.window_start 0 || leb window (now - b.window_start)
      then record { window_start = now; count = 0 }
      else b in
    record open_bucket { count = open_bucket.count + 1 }

-- `bucket.count <= limit` for a positive limit
unfoldable pub allow_in : ℕ → ℕ → ℕ → String → PlatformRateLimiter → PlatformRateLimiter × Bool
unfolding counted
allow_in limit window now key l =
    let bucket = counted window now (bucket_or_new (get key l.buckets)) in
    (record { buckets = put key bucket l.buckets }, leb bucket.count limit)

abbrev pub magnitude : ℤ → ℕ
magnitude (ℤ.pos n) = n
magnitude (ℤ.negsuc n) = 0

unfoldable pub allow :
    PlatformRateLimiter → String → String → ℤ → ℤ → ℕ → PlatformRateLimiter × Bool
unfolding allow_in
allow l subject operation limit window_seconds now_seconds =
    if lt_one limit || lt_one window_seconds
    then (l, true)
    else allow_in (magnitude limit) (magnitude window_seconds) now_seconds
        (concat subject (concat ":" operation)) l
