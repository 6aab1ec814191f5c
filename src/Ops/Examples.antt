-- ===== src/Ops/Examples.antt =====
-- The rate limiter's theorems at a limit of two calls in sixty seconds.
use styio_platform.Base.{◌≤◌, ◌≡◌, ◌≢◌, refl, String, [], ◌∷◌, arith, eq_refl, ◌==◌, false}
use styio_platform.Base.Dict.{get}
use styio_platform.Json.{ℤ}
use styio_platform.Ops.{PlatformRateLimiter, allow}
use styio_platform.Ops.Windows.{let_through, let_through-window, allow-other}

abbrev fresh : PlatformRateLimiter
fresh = record { buckets = [] }

let_through-window_example :
    let_through (ℤ.pos 2) (ℤ.pos 60) "node-1" "submitJob" (100 ∷ 101 ∷ 110 ∷ 159 ∷ []) fresh ≤ 2
unfolding get
let_through-window_example =
    let_through-window 1 59 100 "node-1" "submitJob" (101 ∷ 110 ∷ 159 ∷ []) fresh (omega arith) refl
      (omega arith, (omega arith, (omega arith, tt)))

differs : (s t : String) → (s == t) ≡ false → s ≢ t
differs s t h e = cc (h, e, eq_refl s)

allow-other_example :
    get "node-2:submitJob" (allow fresh "node-1" "submitJob" (ℤ.pos 2) (ℤ.pos 60) 100).0.buckets
    ≡ get "node-2:submitJob" fresh.buckets
allow-other_example =
    allow-other fresh "node-1" "submitJob" (ℤ.pos 2) (ℤ.pos 60) 100 "node-2:submitJob"
      (differs "node-1:submitJob" "node-2:submitJob" refl)
