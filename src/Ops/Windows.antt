-- ===== src/Ops/Windows.antt =====
-- Sequences of calls to PlatformRateLimiter::Allow (OpsManager.cpp).
use styio_platform.Base.{
  ℕ, suc, ◌+◌, ◌-◌, ◌≤◌, ◌<◌, String, ◌≡◌, ◌≢◌, refl, inl, inr, Bool, true, ◌||◌, Option, List, [],
  ◌∷◌, ◌==◌, if◌then◌else◌, concat, leb, eqb, arith, eq_iff, eq_refl, All, Bool-cases, ap, ◌∙◌,
}
use styio_platform.Base.Dict.{get, get-put}
use styio_platform.Json.{ℤ, lt_one}
use styio_platform.Ops.{Bucket, PlatformRateLimiter, bucket_or_new, counted, allow_in, allow}

-- How many of the calls of one key, at these times, are let through.
pub admitted : ℕ → ℕ → String → List ℕ → PlatformRateLimiter → ℕ
unfolding allow_in
admitted limit window key [] l = 0
admitted limit window key (t ∷ ts) l =
    let (next, ok_now) = allow_in limit window t key l in
    let rest = admitted limit window key ts next in if ok_now then suc rest else rest

bucket-allow_in :
    (limit window now : ℕ) (key : String) (l : PlatformRateLimiter)
    → bucket_or_new (get key (allow_in limit window now key l).0.buckets)
      ≡ counted window now (bucket_or_new (get key l.buckets))
unfolding allow_in
bucket-allow_in limit window now key l =
    rw
      (
        get-put key key (counted window now (bucket_or_new (get key l.buckets))) l.buckets,
        eq_refl key,
      )
      refl

answer-allow_in :
    (limit window now : ℕ) (key : String) (l : PlatformRateLimiter)
    → (allow_in limit window now key l).1
      ≡ leb (counted window now (bucket_or_new (get key l.buckets))).count limit
unfolding allow_in
answer-allow_in limit window now key l = refl

-- One call is let through as long as the count, with it, is within the limit.
one_more :
    (x : Bool) (r c limit : ℕ)
    → x ≡ leb (c + 1) limit
    → r ≤ limit - (c + 1)
    → (if x then suc r else r) ≤ limit - c
one_more x r c limit h k = ground arith

-- Inside the window a call counts one more and keeps the start.
counted_inside :
    (window now : ℕ) (b : Bucket)
    → 0 < b.window_start
    → now - b.window_start < window
    → counted window now b ≡ record b { count = b.count + 1 }
unfolding counted
counted_inside window now b p q = ground arith

-- A call that opens a window is its first.
counted_first :
    (window now : ℕ) (b : Bucket)
    → (eqb b.window_start 0 || leb window (now - b.window_start)) ≡ true
    → counted window now b ≡ record { window_start = now; count = 1 }
unfolding counted
counted_first window now b p = rw p refl

-- In a window that is open, at most the rest of the limit is let through.
admitted_inside :
    (limit window : ℕ) (key : String) (ts : List ℕ) (l : PlatformRateLimiter) (b : Bucket)
    → bucket_or_new (get key l.buckets) ≡ b
    → 0 < b.window_start
    → All (λ t. t - b.window_start < window) ts
    → admitted limit window key ts l ≤ limit - b.count
unfolding admitted
admitted_inside limit window key [] l b e p q = omega arith
admitted_inside limit window key (t ∷ ts) l b e p q =
    let next = (allow_in limit window t key l).0 in
    let counts : counted window t b ≡ record b { count = b.count + 1 } =
      counted_inside window t b p q.0 in
    let rest : admitted limit window key ts next ≤ limit - (b.count + 1) =
      admitted_inside limit window key ts next (record b { count = b.count + 1 })
        (bucket-allow_in limit window t key l ∙ ap (counted window t) e ∙ counts) p q.1 in
    one_more (allow_in limit window t key l).1 (admitted limit window key ts next) b.count limit
      (answer-allow_in limit window t key l
        ∙ ap (λ (x : Bucket). leb x.count limit) (ap (counted window t) e ∙ counts))
      rest

-- From the call that opens a window, and as long as the calls stay in the window, a key gets at
-- most `limit` calls through.
pub admitted_window :
    (limit window t : ℕ) (key : String) (ts : List ℕ) (l : PlatformRateLimiter)
    → 0 < t
    → (eqb (bucket_or_new (get key l.buckets)).window_start 0
        || leb window (t - (bucket_or_new (get key l.buckets)).window_start))
      ≡ true
    → All (λ u. u - t < window) ts
    → admitted limit window key (t ∷ ts) l ≤ limit
unfolding admitted
admitted_window limit window t key ts l p opens inside =
    let next = (allow_in limit window t key l).0 in
    let rest : admitted limit window key ts next ≤ limit - 1 =
      admitted_inside limit window key ts next (record { window_start = t; count = 1 })
        (bucket-allow_in limit window t key l ∙ counted_first window t _ opens) p inside in
    let bound =
      one_more (allow_in limit window t key l).1 (admitted limit window key ts next) 0 limit
        (answer-allow_in limit window t key l
          ∙ ap (λ (x : Bucket). leb x.count limit) (counted_first window t _ opens))
        rest in
    let all_of_it : limit - 0 ≡ limit = omega arith in rw all_of_it at bound

if_apart : (k j : String) (x y : Option Bucket) → k ≢ j → (if k == j then x else y) ≡ y
if_apart k j x y n = ground (arith, eq_iff k j)

-- A call of one key leaves the bucket of every other key as it was.
pub allow-other :
    (l : PlatformRateLimiter) (subject operation : String) (limit window : ℤ) (now : ℕ)
    (key : String)
    → concat subject (concat ":" operation) ≢ key
    → get key (allow l subject operation limit window now).0.buckets ≡ get key l.buckets
unfolding allow allow_in
allow-other l subject operation limit window now key n =
    elim (Bool-cases (lt_one limit || lt_one window)) [
      | inl unlimited ↦ rw unlimited refl
      | inr limited ↦ rw limited (
          get-put (concat subject (concat ":" operation)) key _ l.buckets
          ∙ if_apart (concat subject (concat ":" operation)) key _ _ n)
    ]

-- How many of a subject's calls of one operation, at these times, are let through.
unfoldable pub let_through : ℤ → ℤ → String → String → List ℕ → PlatformRateLimiter → ℕ
unfolding allow
let_through limit window subject operation [] l = 0
let_through limit window subject operation (t ∷ ts) l =
    let (next, passes) = allow l subject operation limit window t in
    let rest = let_through limit window subject operation ts next in
    if passes then suc rest else rest

let_through-admitted :
    (n m : ℕ) (subject operation : String) (ts : List ℕ) (l : PlatformRateLimiter)
    → let_through (ℤ.pos (suc n)) (ℤ.pos (suc m)) subject operation ts l
      ≡ admitted (suc n) (suc m) (concat subject (concat ":" operation)) ts l
unfolding let_through admitted allow
let_through-admitted n m subject operation [] l = refl
let_through-admitted n m subject operation (t ∷ ts) l =
    let key = concat subject (concat ":" operation) in
    let next = (allow_in (suc n) (suc m) t key l).0 in
    ap (λ r. if (allow_in (suc n) (suc m) t key l).1 then suc r else r)
      (let_through-admitted n m subject operation ts next)

-- With a positive limit and window, from the call that opens a window and as long as the calls stay
-- in the window, at most `limit` calls of a subject and an operation are let through.
pub let_through-window :
    (n m t : ℕ) (subject operation : String) (ts : List ℕ) (l : PlatformRateLimiter)
    → 0 < t
    → (eqb (bucket_or_new (get (concat subject (concat ":" operation)) l.buckets)).window_start 0
        || leb (suc m) (
            t
            - (bucket_or_new (get (concat subject (concat ":" operation)) l.buckets)).window_start))
      ≡ true
    → All (λ u. u - t < suc m) ts
    → let_through (ℤ.pos (suc n)) (ℤ.pos (suc m)) subject operation (t ∷ ts) l ≤ suc n
let_through-window n m t subject operation ts l p opens inside =
    rw (let_through-admitted n m subject operation (t ∷ ts) l) (
      admitted_window (suc n) (suc m) t (concat subject (concat ":" operation)) ts l p opens inside)
