-- ===== src/RateLimit/Buckets.antt =====
-- src/rate_limit.rs: how many requests a bucket admits in a window.
use ops_light_secrets_server.Prelude.{
  ℕ, zero, suc, ◌+◌, ◌-◌, ◌≤◌, ◌≡◌, ◌≢◌, min, List, [], ◌∷◌, arith, ltb, ◌==◌, if◌then◌else◌,
  replicate,
}
use ops_light_secrets_server.RateLimit.{Bucket, consume}

-- How many of the requests, one in each of the windows, the bucket admits in window `w`.
unfoldable pub admitted : ℕ → ℕ → List ℕ → Bucket → ℕ
unfolding consume
admitted w allowance [] bucket = 0
admitted w allowance (window ∷ rest) bucket =
    let (taken, next) = consume window allowance bucket in
    let later = admitted w allowance rest next in
    if taken then (if window == w then 1 + later else later) else later

-- The windows do not go back, from `from` on.
abbrev pub Forward : ℕ → List ℕ → Type 0
Forward from [] = Unit
Forward from (window ∷ rest) = (from ≤ window) × Forward window rest

-- What is left of the allowance in window `w`.
abbrev pub left : ℕ → ℕ → Bucket → ℕ
left w allowance bucket =
    if bucket.window == w
    then allowance - bucket.used
    else if ltb bucket.window w
    then allowance
    else 0

admitted-left :
    (w allowance : ℕ) (windows : List ℕ) (bucket : Bucket)
    → Forward bucket.window windows
    → admitted w allowance windows bucket ≤ left w allowance bucket
unfolding admitted
admitted-left w allowance [] bucket f = omega arith
admitted-left w allowance (window ∷ rest) bucket f =
    ground (arith, admitted-left w allowance rest (consume window allowance bucket).1)

-- In any sequence of requests whose windows do not go back, a bucket admits in each window at most
-- the allowance.
pub admitted-allowance :
    (w allowance : ℕ) (windows : List ℕ) (bucket : Bucket)
    → Forward bucket.window windows
    → admitted w allowance windows bucket ≤ allowance
admitted-allowance w allowance windows bucket f =
    ground (arith, admitted-left w allowance windows bucket f)

burst :
    (w allowance n used : ℕ)
    → admitted w allowance (replicate n w) (record { window = w; used = used })
      ≡ min n (allowance - used)
unfolding admitted
burst w allowance zero used = ground arith
burst w allowance (suc n) used =
    ground (arith, burst w allowance n (used + 1), burst w allowance n used)

-- Of `n` requests in a window that the bucket has not seen, exactly the first ones up to the
-- allowance are admitted: no request is refused while there is allowance left.
pub admitted-burst :
    (w allowance n : ℕ) (bucket : Bucket)
    → bucket.window ≢ w
    → admitted w allowance (replicate n w) bucket ≡ min n allowance
unfolding admitted
admitted-burst w allowance zero bucket h = ground arith
admitted-burst w allowance (suc n) bucket h =
    ground (arith, burst w allowance n 1, burst w allowance n 0)
