-- ===== src/RateLimit/Admissions/Counting.antt =====
-- src/rate_limit.rs: what is let through, counted along a sequence of requests.
use ops_light_secrets_server.Prelude.{
  ℕ, ◌+◌, ◌≤◌, ◌≡◌, refl, sym, ap, subst, Bool, true, false, ◌&&◌, List, [], ◌∷◌, arith, ◌==◌,
  if◌then◌else◌, inl, inr, ◌⊎◌,
}
use ops_light_secrets_server.Prelude.Result.{is_ok}
use ops_light_secrets_server.RateLimit.{Bucket, RateLimitConfig, LimiterState, consume}
use ops_light_secrets_server.RateLimit.Buckets.{left}
use ops_light_secrets_server.RateLimit.Limiter.{IsValid, LimiterOk, check-LimiterOk}
use ops_light_secrets_server.RateLimit.Admissions.{Request, window_of, check, InOrder, admissions}

-- What one request takes from a bucket, and what is left of it.
consume-left :
    (w window allowance : ℕ) (bucket : Bucket)
    → bucket.window ≤ window
    → (if (consume window allowance bucket).0 && window == w then 1 else 0)
        + left w allowance (consume window allowance bucket).1
      ≤ left w allowance bucket
unfolding consume
consume-left w window allowance bucket h = ground arith

consume-window :
    (window allowance : ℕ) (bucket : Bucket) → (consume window allowance bucket).1.window ≡ window
unfolding consume
consume-window window allowance bucket = ground arith

-- The sum of one request and the rest, when it does not count, and when it is taken from a bucket.
skip : (x : Bool) (n l m : ℕ) → x ≡ false → n ≤ l → l ≡ m → (if x then 1 else 0) + n ≤ m
skip x n l m h k e = ground (arith, h, k, e)

take :
    (x y : Bool) (n l m : ℕ)
    → (x ≡ true → y ≡ true)
    → n ≤ l
    → (if y then 1 else 0) + l ≤ m
    → (if x then 1 else 0) + n ≤ m
take false y n l m h k e = ground (arith, k, e)
take true y n l m h k e = let taken = h refl in ground (arith, taken, k, e)

module _ (keyed_hash : List ℕ → ℕ) (config : RateLimitConfig) where
  -- What a check does to a bucket: it leaves it and lets nothing through that counts, or takes from it.
  abbrev pub Step :
      (LimiterState → Bucket) → (Request → Bool) → ℕ → ℕ → Request → LimiterState → Type 0
  Step at counts allowance w r s =
      ((at (check keyed_hash config r s).1 ≡ at s)
        × ((is_ok (check keyed_hash config r s).0 && counts r) ≡ false))
      ⊎ ((at (check keyed_hash config r s).1
            ≡ (consume (window_of keyed_hash config r) allowance (at s)).1)
          × ((is_ok (check keyed_hash config r s).0 && counts r) ≡ true
              → ((consume (window_of keyed_hash config r) allowance (at s)).0
                  && window_of keyed_hash config r == w)
                ≡ true))

  module _ (at : LimiterState → Bucket) (counts : Request → Bool) (allowance w : ℕ)
      (valid : IsValid config)
      (step : (r : Request) (s : LimiterState)
        → LimiterOk config s
        → Step at counts allowance w r s) where
    pub admissions-left :
        (requests : List Request) (from : ℕ) (s : LimiterState)
        → LimiterOk config s
        → (at s).window ≤ from
        → InOrder keyed_hash config from requests
        → admissions keyed_hash config counts requests s ≤ left w allowance (at s)
    unfolding admissions
    admissions-left [] from s good early order = omega arith
    admissions-left (r ∷ rest) from s good early (later, order) =
        let rest_ok =
          (check-LimiterOk keyed_hash config r.class r.source [] r.now s valid good).0 in
        let so_far : (at s).window ≤ window_of keyed_hash config r = omega (arith, early, later) in
        elim (step r s good) [
          | inl (same, none_) ↦
              let more =
                admissions-left rest (window_of keyed_hash config r) (check keyed_hash config r s).1
                  rest_ok (subst (λ b. b.window ≤ window_of keyed_hash config r) (sym same) so_far)
                  order in
              skip _ _ _ _ none_ more (ap (left w allowance) same)
          | inr (took, some_) ↦
              let more =
                admissions-left rest (window_of keyed_hash config r) (check keyed_hash config r s).1
                  rest_ok
                  (subst (λ b. b.window ≤ window_of keyed_hash config r) (sym took)
                    (subst (λ n. n ≤ window_of keyed_hash config r)
                      (sym (consume-window (window_of keyed_hash config r) allowance (at s)))
                      (omega arith)))
                  order in
              take _
                ((consume (window_of keyed_hash config r) allowance (at s)).0
                  && window_of keyed_hash config r == w)
                _ _ _ some_ more
                (subst
                  (λ b.
                    (if (consume (window_of keyed_hash config r) allowance (at s)).0
                          && window_of keyed_hash config r == w
                        then 1
                        else 0)
                      + left w allowance b
                    ≤ left w allowance (at s))
                  (sym took)
                  (consume-left w (window_of keyed_hash config r) allowance (at s) so_far))
        ]
