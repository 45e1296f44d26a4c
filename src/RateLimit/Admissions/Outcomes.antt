-- ===== src/RateLimit/Admissions/Outcomes.antt =====
-- src/rate_limit.rs: the outcomes of a check of a request before its authentication.
use ops_light_secrets_server.Prelude.{
  ℕ, ◌/◌, ◌≡◌, refl, Bool, true, false, not, Option, List, arith, if◌then◌else◌, inl, inr, ◌⊎◌,
}
use ops_light_secrets_server.Prelude.Text.{Text}
use ops_light_secrets_server.Prelude.Result.{Result, ok, err, is_ok}
use ops_light_secrets_server.RateLimit.{
  Bucket, RateLimitConfig, LimiterState, RateLimitError, UnauthenticatedClass, consume,
  record_locked, rate, rate_limited,
}
use ops_light_secrets_server.RateLimit.Checks.{
  source_bucket, consume_at, check_unauthenticated, to_class, buckets_of, allowance_of,
  with_buckets,
}

abbrev pub Outcome : Type 0
Outcome = Result RateLimitError ℕ × LimiterState

-- The three ways in which a check ends.
pick :
    (P : Outcome → Type 0) (g l : Bool) (x y z : Outcome)
    → (g ≡ false → P x)
    → (g ≡ true → l ≡ false → P y)
    → (g ≡ true → l ≡ true → P z)
    → P (if not g then x else if not l then y else z)
pick P false l x y z a b c = a refl
pick P true false x y z a b c = b refl refl
pick P true true x y z a b c = c refl refl

module _ (keyed_hash : List ℕ → ℕ) (config : RateLimitConfig) where
  -- The three outcomes of a check.
  module _ (c : UnauthenticatedClass) (source : Option Text) (now : ℕ) (s : LimiterState) where
    abbrev window : ℕ
    window = now / config.window_milliseconds

    abbrev globally : Bool × Bucket
    globally = consume window config.global_attempts s.global

    abbrev counted : LimiterState
    counted = record s { global = globally.1 }

    abbrev locally : Bool × List Bucket
    locally =
        consume_at (source_bucket keyed_hash config source) window (allowance_of c config)
          (buckets_of c counted)

    abbrev locked : LimiterState → Outcome
    locked t = (
      err rate_limited,
      record_locked config (to_class c) rate (source_bucket keyed_hash config source) window t,
    )

    check-cases :
        (P : Outcome → Type 0)
        → (globally.0 ≡ false → P (locked counted))
        → (globally.0 ≡ true → locally.0 ≡ false → P (locked (with_buckets c locally.1 counted)))
        → (globally.0 ≡ true
            → locally.0 ≡ true
            → P (ok (source_bucket keyed_hash config source), with_buckets c locally.1 counted))
        → P (check_unauthenticated keyed_hash config c source now s)
    unfolding check_unauthenticated
    check-cases P x y z = pick P globally.0 locally.0 _ _ _ x y z

  -- A check takes from the global bucket, and lets nothing through that it refuses.
  abbrev Globally : ℕ → LimiterState → Outcome → Type 0
  Globally now s t =
      (t.1.global ≡ (consume (now / config.window_milliseconds) config.global_attempts s.global).1)
      × (is_ok t.0 ≡ true
          → (consume (now / config.window_milliseconds) config.global_attempts s.global).0 ≡ true)

  pub global-check :
      (c : UnauthenticatedClass) (source : Option Text) (now : ℕ) (s : LimiterState)
      → Globally now s (check_unauthenticated keyed_hash config c source now s)
  unfolding record_locked
  global-check UnauthenticatedClass.login source now s =
      check-cases UnauthenticatedClass.login source now s (Globally now s)
        (λ g. (refl, λ h. ground (arith, h))) (λ g l. (refl, λ h. g)) (λ g l. (refl, λ h. g))
  global-check UnauthenticatedClass.probe source now s =
      check-cases UnauthenticatedClass.probe source now s (Globally now s)
        (λ g. (refl, λ h. ground (arith, h))) (λ g l. (refl, λ h. g)) (λ g l. (refl, λ h. g))

  -- What a check does to the buckets of its class: it leaves them, or takes from the source's own.
  abbrev pub Locally : UnauthenticatedClass → Option Text → ℕ → LimiterState → Outcome → Type 0
  Locally c source now s t =
      ((buckets_of c t.1 ≡ buckets_of c s) × (is_ok t.0 ≡ false))
      ⊎ ((buckets_of c t.1
            ≡ (consume_at (source_bucket keyed_hash config source)
                (now / config.window_milliseconds) (allowance_of c config) (buckets_of c s)).1)
          × (is_ok t.0 ≡ true
              → (consume_at (source_bucket keyed_hash config source)
                  (now / config.window_milliseconds) (allowance_of c config) (buckets_of c s)).0
                ≡ true))

  pub local-check :
      (c : UnauthenticatedClass) (source : Option Text) (now : ℕ) (s : LimiterState)
      → Locally c source now s (check_unauthenticated keyed_hash config c source now s)
  unfolding record_locked
  local-check UnauthenticatedClass.login source now s =
      check-cases UnauthenticatedClass.login source now s
        (Locally UnauthenticatedClass.login source now s) (λ g. inl (refl, refl))
        (λ g l. inr (refl, λ h. ground (arith, h))) (λ g l. inr (refl, λ h. l))
  local-check UnauthenticatedClass.probe source now s =
      check-cases UnauthenticatedClass.probe source now s
        (Locally UnauthenticatedClass.probe source now s) (λ g. inl (refl, refl))
        (λ g l. inr (refl, λ h. ground (arith, h))) (λ g l. inr (refl, λ h. l))

  -- The buckets of the other class stay.
  pub other-check :
      (source : Option Text) (now : ℕ) (s : LimiterState)
      → ((check_unauthenticated keyed_hash config UnauthenticatedClass.login source now s).1.probe
          ≡ s.probe)
        × ((check_unauthenticated keyed_hash config UnauthenticatedClass.probe source now s).1.login
            ≡ s.login)
  unfolding record_locked
  other-check source now s = (
    check-cases UnauthenticatedClass.login source now s (λ t. t.1.probe ≡ s.probe) (λ g. refl)
        (λ g l. refl) (λ g l. refl),
    check-cases UnauthenticatedClass.probe source now s (λ t. t.1.login ≡ s.login) (λ g. refl)
        (λ g l. refl) (λ g l. refl),
  )
