-- ===== src/RateLimit/Admissions.antt =====
-- src/rate_limit.rs: how many requests the limiter as a whole lets through in a window.
pub mod Allowance
pub mod Counting
pub mod Outcomes
use ops_light_secrets_server.Prelude.{
  ℕ, zero, suc, ◌+◌, ◌/◌, ◌≤◌, ◌<◌, ◌≡◌, ◌≢◌, ◌∙◌, refl, sym, ap, subst, Bool, true, false, not,
  ◌&&◌, Option, some, List, [], ◌∷◌, arith, ◌==◌, length, set, replicate, get_elem?, unwrap_or,
  if◌then◌else◌, Bool-cases, inl, inr, ◌⊎◌,
}
use ops_light_secrets_server.Prelude.Text.{Text}
use ops_light_secrets_server.Prelude.Result.{Result, ok, err, is_ok}
use ops_light_secrets_server.RateLimit.{
  Bucket, default_bucket, RateLimitConfig, new_state, LimiterState, RateLimitError,
  UnauthenticatedClass, consume, record_locked, rate, rate_limited,
}
use ops_light_secrets_server.RateLimit.Checks.{
  source_bucket, consume_at, check_unauthenticated, to_class, buckets_of, allowance_of,
  with_buckets,
}
use ops_light_secrets_server.RateLimit.Buckets.{left}
use ops_light_secrets_server.RateLimit.Limiter.{
  IsValid, LimiterOk, check-LimiterOk, new_state-LimiterOk, bucket-in_range,
}

-- A request before its authentication.
pub record Request : Type 0 where
  pub class : UnauthenticatedClass
  pub source : Option Text
  pub now : ℕ

-- Two classes of requests are the same.
abbrev pub same_class : UnauthenticatedClass → UnauthenticatedClass → Bool
same_class UnauthenticatedClass.login UnauthenticatedClass.login = true
same_class UnauthenticatedClass.login UnauthenticatedClass.probe = false
same_class UnauthenticatedClass.probe UnauthenticatedClass.login = false
same_class UnauthenticatedClass.probe UnauthenticatedClass.probe = true

module _ (keyed_hash : List ℕ → ℕ) (config : RateLimitConfig) where
  abbrev pub window_of : Request → ℕ
  window_of r = r.now / config.window_milliseconds

  abbrev pub check : Request → LimiterState → Result RateLimitError ℕ × LimiterState
  check r = check_unauthenticated keyed_hash config r.class r.source r.now

  -- The windows of the requests do not go back, from `from` on.
  abbrev pub InOrder : ℕ → List Request → Type 0
  InOrder from [] = Unit
  InOrder from (r ∷ rest) = (from ≤ window_of r) × InOrder (window_of r) rest

  -- How many of the requests that count are let through, one after another.
  unfoldable pub admissions : (Request → Bool) → List Request → LimiterState → ℕ
  admissions counts [] s = 0
  admissions counts (r ∷ rest) s =
      (if is_ok (check r s).0 && counts r then 1 else 0) + admissions counts rest (check r s).1

  -- A request of the class, from a source of the bucket, in the window.
  abbrev pub counts_local : UnauthenticatedClass → ℕ → ℕ → Request → Bool
  counts_local c b w r =
      same_class c r.class && (source_bucket keyed_hash config r.source == b && window_of r == w)

  abbrev pub bucket_at : UnauthenticatedClass → ℕ → LimiterState → Bucket
  bucket_at c b s = unwrap_or (get_elem? (buckets_of c s) b) default_bucket
