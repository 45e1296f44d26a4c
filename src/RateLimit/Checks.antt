-- ===== src/RateLimit/Checks.antt =====
-- src/rate_limit.rs: the checks of a request against the buckets, and taking the aggregates.
use ops_light_secrets_server.Prelude.{
  ℕ, ◌-◌, ◌*◌, ◌/◌, ◌%◌, min, Bool, not, Option, none, some, List, [], ◌∷◌, ◌++◌, if◌then◌else◌,
  unwrap_or, get_elem?, set, map, u64_max, saturating_add,
}
use ops_light_secrets_server.Prelude.Text.{Text, text}
use ops_light_secrets_server.Prelude.Result.{Result, ok, err}
use ops_light_secrets_server.RateLimit.{
  UnauthenticatedClass, AggregateClass, authenticated, rate, DropAggregate, RateLimitConfig,
  RateLimitError, rate_limited, Bucket, default_bucket, AggregateKey, LimiterState, consume,
  record_locked,
}

abbrev pub to_class : UnauthenticatedClass → AggregateClass
to_class UnauthenticatedClass.login = AggregateClass.login
to_class UnauthenticatedClass.probe = AggregateClass.probe

-- One bucket of a table. The index is that of `hash_bucket`, which is in range; out of range, where
-- the code would panic, the table stays.
unfoldable pub consume_at : ℕ → ℕ → ℕ → List Bucket → Bool × List Bucket
consume_at index window allowance buckets =
    let (admitted, bucket) =
      consume window allowance (unwrap_or (get_elem? buckets index) default_bucket) in
    (admitted, set buckets index bucket)

abbrev pub buckets_of : UnauthenticatedClass → LimiterState → List Bucket
buckets_of UnauthenticatedClass.login s = s.login
buckets_of UnauthenticatedClass.probe s = s.probe

abbrev pub with_buckets : UnauthenticatedClass → List Bucket → LimiterState → LimiterState
with_buckets UnauthenticatedClass.login buckets s = record s { login = buckets }
with_buckets UnauthenticatedClass.probe buckets s = record s { probe = buckets }

abbrev pub allowance_of : UnauthenticatedClass → RateLimitConfig → ℕ
allowance_of UnauthenticatedClass.login config = config.login_attempts
allowance_of UnauthenticatedClass.probe config = config.probe_attempts

unfoldable pub aggregate : RateLimitConfig → AggregateKey × ℕ → DropAggregate
aggregate config (key, count) =
    let start = min (key.window * config.window_milliseconds) u64_max in
    record {
      class = key.class;
      reason = key.reason;
      bucket_id = key.bucket_id;
      count = count;
      window_start_milliseconds = start;
      window_end_milliseconds = saturating_add start (config.window_milliseconds - 1);
    }

unfoldable pub take_aggregates : RateLimitConfig → LimiterState → List DropAggregate × LimiterState
take_aggregates config s = (map (aggregate config) s.aggregates, record s { aggregates = [] })

-- `keyed_hash` is the number in the first 8 bytes of the keyed BLAKE3 hash, least significant first.
module _ (keyed_hash : List ℕ → ℕ) where
  unfoldable pub hash_bucket : List ℕ → List ℕ → ℕ → ℕ
  hash_bucket domain value count = keyed_hash (domain ++ value) % count

  unfoldable pub source_bucket : RateLimitConfig → Option Text → ℕ
  source_bucket config none = 0
  source_bucket config (some source) =
      hash_bucket (text "source" ++ 0 ∷ []) source config.source_shards

  unfoldable pub identity_bucket : RateLimitConfig → List ℕ → ℕ
  identity_bucket config identity_id =
      hash_bucket (text "identity" ++ 0 ∷ []) identity_id config.identity_shards

  unfoldable pub check_unauthenticated :
      RateLimitConfig
      → UnauthenticatedClass
      → Option Text
      → ℕ
      → LimiterState
      → Result RateLimitError ℕ × LimiterState
  check_unauthenticated config class source now_milliseconds s =
      let window = now_milliseconds / config.window_milliseconds in
      let bucket_id = source_bucket config source in
      let (admitted, global) = consume window config.global_attempts s.global in
      let counted = record s { global = global } in
      let (local, buckets) =
        consume_at bucket_id window (allowance_of class config) (buckets_of class counted) in
      if not admitted
      then (err rate_limited, record_locked config (to_class class) rate bucket_id window counted)
      else if not local
      then (
        err rate_limited,
        record_locked config (to_class class) rate bucket_id window
            (with_buckets class buckets counted),
      )
      else (ok bucket_id, with_buckets class buckets counted)

  unfoldable pub check_authenticated :
      RateLimitConfig → List ℕ → ℕ → LimiterState → Result RateLimitError ℕ × LimiterState
  check_authenticated config identity_id now_milliseconds s =
      let window = now_milliseconds / config.window_milliseconds in
      let bucket_id = identity_bucket config identity_id in
      let (admitted, buckets) = consume_at bucket_id window config.identity_attempts s.identity in
      let counted = record s { identity = buckets } in
      if not admitted
      then (err rate_limited, record_locked config authenticated rate bucket_id window counted)
      else (ok bucket_id, counted)
