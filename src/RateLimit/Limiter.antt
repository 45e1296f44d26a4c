-- ===== src/RateLimit/Limiter.antt =====
-- src/rate_limit.rs: the checks keep the limiter in shape: fixed tables of buckets, every index in
-- range, and a bounded table of drops.
use ops_light_secrets_server.Prelude.{
  ℕ, zero, suc, ◌≤◌, ◌<◌, ◌≡◌, refl, Bool, true, false, Option, none, some, List, [], ◌∷◌, arith,
  if◌then◌else◌, length, set, length-replicate,
}
use ops_light_secrets_server.Prelude.Text.{Text}
use ops_light_secrets_server.Prelude.Result.{Result, ok}
use ops_light_secrets_server.RateLimit.{
  Bucket, RateLimitConfig, RateLimitError, validate_config, LimiterState, new_state,
  UnauthenticatedClass, AggregateClass, DropReason, record_locked, u16_max,
}
use ops_light_secrets_server.RateLimit.Checks.{
  hash_bucket, source_bucket, identity_bucket, consume_at, check_unauthenticated,
  check_authenticated, take_aggregates, with_buckets, buckets_of,
}
use ops_light_secrets_server.RateLimit.Aggregates.{TableOk, record_drop-TableOk}

pub record LimiterOk (config : RateLimitConfig) (s : LimiterState) : Type 0 where
  pub login : length s.login ≡ config.source_shards
  pub probe : length s.probe ≡ config.source_shards
  pub identity : length s.identity ≡ config.identity_shards
  pub table : TableOk config.max_aggregates s.aggregates

-- The configuration passes its validation.
abbrev pub IsValid : RateLimitConfig → Type 0
IsValid config = validate_config config ≡ ok config

valid-bounds :
    (config : RateLimitConfig)
    → IsValid config
    → (1 ≤ config.source_shards)
      × (1 ≤ config.identity_shards)
      × (1 ≤ config.max_aggregates)
      × (config.source_shards ≤ u16_max)
      × (config.identity_shards ≤ u16_max)
unfolding validate_config
valid-bounds config h = (ground arith, ground arith, ground arith, ground arith, ground arith)

length-set :
    (buckets : List Bucket) (i : ℕ) (b : Bucket) → length (set buckets i b) ≡ length buckets
length-set [] i b = refl
length-set (x ∷ xs) zero b = refl
length-set (x ∷ xs) (suc i) b = omega (arith, length-set xs i b)

-- The bucket of a source or an identity is in the range of its table, and fits a `u16`.
pub bucket-in_range :
    (keyed_hash : List ℕ → ℕ) (config : RateLimitConfig) (source : Option Text)
    (identity_id : List ℕ)
    → IsValid config
    → (source_bucket keyed_hash config source < config.source_shards)
      × (identity_bucket keyed_hash config identity_id < config.identity_shards)
      × (source_bucket keyed_hash config source ≤ u16_max)
      × (identity_bucket keyed_hash config identity_id ≤ u16_max)
unfolding source_bucket identity_bucket hash_bucket
bucket-in_range keyed_hash config none identity_id h =
    let (a, b, _, c, d) = valid-bounds config h in
    (ground arith, ground arith, ground arith, ground arith)
bucket-in_range keyed_hash config (some source) identity_id h =
    let (a, b, _, c, d) = valid-bounds config h in
    (ground arith, ground arith, ground arith, ground arith)

recorded :
    (config : RateLimitConfig) (class : AggregateClass) (reason : DropReason) (bucket_id window : ℕ)
    (s : LimiterState)
    → IsValid config
    → LimiterOk config s
    → LimiterOk config (record_locked config class reason bucket_id window s)
unfolding record_locked
recorded config class reason bucket_id window s v h = record {
  login = h.login;
  probe = h.probe;
  identity = h.identity;
  table =
      (record_drop-TableOk config.max_aggregates _ s.aggregates (valid-bounds config v).2
        h.table).0;
}

with_buckets-Ok :
    (config : RateLimitConfig) (class : UnauthenticatedClass) (i : ℕ) (b : Bucket)
    (s : LimiterState)
    → LimiterOk config s
    → LimiterOk config (with_buckets class (set (buckets_of class s) i b) s)
with_buckets-Ok config UnauthenticatedClass.login i b s h = record {
  login = ground (arith, length-set s.login i b, h.login);
  probe = h.probe;
  identity = h.identity;
  table = h.table;
}
with_buckets-Ok config UnauthenticatedClass.probe i b s h = record {
  login = h.login;
  probe = ground (arith, length-set s.probe i b, h.probe);
  identity = h.identity;
  table = h.table;
}

global-Ok :
    (config : RateLimitConfig) (b : Bucket) (s : LimiterState)
    → LimiterOk config s
    → LimiterOk config (record s { global = b })
global-Ok config b s h = record {
  login = h.login;
  probe = h.probe;
  identity = h.identity;
  table = h.table;
}

identity-Ok :
    (config : RateLimitConfig) (i : ℕ) (b : Bucket) (s : LimiterState)
    → LimiterOk config s
    → LimiterOk config (record s { identity = set s.identity i b })
identity-Ok config i b s h = record {
  login = h.login;
  probe = h.probe;
  identity = ground (arith, length-set s.identity i b, h.identity);
  table = h.table;
}

either-Ok :
    (config : RateLimitConfig) (b : Bool) (x y : Result RateLimitError ℕ × LimiterState)
    → LimiterOk config x.1
    → LimiterOk config y.1
    → LimiterOk config (if b then x else y).1
either-Ok config true x y h k = h
either-Ok config false x y h k = k

-- With a valid configuration, every check of a request, whatever its class, source, identity and
-- time, and whether it admits or refuses it, leaves the tables of buckets at their fixed sizes and
-- the table of drops in order and within its slots.
pub check-LimiterOk :
    (keyed_hash : List ℕ → ℕ) (config : RateLimitConfig) (class : UnauthenticatedClass)
    (source : Option Text) (identity_id : List ℕ) (now : ℕ) (s : LimiterState)
    → IsValid config
    → LimiterOk config s
    → LimiterOk config (check_unauthenticated keyed_hash config class source now s).1
      × LimiterOk config (check_authenticated keyed_hash config identity_id now s).1
unfolding check_unauthenticated check_authenticated consume_at
check-LimiterOk keyed_hash config class source identity_id now s v h = (
  search (either-Ok, recorded, with_buckets-Ok, global-Ok) depth 24,
  search (either-Ok, recorded, identity-Ok) depth 24,
)

-- The limiter that `new` makes is in shape.
pub new_state-LimiterOk : (config : RateLimitConfig) → LimiterOk config (new_state config)
unfolding new_state
new_state-LimiterOk config = record {
  login = length-replicate config.source_shards _;
  probe = length-replicate config.source_shards _;
  identity = length-replicate config.identity_shards _;
  table = record { sorted = tt; fits = omega arith };
}

-- Taking the aggregates leaves the limiter in shape.
take_aggregates-LimiterOk :
    (config : RateLimitConfig) (s : LimiterState)
    → LimiterOk config s
    → LimiterOk config (take_aggregates config s).1
unfolding take_aggregates
take_aggregates-LimiterOk config s h = record {
  login = h.login;
  probe = h.probe;
  identity = h.identity;
  table = record { sorted = tt; fits = omega arith };
}
