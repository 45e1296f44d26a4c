-- ===== src/RateLimit.antt =====
-- src/rate_limit.rs: the fixed buckets that limit requests, and the bounded table of dropped ones.
-- The middleware that calls them, and the semaphore, are axum's and tokio's.
pub mod Checks
pub mod Examples
pub mod Buckets
pub mod Aggregates
pub mod Limiter
pub mod Admissions
use Prim.Native.Nat.Ordering.{eq}
use ops_light_secrets_server.Prelude.{
  ℕ, ◌+◌, ◌-◌, ◌*◌, ◌/◌, ◌%◌, ◌^◌, ◌≡◌, refl, min, Bool, true, false, not, ◌&&◌, ◌||◌, Option, none,
  some, List, [], ◌∷◌, ◌++◌, leb, ltb, ◌==◌, if◌then◌else◌, is_some, unwrap_or, length, replicate,
  get_elem?, set, map, u64_max, saturating_add, arith, ap,
}
use ops_light_secrets_server.Prelude.Order.{
  Ord, list_ord, compare_list, compare_list_self, compare_list-eq, compare_list-flip,
  compare_list_trans,
}
use ops_light_secrets_server.Prelude.Text.{Text, text}
use ops_light_secrets_server.Prelude.Result.{Result, ok, err}
use ops_light_secrets_server.BTreeMap
use ops_light_secrets_server.BTreeMap.{BTreeMap}

abbrev pub u16_max : ℕ
u16_max = 65535

pub data UnauthenticatedClass : Type 0 where
  login probe : UnauthenticatedClass

pub data DropReason : Type 0 where
  rate oversize malformed concurrency : DropReason

pub data AggregateClass : Type 0 where
  login probe authenticated overflow : AggregateClass

pub record DropAggregate : Type 0 where
  pub class : AggregateClass
  pub reason : DropReason
  pub bucket_id : ℕ
  pub count : ℕ
  pub window_start_milliseconds : ℕ
  pub window_end_milliseconds : ℕ

pub record RateLimitConfig : Type 0 where
  pub window_milliseconds : ℕ
  pub global_attempts : ℕ
  pub login_attempts : ℕ
  pub probe_attempts : ℕ
  pub identity_attempts : ℕ
  pub source_shards : ℕ
  pub identity_shards : ℕ
  pub max_aggregates : ℕ
  pub unauthenticated_body_bytes : ℕ
  pub authenticated_body_bytes : ℕ
  pub authenticated_concurrency : ℕ

pub data RateLimitError : Type 0 where
  invalid_config rate_limited : RateLimitError

abbrev pub default_config : RateLimitConfig
default_config = record {
  window_milliseconds = 60000;
  global_attempts = 10000;
  login_attempts = 20;
  probe_attempts = 120;
  identity_attempts = 600;
  source_shards = 256;
  identity_shards = 256;
  max_aggregates = 1024;
  unauthenticated_body_bytes = 65536;
  authenticated_body_bytes = 1048576;
  authenticated_concurrency = 128;
}

-- `RateLimitConfig::validate`
unfoldable pub validate_config : RateLimitConfig → Result RateLimitError RateLimitConfig
validate_config c =
    if c.window_milliseconds == 0
      || c.global_attempts == 0
      || c.login_attempts == 0
      || c.probe_attempts == 0
      || c.identity_attempts == 0
      || c.source_shards == 0
      || ltb u16_max c.source_shards
      || c.identity_shards == 0
      || ltb u16_max c.identity_shards
      || c.max_aggregates == 0
      || c.unauthenticated_body_bytes == 0
      || c.authenticated_body_bytes == 0
      || c.authenticated_concurrency == 0
    then err invalid_config
    else ok c

pub record Bucket : Type 0 where
  pub window : ℕ
  pub used : ℕ

abbrev pub default_bucket : Bucket
default_bucket = record { window = 0; used = 0 }

pub record AggregateKey : Type 0 where
  pub class : AggregateClass
  pub reason : DropReason
  pub bucket_id : ℕ
  pub window : ℕ

abbrev pub class_code : AggregateClass → ℕ
class_code AggregateClass.login = 0
class_code AggregateClass.probe = 1
class_code authenticated = 2
class_code overflow = 3

abbrev pub reason_code : DropReason → ℕ
reason_code rate = 0
reason_code oversize = 1
reason_code malformed = 2
reason_code concurrency = 3

class_code-injective : (a b : AggregateClass) → class_code a ≡ class_code b → a ≡ b
class_code-injective a b h = ground arith

reason_code-injective : (a b : DropReason) → reason_code a ≡ reason_code b → a ≡ b
reason_code-injective a b h = ground arith

abbrev pub key_code : AggregateKey → List ℕ
key_code k = class_code k.class ∷ reason_code k.reason ∷ k.bucket_id ∷ k.window ∷ []

pub key_code-injective : (a b : AggregateKey) → key_code a ≡ key_code b → a ≡ b
key_code-injective a b h =
    ground (arith, class_code-injective a.class b.class, reason_code-injective a.reason b.reason)

-- The derived `Ord`: by the class, the reason, the bucket and then the window.
instance abbrev pub key_ord : Ord AggregateKey
key_ord = record {
  cmp = λ a b. compare_list (key_code a) (key_code b);
  cmp_self = λ a. compare_list_self (key_code a);
  cmp_eq = λ a b h. key_code-injective a b (compare_list-eq (key_code a) (key_code b) h);
  cmp_flip = λ a b. compare_list-flip (key_code a) (key_code b);
  cmp_trans = λ a b c h k. compare_list_trans (key_code a) (key_code b) (key_code c) h k;
}

pub record LimiterState : Type 0 where
  pub global : Bucket
  pub login : List Bucket
  pub probe : List Bucket
  pub identity : List Bucket
  pub aggregates : BTreeMap AggregateKey ℕ

-- The state that `RateLimitService::new` makes.
unfoldable pub new_state : RateLimitConfig → LimiterState
new_state c = record {
  global = default_bucket;
  login = replicate c.source_shards default_bucket;
  probe = replicate c.source_shards default_bucket;
  identity = replicate c.identity_shards default_bucket;
  aggregates = [];
}

unfoldable pub consume : ℕ → ℕ → Bucket → Bool × Bucket
consume window allowance bucket =
    let used = if bucket.window == window then bucket.used else 0 in
    if leb allowance used
    then (false, record { window = window; used = used })
    else (true, record { window = window; used = used + 1 })

-- `*entry(key).or_insert(0) += count` on `u64`, which wraps in a release build.
unfoldable pub add_count : AggregateKey → ℕ → BTreeMap AggregateKey ℕ → BTreeMap AggregateKey ℕ
add_count key count m = BTreeMap.insert key ((unwrap_or (BTreeMap.get key m) 0 + count) % 2 ^ 64) m

-- No key and no room.
abbrev pub full : ℕ → AggregateKey → BTreeMap AggregateKey ℕ → Bool
full max_aggregates key m = not (BTreeMap.contains_key key m) && leb max_aggregates (length m)

-- The first key makes room, its count added to that of `key`.
unfoldable pub merge_first : AggregateKey → BTreeMap AggregateKey ℕ → BTreeMap AggregateKey ℕ
merge_first key m = elim (BTreeMap.first_key m) [
  | none ↦ m
  | some oldest ↦ add_count key (unwrap_or (BTreeMap.get oldest m) 0) (BTreeMap.remove oldest m)
]

unfoldable pub overflow_key : DropReason → ℕ → AggregateKey
overflow_key reason window = record {
  class = overflow;
  reason = reason;
  bucket_id = u16_max;
  window = window;
}

-- `record_locked`, on the table.
unfoldable pub record_drop : ℕ → AggregateKey → BTreeMap AggregateKey ℕ → BTreeMap AggregateKey ℕ
record_drop max_aggregates key m =
    let other = overflow_key key.reason key.window in
    if full max_aggregates key m
    then (if full max_aggregates other m
        then add_count other 1 (merge_first other m)
        else add_count other 1 m)
    else add_count key 1 m

unfoldable pub record_locked :
    RateLimitConfig → AggregateClass → DropReason → ℕ → ℕ → LimiterState → LimiterState
record_locked config class reason bucket_id window s = record s {
  aggregates =
      record_drop config.max_aggregates
        (record { class = class; reason = reason; bucket_id = bucket_id; window = window })
        s.aggregates;
}
