-- ===== src/Rotation/Lifecycle.antt =====
-- src/rotation.rs: the record of a rotation, its validation and its canonical encoding.
use ops_light_secrets_server.Prelude.{
  ℕ, ◌%◌, Bool, true, false, not, ◌&&◌, ◌||◌, Option, none, some, List, [], ◌∷◌, ltb, ◌==◌, length,
  is_empty, is_some, any, if◌then◌else◌,
}
use ops_light_secrets_server.Prelude.Text.{Text}
use ops_light_secrets_server.Prelude.Words.{be_bytes_of}
use ops_light_secrets_server.Prelude.Result.{Result, ok, ◌>>=◌, ◌>>◌, require, refuse, is_ok}
use ops_light_secrets_server.RawTarget.{EndpointRequest, data_kind}
use ops_light_secrets_server.Codec.{CodecError}
use ops_light_secrets_server.Codec
use ops_light_secrets_server.Codec.Encoder.{version, fixed, u8, u32, u64, bytes}
use ops_light_secrets_server.Store.Classes.{rotation_state}
use ops_light_secrets_server.Store.Sealed.{ClearRecord}

abbrev pub max_ids : ℕ
max_ids = 10000

abbrev pub max_resource : ℕ
max_resource = 1024

abbrev pub max_history : ℕ
max_history = 32

pub data RotationLifecycle : Type 0 where
  prepared cutover completed cancelled_before_cutover superseded : RotationLifecycle

-- `self as u8`
unfoldable pub lifecycle_code : RotationLifecycle → ℕ
lifecycle_code prepared = 1
lifecycle_code cutover = 2
lifecycle_code completed = 3
lifecycle_code cancelled_before_cutover = 4
lifecycle_code superseded = 5

unfoldable pub terminal : RotationLifecycle → Bool
terminal prepared = false
terminal cutover = false
terminal completed = true
terminal cancelled_before_cutover = true
terminal superseded = true

-- The derived `PartialEq`.
unfoldable pub lifecycle_eq : RotationLifecycle → RotationLifecycle → Bool
unfolding lifecycle_code
lifecycle_eq a b = lifecycle_code a == lifecycle_code b

pub record RotationTransition : Type 0 where
  pub state : RotationLifecycle
  pub effective_unix_seconds : ℕ
  pub version : ℕ

-- A `BTreeSet` of ids is the list of them in order.
pub record RotationRecord : Type 0 where
  pub id : ℕ
  pub resource : Text
  pub state : RotationLifecycle
  pub declared_consumers : List ℕ
  pub authorized_identities : List ℕ
  pub active_instances : List ℕ
  pub protected_version : ℕ
  pub expected_cas : ℕ
  pub target_version : Option ℕ
  pub actor_identity_id : ℕ
  pub prepared_unix_seconds : ℕ
  pub cutover_unix_seconds : Option ℕ
  pub history : List RotationTransition

pub data RotationError : Type 0 where
  denied invalid : RotationError
  conflict : RotationLifecycle → RotationError
  not_found stale_generation cas_conflict protected_version_unavailable integrity limit :
      RotationError

-- `split('/')`: there is always one part.
unfoldable pub split_slash : Text → Text × List Text
split_slash [] = ([], [])
split_slash (c ∷ rest) =
    let parts = split_slash rest in
    if c == b'/' then ([], parts.0 ∷ parts.1) else (c ∷ parts.0, parts.1)

unfoldable pub endpoint_for : Text → Result RotationError EndpointRequest
endpoint_for resource = do
  let parts = split_slash resource
  refuse (is_empty parts.0 || is_empty parts.1 || any is_empty parts.1) invalid
  ok (record {
    kind = data_kind;
    resource = record { mount = parts.0; canonical_segments = parts.1 };
    version = none;
  })

abbrev pub last_is : RotationLifecycle → List RotationTransition → Bool
last_is state [] = false
last_is state (entry ∷ []) = lifecycle_eq entry.state state
last_is state (entry ∷ next ∷ rest) = last_is state (next ∷ rest)

abbrev pub same_bool : Bool → Bool → Bool
same_bool true b = b
same_bool false b = not b

abbrev pub before_cutover : RotationLifecycle → Bool
before_cutover prepared = true
before_cutover cancelled_before_cutover = true
before_cutover _ = false

-- `validate`; its one error is `CodecError::Invalid`.
unfoldable pub record_valid : RotationRecord → Bool
record_valid r =
    not (r.id == 0)
    && not (r.actor_identity_id == 0)
    && is_ok (endpoint_for r.resource)
    && not (r.protected_version == 0)
    && not (r.expected_cas == 0)
    && not (r.prepared_unix_seconds == 0)
    && not (is_empty r.history)
    && not (ltb max_history (length r.history))
    && last_is r.state r.history
    && same_bool (is_some r.target_version) (is_some r.cutover_unix_seconds)
    && not (before_cutover r.state && is_some r.target_version)

unfoldable pub encode_each : List ℕ → List ℕ → List ℕ
encode_each [] out = out
encode_each (value ∷ rest) out = encode_each rest (fixed (be_bytes_of 16 value) out)

unfoldable pub encode_ids : List ℕ → List ℕ → Result CodecError (List ℕ)
encode_ids values out = do
  refuse (ltb max_ids (length values)) Codec.limit
  ok (encode_each values (u32 (length values) out))

unfoldable pub encode_optional_u64 : Option ℕ → List ℕ → List ℕ
encode_optional_u64 none out = u8 0 out
encode_optional_u64 (some value) out = u64 value (u8 1 out)

unfoldable pub encode_history : List RotationTransition → List ℕ → List ℕ
encode_history [] out = out
encode_history (transition ∷ rest) out = encode_history rest (
    u64 transition.version
      (u64 transition.effective_unix_seconds (u8 (lifecycle_code transition.state) out)))

-- `RotationRecord::encode`; `history.len() as u8` keeps the low byte.
unfoldable pub encode_record : RotationRecord → Result CodecError (List ℕ)
encode_record r = do
  require (record_valid r) Codec.invalid
  named ← bytes r.resource max_resource (fixed (be_bytes_of 16 r.id) (version 1))
  consumers ← encode_ids r.declared_consumers (u8 (lifecycle_code r.state) named)
  identities ← encode_ids r.authorized_identities consumers
  instances ← encode_ids r.active_instances identities
  let versions =
      encode_optional_u64 r.target_version (u64 r.expected_cas (u64 r.protected_version instances))
  let times =
      encode_optional_u64 r.cutover_unix_seconds
        (u64 r.prepared_unix_seconds (fixed (be_bytes_of 16 r.actor_identity_id) versions))
  ok (encode_history r.history (u8 (length r.history % 256) times))

-- `ClearRecord for RotationRecord`
abbrev pub rotation_record : ClearRecord RotationRecord
rotation_record = record { class = rotation_state; schema_version = 1; encode = encode_record }
