-- ===== src/Identity/Records.antt =====
-- src/identity.rs: identity and grant records, their validation and their lifecycle.
use ops_light_secrets_server.Prelude.{
  ℕ, Bool, true, false, not, ◌&&◌, ◌||◌, List, leb, ltb, ◌==◌, length, is_empty, any, all,
  checked_add,
}
use ops_light_secrets_server.Prelude.Text.{Text, text, text_eq, is_ascii_alphanumeric}
use ops_light_secrets_server.Prelude.Result.{Result, ok, ◌>>=◌, ◌>>◌, require, refuse, ok_or}
use ops_light_secrets_server.Identity.Capability.{Capability, is_secret, is_management}

abbrev pub management_mount : Text
management_mount = text "sys"

abbrev pub max_name : ℕ
max_name = 255

abbrev pub max_mount : ℕ
max_mount = 128

abbrev pub max_segment : ℕ
max_segment = 1024

abbrev pub max_segments : ℕ
max_segments = 256

abbrev pub max_capabilities : ℕ
max_capabilities = 64

pub data IdentityKind : Type 0 where
  human workload : IdentityKind

pub data IdentityStatus : Type 0 where
  active retired : IdentityStatus

pub data GrantStatus : Type 0 where
  active removed : GrantStatus

pub data GrantScope : Type 0 where
  exact subtree : GrantScope

abbrev pub identity_active : IdentityStatus → Bool
identity_active IdentityStatus.active = true
identity_active retired = false

abbrev pub grant_active : GrantStatus → Bool
grant_active GrantStatus.active = true
grant_active removed = false

abbrev pub scope_exact : GrantScope → Bool
scope_exact exact = true
scope_exact subtree = false

pub data IdentityError : Type 0 where
  invalid cross_plane stale_generation wrong_owner : IdentityError
  duplicate_identity duplicate_grant invalid_request_shape : IdentityError

pub record IdentityRecord : Type 0 where
  pub id : ℕ
  pub name : Text
  pub kind : IdentityKind
  pub status : IdentityStatus
  pub generation : ℕ

pub record GrantRecord : Type 0 where
  pub id : ℕ
  pub owner_identity_id : ℕ
  pub generation : ℕ
  pub status : GrantStatus
  pub mount : Text
  pub scope : GrantScope
  pub prefix_segments : List Text
  pub capabilities : List Capability

unfoldable pub valid_label : Text → Bool
valid_label value =
    not (is_empty value)
    && leb (length value) max_name
    && all (λ byte. is_ascii_alphanumeric byte || (byte == b'-' || (byte == b'_' || byte == b'.')))
        value

unfoldable pub valid_mount : Text → Bool
valid_mount value =
    not (is_empty value)
    && leb (length value) max_mount
    && all (λ byte. is_ascii_alphanumeric byte || (byte == b'-' || byte == b'_')) value

unfoldable pub valid_segment : Text → Bool
valid_segment value =
    not (is_empty value)
    && leb (length value) max_segment
    && not (any (λ byte. byte == b'/' || byte == 0) value)

-- `IdentityRecord::validate`; its one error, `CodecError::Invalid`, is mapped by the callers.
unfoldable pub identity_valid : IdentityRecord → Bool
unfolding valid_label
identity_valid r = not (r.id == 0 || (r.generation == 0 || not (valid_label r.name)))

-- `IdentityRecord::new`
unfoldable pub new_identity : ℕ → Text → IdentityKind → Result IdentityError IdentityRecord
unfolding identity_valid
new_identity id name kind =
    let value : IdentityRecord = record {
      id = id;
      name = name;
      kind = kind;
      status = IdentityStatus.active;
      generation = 1;
    } in
    do require (identity_valid value) invalid; ok value

-- `IdentityRecord::retire`
unfoldable pub retire : IdentityRecord → ℕ → Result IdentityError IdentityRecord
retire r expected_generation = do
  refuse (not (identity_active r.status) || not (r.generation == expected_generation))
      stale_generation
  generation ← ok_or (checked_add r.generation 1) invalid
  ok (record r { status = retired; generation = generation })

-- `GrantRecord::validate`
unfoldable pub validate_grant : GrantRecord → Result IdentityError (Unit {0})
unfolding valid_mount valid_segment is_management is_secret
validate_grant g = do
  refuse
      (g.id == 0
        || g.owner_identity_id == 0
        || g.generation == 0
        || not (valid_mount g.mount)
        || ltb max_segments (length g.prefix_segments)
        || any (λ segment. not (valid_segment segment)) g.prefix_segments
        || is_empty g.capabilities
        || ltb max_capabilities (length g.capabilities))
      invalid
  let management = text_eq g.mount management_mount
  refuse
      (management
          && (not (all is_management g.capabilities)
              || not (scope_exact g.scope)
              || not (is_empty g.prefix_segments))
        || not management && not (all is_secret g.capabilities))
      cross_plane
  ok tt

-- `GrantRecord::new`
unfoldable pub new_grant :
    ℕ → ℕ → Text → GrantScope → List Text → List Capability → Result IdentityError GrantRecord
unfolding validate_grant
new_grant id owner mount scope prefix_segments capabilities =
    let value : GrantRecord = record {
      id = id;
      owner_identity_id = owner;
      generation = 1;
      status = GrantStatus.active;
      mount = mount;
      scope = scope;
      prefix_segments = prefix_segments;
      capabilities = capabilities;
    } in
    do validate_grant value; ok value

-- `GrantRecord::remove`
unfoldable pub remove_grant : GrantRecord → ℕ → ℕ → Result IdentityError GrantRecord
remove_grant g owner expected_generation = do
  require (g.owner_identity_id == owner) wrong_owner
  refuse (not (grant_active g.status) || not (g.generation == expected_generation)) stale_generation
  generation ← ok_or (checked_add g.generation 1) invalid
  ok (record g { status = removed; generation = generation })
