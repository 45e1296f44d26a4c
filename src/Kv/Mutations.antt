-- ===== src/Kv/Mutations.antt =====
-- src/kv.rs: soft deletion, undeletion and destruction of versions, and metadata updates.
use ops_light_secrets_server.Prelude.{
  ℕ, Bool, true, false, not, ◌&&◌, Option, none, some, List, [], ◌∷◌, ltb, ◌==◌, if◌then◌else◌, any,
  unwrap_or,
}
use ops_light_secrets_server.Prelude.Order.{nat_ord, list_ord}
use ops_light_secrets_server.Prelude.Text.{Text, text, text_eq}
use ops_light_secrets_server.Prelude.Result.{Result, ok, err}
use ops_light_secrets_server.Prelude.Action.{
  Action, ◌>>=◌, ◌>>◌, pure, lift, gets, modify, some_or, refuse,
}
use ops_light_secrets_server.BTreeMap
use ops_light_secrets_server.BTreeMap.{BTreeMap}
use ops_light_secrets_server.RawTarget.{EndpointKind, EndpointRequest, data_kind}
use ops_light_secrets_server.RawTarget
use ops_light_secrets_server.Identity.Request.{
  SecretAction, write_action, soft_delete_action, undelete_action, destroy_action,
}
use ops_light_secrets_server.Kv.Types.{
  KvCatalog, KvError, KvAuditOperation, Entry, VersionValue, live, soft_deleted, destroyed,
  state_live, state_destroyed, state_soft_deleted, succeeded, new_entry, max_versions_limit,
  invalid, not_found, unsupported_field, internal,
}
use ops_light_secrets_server.Kv.Types
use ops_light_secrets_server.Kv.Catalog.{
  Kv, push_audit, put_entry, entry_at, entry_or_insert, next_u64,
}
use ops_light_secrets_server.Kv.Value.{validate_versions, validate_custom_metadata}
use ops_light_secrets_server.Kv.Access.{
  validate_endpoint, logical_path, audit_event, authorize_operation,
}

abbrev pub Versions : Type 0
Versions = BTreeMap ℕ VersionValue

-- The `match action` of the loop: one version's new value. Other actions end in `Invalid`.
unfoldable pub mutate_value : SecretAction → ℕ → VersionValue → Result KvError VersionValue
mutate_value soft_delete_action now value =
    ok (record value { state = soft_deleted; deletion_unix_milliseconds = some now })
mutate_value undelete_action now value = ok (
    if state_soft_deleted value.state
    then record value { state = live; deletion_unix_milliseconds = none }
    else value)
mutate_value destroy_action now value =
    ok (record value { encoded = []; state = destroyed; deletion_unix_milliseconds = none })
mutate_value _ now value = err invalid

abbrev pub mutate_at : SecretAction → ℕ → ℕ → Action Versions KvError (Unit {0})
mutate_at action now version = do
  values ← gets (λ vs. vs)
  value ← some_or (BTreeMap.get version values) internal
  changed ← lift (mutate_value action now value)
  modify (BTreeMap.insert version changed)

-- The loop over the versions, in place.
unfoldable pub mutate_loop : SecretAction → ℕ → List ℕ → Action Versions KvError (Unit {0})
mutate_loop action now [] = pure tt
mutate_loop action now (version ∷ rest) = do
  mutate_at action now version
  mutate_loop action now rest

-- `entry.versions[version].state == VersionState::Destroyed`
abbrev pub is_destroyed : Option VersionValue → Bool
is_destroyed none = false
is_destroyed (some value) = state_destroyed value.state

abbrev pub is_soft_delete : SecretAction → Bool
is_soft_delete soft_delete_action = true
is_soft_delete _ = false

unfoldable pub mutation_operation : SecretAction → Option KvAuditOperation
mutation_operation soft_delete_action = some Types.soft_delete
mutation_operation undelete_action = some Types.undelete
mutation_operation destroy_action = some Types.destroy
mutation_operation _ = none

-- One success event for each version.
unfoldable pub audit_versions : ℕ → Text → KvAuditOperation → List ℕ → KvCatalog → KvCatalog
audit_versions identity_id path operation [] c = c
audit_versions identity_id path operation (v ∷ rest) c =
    audit_versions identity_id path operation rest
      (push_audit (audit_event identity_id path operation succeeded (some v) none) c)

unfoldable pub mutate_versions_locked : ℕ → Text → List ℕ → SecretAction → Kv (Unit {0})
mutate_versions_locked identity_id path versions action = do
  now ← gets (λ c. c.effective_unix_milliseconds)
  e ← entry_at path
  refuse (any (λ v. not (BTreeMap.contains_key v e.versions)) versions) not_found
  refuse (is_soft_delete action && any (λ v. is_destroyed (BTreeMap.get v e.versions)) versions)
      invalid
  let after = mutate_loop action now versions e.versions
  put_entry path (record e { versions = after.1 })
  lift after.0
  generation ← next_u64 e.metadata_generation
  put_entry path (record e { versions = after.1; metadata_generation = generation })
  operation ← some_or (mutation_operation action) invalid
  modify (audit_versions identity_id path operation versions)

unfoldable pub mutation_kind : SecretAction → Option EndpointKind
mutation_kind soft_delete_action = some RawTarget.delete
mutation_kind undelete_action = some RawTarget.undelete
mutation_kind destroy_action = some RawTarget.destroy
mutation_kind _ = none

unfoldable pub mutate_versions : ℕ → EndpointRequest → List ℕ → SecretAction → Kv (Unit {0})
mutate_versions identity_id endpoint versions action = do
  expected ← some_or (mutation_kind action) invalid
  lift (validate_endpoint endpoint expected)
  lift (validate_versions versions)
  authorize_operation identity_id endpoint action
  mutate_versions_locked identity_id (logical_path endpoint) versions action

unfoldable pub soft_delete_latest : ℕ → EndpointRequest → Kv (Unit {0})
soft_delete_latest identity_id endpoint = do
  lift (validate_endpoint endpoint data_kind)
  authorize_operation identity_id (record endpoint { kind = RawTarget.delete }) soft_delete_action
  e ← entry_at (logical_path endpoint)
  mutate_versions_locked identity_id (logical_path endpoint) (e.current_version ∷ [])
      soft_delete_action

pub record MetadataUpdate : Type 0 where
  pub cas_required : Option Bool
  pub max_versions : Option ℕ
  pub delete_version_after : Option Text
  pub custom_metadata : Option (BTreeMap Text Text)

abbrev pub check_custom : Option (BTreeMap Text Text) → Result KvError (Unit {0})
check_custom none = ok tt
check_custom (some custom) = validate_custom_metadata custom

abbrev pub unsupported_lifetime : Option Text → Bool
unsupported_lifetime none = false
unsupported_lifetime (some value) = not (text_eq value (text "0s"))

abbrev pub over_limit : Option ℕ → Bool
over_limit none = false
over_limit (some value) = ltb max_versions_limit value

abbrev pub updated_cas : Option Bool → Option Bool → Option Bool
updated_cas none old = old
updated_cas (some value) old = some value

-- `(value != 0).then_some(value)`
abbrev pub updated_max : Option ℕ → Option ℕ → Option ℕ
updated_max none old = old
updated_max (some value) old = if value == 0 then none else some value

unfoldable pub update_metadata : ℕ → EndpointRequest → MetadataUpdate → Kv (Unit {0})
update_metadata identity_id endpoint update = do
  lift (check_custom update.custom_metadata)
  lift (validate_endpoint endpoint RawTarget.metadata)
  authorize_operation identity_id endpoint write_action
  refuse (unsupported_lifetime update.delete_version_after) unsupported_field
  refuse (over_limit update.max_versions) invalid
  e ← entry_or_insert (logical_path endpoint) (new_entry none)
  let changed = record e {
    cas_required = updated_cas update.cas_required e.cas_required;
    max_versions = updated_max update.max_versions e.max_versions;
    custom_metadata = unwrap_or update.custom_metadata e.custom_metadata;
  }
  put_entry (logical_path endpoint) changed
  generation ← next_u64 e.metadata_generation
  put_entry (logical_path endpoint) (record changed { metadata_generation = generation })
  modify (
      push_audit
        (audit_event identity_id (logical_path endpoint) Types.metadata_write succeeded none none))
