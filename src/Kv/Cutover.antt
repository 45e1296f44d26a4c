-- ===== src/Kv/Cutover.antt =====
-- src/kv.rs: the primitives that a rotation uses: the snapshot of the current version, its
-- protection, and the writes that are coupled to the version the rotation expects.
use ops_light_secrets_server.Prelude.{
  ℕ, Bool, true, false, not, ◌||◌, Option, none, some, List, ltb, ◌==◌, unwrap_or, length, is_empty,
  is_some, option_eq,
}
use ops_light_secrets_server.Prelude.Order.{nat_ord, list_ord}
use ops_light_secrets_server.Prelude.Text.{Text, text}
use ops_light_secrets_server.Prelude.Action.{
  ◌>>=◌, ◌>>◌, pure, lift, gets, modify, some_or, refuse, when,
}
use ops_light_secrets_server.BTreeMap
use ops_light_secrets_server.RawTarget.{EndpointRequest, data_kind}
use ops_light_secrets_server.Kv.Types.{
  KvError, KvAuditOperation, Entry, VersionValue, state_live, state_destroyed, succeeded,
  max_secret_encoded_bytes, rotation_cutover, rotation_rollback, invalid, not_found, cas_conflict,
  version_unavailable, bound_exceeded,
}
use ops_light_secrets_server.Kv.Catalog.{Kv, push_audit, put_entry, entry_at, next_u64, prune}
use ops_light_secrets_server.Kv.Value.{Map, object, validate_secret_value}
use ops_light_secrets_server.Kv.Access.{validate_endpoint, logical_path, audit_event}
use ops_light_secrets_server.Kv.Service.{Json, WriteResult, new_version}

pub record RotationSnapshot : Type 0 where
  pub current_version : ℕ
  pub protection : Option ℕ

abbrev pub unavailable : ℕ → VersionValue → KvError
unavailable version value =
    version_unavailable version (unwrap_or value.deletion_unix_milliseconds 0)
      (state_destroyed value.state)

unfoldable pub rotation_snapshot : EndpointRequest → Kv RotationSnapshot
rotation_snapshot endpoint = do
  lift (validate_endpoint endpoint data_kind)
  e ← entry_at (logical_path endpoint)
  current ← some_or (BTreeMap.get e.current_version e.versions) not_found
  refuse (not (state_live current.state) || is_empty current.encoded)
      (unavailable e.current_version current)
  pure (record { current_version = e.current_version; protection = e.protected_version })

unfoldable pub protect : Text → ℕ → Entry → Kv (Unit {0})
protect path expected_current e = do
  refuse (not (e.current_version == expected_current)) cas_conflict
  value ← some_or (BTreeMap.get expected_current e.versions) not_found
  refuse (not (state_live value.state) || is_empty value.encoded)
      (unavailable expected_current value)
  put_entry path (record e { protected_version = some expected_current; protection_known = true })
  generation ← next_u64 e.metadata_generation
  put_entry path (record e {
    protected_version = some expected_current;
    protection_known = true;
    metadata_generation = generation;
  })

unfoldable pub unprotect : Text → ℕ → Entry → Kv (Unit {0})
unprotect path expected_current e = do
  refuse (not (option_eq e.protected_version (some expected_current))) cas_conflict
  put_entry path (record e { protected_version = none })
  generation ← next_u64 e.metadata_generation
  put_entry path (record e { protected_version = none; metadata_generation = generation })
  prune path

unfoldable pub set_rotation_snapshot_protection : EndpointRequest → ℕ → Bool → Kv (Unit {0})
set_rotation_snapshot_protection endpoint expected_current protected = do
  lift (validate_endpoint endpoint data_kind)
  e ← entry_at (logical_path endpoint)
  when protected (protect (logical_path endpoint) expected_current e)
      (unprotect (logical_path endpoint) expected_current e)

abbrev pub rotation_operation : KvAuditOperation → Bool
rotation_operation rotation_cutover = true
rotation_operation rotation_rollback = true
rotation_operation _ = false

unfoldable pub rotation_write_encoded :
    ℕ → EndpointRequest → List ℕ → ℕ → KvAuditOperation → Kv WriteResult
rotation_write_encoded actor endpoint encoded expected_current operation = do
  created ← gets (λ c. c.effective_unix_milliseconds)
  e ← entry_at (logical_path endpoint)
  refuse
      (not (e.current_version == expected_current)
        || not (is_some e.protected_version)
        || not (rotation_operation operation))
      cas_conflict
  version ← next_u64 e.current_version
  put_entry (logical_path endpoint) (record e { current_version = version })
  generation ← next_u64 e.metadata_generation
  put_entry (logical_path endpoint) (record e {
    current_version = version;
    metadata_generation = generation;
    versions = BTreeMap.insert version (new_version encoded created) e.versions;
  })
  modify (
      push_audit
        (audit_event actor (logical_path endpoint) operation succeeded (some version) none))
  pure (record { version = version; created = created })

unfoldable pub rotation_cutover_write : Json → ℕ → EndpointRequest → Map → ℕ → Kv WriteResult
rotation_cutover_write json actor endpoint values expected_current = do
  lift (validate_endpoint endpoint data_kind)
  lift (validate_secret_value values)
  encoded ← some_or (json.to_vec (object values)) invalid
  refuse (ltb max_secret_encoded_bytes (length encoded))
      (bound_exceeded (text "secret_encoded_bytes"))
  rotation_write_encoded actor endpoint encoded expected_current rotation_cutover

-- The code takes the lock twice here: the value is read under the first, and the write checks the
-- expected version again under the second.
unfoldable pub rotation_rollback_copy_forward : ℕ → EndpointRequest → ℕ → ℕ → Kv WriteResult
rotation_rollback_copy_forward actor endpoint expected_current protected_version = do
  lift (validate_endpoint endpoint data_kind)
  e ← entry_at (logical_path endpoint)
  refuse
      (not (e.current_version == expected_current)
        || not (option_eq e.protected_version (some protected_version)))
      cas_conflict
  value ← some_or (BTreeMap.get protected_version e.versions) not_found
  refuse (state_destroyed value.state || is_empty value.encoded)
      (unavailable protected_version value)
  rotation_write_encoded actor endpoint value.encoded expected_current rotation_rollback
