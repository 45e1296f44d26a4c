-- ===== src/Kv/Audit/Ceremonies.antt =====
-- src/kv.rs: the updates, the purge, the rotation primitives and the settings add to the audit.
use ops_light_secrets_server.Prelude.{ℕ, Bool, Option, none, some, List}
use ops_light_secrets_server.Prelude.Order.{nat_ord, list_ord}
use ops_light_secrets_server.Prelude.Text.{Text}
use ops_light_secrets_server.Prelude.Keeps.{Keeps, Any}
use ops_light_secrets_server.RawTarget.{EndpointRequest, Resource}
use ops_light_secrets_server.Identity.Request.{SecretAction}
use ops_light_secrets_server.Kv.Types.{KvAuditEvent, KvAuditOperation, VersionState, Entry}
use ops_light_secrets_server.Kv.Catalog.{
  Kv, prune_entry, put_entry, entry_at, entry_or_insert, push_audit, set_entry, next_u64, prune,
  set_path_cas_required, set_path_max_versions, set_rotation_protection,
  set_unknown_rotation_protection, set_version_state, set_mount_max_versions, missing_version,
}
use ops_light_secrets_server.Kv.Value.{Map}
use ops_light_secrets_server.Kv.Service.{Json}
use ops_light_secrets_server.Kv.Mutations.{
  Versions, mutate_at, mutate_loop, mutate_value, mutate_versions_locked, mutate_versions,
  soft_delete_latest, update_metadata, MetadataUpdate, audit_versions,
}
use ops_light_secrets_server.Kv.Cutover.{
  rotation_snapshot, set_rotation_snapshot_protection, protect, unprotect, rotation_write_encoded,
  rotation_cutover_write, rotation_rollback_copy_forward, RotationSnapshot,
}
use ops_light_secrets_server.Kv.Purge.{
  purge, purge_preflight, entry_or_failure, audit_failure, check_failure, PurgeRequest, PurgeResult,
  PurgePreflight,
}
use ops_light_secrets_server.Kv.Catalog
use ops_light_secrets_server.Kv.Mutations
use ops_light_secrets_server.Kv.Cutover
use ops_light_secrets_server.Kv.Purge
use ops_light_secrets_server.Kv.Audit.{
  Extends, steps, removal, purge_switch, mount_max, prune_adds, authorizes_adds,
  authorizes_all_adds,
}

module _ {base : List KvAuditEvent} where
  pub mutate_versions_locked_adds :
      (identity_id : ℕ) (path : Text) (versions : List ℕ) (action : SecretAction)
      → Keeps (Extends base) Any (Mutations.mutate_versions_locked identity_id path versions action)
  unfolding Mutations.mutate_versions_locked
  mutate_versions_locked_adds identity_id path versions action = search steps depth 30

  pub mutate_versions_adds :
      (identity_id : ℕ) (endpoint : EndpointRequest) (versions : List ℕ) (action : SecretAction)
      → Keeps (Extends base) Any (Mutations.mutate_versions identity_id endpoint versions action)
  unfolding Mutations.mutate_versions
  mutate_versions_adds identity_id endpoint versions action =
      search (steps, authorizes_adds, mutate_versions_locked_adds) depth 30

  pub soft_delete_latest_adds :
      (identity_id : ℕ) (endpoint : EndpointRequest)
      → Keeps (Extends base) Any (Mutations.soft_delete_latest identity_id endpoint)
  unfolding Mutations.soft_delete_latest
  soft_delete_latest_adds identity_id endpoint =
      search (steps, authorizes_adds, mutate_versions_locked_adds) depth 30

  pub update_metadata_adds :
      (identity_id : ℕ) (endpoint : EndpointRequest) (update : MetadataUpdate)
      → Keeps (Extends base) Any (Mutations.update_metadata identity_id endpoint update)
  unfolding Mutations.update_metadata
  update_metadata_adds identity_id endpoint update = search (steps, authorizes_adds) depth 30

  pub purge_preflight_adds :
      (identity_id : ℕ) (resource : Resource)
      → Keeps (Extends base) Any (Purge.purge_preflight identity_id resource)
  unfolding Purge.purge_preflight
  purge_preflight_adds identity_id resource = search (steps, authorizes_all_adds) depth 30

  pub entry_or_failure_adds :
      (identity_id : ℕ) (path : Text) (o : Option Entry)
      → Keeps (Extends base) Any (entry_or_failure identity_id path o)
  entry_or_failure_adds identity_id path none = search steps depth 30
  entry_or_failure_adds identity_id path (some e) = search steps depth 30

  pub purge_adds :
      (blake3 : List ℕ → ℕ) (identity_id : ℕ) (resource : Resource) (request : PurgeRequest)
      → Keeps (Extends base) Any (Purge.purge blake3 identity_id resource request)
  unfolding Purge.purge
  purge_adds blake3 identity_id resource request =
      search (steps, authorizes_all_adds, entry_or_failure_adds, removal, purge_switch) depth 30

  pub rotation_snapshot_adds :
      (endpoint : EndpointRequest) → Keeps (Extends base) Any (Cutover.rotation_snapshot endpoint)
  unfolding Cutover.rotation_snapshot
  rotation_snapshot_adds endpoint = search steps depth 30

  pub protect_adds :
      (path : Text) (expected : ℕ) (e : Entry) → Keeps (Extends base) Any (protect path expected e)
  unfolding protect
  protect_adds path expected e = search steps depth 30

  pub unprotect_adds :
      (path : Text) (expected : ℕ) (e : Entry)
      → Keeps (Extends base) Any (unprotect path expected e)
  unfolding unprotect
  unprotect_adds path expected e = search (steps, prune_adds) depth 30

  pub set_rotation_snapshot_protection_adds :
      (endpoint : EndpointRequest) (expected : ℕ) (protected : Bool)
      → Keeps
          (Extends base)
          Any
          (Cutover.set_rotation_snapshot_protection endpoint expected protected)
  unfolding Cutover.set_rotation_snapshot_protection
  set_rotation_snapshot_protection_adds endpoint expected protected =
      search (steps, protect_adds, unprotect_adds) depth 30

  pub rotation_write_encoded_adds :
      (actor : ℕ) (endpoint : EndpointRequest) (encoded : List ℕ) (expected : ℕ)
      (operation : KvAuditOperation)
      → Keeps
          (Extends base)
          Any
          (Cutover.rotation_write_encoded actor endpoint encoded expected operation)
  unfolding Cutover.rotation_write_encoded
  rotation_write_encoded_adds actor endpoint encoded expected operation = search steps depth 30

  pub rotation_cutover_write_adds :
      (json : Json) (actor : ℕ) (endpoint : EndpointRequest) (values : Map) (expected : ℕ)
      → Keeps
          (Extends base)
          Any
          (Cutover.rotation_cutover_write json actor endpoint values expected)
  unfolding Cutover.rotation_cutover_write
  rotation_cutover_write_adds json actor endpoint values expected =
      search (steps, rotation_write_encoded_adds) depth 30

  pub rotation_rollback_adds :
      (actor : ℕ) (endpoint : EndpointRequest) (expected version : ℕ)
      → Keeps
          (Extends base)
          Any
          (Cutover.rotation_rollback_copy_forward actor endpoint expected version)
  unfolding Cutover.rotation_rollback_copy_forward
  rotation_rollback_adds actor endpoint expected version =
      search (steps, rotation_write_encoded_adds) depth 30

  pub set_path_cas_required_adds :
      (path : Text) (value : Option Bool)
      → Keeps (Extends base) Any (Catalog.set_path_cas_required path value)
  unfolding Catalog.set_path_cas_required
  set_path_cas_required_adds path value = search steps depth 30

  pub set_path_max_versions_adds :
      (path : Text) (value : Option ℕ)
      → Keeps (Extends base) Any (Catalog.set_path_max_versions path value)
  unfolding Catalog.set_path_max_versions
  set_path_max_versions_adds path value = search steps depth 30

  pub set_mount_max_versions_adds :
      (value : ℕ) → Keeps (Extends base) Any (Catalog.set_mount_max_versions value)
  unfolding Catalog.set_mount_max_versions
  set_mount_max_versions_adds value = search (steps, mount_max) depth 30

  pub set_unknown_adds :
      (path : Text) → Keeps (Extends base) Any (Catalog.set_unknown_rotation_protection path)
  unfolding Catalog.set_unknown_rotation_protection
  set_unknown_adds path = search steps depth 30

  pub set_version_state_adds :
      (path : Text) (version : ℕ) (state : VersionState)
      → Keeps (Extends base) Any (Catalog.set_version_state path version state)
  unfolding Catalog.set_version_state
  set_version_state_adds path version state = search steps depth 30

  pub set_rotation_protection_adds :
      (path : Text) (version : Option ℕ)
      → Keeps (Extends base) Any (Catalog.set_rotation_protection path version)
  unfolding Catalog.set_rotation_protection
  set_rotation_protection_adds path version = search (steps, prune_adds) depth 30
