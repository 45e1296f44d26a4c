-- ===== src/Kv/Audit/Trail.antt =====
-- src/kv.rs: whatever calls come, the audit trail keeps every event it ever had.
use ops_light_secrets_server.Prelude.{ℕ, ◌≡◌, List, [], ◌∷◌, ◌++◌}
use ops_light_secrets_server.Prelude.Order.{nat_ord, list_ord}
use ops_light_secrets_server.Kv.Types.{KvCatalog, KvAuditEvent}
use ops_light_secrets_server.Kv.Catalog.{
  Kv, prune_entry, put_entry, entry_at, entry_or_insert, push_audit, set_entry, next_u64, prune,
  set_path_cas_required, set_path_max_versions, set_rotation_protection,
  set_unknown_rotation_protection, set_version_state, set_mount_max_versions, missing_version,
}
use ops_light_secrets_server.Kv.Service.{Json}
use ops_light_secrets_server.Kv.Catalog
use ops_light_secrets_server.Kv.History.{Call, after, run}
use mathlib.Core.Path.{sym}
use ops_light_secrets_server.Kv.Audit.{
  Extends, prune_adds, write_adds, read_adds, list_adds, metadata_adds,
}
use ops_light_secrets_server.Kv.Audit.Ceremonies.{
  mutate_versions_adds, soft_delete_latest_adds, update_metadata_adds, purge_preflight_adds,
  purge_adds, rotation_snapshot_adds, set_rotation_snapshot_protection_adds,
  rotation_write_encoded_adds, rotation_cutover_write_adds, rotation_rollback_adds,
  set_path_cas_required_adds, set_path_max_versions_adds, set_mount_max_versions_adds,
  set_unknown_adds, set_version_state_adds, set_rotation_protection_adds,
}
use mathlib.Core.List.{append-nil}

module _ (json : Json) (blake3 : List ℕ → ℕ) {base : List KvAuditEvent} where
  after-Extends :
      (call : Call) (c : KvCatalog) → Extends base c → Extends base (after json blake3 call c)
  unfolding after
  after-Extends (Call.replace_grants grants) c h =
      unfold Catalog.replace_grants in record { later = h.later; whole = h.whole }
  after-Extends (Call.set_mount_cas_required value) c h =
      unfold Catalog.set_mount_cas_required in record { later = h.later; whole = h.whole }
  after-Extends (Call.set_mount_max_versions value) c h =
      ((set_mount_max_versions_adds value).at c h).0
  after-Extends (Call.set_effective_unix_milliseconds value) c h =
      unfold Catalog.set_effective_unix_milliseconds in record { later = h.later; whole = h.whole }
  after-Extends (Call.set_path_cas_required path value) c h =
      ((set_path_cas_required_adds path value).at c h).0
  after-Extends (Call.set_path_max_versions path value) c h =
      ((set_path_max_versions_adds path value).at c h).0
  after-Extends (Call.set_rotation_protection path version) c h =
      ((set_rotation_protection_adds path version).at c h).0
  after-Extends (Call.set_unknown_rotation_protection path) c h = ((set_unknown_adds path).at c h).0
  after-Extends (Call.set_version_state path version state) c h =
      ((set_version_state_adds path version state).at c h).0
  after-Extends Call.fail_next_read c h =
      unfold Catalog.fail_next_read in record { later = h.later; whole = h.whole }
  after-Extends Call.fail_next_purge c h =
      unfold Catalog.fail_next_purge in record { later = h.later; whole = h.whole }
  after-Extends (Call.prune path) c h = ((prune_adds path).at c h).0
  after-Extends (Call.write identity_id endpoint values cas) c h =
      ((write_adds json identity_id endpoint values cas).at c h).0
  after-Extends (Call.read identity_id endpoint) c h =
      ((read_adds json identity_id endpoint).at c h).0
  after-Extends (Call.list identity_id endpoint) c h = ((list_adds identity_id endpoint).at c h).0
  after-Extends (Call.metadata identity_id endpoint) c h =
      ((metadata_adds identity_id endpoint).at c h).0
  after-Extends (Call.soft_delete_latest identity_id endpoint) c h =
      ((soft_delete_latest_adds identity_id endpoint).at c h).0
  after-Extends (Call.mutate_versions identity_id endpoint versions action) c h =
      ((mutate_versions_adds identity_id endpoint versions action).at c h).0
  after-Extends (Call.update_metadata identity_id endpoint update) c h =
      ((update_metadata_adds identity_id endpoint update).at c h).0
  after-Extends (Call.purge_preflight identity_id resource) c h =
      ((purge_preflight_adds identity_id resource).at c h).0
  after-Extends (Call.purge identity_id resource request) c h =
      ((purge_adds blake3 identity_id resource request).at c h).0
  after-Extends (Call.rotation_snapshot endpoint) c h = ((rotation_snapshot_adds endpoint).at c h).0
  after-Extends (Call.set_rotation_snapshot_protection endpoint expected protected) c h =
      ((set_rotation_snapshot_protection_adds endpoint expected protected).at c h).0
  after-Extends (Call.rotation_cutover_write actor endpoint values expected) c h =
      ((rotation_cutover_write_adds json actor endpoint values expected).at c h).0
  after-Extends (Call.rotation_rollback_copy_forward actor endpoint expected version) c h =
      ((rotation_rollback_adds actor endpoint expected version).at c h).0
  after-Extends (Call.rotation_write_encoded actor endpoint encoded expected operation) c h =
      ((rotation_write_encoded_adds actor endpoint encoded expected operation).at c h).0

  calls-Extends :
      (calls : List Call) (c : KvCatalog) → Extends base c → Extends base (run json blake3 calls c)
  unfolding run
  calls-Extends [] c h = h
  calls-Extends (call ∷ rest) c h = calls-Extends rest _ (after-Extends call c h)

-- Whatever calls come, and whether they succeed or fail, the audit trail afterwards is the trail
-- before them followed by later events: no call rewrites, reorders or drops an event.
pub run-audit :
    (json : Json) (blake3 : List ℕ → ℕ) (calls : List Call) (c : KvCatalog)
    → (later : List KvAuditEvent) × ((run json blake3 calls c).audit ≡ c.audit ++ later)
run-audit json blake3 calls c =
    let e =
      calls-Extends json blake3 calls c (record { later = []; whole = sym (append-nil c.audit) }) in
    (e.later, e.whole)
