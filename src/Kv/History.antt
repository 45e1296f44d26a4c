-- ===== src/Kv/History.antt =====
-- src/kv.rs: the calls that reach a catalog, one after the other under its lock, and what holds of
-- every catalog that they can make.
use ops_light_secrets_server.Prelude.{ℕ, Bool, Option, none, some, List, [], ◌∷◌, arith}
use ops_light_secrets_server.Prelude.Order.{nat_ord, list_ord}
use ops_light_secrets_server.Prelude.Text.{Text}
use ops_light_secrets_server.Prelude.Keeps.{Keeps, Any}
use ops_light_secrets_server.BTreeMap.{get}
use ops_light_secrets_server.RawTarget.{EndpointRequest, Resource}
use ops_light_secrets_server.Identity.Records.{GrantRecord}
use ops_light_secrets_server.Identity.Request.{SecretAction}
use ops_light_secrets_server.Kv.Types.{KvCatalog, KvAuditOperation, VersionState, new_catalog}
use ops_light_secrets_server.Kv.Catalog
use ops_light_secrets_server.Kv.Value.{Map}
use ops_light_secrets_server.Kv.Service.{Json}
use ops_light_secrets_server.Kv.Service
use ops_light_secrets_server.Kv.Mutations.{MetadataUpdate}
use ops_light_secrets_server.Kv.Mutations
use ops_light_secrets_server.Kv.Cutover
use ops_light_secrets_server.Kv.Listing
use ops_light_secrets_server.Kv.Listing.{list_answer, list_loop}
use ops_light_secrets_server.Kv.Purge.{PurgeRequest}
use ops_light_secrets_server.Kv.Purge
use ops_light_secrets_server.Kv.Invariant.{CatalogOk}
use ops_light_secrets_server.Kv.Preserves.{serving, prune-Keeps, write-Keeps, read-Keeps}
use ops_light_secrets_server.Kv.Preserves.Mutations.{
  mutate_versions-Keeps, soft_delete_latest-Keeps, update_metadata-Keeps,
}
use ops_light_secrets_server.Kv.Preserves.Cutover.{
  set_rotation_snapshot_protection-Keeps, rotation_write_encoded-Keeps, rotation_snapshot-Keeps,
  rotation_cutover_write-Keeps, rotation_rollback_copy_forward-Keeps,
}
use ops_light_secrets_server.Kv.Preserves.Purge.{
  purge_preflight-Keeps, purge-Keeps, set_path_cas_required-Keeps, set_path_max_versions-Keeps,
  set_mount_max_versions-Keeps, set_unknown_rotation_protection-Keeps, set_version_state-Keeps,
  set_rotation_protection-Keeps,
}

-- A call of a method of `KvCatalog` or `KvService`, with its arguments.
pub data Call : Type 0 where
  replace_grants : List GrantRecord → Call
  set_mount_cas_required : Bool → Call
  set_mount_max_versions : ℕ → Call
  set_effective_unix_milliseconds : ℕ → Call
  set_path_cas_required : Text → Option Bool → Call
  set_path_max_versions : Text → Option ℕ → Call
  set_rotation_protection : Text → Option ℕ → Call
  set_unknown_rotation_protection : Text → Call
  set_version_state : Text → ℕ → VersionState → Call
  fail_next_read fail_next_purge : Call
  prune : Text → Call
  write : ℕ → EndpointRequest → Map → Option ℕ → Call
  read list metadata soft_delete_latest : ℕ → EndpointRequest → Call
  mutate_versions : ℕ → EndpointRequest → List ℕ → SecretAction → Call
  update_metadata : ℕ → EndpointRequest → MetadataUpdate → Call
  purge_preflight : ℕ → Resource → Call
  purge : ℕ → Resource → PurgeRequest → Call
  rotation_snapshot : EndpointRequest → Call
  set_rotation_snapshot_protection : EndpointRequest → ℕ → Bool → Call
  rotation_cutover_write : ℕ → EndpointRequest → Map → ℕ → Call
  rotation_rollback_copy_forward : ℕ → EndpointRequest → ℕ → ℕ → Call
  -- The second lock of the two rotation writes, which may come after other calls.
  rotation_write_encoded : ℕ → EndpointRequest → List ℕ → ℕ → KvAuditOperation → Call

-- The catalog after the call, whatever it answers.
module _ (json : Json) (blake3 : List ℕ → ℕ) where
  unfoldable pub after : Call → KvCatalog → KvCatalog
  after (Call.replace_grants grants) c = Catalog.replace_grants grants c
  after (Call.set_mount_cas_required value) c = Catalog.set_mount_cas_required value c
  after (Call.set_mount_max_versions value) c = (Catalog.set_mount_max_versions value c).1
  after (Call.set_effective_unix_milliseconds value) c =
      Catalog.set_effective_unix_milliseconds value c
  after (Call.set_path_cas_required path value) c = (Catalog.set_path_cas_required path value c).1
  after (Call.set_path_max_versions path value) c = (Catalog.set_path_max_versions path value c).1
  after (Call.set_rotation_protection path version) c =
      (Catalog.set_rotation_protection path version c).1
  after (Call.set_unknown_rotation_protection path) c =
      (Catalog.set_unknown_rotation_protection path c).1
  after (Call.set_version_state path version state) c =
      (Catalog.set_version_state path version state c).1
  after Call.fail_next_read c = Catalog.fail_next_read c
  after Call.fail_next_purge c = Catalog.fail_next_purge c
  after (Call.prune path) c = (Catalog.prune path c).1
  after (Call.write identity_id endpoint values cas) c =
      (Service.write json identity_id endpoint values cas c).1
  after (Call.read identity_id endpoint) c = (Service.read json identity_id endpoint c).1
  after (Call.list identity_id endpoint) c = (Listing.list identity_id endpoint c).1
  after (Call.metadata identity_id endpoint) c = (Listing.metadata identity_id endpoint c).1
  after (Call.soft_delete_latest identity_id endpoint) c =
      (Mutations.soft_delete_latest identity_id endpoint c).1
  after (Call.mutate_versions identity_id endpoint versions action) c =
      (Mutations.mutate_versions identity_id endpoint versions action c).1
  after (Call.update_metadata identity_id endpoint update) c =
      (Mutations.update_metadata identity_id endpoint update c).1
  after (Call.purge_preflight identity_id resource) c =
      (Purge.purge_preflight identity_id resource c).1
  after (Call.purge identity_id resource request) c =
      (Purge.purge blake3 identity_id resource request c).1
  after (Call.rotation_snapshot endpoint) c = (Cutover.rotation_snapshot endpoint c).1
  after (Call.set_rotation_snapshot_protection endpoint expected protected) c =
      (Cutover.set_rotation_snapshot_protection endpoint expected protected c).1
  after (Call.rotation_cutover_write actor endpoint values expected) c =
      (Cutover.rotation_cutover_write json actor endpoint values expected c).1
  after (Call.rotation_rollback_copy_forward actor endpoint expected version) c =
      (Cutover.rotation_rollback_copy_forward actor endpoint expected version c).1
  after (Call.rotation_write_encoded actor endpoint encoded expected operation) c =
      (Cutover.rotation_write_encoded actor endpoint encoded expected operation c).1

  unfoldable pub run : List Call → KvCatalog → KvCatalog
  run [] c = c
  run (call ∷ rest) c = run rest (after call c)

  list_answer-Keeps :
      (identity_id : ℕ) (prefix : Text) (found : Option Listing.BTreeSet)
      → Keeps CatalogOk Any (list_answer identity_id prefix found)
  unfolding list_answer
  list_answer-Keeps identity_id prefix none = search serving depth 24
  list_answer-Keeps identity_id prefix (some names) = search serving depth 24

  list-Keeps :
      (identity_id : ℕ) (endpoint : EndpointRequest)
      → Keeps CatalogOk Any (Listing.list identity_id endpoint)
  unfolding Listing.list
  list-Keeps identity_id endpoint = search (serving, list_answer-Keeps) depth 24

  metadata-Keeps :
      (identity_id : ℕ) (endpoint : EndpointRequest)
      → Keeps CatalogOk Any (Listing.metadata identity_id endpoint)
  unfolding Listing.metadata
  metadata-Keeps identity_id endpoint = search serving depth 24

  pub after-CatalogOk : (call : Call) (c : KvCatalog) → CatalogOk c → CatalogOk (after call c)
  unfolding after
  after-CatalogOk (Call.replace_grants grants) c h =
      unfold Catalog.replace_grants in record { at_path = h.at_path }
  after-CatalogOk (Call.set_mount_cas_required value) c h =
      unfold Catalog.set_mount_cas_required in record { at_path = h.at_path }
  after-CatalogOk (Call.set_mount_max_versions value) c h =
      ((set_mount_max_versions-Keeps value).at c h).0
  after-CatalogOk (Call.set_effective_unix_milliseconds value) c h =
      unfold Catalog.set_effective_unix_milliseconds in record { at_path = h.at_path }
  after-CatalogOk (Call.set_path_cas_required path value) c h =
      ((set_path_cas_required-Keeps path value).at c h).0
  after-CatalogOk (Call.set_path_max_versions path value) c h =
      ((set_path_max_versions-Keeps path value).at c h).0
  after-CatalogOk (Call.set_rotation_protection path version) c h =
      ((set_rotation_protection-Keeps path version).at c h).0
  after-CatalogOk (Call.set_unknown_rotation_protection path) c h =
      ((set_unknown_rotation_protection-Keeps path).at c h).0
  after-CatalogOk (Call.set_version_state path version state) c h =
      ((set_version_state-Keeps path version state).at c h).0
  after-CatalogOk Call.fail_next_read c h =
      unfold Catalog.fail_next_read in record { at_path = h.at_path }
  after-CatalogOk Call.fail_next_purge c h =
      unfold Catalog.fail_next_purge in record { at_path = h.at_path }
  after-CatalogOk (Call.prune path) c h = ((prune-Keeps path).at c h).0
  after-CatalogOk (Call.write identity_id endpoint values cas) c h =
      ((write-Keeps json identity_id endpoint values cas).at c h).0
  after-CatalogOk (Call.read identity_id endpoint) c h =
      ((read-Keeps json identity_id endpoint).at c h).0
  after-CatalogOk (Call.list identity_id endpoint) c h =
      ((list-Keeps identity_id endpoint).at c h).0
  after-CatalogOk (Call.metadata identity_id endpoint) c h =
      ((metadata-Keeps identity_id endpoint).at c h).0
  after-CatalogOk (Call.soft_delete_latest identity_id endpoint) c h =
      ((soft_delete_latest-Keeps identity_id endpoint).at c h).0
  after-CatalogOk (Call.mutate_versions identity_id endpoint versions action) c h =
      ((mutate_versions-Keeps identity_id endpoint versions action).at c h).0
  after-CatalogOk (Call.update_metadata identity_id endpoint update) c h =
      ((update_metadata-Keeps identity_id endpoint update).at c h).0
  after-CatalogOk (Call.purge_preflight identity_id resource) c h =
      ((purge_preflight-Keeps identity_id resource).at c h).0
  after-CatalogOk (Call.purge identity_id resource request) c h =
      ((purge-Keeps blake3 identity_id resource request).at c h).0
  after-CatalogOk (Call.rotation_snapshot endpoint) c h =
      ((rotation_snapshot-Keeps endpoint).at c h).0
  after-CatalogOk (Call.set_rotation_snapshot_protection endpoint expected protected) c h =
      ((set_rotation_snapshot_protection-Keeps endpoint expected protected).at c h).0
  after-CatalogOk (Call.rotation_cutover_write actor endpoint values expected) c h =
      ((rotation_cutover_write-Keeps json actor endpoint values expected).at c h).0
  after-CatalogOk (Call.rotation_rollback_copy_forward actor endpoint expected version) c h =
      ((rotation_rollback_copy_forward-Keeps actor endpoint expected version).at c h).0
  after-CatalogOk (Call.rotation_write_encoded actor endpoint encoded expected operation) c h =
      ((rotation_write_encoded-Keeps actor endpoint encoded expected operation).at c h).0

  calls-CatalogOk : (calls : List Call) (c : KvCatalog) → CatalogOk c → CatalogOk (run calls c)
  unfolding run
  calls-CatalogOk [] c h = h
  calls-CatalogOk (call ∷ rest) c h = calls-CatalogOk rest (after call c) (after-CatalogOk call c h)

  new_catalog-CatalogOk : (cas : Bool) (now : ℕ) → CatalogOk (new_catalog cas now)
  unfolding new_catalog get
  new_catalog-CatalogOk cas now = record { at_path = λ path e found. ground arith }

  -- Whatever calls reach a new catalog, in whatever order, and whether they succeed or fail, each
  -- entry it ends up with has its versions in order, all numbered from 1 to the current version,
  -- and a protected version is one of those that are kept.
  pub run-CatalogOk :
      (calls : List Call) (cas : Bool) (now : ℕ) → CatalogOk (run calls (new_catalog cas now))
  run-CatalogOk calls cas now = calls-CatalogOk calls _ (new_catalog-CatalogOk cas now)
