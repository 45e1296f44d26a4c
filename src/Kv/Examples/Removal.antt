-- ===== src/Kv/Examples/Removal.antt =====
-- Tests of src/kv.rs: denial, destruction, retention and purge, on the catalog of the parent.
use mathlib.Core.List.{Memᴰ}
use ops_light_secrets_server.Prelude.Words.{be_bytes}
use ops_light_secrets_server.Prelude.{
  ℕ, ◌+◌, ◌≤◌, ◌≡◌, refl, ◌↔◌, ◌⊎◌, true, none, some, [], ◌∷◌, ◌++◌, arith,
}
use ops_light_secrets_server.Prelude.Order.{nat_ord, list_ord}
use ops_light_secrets_server.Prelude.Text.{text}
use ops_light_secrets_server.Prelude.Result.{ok, err, is_ok}
use ops_light_secrets_server.Prelude.Action.{◌>>=◌, when}
use ops_light_secrets_server.BTreeMap.{get, insert, remove}
use ops_light_secrets_server.RawTarget.{EndpointRequest, destroy}
use ops_light_secrets_server.Identity.Capability.{
  holds, capability_eq, as_u16, secret_read_current, secret_read_history,
}
use ops_light_secrets_server.Identity.Records.{GrantRecord}
use ops_light_secrets_server.Identity.Request.{
  AuthorizationRequest, read_current, read_history, secret_request, secret_shape, local_destroy_all,
  shape_matches, read_action, destroy_action,
}
use ops_light_secrets_server.Identity.Authorize.{authorize, verdict}
use ops_light_secrets_server.Identity.Grants.{Permits}
use ops_light_secrets_server.Kv.Types.{
  KvCatalog, KvError, KvAuditEvent, VersionValue, live, soft_deleted, destroyed, Entry, new_entry,
  new_catalog, succeeded, failed, cas_conflict, permission_denied, version_unavailable,
}
use ops_light_secrets_server.Kv.Types
use ops_light_secrets_server.Kv.Catalog.{push_audit, prune_entry, entry_at}
use ops_light_secrets_server.Kv.Value.{
  validate_secret_value, map_len, validate_versions, has_duplicate,
}
use ops_light_secrets_server.Kv.Value.Bounds.{
  validate_secret_value_iff, map_field_count, map_depth, map_names_fit,
}
use ops_light_secrets_server.Kv.Access.{
  audit_event, authorize_operation, authorize_destroy_all, allowed, logical_path, validate_endpoint,
  canonical_resource,
}
use ops_light_secrets_server.Kv.Service.{read}
use ops_light_secrets_server.Kv.Mutations.{
  mutate_versions, mutate_versions_locked, mutate_loop, mutate_value, mutation_kind,
  mutation_operation, audit_versions,
}
use ops_light_secrets_server.Kv.Purge.{
  PurgeRequest, PurgeResult, purge, purge_confirmation, reason_refused, has_control,
}
use ops_light_secrets_server.Kv.Retention.{Ended, prune_entry_limit}
use ops_light_secrets_server.Kv.Granted.{Granted, authorize_operation-denied}
use ops_light_secrets_server.Kv.Destruction.{Mutates, mutate_versions_sound}
use ops_light_secrets_server.Kv.Destruction.Final.{destroyed_final, destroy-read}
use ops_light_secrets_server.Kv.Purging.{Purged, purge_sound}
use ops_light_secrets_server.Kv.Examples.{
  toy_json, app_grant, app_resource, app_endpoint, value_v, version_v, entry_v, written_event,
  stored, toy_hash,
}

abbrev stranger_request : AuthorizationRequest
stranger_request = record {
  resource = app_resource;
  operation = read_current;
  capability = secret_read_current;
}

not_owner :
    (g : GrantRecord)
    → Memᴰ g (app_grant ∷ [])
    → g.owner_identity_id ≡ 2
    → ¬ (Permits stranger_request g)
not_owner g (Memᴰ.head e) own p = ground arith
not_owner g (Memᴰ.tail m) own p = elim m [ ]

authorize_operation-denied_example : authorize_operation 2 app_endpoint read_action stored ≡ (
  err permission_denied,
  push_audit
      (audit_event 2
        (logical_path app_endpoint)
        Types.read
        Types.denied
        none
        (some (text "permission-denied")))
      stored,
)
unfolding secret_request secret_shape
authorize_operation-denied_example =
    authorize_operation-denied 2 app_endpoint read_action stored stranger_request refl not_owner

abbrev destroy_endpoint : EndpointRequest
destroy_endpoint = record { kind = destroy; resource = app_resource; version = none }

abbrev gone_v : VersionValue
gone_v = record {
  encoded = [];
  created_unix_milliseconds = 1000;
  state = destroyed;
  deletion_unix_milliseconds = none;
}

abbrev entry_gone : Entry
entry_gone = record entry_v { versions = (1, gone_v) ∷ []; metadata_generation = 3 }

abbrev destroyed_catalog : KvCatalog
destroyed_catalog = record stored {
  entries = (text "app", entry_gone) ∷ [];
  audit =
      written_event
      ∷ record {
        identity_id = 1;
        resource = text "secret/app";
        operation = Types.destroy;
        outcome = succeeded;
        version = some 1;
        reason = none;
      }
      ∷ [];
}

destroy_v :
    mutate_versions 1 destroy_endpoint (1 ∷ []) destroy_action stored ≡ (ok tt, destroyed_catalog)
unfolding mutate_versions mutate_versions_locked mutate_loop mutate_value mutation_kind
    mutation_operation audit_versions validate_versions has_duplicate entry_at ◌>>=◌ when
    validate_endpoint authorize_operation secret_request secret_shape allowed authorize verdict
    shape_matches holds capability_eq as_u16 get insert audit_event logical_path new_catalog
    new_entry
destroy_v = refl

mutate_versions_sound_example :
    Granted 1 destroy_endpoint destroy_action stored
    × Mutates 1 (logical_path destroy_endpoint) (1 ∷ []) destroy_action stored destroyed_catalog
mutate_versions_sound_example =
    mutate_versions_sound 1 destroy_endpoint (1 ∷ []) destroy_action stored destroyed_catalog
      destroy_v

abbrev twice_catalog : KvCatalog
twice_catalog = record destroyed_catalog {
  entries = (text "app", record entry_gone { metadata_generation = 4 }) ∷ [];
  audit =
      destroyed_catalog.audit
      ++ record {
        identity_id = 1;
        resource = text "secret/app";
        operation = Types.destroy;
        outcome = succeeded;
        version = some 1;
        reason = none;
      }
        ∷ [];
}

destroyed_final_example :
    (after : Entry) × (left : VersionValue) × (get
        (logical_path destroy_endpoint)
        twice_catalog.entries
      ≡ some after)
    × (get 1 after.versions ≡ some left)
    × (left.state ≡ destroyed)
unfolding mutate_versions mutate_versions_locked mutate_loop mutate_value mutation_kind
    mutation_operation audit_versions validate_versions has_duplicate entry_at ◌>>=◌ when
    validate_endpoint authorize_operation secret_request secret_shape allowed authorize verdict
    shape_matches holds capability_eq as_u16 get insert audit_event logical_path new_catalog
    new_entry
destroyed_final_example =
    destroyed_final 1 destroy_endpoint (1 ∷ []) destroy_action destroyed_catalog twice_catalog
      entry_gone 1 gone_v refl refl refl refl

destroy-read_example :
    (read toy_json 1 (record app_endpoint { version = some 1 }) destroyed_catalog).0
    ≡ err (version_unavailable 1 0 true)
unfolding validate_endpoint secret_request secret_shape holds capability_eq as_u16
destroy-read_example =
    destroy-read toy_json 1 1 destroy_endpoint (record app_endpoint { version = some 1 }) (1 ∷ [])
      stored destroyed_catalog 1 destroy_v refl refl refl refl
      (
        record {
          resource = app_resource;
          operation = read_history;
          capability = secret_read_history;
        },
        refl,
        app_grant,
        Memᴰ.head refl,
        refl,
        record { is_active = refl; at_mount = refl; covers = refl; has_capability = refl },
      )

-- Three versions, a limit of two, and the first one protected.
abbrev kept_entry : Entry
kept_entry = record entry_v {
  current_version = 3;
  versions = (1, version_v) ∷ (2, version_v) ∷ (3, version_v) ∷ [];
  max_versions = some 2;
  protected_version = some 1;
}

prune_entry_limit_example :
    Ended
      (some 1)
      3
      2
      ((prune_entry 10 kept_entry).versions, (prune_entry 10 kept_entry).retention_deferred)
    × ((j : ℕ)
        → (some 1 ≡ some j) ⊎ (j ≡ 3)
        → get j (prune_entry 10 kept_entry).versions ≡ get j kept_entry.versions)
prune_entry_limit_example = prune_entry_limit 10 kept_entry

validate_secret_value_iff_example : (is_ok (validate_secret_value value_v) ≡ true) ↔ (
    (map_len value_v + map_field_count value_v ≤ 256)
    × (1 + map_depth value_v ≤ 32)
    × (map_names_fit value_v ≡ true))
validate_secret_value_iff_example = validate_secret_value_iff value_v

abbrev purge_request : PurgeRequest
purge_request = record {
  resource = app_resource;
  expected_metadata_generation = 2;
  expected_version_count = 1;
  reason = text "leaked";
  confirmation = some (purge_confirmation toy_hash app_resource 2 1 (text "leaked"));
}

abbrev purged : KvCatalog
purged = record stored {
  entries = [];
  audit =
      written_event
      ∷ record {
        identity_id = 1;
        resource = text "secret/app";
        operation = Types.purge;
        outcome = succeeded;
        version = none;
        reason = some (text "leaked");
      }
      ∷ [];
}

abbrev purge_result : PurgeResult
purge_result = record {
  metadata_generation = 2;
  version_count = 1;
  logical_destruction_only = true;
}

purge_sound_example : Purged toy_hash 1 app_resource purge_request stored purged purge_result
unfolding purge purge_confirmation reason_refused has_control canonical_resource
    authorize_destroy_all local_destroy_all entry_at remove be_bytes ◌>>=◌ when validate_endpoint
    authorize_operation secret_request secret_shape allowed authorize verdict shape_matches holds
    capability_eq as_u16 get insert audit_event logical_path new_catalog new_entry
purge_sound_example =
    purge_sound toy_hash 1 app_resource purge_request stored purged purge_result refl
