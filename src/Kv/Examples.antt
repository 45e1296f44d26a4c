-- ===== src/Kv/Examples.antt =====
-- Tests of src/kv.rs: a catalog with one grant, a toy JSON encoding, and a secret that is written,
-- read, destroyed and purged.
mod Removal
use mathlib.Core.List.{Memᴰ}
use ops_light_secrets_server.Prelude.{
  ℕ, ◌+◌, ◌≤◌, ◌<◌, ◌≡◌, ◌≢◌, refl, ◌↔◌, Bool, true, false, not, ◌&&◌, Option, none, some, List, [],
  ◌∷◌, ◌++◌, arith, length,
}
use ops_light_secrets_server.Prelude.Order.{nat_ord, list_ord}
use ops_light_secrets_server.Prelude.Text.{Text, text, join}
use ops_light_secrets_server.Prelude.Result.{Result, ok, err, is_ok}
use ops_light_secrets_server.Prelude.Action.{◌>>=◌, when}
use ops_light_secrets_server.BTreeMap
use ops_light_secrets_server.BTreeMap.{BTreeMap, get, insert, remove}
use ops_light_secrets_server.BTreeMap.Order.{IsSorted}
use ops_light_secrets_server.RawTarget.{Resource, EndpointRequest, data_kind, destroy}
use ops_light_secrets_server.Identity.Capability.{
  Capability, holds, capability_eq, as_u16, secret_read_current, secret_read_history, secret_write,
  secret_destroy, secret_destroy_all,
}
use ops_light_secrets_server.Identity.Records.{GrantRecord, GrantStatus, GrantScope}
use ops_light_secrets_server.Identity.Request.{
  AuthorizationRequest, AuthorizationOperation, read_current, read_history, write_op,
  secret_request, secret_shape, local_destroy_all, shape_matches, read_action, write_action,
  destroy_action,
}
use ops_light_secrets_server.Identity.Authorize.{authorize, verdict}
use ops_light_secrets_server.Identity.Grants.{Permits}
use ops_light_secrets_server.Kv.Types.{
  KvCatalog, KvError, KvAuditEvent, VersionValue, live, soft_deleted, destroyed, Entry, new_entry,
  new_catalog, succeeded, failed, cas_conflict, permission_denied, version_unavailable,
}
use ops_light_secrets_server.Kv.Types
use ops_light_secrets_server.Kv.Catalog.{
  push_audit, prune_entry, entry_at, entry_or_insert, prune, prune_loop, prune_candidate, evictable,
  effective_cas_required,
}
use ops_light_secrets_server.Kv.Value.{
  Value, Map, string, object, end, field, validate_secret_value, map_len, walk_map, walk,
  chars_count, validate_versions, has_duplicate,
}
use ops_light_secrets_server.Kv.Value.Bounds.{
  validate_secret_value_iff, map_field_count, map_depth, map_names_fit,
}
use ops_light_secrets_server.Kv.Access.{
  audit_event, authorize_operation, authorize_destroy_all, allowed, logical_path, validate_endpoint,
  canonical_resource,
}
use ops_light_secrets_server.Kv.Service.{
  Json, WriteResult, ReadResult, write, read, commit_version, write_conflict, read_entry,
  read_version, disclose, new_version,
}
use ops_light_secrets_server.Kv.Mutations.{
  mutate_versions, mutate_versions_locked, mutate_loop, mutate_value, mutation_kind,
  mutation_operation, audit_versions,
}
use ops_light_secrets_server.Kv.Purge.{
  PurgeRequest, PurgeResult, purge, purge_confirmation, reason_refused, has_control,
}
use ops_light_secrets_server.Kv.Retention.{
  Ended, retention_limit, prune_entry_limit, prune_entry_oldest,
}
use ops_light_secrets_server.Kv.Invariant.{CatalogOk}
use ops_light_secrets_server.Kv.History.{Call, run, run-CatalogOk}
use ops_light_secrets_server.Kv.Audit.Trail.{run-audit}
use ops_light_secrets_server.Kv.Granted.{Granted, authorize_operation-denied}
use ops_light_secrets_server.Kv.Disclosure.{Stored, read_sound, read_complete}
use ops_light_secrets_server.Kv.Writes.{Written}
use ops_light_secrets_server.Kv.Writes.RoundTrip.{
  already_there, write_sound, write-conflict, read-write,
}
use ops_light_secrets_server.Kv.Destruction.{Mutates, mutate_versions_sound}
use ops_light_secrets_server.Kv.Destruction.Final.{destroyed_final, destroy-read}
use ops_light_secrets_server.Kv.Purging.{Purged, purge_sound}

-- An encoding of the objects with one field of one letter that holds a text.
abbrev encode_map : Map → Option (List ℕ)
encode_map (field (c ∷ []) (string s) end) = some (c ∷ s)
encode_map _ = none

abbrev encode : Value → Option (List ℕ)
encode (object values) = encode_map values
encode _ = none

abbrev decode : List ℕ → Option Value
decode [] = none
decode (c ∷ s) = some (object (field (c ∷ []) (string s) end))

abbrev pub toy_json : Json
toy_json = record { to_vec = encode; from_slice = decode }

abbrev app_grant : GrantRecord
app_grant = record {
  id = 7;
  owner_identity_id = 1;
  generation = 1;
  status = GrantStatus.active;
  mount = text "secret";
  scope = GrantScope.subtree;
  prefix_segments = [];
  capabilities =
      secret_read_current ∷ secret_read_history ∷ secret_write ∷ secret_destroy ∷ secret_destroy_all
      ∷ [];
}

abbrev start : KvCatalog
start = record (new_catalog false 1000) { grants = app_grant ∷ [] }

abbrev app_resource : Resource
app_resource = record { mount = text "secret"; canonical_segments = text "app" ∷ [] }

abbrev app_endpoint : EndpointRequest
app_endpoint = record { kind = data_kind; resource = app_resource; version = none }

abbrev pub value_v : Map
value_v = field (text "k") (string (text "v")) end

abbrev version_v : VersionValue
version_v = new_version (text "kv") 1000

abbrev entry_v : Entry
entry_v = record {
  metadata_generation = 2;
  current_version = 1;
  versions = (1, version_v) ∷ [];
  cas_required = none;
  max_versions = none;
  protected_version = none;
  protection_known = true;
  retention_deferred = false;
  custom_metadata = [];
}

abbrev written_event : KvAuditEvent
written_event = record {
  identity_id = 1;
  resource = text "secret/app";
  operation = Types.write;
  outcome = succeeded;
  version = some 1;
  reason = none;
}

-- The catalog after the first write.
abbrev pub stored : KvCatalog
stored = record {
  mount_cas_required = false;
  mount_max_versions = 10;
  effective_unix_milliseconds = 1000;
  entries = (text "app", entry_v) ∷ [];
  grants = app_grant ∷ [];
  audit = written_event ∷ [];
  fail_next_read_audit_commit = false;
  fail_next_purge_audit_commit = false;
}

abbrev first_result : WriteResult
first_result = record { version = 1; created = 1000 }

write_v : write toy_json 1 app_endpoint value_v (some 0) start ≡ (ok first_result, stored)
unfolding write validate_secret_value write_conflict effective_cas_required commit_version
    entry_or_insert prune entry_at prune_entry prune_loop prune_candidate chars_count map_len
    walk_map walk remove BTreeMap.keys ◌>>=◌ when validate_endpoint authorize_operation
    secret_request secret_shape allowed authorize verdict shape_matches holds capability_eq as_u16
    get insert audit_event logical_path new_catalog new_entry
write_v = refl

app_read-Granted : Granted 1 app_endpoint read_action start
unfolding secret_request secret_shape holds capability_eq as_u16 new_catalog
app_read-Granted = (
  record { resource = app_resource; operation = read_current; capability = secret_read_current },
  refl,
  app_grant,
  Memᴰ.head refl,
  refl,
  record { is_active = refl; at_mount = refl; covers = refl; has_capability = refl },
)

app_write-Granted : Granted 1 app_endpoint write_action stored
unfolding secret_request secret_shape holds capability_eq as_u16
app_write-Granted = (
  record { resource = app_resource; operation = write_op; capability = secret_write },
  refl,
  app_grant,
  Memᴰ.head refl,
  refl,
  record { is_active = refl; at_mount = refl; covers = refl; has_capability = refl },
)

read-write_example :
    (read toy_json 1 app_endpoint stored).0
    ≡ ok (record { value = object value_v; version = 1; created = 1000 })
unfolding new_catalog
read-write_example =
    read-write toy_json 1 1 app_endpoint value_v (some 0) start stored first_result write_v refl
      app_read-Granted refl (text "kv") (object value_v) refl refl

write_sound_example :
    Granted 1 app_endpoint write_action start
    × (write_conflict (logical_path app_endpoint) (some 0) start ≡ false)
    × ((encoded : List ℕ) × (encode (object value_v) ≡ some encoded)
        × Written 1 (logical_path app_endpoint) encoded start stored first_result)
write_sound_example =
    write_sound toy_json 1 app_endpoint value_v (some 0) start stored first_result write_v

-- A second write that expects no entry.
write-conflict_example : write toy_json 1 app_endpoint value_v (some 0) stored ≡ (
  err cas_conflict,
  push_audit
      (audit_event 1
        (logical_path app_endpoint)
        Types.write
        failed
        none
        (some (text "cas-conflict")))
      stored,
)
unfolding validate_endpoint validate_secret_value map_len walk_map walk chars_count get logical_path
write-conflict_example =
    write-conflict toy_json 1 app_endpoint value_v (some 0) (text "kv") stored refl refl refl
      (omega arith) app_write-Granted (already_there entry_v refl)

abbrev toy_hash : List ℕ → ℕ
toy_hash bytes = length bytes

abbrev calls : List Call
calls =
    Call.write 1 app_endpoint value_v (some 0)
    ∷ Call.read 1 app_endpoint
    ∷ Call.prune (text "app")
    ∷ []

run-CatalogOk_example : CatalogOk (run toy_json toy_hash calls (new_catalog false 1000))
run-CatalogOk_example = run-CatalogOk toy_json toy_hash calls false 1000

run-audit_example :
    (later : List KvAuditEvent) × ((run toy_json toy_hash calls stored).audit
      ≡ stored.audit ++ later)
run-audit_example = run-audit toy_json toy_hash calls stored

abbrev read_v : ReadResult
read_v = record { value = object value_v; version = 1; created = 1000 }

abbrev seen : KvCatalog
seen =
    push_audit (audit_event 1 (logical_path app_endpoint) Types.read succeeded (some 1) none) stored

read_sound_example :
    Granted 1 app_endpoint read_action stored
    × ((value : VersionValue) × Stored app_endpoint stored 1 value
        × (value.state ≡ live)
        × (decode value.encoded ≡ some (object value_v))
        × (1000 ≡ value.created_unix_milliseconds))
    × (seen
        ≡ push_audit
            (audit_event 1 (logical_path app_endpoint) Types.read succeeded (some 1) none)
            stored)
unfolding read read_entry read_version disclose ◌>>=◌ when validate_endpoint authorize_operation
    secret_request secret_shape allowed authorize verdict shape_matches holds capability_eq as_u16
    get insert audit_event logical_path new_catalog new_entry
read_sound_example = read_sound toy_json 1 app_endpoint stored seen read_v refl

read_complete_example : read toy_json 1 app_endpoint stored ≡ (
  ok read_v,
  push_audit (audit_event 1 (logical_path app_endpoint) Types.read succeeded (some 1) none) stored,
)
unfolding validate_endpoint get logical_path new_catalog
read_complete_example =
    read_complete toy_json 1 app_endpoint stored 1 version_v (object value_v) refl app_read-Granted
      (entry_v, refl, refl, refl) refl refl refl
