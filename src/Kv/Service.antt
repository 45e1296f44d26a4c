-- ===== src/Kv/Service.antt =====
-- src/kv.rs: writing, reading and listing secrets. Each method holds the catalog's lock from its
-- first use of the catalog to its end, so it is one step; a poisoned lock is not modelled.
use ops_light_secrets_server.Prelude.{
  ℕ, Bool, true, false, not, Option, none, some, List, ltb, ◌==◌, if◌then◌else◌, length, unwrap_or,
}
use ops_light_secrets_server.Prelude.Order.{nat_ord, list_ord}
use ops_light_secrets_server.Prelude.Text.{Text, text}
use ops_light_secrets_server.Prelude.Action.{
  ◌>>=◌, ◌>>◌, pure, fail, lift, gets, modify, when, some_or, refuse,
}
use ops_light_secrets_server.BTreeMap
use ops_light_secrets_server.BTreeMap.{BTreeMap}
use ops_light_secrets_server.RawTarget.{EndpointRequest, data_kind}
use ops_light_secrets_server.Identity.Request.{read_action, write_action}
use ops_light_secrets_server.Kv.Types.{
  KvCatalog, KvError, Entry, VersionValue, live, state_live, state_destroyed, succeeded, failed,
  new_entry, max_secret_encoded_bytes, max_list_results, invalid, not_found, cas_conflict,
  version_unavailable, bound_exceeded, internal,
}
use ops_light_secrets_server.Kv.Types
use ops_light_secrets_server.Kv.Catalog.{
  Kv, push_audit, put_entry, entry_or_insert, next_u64, prune, effective_cas_required,
}
use ops_light_secrets_server.Kv.Value.{Value, Map, object, validate_secret_value}
use ops_light_secrets_server.Kv.Access.{
  validate_endpoint, logical_path, audit_event, authorize_operation,
}

-- `serde_json::to_vec` and `serde_json::from_slice`, of which nothing is assumed.
pub record Json : Type 0 where
  pub to_vec : Value → Option (List ℕ)
  pub from_slice : List ℕ → Option Value

pub record WriteResult : Type 0 where
  pub version : ℕ
  pub created : ℕ

pub record ReadResult : Type 0 where
  pub value : Value
  pub version : ℕ
  pub created : ℕ

abbrev pub new_version : List ℕ → ℕ → VersionValue
new_version encoded created = record {
  encoded = encoded;
  created_unix_milliseconds = created;
  state = live;
  deletion_unix_milliseconds = none;
}

abbrev pub entry_version : Option Entry → ℕ
entry_version none = 0
entry_version (some e) = e.current_version

abbrev pub entry_exists : Option Entry → Bool
entry_exists none = false
entry_exists (some e) = true

-- The `match cas` of `write`.
unfoldable pub write_conflict : Text → Option ℕ → KvCatalog → Bool
write_conflict path cas c = elim cas [
  | none ↦ (effective_cas_required path c).effective
  | some expected ↦
      if expected == 0
      then entry_exists (BTreeMap.get path c.entries)
      else not (expected == entry_version (BTreeMap.get path c.entries))
]

-- The end of `write`: the new version, its generation, the pruning and the audit.
unfoldable pub commit_version : ℕ → Text → List ℕ → Kv WriteResult
commit_version identity_id path encoded = do
  created ← gets (λ c. c.effective_unix_milliseconds)
  e ← entry_or_insert path (new_entry none)
  version ← next_u64 e.current_version
  put_entry path (record e { current_version = version })
  generation ← next_u64 e.metadata_generation
  put_entry path (record e {
    current_version = version;
    metadata_generation = generation;
    versions = BTreeMap.insert version (new_version encoded created) e.versions;
  })
  prune path
  modify (push_audit (audit_event identity_id path Types.write succeeded (some version) none))
  pure (record { version = version; created = created })

-- A read that fails is audited with the version that was asked for.
abbrev pub read_failed : ℕ → Text → Option ℕ → KvError → Kv ReadResult
read_failed identity_id path version error = do
  modify (
      push_audit (audit_event identity_id path Types.read failed version (some (text "not-found"))))
  fail error

module _ (json : Json) where
  unfoldable pub write : ℕ → EndpointRequest → Map → Option ℕ → Kv WriteResult
  write identity_id endpoint values cas = do
    lift (validate_endpoint endpoint data_kind)
    lift (validate_secret_value values)
    encoded ← some_or (json.to_vec (object values)) invalid
    refuse (ltb max_secret_encoded_bytes (length encoded))
        (bound_exceeded (text "secret_encoded_bytes"))
    authorize_operation identity_id endpoint write_action
    conflict ← gets (write_conflict (logical_path endpoint) cas)
    when conflict
        (do
          modify (
              push_audit (
                audit_event identity_id (logical_path endpoint) Types.write failed none
                  (some (text "cas-conflict"))))
          fail cas_conflict)
        (commit_version identity_id (logical_path endpoint) encoded)

  -- The end of `read`, at a live version: the success is audited before the value is returned.
  unfoldable pub disclose : ℕ → Text → ℕ → VersionValue → Kv ReadResult
  disclose identity_id path version value = do
    failing ← gets (λ c. c.fail_next_read_audit_commit)
    when failing (do modify (λ c. record c { fail_next_read_audit_commit = false }); fail internal)
        (do
          decoded ← some_or (json.from_slice value.encoded) internal
          modify
              (push_audit (audit_event identity_id path Types.read succeeded (some version) none))
          pure (record {
            value = decoded;
            version = version;
            created = value.created_unix_milliseconds;
          }))

  unfoldable pub read_version : ℕ → Text → ℕ → Option VersionValue → Kv ReadResult
  read_version identity_id path version none = read_failed identity_id path (some version) not_found
  read_version identity_id path version (some value) =
      when (not (state_live value.state))
        (read_failed identity_id path (some version) (
          version_unavailable version (unwrap_or value.deletion_unix_milliseconds 0)
            (state_destroyed value.state)))
        (disclose identity_id path version value)

  unfoldable pub read_entry : ℕ → Text → Option ℕ → Option Entry → Kv ReadResult
  read_entry identity_id path version none = read_failed identity_id path none not_found
  read_entry identity_id path version (some e) =
      let v = unwrap_or version e.current_version in
      read_version identity_id path v (BTreeMap.get v e.versions)

  unfoldable pub read : ℕ → EndpointRequest → Kv ReadResult
  read identity_id endpoint = do
    lift (validate_endpoint endpoint data_kind)
    authorize_operation identity_id endpoint read_action
    found ← gets (λ c. BTreeMap.get (logical_path endpoint) c.entries)
    read_entry identity_id (logical_path endpoint) endpoint.version found
