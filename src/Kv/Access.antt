-- ===== src/Kv/Access.antt =====
-- src/kv.rs: what every method of `KvService` starts with: the endpoint check, the authorisation
-- with its audited denial, the path of an entry, and the audit events.
use ops_light_secrets_server.Prelude.{
  ℕ, Bool, not, Option, none, some, ◌∷◌, ◌++◌, if◌then◌else◌, is_empty,
}
use ops_light_secrets_server.Prelude.Text.{Text, text, text_eq, join}
use ops_light_secrets_server.Prelude.Result.{Result, ok, err, map_err}
use ops_light_secrets_server.Prelude.Action.{◌>>=◌, ◌>>◌, pure, fail, lift, gets, modify, when}
use ops_light_secrets_server.RawTarget.{Resource, EndpointKind, EndpointRequest, kind_eq}
use ops_light_secrets_server.Identity.Request.{
  SecretAction, read_action, metadata_action, list_action, write_action, soft_delete_action,
  undelete_action, destroy_action, secret_request, local_destroy_all, AuthorizationRequest,
}
use ops_light_secrets_server.Identity.Authorize.{authorize}
use ops_light_secrets_server.Identity.Token.{owned_grants}
use ops_light_secrets_server.Kv.Types.{
  KvCatalog, KvError, KvAuditEvent, KvAuditOperation, KvAuditOutcome, denied, secret_mount, invalid,
  unsupported_mount, permission_denied,
}
use ops_light_secrets_server.Kv.Types
use ops_light_secrets_server.Kv.Catalog.{Kv, push_audit}

unfoldable pub validate_endpoint : EndpointRequest → EndpointKind → Result KvError (Unit {0})
validate_endpoint endpoint expected =
    if not (text_eq endpoint.resource.mount secret_mount)
    then err unsupported_mount
    else if not (kind_eq endpoint.kind expected)
    then err invalid
    else ok tt

unfoldable pub canonical_resource : Resource → Text
canonical_resource resource =
    if is_empty resource.canonical_segments
    then resource.mount
    else resource.mount ++ (b'/' ∷ join resource.canonical_segments)

unfoldable pub logical_path : EndpointRequest → Text
logical_path endpoint = join endpoint.resource.canonical_segments

unfoldable pub audit_event :
    ℕ → Text → KvAuditOperation → KvAuditOutcome → Option ℕ → Option Text → KvAuditEvent
audit_event identity_id resource operation outcome version reason = record {
  identity_id = identity_id;
  resource = secret_mount ++ (b'/' ∷ resource);
  operation = operation;
  outcome = outcome;
  version = version;
  reason = reason;
}

abbrev pub audit_operation : SecretAction → KvAuditOperation
audit_operation read_action = Types.read
audit_operation metadata_action = Types.metadata_read
audit_operation list_action = Types.list
audit_operation write_action = Types.write
audit_operation soft_delete_action = Types.soft_delete
audit_operation undelete_action = Types.undelete
audit_operation destroy_action = Types.destroy

-- Whether the catalog's grants of the identity allow the request.
unfoldable pub allowed : ℕ → AuthorizationRequest → KvCatalog → Bool
allowed identity_id request c = (authorize request (owned_grants identity_id c.grants)).allow

unfoldable pub authorize_operation : ℕ → EndpointRequest → SecretAction → Kv (Unit {0})
authorize_operation identity_id endpoint action = do
  request ← lift (map_err (λ _. invalid) (secret_request endpoint action))
  allow ← gets (allowed identity_id request)
  when allow (pure tt) do
    modify (
        push_audit (
          audit_event identity_id (logical_path endpoint) (audit_operation action) denied none
            (some (text "permission-denied"))))
    fail permission_denied

unfoldable pub authorize_destroy_all : ℕ → Resource → Kv (Unit {0})
authorize_destroy_all identity_id resource = do
  request ← lift (map_err (λ _. invalid) (local_destroy_all resource))
  allow ← gets (allowed identity_id request)
  when allow (pure tt) do
    modify (
        push_audit (
          audit_event identity_id (join resource.canonical_segments) Types.purge denied none
            (some (text "permission-denied"))))
    fail permission_denied
