-- ===== src/Kv/Types.antt =====
-- src/kv.rs: the state of the catalog. `VersionState` is that of src/store/mod.rs.
use ops_light_secrets_server.Prelude.{ℕ, Bool, true, false, Option, none, List, []}
use ops_light_secrets_server.Prelude.Text.{Text, text}
use ops_light_secrets_server.BTreeMap.{BTreeMap}
use ops_light_secrets_server.Identity.Records.{GrantRecord}

abbrev pub secret_mount : Text
secret_mount = text "secret"

abbrev pub default_max_versions : ℕ
default_max_versions = 10

abbrev pub max_versions_limit : ℕ
max_versions_limit = 1024

abbrev pub max_version_batch : ℕ
max_version_batch = 64

abbrev pub max_secret_encoded_bytes : ℕ
max_secret_encoded_bytes = 524288

abbrev pub max_secret_fields : ℕ
max_secret_fields = 256

abbrev pub max_secret_field_name_chars : ℕ
max_secret_field_name_chars = 256

abbrev pub max_secret_nesting_depth : ℕ
max_secret_nesting_depth = 32

abbrev pub max_list_results : ℕ
max_list_results = 1024

abbrev pub max_custom_metadata_keys : ℕ
max_custom_metadata_keys = 64

abbrev pub max_custom_metadata_key_chars : ℕ
max_custom_metadata_key_chars = 128

abbrev pub max_custom_metadata_value_chars : ℕ
max_custom_metadata_value_chars = 512

pub data VersionState : Type 0 where
  live soft_deleted destroyed : VersionState

abbrev pub state_live : VersionState → Bool
state_live live = true
state_live soft_deleted = false
state_live destroyed = false

abbrev pub state_soft_deleted : VersionState → Bool
state_soft_deleted live = false
state_soft_deleted soft_deleted = true
state_soft_deleted destroyed = false

abbrev pub state_destroyed : VersionState → Bool
state_destroyed live = false
state_destroyed soft_deleted = false
state_destroyed destroyed = true

pub data CasSource : Type 0 where
  path_override mount_default : CasSource

pub record EffectiveCasRequired : Type 0 where
  pub effective : Bool
  pub source : CasSource

pub data MaxVersionsSource : Type 0 where
  path_override mount_default : MaxVersionsSource

pub record EffectiveMaxVersions : Type 0 where
  pub effective : ℕ
  pub source : MaxVersionsSource

pub data KvAuditOutcome : Type 0 where
  succeeded denied failed : KvAuditOutcome

pub data KvAuditOperation : Type 0 where
  read write list metadata_read metadata_write soft_delete undelete destroy : KvAuditOperation
  rotation_cutover rotation_rollback purge : KvAuditOperation

pub record KvAuditEvent : Type 0 where
  pub identity_id : ℕ
  pub resource : Text
  pub operation : KvAuditOperation
  pub outcome : KvAuditOutcome
  pub version : Option ℕ
  pub reason : Option Text

pub record VersionValue : Type 0 where
  pub encoded : List ℕ
  pub created_unix_milliseconds : ℕ
  pub state : VersionState
  pub deletion_unix_milliseconds : Option ℕ

pub record Entry : Type 0 where
  pub metadata_generation : ℕ
  pub current_version : ℕ
  pub versions : BTreeMap ℕ VersionValue
  pub cas_required : Option Bool
  pub max_versions : Option ℕ
  pub protected_version : Option ℕ
  pub protection_known : Bool
  pub retention_deferred : Bool
  pub custom_metadata : BTreeMap Text Text

-- `Entry::new`
unfoldable pub new_entry : Option Bool → Entry
new_entry cas_required = record {
  metadata_generation = 1;
  current_version = 0;
  versions = [];
  cas_required = cas_required;
  max_versions = none;
  protected_version = none;
  protection_known = true;
  retention_deferred = false;
  custom_metadata = [];
}

pub record KvCatalog : Type 0 where
  pub mount_cas_required : Bool
  pub mount_max_versions : ℕ
  pub effective_unix_milliseconds : ℕ
  pub entries : BTreeMap Text Entry
  pub grants : List GrantRecord
  pub audit : List KvAuditEvent
  pub fail_next_read_audit_commit : Bool
  pub fail_next_purge_audit_commit : Bool

-- `KvCatalog::new`
unfoldable pub new_catalog : Bool → ℕ → KvCatalog
new_catalog mount_cas_required effective_unix_milliseconds = record {
  mount_cas_required = mount_cas_required;
  mount_max_versions = default_max_versions;
  effective_unix_milliseconds = effective_unix_milliseconds;
  entries = [];
  grants = [];
  audit = [];
  fail_next_read_audit_commit = false;
  fail_next_purge_audit_commit = false;
}

pub data KvError : Type 0 where
  invalid unsupported_mount permission_denied cas_conflict not_found : KvError
  version_unavailable : ℕ → ℕ → Bool → KvError
  unsupported_field : KvError
  bound_exceeded : Text → KvError
  resource_mismatch reason_required confirmation_required stale_ceremony : KvError
  rotation_protected unknown_rotation_protection internal : KvError
