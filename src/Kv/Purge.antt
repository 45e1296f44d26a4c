-- ===== src/Kv/Purge.antt =====
-- src/kv.rs: the purge of a secret with all its versions, a ceremony that names the exact state it
-- expects. `purge_confirmation` hashes with BLAKE3, which is a parameter here.
use ops_light_secrets_server.Prelude.{
  ℕ, Bool, true, false, not, ◌&&◌, ◌||◌, Option, none, some, List, [], ◌∷◌, ◌++◌, ltb, ◌==◌,
  is_empty, is_some, length, option_eq,
}
use ops_light_secrets_server.Prelude.Order.{nat_ord, list_ord}
use ops_light_secrets_server.Prelude.Text.{Text, text, join, is_ascii_control}
use ops_light_secrets_server.Prelude.Words.{be_bytes}
use ops_light_secrets_server.Prelude.Action.{◌>>=◌, ◌>>◌, pure, fail, gets, modify, refuse, when}
use ops_light_secrets_server.BTreeMap
use ops_light_secrets_server.RawTarget.{Resource, resource_eq}
use ops_light_secrets_server.Kv.Types.{
  KvCatalog, KvError, Entry, failed, succeeded, not_found, resource_mismatch, reason_required,
  confirmation_required, stale_ceremony, rotation_protected, unknown_rotation_protection, internal,
}
use ops_light_secrets_server.Kv.Types
use ops_light_secrets_server.Kv.Catalog.{Kv, push_audit, entry_at}
use ops_light_secrets_server.Kv.Access.{canonical_resource, audit_event, authorize_destroy_all}

pub record PurgePreflight : Type 0 where
  pub resource : Text
  pub metadata_generation : ℕ
  pub version_count : ℕ

pub record PurgeRequest : Type 0 where
  pub resource : Resource
  pub expected_metadata_generation : ℕ
  pub expected_version_count : ℕ
  pub reason : Text
  pub confirmation : Option ℕ

pub record PurgeResult : Type 0 where
  pub metadata_generation : ℕ
  pub version_count : ℕ
  pub logical_destruction_only : Bool

-- `char::is_control` over the UTF-8 bytes of the reason: the ASCII control characters, and the
-- characters U+0080 to U+009F, which are the byte 0xC2 and a byte from 0x80 to 0x9F.
unfoldable pub has_control : Text → Bool
has_control [] = false
has_control (b ∷ []) = is_ascii_control b
has_control (b ∷ c ∷ rest) =
    is_ascii_control b || (b == 0xc2 && (ltb c 0xa0 && ltb 0x7f c)) || has_control (c ∷ rest)

unfoldable pub reason_refused : Text → Bool
reason_refused reason = is_empty reason || ltb 1024 (length reason) || has_control reason

unfoldable pub purge_preflight : ℕ → Resource → Kv PurgePreflight
purge_preflight identity_id resource = do
  authorize_destroy_all identity_id resource
  e ← entry_at (join resource.canonical_segments)
  refuse (not e.protection_known) unknown_rotation_protection
  refuse (is_some e.protected_version) rotation_protected
  pure (record {
    resource = canonical_resource resource;
    metadata_generation = e.metadata_generation;
    version_count = length e.versions;
  })

-- `audit_failure`, and the error that is returned after it.
abbrev pub audit_failure : ℕ → Text → Text → KvError → Kv (Unit {0})
audit_failure identity_id path reason error = do
  modify (push_audit (audit_event identity_id path Types.purge failed none (some reason)))
  fail error

abbrev pub check_failure : ℕ → Text → Bool → Text → KvError → Kv (Unit {0})
check_failure identity_id path failing reason error =
    when failing (audit_failure identity_id path reason error) (pure tt)

-- `get`, or the audited `not-found`.
abbrev pub entry_or_failure : ℕ → Text → Option Entry → Kv Entry
entry_or_failure identity_id path none = do
  audit_failure identity_id path (text "not-found") not_found
  fail not_found
entry_or_failure identity_id path (some e) = pure e

module _ (blake3 : List ℕ → ℕ) where
  unfoldable pub purge_confirmation : Resource → ℕ → ℕ → Text → ℕ
  purge_confirmation resource metadata_generation version_count reason =
      let canonical = canonical_resource resource in
      blake3 (
        text "ops-light-secrets-server.secret-purge.v1"
        ++ (0 ∷ be_bytes (length canonical))
        ++ (canonical ++ be_bytes metadata_generation)
        ++ (be_bytes version_count ++ be_bytes (length reason))
        ++ reason)

  unfoldable pub purge : ℕ → Resource → PurgeRequest → Kv PurgeResult
  purge identity_id expected_resource request = do
    let path = join expected_resource.canonical_segments
    check_failure identity_id path (not (resource_eq request.resource expected_resource))
        (text "resource-mismatch") resource_mismatch
    check_failure identity_id path (reason_refused request.reason) (text "reason-required")
        reason_required
    authorize_destroy_all identity_id request.resource
    found ← gets (λ c. BTreeMap.get path c.entries)
    e ← entry_or_failure identity_id path found
    check_failure identity_id path (not e.protection_known) (text "unknown-rotation-protection")
        unknown_rotation_protection
    check_failure identity_id path (is_some e.protected_version) (text "rotation-protected")
        rotation_protected
    check_failure identity_id path
        (not (e.metadata_generation == request.expected_metadata_generation)
          || not (length e.versions == request.expected_version_count))
        (text "stale-ceremony") stale_ceremony
    check_failure identity_id path
        (not (
          option_eq request.confirmation (
            some (
              purge_confirmation request.resource request.expected_metadata_generation
                request.expected_version_count request.reason))))
        (text "confirmation-required") confirmation_required
    failing ← gets (λ c. c.fail_next_purge_audit_commit)
    when failing (do modify (λ c. record c { fail_next_purge_audit_commit = false }); fail internal)
        (do
          modify (
              push_audit
                (audit_event identity_id path Types.purge succeeded none (some request.reason)))
          removed ← entry_at path
          modify (λ c. record c { entries = BTreeMap.remove path c.entries })
          pure (record {
            metadata_generation = removed.metadata_generation;
            version_count = length e.versions;
            logical_destruction_only = true;
          }))
