-- ===== src/Kv/Preserves/Purge.antt =====
-- The purge and the settings of `KvCatalog` keep the catalog's invariant.
use ops_light_secrets_server.Prelude.{ℕ, ◌≡◌, Bool, false, Option, none, some, List, arith}
use ops_light_secrets_server.Prelude.Order.{nat_ord, list_ord}
use ops_light_secrets_server.Prelude.Text.{Text}
use ops_light_secrets_server.Prelude.Action.{◌>>=◌, modify}
use ops_light_secrets_server.Prelude.Keeps.{
  Keeps, Any, Keeps-modify, Keeps-bind_refuse, Keeps-bind_any,
}
use ops_light_secrets_server.BTreeMap.{remove}
use ops_light_secrets_server.RawTarget.{Resource}
use ops_light_secrets_server.Kv.Types.{KvError, VersionState, Entry}
use ops_light_secrets_server.Kv.Catalog.{
  Kv, set_path_cas_required, set_path_max_versions, set_rotation_protection,
  set_unknown_rotation_protection, set_version_state, set_mount_max_versions, missing_version,
}
use ops_light_secrets_server.Kv.Mutations.{Versions}
use ops_light_secrets_server.Kv.Purge.{
  purge, purge_preflight, entry_or_failure, audit_failure, PurgeRequest,
}
use ops_light_secrets_server.Kv.Invariant.{
  Guarded, CatalogOk, settings-EntryOk, protect-EntryOk, remove-CatalogOk,
}
use ops_light_secrets_server.Kv.Preserves.{serving}

audit_failure-Keeps :
    {Q : Unit {0} → Type 0} (identity_id : ℕ) (path : Text) (reason : Text) (error : KvError)
    → Keeps CatalogOk Q (audit_failure identity_id path reason error)
audit_failure-Keeps {Q} identity_id path reason error = search (serving) depth 24

entry_or_failure-Keeps :
    (identity_id : ℕ) (path : Text) (o : Option Entry)
    → Keeps CatalogOk Any (entry_or_failure identity_id path o)
entry_or_failure-Keeps identity_id path none = search serving depth 24
entry_or_failure-Keeps identity_id path (some e) = search serving depth 24

entry_or_failure-bind :
    {B : Type 0} (identity_id : ℕ) (path : Text) (o : Option Entry) (f : Entry → Kv B)
    → ((e : Entry) → Keeps CatalogOk Any (f e))
    → Keeps CatalogOk Any (entry_or_failure identity_id path o >>= f)
entry_or_failure-bind identity_id path o f h =
    Keeps-bind_any Any (entry_or_failure-Keeps identity_id path o) h

removal-Keeps :
    (path : Text)
    → Keeps {E = KvError} CatalogOk Any (modify (λ c. record c { entries = remove path c.entries }))
removal-Keeps path = Keeps-modify _ (λ c h. remove-CatalogOk path c h)

switch-Keeps :
    Keeps {E = KvError} CatalogOk Any
      (modify (λ c. record c { fail_next_purge_audit_commit = false }))
switch-Keeps = Keeps-modify _ (λ c h. record { at_path = h.at_path })

pub purge_preflight-Keeps :
    (identity_id : ℕ) (resource : Resource)
    → Keeps CatalogOk Any (purge_preflight identity_id resource)
unfolding purge_preflight
purge_preflight-Keeps identity_id resource = search serving depth 24

pub purge-Keeps :
    (blake3 : List ℕ → ℕ) (identity_id : ℕ) (resource : Resource) (request : PurgeRequest)
    → Keeps CatalogOk Any (purge blake3 identity_id resource request)
unfolding purge
purge-Keeps blake3 identity_id resource request =
    search (serving, entry_or_failure-bind, removal-Keeps, switch-Keeps) depth 40

pub set_path_cas_required-Keeps :
    (path : Text) (value : Option Bool) → Keeps CatalogOk Any (set_path_cas_required path value)
unfolding set_path_cas_required
set_path_cas_required-Keeps path value = search (serving, settings-EntryOk) depth 24

pub set_path_max_versions-Keeps :
    (path : Text) (value : Option ℕ) → Keeps CatalogOk Any (set_path_max_versions path value)
unfolding set_path_max_versions
set_path_max_versions-Keeps path value = search (serving, settings-EntryOk) depth 24

pub set_mount_max_versions-Keeps : (value : ℕ) → Keeps CatalogOk Any (set_mount_max_versions value)
unfolding set_mount_max_versions
set_mount_max_versions-Keeps value =
    Keeps-bind_refuse Any _ _ _ λ _. Keeps-modify _ (λ c h. record { at_path = h.at_path })

pub set_unknown_rotation_protection-Keeps :
    (path : Text) → Keeps CatalogOk Any (set_unknown_rotation_protection path)
unfolding set_unknown_rotation_protection
set_unknown_rotation_protection-Keeps path = search (serving, settings-EntryOk) depth 24

pub set_version_state-Keeps :
    (path : Text) (version : ℕ) (state : VersionState)
    → Keeps CatalogOk Any (set_version_state path version state)
unfolding set_version_state
set_version_state-Keeps path version state = search serving depth 24

present-Guarded :
    (version : Option ℕ) (versions : Versions)
    → missing_version version versions ≡ false
    → Guarded version versions
present-Guarded none versions h = tt
present-Guarded (some v) versions h = ground arith

pub set_rotation_protection-Keeps :
    (path : Text) (version : Option ℕ) → Keeps CatalogOk Any (set_rotation_protection path version)
unfolding set_rotation_protection
set_rotation_protection-Keeps path version =
    search (serving, protect-EntryOk, present-Guarded) depth 24
