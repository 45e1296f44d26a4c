-- ===== src/Kv/Preserves/Cutover.antt =====
-- The rotation primitives keep the catalog's invariant.
use ops_light_secrets_server.Prelude.{ℕ, ◌≡◌, Bool, some, List, arith}
use ops_light_secrets_server.Prelude.Order.{nat_ord, list_ord}
use ops_light_secrets_server.Prelude.Text.{Text}
use ops_light_secrets_server.Prelude.Keeps.{Keeps, Any}
use ops_light_secrets_server.BTreeMap.{get}
use ops_light_secrets_server.RawTarget.{EndpointRequest}
use ops_light_secrets_server.Kv.Types.{KvAuditOperation, VersionValue, Entry}
use ops_light_secrets_server.Kv.Value.{Map}
use ops_light_secrets_server.Kv.Service.{Json}
use ops_light_secrets_server.Kv.Mutations.{Versions}
use ops_light_secrets_server.Kv.Cutover.{
  rotation_snapshot, set_rotation_snapshot_protection, protect, unprotect, rotation_write_encoded,
  rotation_cutover_write, rotation_rollback_copy_forward,
}
use ops_light_secrets_server.Kv.Invariant.{Guarded, EntryOk, CatalogOk, protect-EntryOk}
use ops_light_secrets_server.Kv.Preserves.{serving}

found-Guarded :
    (v : ℕ) (versions : Versions) (value : VersionValue)
    → get v versions ≡ some value
    → Guarded (some v) versions
found-Guarded v versions value e = ground arith

protect-Keeps :
    (path : Text) (expected_current : ℕ) (e : Entry)
    → EntryOk e
    → Keeps CatalogOk Any (protect path expected_current e)
unfolding protect
protect-Keeps path expected_current e valid =
    search (serving, protect-EntryOk, found-Guarded) depth 24

unprotect-Keeps :
    (path : Text) (expected_current : ℕ) (e : Entry)
    → EntryOk e
    → Keeps CatalogOk Any (unprotect path expected_current e)
unfolding unprotect
unprotect-Keeps path expected_current e valid = search (serving, protect-EntryOk) depth 24

pub set_rotation_snapshot_protection-Keeps :
    (endpoint : EndpointRequest) (expected_current : ℕ) (protected : Bool)
    → Keeps CatalogOk Any (set_rotation_snapshot_protection endpoint expected_current protected)
unfolding set_rotation_snapshot_protection
set_rotation_snapshot_protection-Keeps endpoint expected_current protected =
    search (serving, protect-Keeps, unprotect-Keeps) depth 24

pub rotation_snapshot-Keeps :
    (endpoint : EndpointRequest) → Keeps CatalogOk Any (rotation_snapshot endpoint)
unfolding rotation_snapshot
rotation_snapshot-Keeps endpoint = search serving depth 24

pub rotation_write_encoded-Keeps :
    (actor : ℕ) (endpoint : EndpointRequest) (encoded : List ℕ) (expected_current : ℕ)
    (operation : KvAuditOperation)
    → Keeps CatalogOk Any (rotation_write_encoded actor endpoint encoded expected_current operation)
unfolding rotation_write_encoded
rotation_write_encoded-Keeps actor endpoint encoded expected_current operation =
    search serving depth 24

pub rotation_cutover_write-Keeps :
    (json : Json) (actor : ℕ) (endpoint : EndpointRequest) (values : Map) (expected_current : ℕ)
    → Keeps CatalogOk Any (rotation_cutover_write json actor endpoint values expected_current)
unfolding rotation_cutover_write
rotation_cutover_write-Keeps json actor endpoint values expected_current =
    search (serving, rotation_write_encoded-Keeps) depth 24

pub rotation_rollback_copy_forward-Keeps :
    (actor : ℕ) (endpoint : EndpointRequest) (expected_current protected_version : ℕ)
    → Keeps CatalogOk Any
        (rotation_rollback_copy_forward actor endpoint expected_current protected_version)
unfolding rotation_rollback_copy_forward
rotation_rollback_copy_forward-Keeps actor endpoint expected_current protected_version =
    search (serving, rotation_write_encoded-Keeps) depth 24
