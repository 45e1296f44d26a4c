-- ===== src/Kv/Preserves.antt =====
-- Every method of the catalog and of the service keeps the invariant, whether it returns or fails.
pub mod Mutations
pub mod Cutover
pub mod Purge
use ops_light_secrets_server.Prelude.{
  ℕ, ◌+◌, ◌≡◌, ◌≢◌, refl, Bool, true, false, not, ◌&&◌, Option, none, some, List, [], ◌∷◌, ◌++◌,
  arith, is_some, unwrap_or, checked_add, any,
}
use ops_light_secrets_server.Prelude.Order.{nat_ord, list_ord}
use ops_light_secrets_server.Prelude.Text.{Text}
use ops_light_secrets_server.Prelude.Result.{Result, ok, err}
use ops_light_secrets_server.Prelude.Action.{
  Action, continue, ◌>>=◌, ◌>>◌, pure, fail, lift, gets, modify, some_or, refuse, when,
}
use ops_light_secrets_server.Prelude.Keeps.{
  Keeps, Any, Returns, Returns-any, Keeps-pure, Keeps-pure_any, Keeps-fail, Keeps-lift,
  Keeps-lift_any, Keeps-gets, Keeps-gets_such, Keeps-modify, Keeps-some_or, Keeps-refuse,
  Keeps-when, Keeps-bind, Keeps-bind_some_or, Keeps-bind_refuse, Keeps-bind_lift, Keeps-bind_any,
}
use ops_light_secrets_server.BTreeMap
use ops_light_secrets_server.BTreeMap.{BTreeMap, get, insert, remove}
use ops_light_secrets_server.RawTarget.{EndpointRequest, Resource}
use ops_light_secrets_server.Identity.Request.{SecretAction}
use ops_light_secrets_server.Kv.Types.{
  KvCatalog, KvError, KvAuditEvent, KvAuditOperation, VersionValue, VersionState, Entry, new_entry,
}
use ops_light_secrets_server.Kv.Catalog.{
  Kv, prune_entry, put_entry, entry_at, entry_or_insert, push_audit, set_entry, next_u64, prune,
  set_path_cas_required, set_path_max_versions, set_rotation_protection,
  set_unknown_rotation_protection, set_version_state, set_mount_max_versions, missing_version,
}
use ops_light_secrets_server.Kv.Value.{Map}
use ops_light_secrets_server.Kv.Access.{authorize_operation, authorize_destroy_all}
use ops_light_secrets_server.Kv.Service.{
  Json, WriteResult, ReadResult, commit_version, write, disclose, read_version, read_entry, read,
  new_version,
}
use ops_light_secrets_server.Kv.Mutations.{
  Versions, mutate_at, mutate_loop, mutate_value, mutate_versions_locked, mutate_versions,
  soft_delete_latest, update_metadata, MetadataUpdate, audit_versions,
}
use ops_light_secrets_server.Kv.Cutover.{
  rotation_snapshot, set_rotation_snapshot_protection, protect, unprotect, rotation_write_encoded,
  rotation_cutover_write, rotation_rollback_copy_forward, RotationSnapshot,
}
use ops_light_secrets_server.Kv.Purge.{
  purge, purge_preflight, entry_or_failure, PurgeRequest, PurgeResult, PurgePreflight,
}
use ops_light_secrets_server.Kv.Invariant.{
  Guarded, EntryOk, CatalogOk, new_entry-EntryOk, set_entry-CatalogOk, prune_entry-EntryOk,
  append-EntryOk, bump-EntryOk, replace-EntryOk, settings-EntryOk, protect-EntryOk,
  remove-CatalogOk,
}

-- The entries decide the invariant.
pub same_entries-CatalogOk : (c d : KvCatalog) → d.entries ≡ c.entries → CatalogOk c → CatalogOk d
same_entries-CatalogOk c d e h = record {
  at_path = λ path x found. h.at_path path x (ground arith);
}

pub push_audit-Keeps :
    (event : KvAuditEvent) → Keeps {E = KvError} CatalogOk Any (modify (push_audit event))
push_audit-Keeps event = Keeps-modify _ (λ c h. record { at_path = h.at_path })

pub put_entry-Keeps : (path : Text) (e : Entry) → EntryOk e → Keeps CatalogOk Any (put_entry path e)
put_entry-Keeps path e valid = Keeps-modify _ (λ c h. set_entry-CatalogOk path e c valid h)

found-EntryOk :
    (path : Text) (c : KvCatalog) (o : Option Entry)
    → get path c.entries ≡ o
    → CatalogOk c
    → CatalogOk (some_or o KvError.not_found c).1
      × Returns EntryOk (some_or o KvError.not_found c).0
unfolding some_or
found-EntryOk path c none e h = (h, tt)
found-EntryOk path c (some x) e h = (h, h.at_path path x e)

pub entry_at-Keeps : (path : Text) → Keeps CatalogOk EntryOk (entry_at path)
unfolding entry_at
entry_at-Keeps path = record { at = λ c h. found-EntryOk path c (get path c.entries) refl h }

inserted-EntryOk :
    (path : Text) (new : Entry) (c : KvCatalog) (o : Option Entry)
    → EntryOk new
    → get path c.entries ≡ o
    → CatalogOk c
    → CatalogOk (entry_or_insert path new c).1 × Returns EntryOk (entry_or_insert path new c).0
unfolding entry_or_insert
inserted-EntryOk path new c none valid e h =
    rw (e, entry_or_insert) (set_entry-CatalogOk path new c valid h, valid)
inserted-EntryOk path new c (some x) valid e h = rw (e, entry_or_insert) (h, h.at_path path x e)

pub entry_or_insert-Keeps :
    (path : Text) (new : Entry) → EntryOk new → Keeps CatalogOk EntryOk (entry_or_insert path new)
entry_or_insert-Keeps path new valid = record {
  at = λ c h. inserted-EntryOk path new c (get path c.entries) valid refl h;
}

pub prune-Keeps : (path : Text) → Keeps CatalogOk Any (prune path)
unfolding prune
prune-Keeps path = Keeps-bind EntryOk Any (entry_at-Keeps path) λ e valid.
    Keeps-bind Any Any (Keeps-gets _) λ mount_max _.
      put_entry-Keeps path (prune_entry mount_max e) (prune_entry-EntryOk mount_max e valid)

pub entry_at-bind :
    {B : Type 0} (R : B → Type 0) (path : Text) (f : Entry → Kv B)
    → ((e : Entry) → EntryOk e → Keeps CatalogOk R (f e))
    → Keeps CatalogOk R (entry_at path >>= f)
entry_at-bind R path f h = Keeps-bind EntryOk R (entry_at-Keeps path) h

pub entry_or_insert-bind :
    {B : Type 0} (R : B → Type 0) (path : Text) (new : Entry) (f : Entry → Kv B)
    → EntryOk new
    → ((e : Entry) → EntryOk e → Keeps CatalogOk R (f e))
    → Keeps CatalogOk R (entry_or_insert path new >>= f)
entry_or_insert-bind R path new f valid h =
    Keeps-bind EntryOk R (entry_or_insert-Keeps path new valid) h

pub ruleset keeping = (
  Keeps-pure_any, Keeps-fail, Keeps-lift_any, Keeps-gets, Keeps-some_or, Keeps-refuse, Keeps-when,
  Keeps-bind_some_or, Keeps-bind_refuse, Keeps-bind_lift, entry_at-bind, entry_or_insert-bind,
  Keeps-bind_any, push_audit-Keeps, put_entry-Keeps, prune-Keeps, new_entry-EntryOk, append-EntryOk,
  bump-EntryOk, replace-EntryOk,
)

pub commit_version-Keeps :
    (identity_id : ℕ) (path : Text) (encoded : List ℕ)
    → Keeps CatalogOk Any (commit_version identity_id path encoded)
unfolding commit_version
commit_version-Keeps identity_id path encoded = search keeping depth 24

pub authorize_operation-Keeps :
    (identity_id : ℕ) (endpoint : EndpointRequest) (action : SecretAction)
    → Keeps CatalogOk Any (authorize_operation identity_id endpoint action)
unfolding authorize_operation
authorize_operation-Keeps identity_id endpoint action = search keeping depth 24

pub authorize_destroy_all-Keeps :
    (identity_id : ℕ) (resource : Resource)
    → Keeps CatalogOk Any (authorize_destroy_all identity_id resource)
unfolding authorize_destroy_all
authorize_destroy_all-Keeps identity_id resource = search keeping depth 24

pub ruleset serving =
    (keeping, commit_version-Keeps, authorize_operation-Keeps, authorize_destroy_all-Keeps)

-- `write` keeps the invariant.
pub write-Keeps :
    (json : Json) (identity_id : ℕ) (endpoint : EndpointRequest) (values : Map) (cas : Option ℕ)
    → Keeps CatalogOk Any (write json identity_id endpoint values cas)
unfolding write
write-Keeps json identity_id endpoint values cas = search serving depth 24

disclose-Keeps :
    (json : Json) (identity_id : ℕ) (path : Text) (version : ℕ) (value : VersionValue)
    → Keeps CatalogOk Any (disclose json identity_id path version value)
unfolding disclose
disclose-Keeps json identity_id path version value =
    search (serving, Keeps-modify, same_entries-CatalogOk) depth 24

read_version-Keeps :
    (json : Json) (identity_id : ℕ) (path : Text) (version : ℕ) (found : Option VersionValue)
    → Keeps CatalogOk Any (read_version json identity_id path version found)
unfolding read_version
read_version-Keeps json identity_id path version none = search serving depth 24
read_version-Keeps json identity_id path version (some value) =
    search (serving, disclose-Keeps) depth 24

read_entry-Keeps :
    (json : Json) (identity_id : ℕ) (path : Text) (version : Option ℕ) (found : Option Entry)
    → Keeps CatalogOk Any (read_entry json identity_id path version found)
unfolding read_entry
read_entry-Keeps json identity_id path version none = search serving depth 24
read_entry-Keeps json identity_id path version (some e) =
    search (serving, read_version-Keeps) depth 24

-- `read` keeps the invariant.
pub read-Keeps :
    (json : Json) (identity_id : ℕ) (endpoint : EndpointRequest)
    → Keeps CatalogOk Any (read json identity_id endpoint)
unfolding read
read-Keeps json identity_id endpoint = search (serving, read_entry-Keeps) depth 24
