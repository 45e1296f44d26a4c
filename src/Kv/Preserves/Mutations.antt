-- ===== src/Kv/Preserves/Mutations.antt =====
-- Deletions, undeletions, destructions and metadata updates keep the catalog's invariant.
use ops_light_secrets_server.Prelude.{ℕ, ◌≡◌, refl, Option, none, some, List, [], ◌∷◌}
use ops_light_secrets_server.Prelude.Order.{nat_ord, list_ord}
use ops_light_secrets_server.Prelude.Text.{Text}
use ops_light_secrets_server.Prelude.Result.{Result, ok, err}
use ops_light_secrets_server.Prelude.Action.{continue, ◌>>=◌, modify}
use ops_light_secrets_server.Prelude.Keeps.{
  Keeps, Any, Returns-any, Keeps-pure_any, Keeps-modify, Keeps-bind_any,
}
use ops_light_secrets_server.BTreeMap.{get, insert}
use ops_light_secrets_server.RawTarget.{EndpointRequest}
use ops_light_secrets_server.Identity.Request.{SecretAction}
use ops_light_secrets_server.Kv.Types.{KvCatalog, KvError, KvAuditOperation, VersionValue, Entry}
use ops_light_secrets_server.Kv.Catalog.{push_audit}
use ops_light_secrets_server.Kv.Mutations.{
  Versions, mutate_at, mutate_loop, mutate_value, mutate_versions_locked, mutate_versions,
  soft_delete_latest, update_metadata, MetadataUpdate, audit_versions,
}
use ops_light_secrets_server.Kv.Invariant.{EntryOk, CatalogOk, replace-EntryOk, settings-EntryOk}
use ops_light_secrets_server.Kv.Preserves.{same_entries-CatalogOk, serving}

audit_versions-Keeps :
    (identity_id : ℕ) (path : Text) (operation : KvAuditOperation) (versions : List ℕ)
    (c : KvCatalog)
    → (audit_versions identity_id path operation versions c).entries ≡ c.entries
unfolding audit_versions
audit_versions-Keeps identity_id path operation [] c = refl
audit_versions-Keeps identity_id path operation (v ∷ rest) c =
    audit_versions-Keeps identity_id path operation rest (push_audit _ c)

abbrev VersionsOk : Entry → Versions → Type 0
VersionsOk e vs = EntryOk (record e { versions = vs })

changed-VersionsOk :
    (version : ℕ) (e : Entry) (vs : Versions) (value : VersionValue)
    (r : Result KvError VersionValue)
    → get version vs ≡ some value
    → VersionsOk e vs
    → VersionsOk e (continue r (λ changed. modify (insert version changed)) vs).1
unfolding modify
changed-VersionsOk version e vs value (ok changed) f h =
    replace-EntryOk (record e { versions = vs }) version value changed h f
changed-VersionsOk version e vs value (err x) f h = h

mutate_at-VersionsOk :
    (action : SecretAction) (now version : ℕ) (e : Entry) (vs : Versions) (o : Option VersionValue)
    → get version vs ≡ o
    → VersionsOk e vs
    → VersionsOk e (mutate_at action now version vs).1
unfolding ◌>>=◌
mutate_at-VersionsOk action now version e vs none f h = rw f h
mutate_at-VersionsOk action now version e vs (some value) f h =
    rw f (changed-VersionsOk version e vs value (mutate_value action now value) f h)

mutate_loop-Keeps :
    (action : SecretAction) (now : ℕ) (versions : List ℕ) (e : Entry)
    → Keeps (VersionsOk e) Any (mutate_loop action now versions)
unfolding mutate_loop
mutate_loop-Keeps action now [] e = Keeps-pure_any tt
mutate_loop-Keeps action now (v ∷ rest) e =
    Keeps-bind_any Any
      (record {
        at = λ vs h. (mutate_at-VersionsOk action now v e vs (get v vs) refl h, Returns-any _);
      })
      λ _. mutate_loop-Keeps action now rest e

loop-EntryOk :
    (action : SecretAction) (now : ℕ) (versions : List ℕ) (e : Entry)
    → EntryOk e
    → EntryOk (record e { versions = (mutate_loop action now versions e.versions).1 })
loop-EntryOk action now versions e h = ((mutate_loop-Keeps action now versions e).at e.versions h).0

loop_bump-EntryOk :
    (action : SecretAction) (now : ℕ) (versions : List ℕ) (e : Entry) (generation : ℕ)
    → EntryOk e
    → EntryOk (record e {
      versions = (mutate_loop action now versions e.versions).1;
      metadata_generation = generation;
    })
loop_bump-EntryOk action now versions e generation h =
    let k = loop-EntryOk action now versions e h in
    record { sorted = k.sorted; numbered = k.numbered; guarded = k.guarded }

audited-Keeps :
    (identity_id : ℕ) (path : Text) (operation : KvAuditOperation) (versions : List ℕ)
    → Keeps {E = KvError} CatalogOk Any
        (modify (audit_versions identity_id path operation versions))
audited-Keeps identity_id path operation versions =
    Keeps-modify _ λ c h.
      same_entries-CatalogOk c _ (audit_versions-Keeps identity_id path operation versions c) h

mutate_versions_locked-Keeps :
    (identity_id : ℕ) (path : Text) (versions : List ℕ) (action : SecretAction)
    → Keeps CatalogOk Any (mutate_versions_locked identity_id path versions action)
unfolding mutate_versions_locked
mutate_versions_locked-Keeps identity_id path versions action =
    search (serving, loop-EntryOk, loop_bump-EntryOk, audited-Keeps) depth 24

-- `mutate_versions` keeps the invariant.
pub mutate_versions-Keeps :
    (identity_id : ℕ) (endpoint : EndpointRequest) (versions : List ℕ) (action : SecretAction)
    → Keeps CatalogOk Any (mutate_versions identity_id endpoint versions action)
unfolding mutate_versions
mutate_versions-Keeps identity_id endpoint versions action =
    search (serving, mutate_versions_locked-Keeps) depth 24

pub soft_delete_latest-Keeps :
    (identity_id : ℕ) (endpoint : EndpointRequest)
    → Keeps CatalogOk Any (soft_delete_latest identity_id endpoint)
unfolding soft_delete_latest
soft_delete_latest-Keeps identity_id endpoint =
    search (serving, mutate_versions_locked-Keeps) depth 24

pub update_metadata-Keeps :
    (identity_id : ℕ) (endpoint : EndpointRequest) (update : MetadataUpdate)
    → Keeps CatalogOk Any (update_metadata identity_id endpoint update)
unfolding update_metadata
update_metadata-Keeps identity_id endpoint update = search (serving, settings-EntryOk) depth 24
