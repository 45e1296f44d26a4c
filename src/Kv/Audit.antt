-- ===== src/Kv/Audit.antt =====
-- src/kv.rs: the audit trail only grows. No method rewrites or drops an event.
pub mod Ceremonies
pub mod Trail
use ops_light_secrets_server.Prelude.{
  ℕ, ◌+◌, ◌≡◌, ◌≢◌, refl, Bool, true, false, not, ◌&&◌, Option, none, some, List, [], ◌∷◌, ◌++◌,
  arith, is_some, unwrap_or, checked_add, any,
}
use ops_light_secrets_server.Prelude.Order.{nat_ord, list_ord}
use ops_light_secrets_server.Prelude.Text.{Text}
use ops_light_secrets_server.Prelude.Result.{Result, ok, err}
use ops_light_secrets_server.Prelude.Action.{
  Action, continue, ◌>>=◌, ◌>>◌, pure, fail, lift, gets, modify, some_or, refuse, when,
}
use ops_light_secrets_server.Prelude.Keeps.{
  Keeps, Any, Returns, Returns-any, Keeps-pure, Keeps-pure_any, Keeps-fail, Keeps-lift,
  Keeps-lift_any, Keeps-gets, Keeps-gets_such, Keeps-modify, Keeps-some_or, Keeps-refuse,
  Keeps-when, Keeps-bind, Keeps-bind_some_or, Keeps-bind_refuse, Keeps-bind_lift, Keeps-bind_any,
}
use ops_light_secrets_server.BTreeMap
use ops_light_secrets_server.BTreeMap.{BTreeMap, get, insert, remove}
use ops_light_secrets_server.RawTarget.{EndpointRequest, Resource}
use ops_light_secrets_server.Identity.Request.{SecretAction}
use ops_light_secrets_server.Kv.Types.{
  KvCatalog, KvError, KvAuditEvent, KvAuditOperation, VersionValue, VersionState, Entry, new_entry,
}
use ops_light_secrets_server.Kv.Catalog.{
  Kv, prune_entry, put_entry, entry_at, entry_or_insert, push_audit, set_entry, next_u64, prune,
  set_path_cas_required, set_path_max_versions, set_rotation_protection,
  set_unknown_rotation_protection, set_version_state, set_mount_max_versions, missing_version,
}
use ops_light_secrets_server.Kv.Value.{Map}
use ops_light_secrets_server.Kv.Access.{authorize_operation, authorize_destroy_all}
use ops_light_secrets_server.Kv.Service.{
  Json, WriteResult, ReadResult, commit_version, write, disclose, read_version, read_entry, read,
  new_version,
}
use ops_light_secrets_server.Kv.Mutations.{
  Versions, mutate_at, mutate_loop, mutate_value, mutate_versions_locked, mutate_versions,
  soft_delete_latest, update_metadata, MetadataUpdate, audit_versions,
}
use ops_light_secrets_server.Kv.Cutover.{
  rotation_snapshot, set_rotation_snapshot_protection, protect, unprotect, rotation_write_encoded,
  rotation_cutover_write, rotation_rollback_copy_forward, RotationSnapshot,
}
use ops_light_secrets_server.Kv.Purge.{
  purge, purge_preflight, entry_or_failure, audit_failure, check_failure, PurgeRequest, PurgeResult,
  PurgePreflight,
}
use ops_light_secrets_server.Kv.Catalog
use ops_light_secrets_server.Kv.Service
use ops_light_secrets_server.Kv.Mutations
use ops_light_secrets_server.Kv.Cutover
use ops_light_secrets_server.Kv.Purge
use ops_light_secrets_server.Kv.Listing
use ops_light_secrets_server.Kv.Listing.{BTreeSet, list_answer}
use ops_light_secrets_server.Kv.History.{Call, after, run}
use mathlib.Core.Path.{sym, ap, ◌∙◌}
use mathlib.Core.List.{append_assoc}

-- The audit is `base` followed by later events.
pub record Extends (base : List KvAuditEvent) (c : KvCatalog) : Type 0 where
  pub later : List KvAuditEvent
  pub whole : c.audit ≡ base ++ later

module _ {base : List KvAuditEvent} where
  push_audit-Extends :
      (event : KvAuditEvent) (c : KvCatalog) → Extends base c → Extends base (push_audit event c)
  push_audit-Extends event c h = record {
    later = h.later ++ event ∷ [];
    whole = ap (λ a. a ++ event ∷ []) h.whole ∙ append_assoc base h.later (event ∷ []);
  }

  audit_versions-Extends :
      (identity_id : ℕ) (path : Text) (operation : KvAuditOperation) (versions : List ℕ)
      (c : KvCatalog)
      → Extends base c
      → Extends base (audit_versions identity_id path operation versions c)
  unfolding audit_versions
  audit_versions-Extends identity_id path operation [] c h = h
  audit_versions-Extends identity_id path operation (v ∷ rest) c h =
      audit_versions-Extends identity_id path operation rest _ (push_audit-Extends _ c h)

  pub audits :
      (event : KvAuditEvent) → Keeps {E = KvError} (Extends base) Any (modify (push_audit event))
  audits event = Keeps-modify _ (push_audit-Extends event)

  pub audits_versions :
      (identity_id : ℕ) (path : Text) (operation : KvAuditOperation) (versions : List ℕ)
      → Keeps {E = KvError}
          (Extends base)
          Any
          (modify (audit_versions identity_id path operation versions))
  audits_versions identity_id path operation versions =
      Keeps-modify _ (audit_versions-Extends identity_id path operation versions)

  -- A change elsewhere.
  elsewhere :
      (f : KvCatalog → KvCatalog)
      → ((c : KvCatalog) → (f c).audit ≡ c.audit)
      → Keeps {E = KvError} (Extends base) Any (modify f)
  elsewhere f same = Keeps-modify f (λ c h. record { later = h.later; whole = same c ∙ h.whole })

  pub puts : (path : Text) (e : Entry) → Keeps {E = KvError} (Extends base) Any (put_entry path e)
  puts path e = elsewhere (set_entry path e) (λ c. refl)

  pub finds : (path : Text) → Keeps (Extends base) Any (entry_at path)
  unfolding entry_at some_or
  finds path = record { at = λ c h. found c (get path c.entries) h }
    where
      found :
          (c : KvCatalog) (o : Option Entry)
          → Extends base c
          → Extends base (some_or o KvError.not_found c).1
            × Returns Any (some_or o KvError.not_found c).0
      found c none h = (h, tt)
      found c (some e) h = (h, tt)

  pub makes : (path : Text) (new : Entry) → Keeps (Extends base) Any (entry_or_insert path new)
  unfolding entry_or_insert
  makes path new = record { at = λ c h. (made c (get path c.entries) refl h, Returns-any _) }
    where
      made :
          (c : KvCatalog) (o : Option Entry)
          → get path c.entries ≡ o
          → Extends base c
          → Extends base (entry_or_insert path new c).1
      made c none e h = rw (e, entry_or_insert) (record { later = h.later; whole = h.whole })
      made c (some x) e h = rw (e, entry_or_insert) h

  pub ruleset steps = (
    Keeps-pure_any, Keeps-fail, Keeps-lift_any, Keeps-gets, Keeps-refuse, Keeps-when,
    Keeps-bind_some_or, Keeps-bind_refuse, Keeps-bind_lift, Keeps-bind_any, audits, audits_versions,
    puts, finds, makes,
  )

  read_switch :
      Keeps {E = KvError}
        (Extends base)
        Any
        (modify (λ c. record c { fail_next_read_audit_commit = false }))
  read_switch = elsewhere _ (λ c. refl)

  pub purge_switch :
      Keeps {E = KvError}
        (Extends base)
        Any
        (modify (λ c. record c { fail_next_purge_audit_commit = false }))
  purge_switch = elsewhere _ (λ c. refl)

  pub removal :
      (path : Text)
      → Keeps {E = KvError}
          (Extends base)
          Any
          (modify (λ c. record c { entries = remove path c.entries }))
  removal path = elsewhere _ (λ c. refl)

  pub mount_max :
      (value : ℕ)
      → Keeps {E = KvError}
          (Extends base)
          Any
          (modify (λ c. record c { mount_max_versions = value }))
  mount_max value = elsewhere _ (λ c. refl)

  pub prune_adds : (path : Text) → Keeps (Extends base) Any (Catalog.prune path)
  unfolding Catalog.prune
  prune_adds path = search steps depth 30

  pub authorizes_adds :
      (identity_id : ℕ) (endpoint : EndpointRequest) (action : SecretAction)
      → Keeps (Extends base) Any (authorize_operation identity_id endpoint action)
  unfolding authorize_operation
  authorizes_adds identity_id endpoint action = search steps depth 30

  pub authorizes_all_adds :
      (identity_id : ℕ) (resource : Resource)
      → Keeps (Extends base) Any (authorize_destroy_all identity_id resource)
  unfolding authorize_destroy_all
  authorizes_all_adds identity_id resource = search steps depth 30

  pub commit_version_adds :
      (identity_id : ℕ) (path : Text) (encoded : List ℕ)
      → Keeps (Extends base) Any (Service.commit_version identity_id path encoded)
  unfolding Service.commit_version
  commit_version_adds identity_id path encoded = search (steps, prune_adds) depth 30

  pub write_adds :
      (json : Json) (identity_id : ℕ) (endpoint : EndpointRequest) (values : Map) (cas : Option ℕ)
      → Keeps (Extends base) Any (Service.write json identity_id endpoint values cas)
  unfolding Service.write
  write_adds json identity_id endpoint values cas =
      search (steps, authorizes_adds, commit_version_adds) depth 30

  pub disclose_adds :
      (json : Json) (identity_id : ℕ) (path : Text) (version : ℕ) (value : VersionValue)
      → Keeps (Extends base) Any (Service.disclose json identity_id path version value)
  unfolding Service.disclose
  disclose_adds json identity_id path version value = search (steps, read_switch) depth 30

  pub read_version_adds :
      (json : Json) (identity_id : ℕ) (path : Text) (version : ℕ) (o : Option VersionValue)
      → Keeps (Extends base) Any (Service.read_version json identity_id path version o)
  unfolding Service.read_version
  read_version_adds json identity_id path version none = search steps depth 30
  read_version_adds json identity_id path version (some value) =
      search (steps, disclose_adds) depth 30

  pub read_entry_adds :
      (json : Json) (identity_id : ℕ) (path : Text) (version : Option ℕ) (o : Option Entry)
      → Keeps (Extends base) Any (Service.read_entry json identity_id path version o)
  unfolding Service.read_entry
  read_entry_adds json identity_id path version none = search steps depth 30
  read_entry_adds json identity_id path version (some e) =
      search (steps, read_version_adds) depth 30

  pub read_adds :
      (json : Json) (identity_id : ℕ) (endpoint : EndpointRequest)
      → Keeps (Extends base) Any (Service.read json identity_id endpoint)
  unfolding Service.read
  read_adds json identity_id endpoint = search (steps, authorizes_adds, read_entry_adds) depth 30

  pub list_answer_adds :
      (identity_id : ℕ) (prefix : Text) (o : Option BTreeSet)
      → Keeps (Extends base) Any (list_answer identity_id prefix o)
  unfolding list_answer
  list_answer_adds identity_id prefix none = search steps depth 30
  list_answer_adds identity_id prefix (some names) = search steps depth 30

  pub list_adds :
      (identity_id : ℕ) (endpoint : EndpointRequest)
      → Keeps (Extends base) Any (Listing.list identity_id endpoint)
  unfolding Listing.list
  list_adds identity_id endpoint = search (steps, authorizes_adds, list_answer_adds) depth 30

  pub metadata_adds :
      (identity_id : ℕ) (endpoint : EndpointRequest)
      → Keeps (Extends base) Any (Listing.metadata identity_id endpoint)
  unfolding Listing.metadata
  metadata_adds identity_id endpoint = search (steps, authorizes_adds) depth 30
