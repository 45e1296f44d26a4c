-- ===== src/Kv/Writes.antt =====
-- src/kv.rs: what a write stores, when it conflicts, and that a read gives it back.
pub mod RoundTrip
use mathlib.Core.List.{Memᴰ}
use ops_light_secrets_server.Prelude.{
  ℕ, zero, suc, ◌+◌, ◌≤◌, ◌≡◌, ◌≢◌, refl, sym, ap, ◌∙◌, subst, inl, inr, Bool, true, false, not,
  ◌&&◌, Option, none, some, List, [], ◌∷◌, ◌++◌, arith, is_some, unwrap_or, checked_add, any,
  Bool-cases, ltb, ◌==◌, length,
}
use ops_light_secrets_server.Prelude.Order.{nat_ord, list_ord, same_key, same_key_iff}
use ops_light_secrets_server.Prelude.Search.{mem-select, select-mem}
use ops_light_secrets_server.Prelude.Text.{Text, text, text_eq, text_eq_iff}
use ops_light_secrets_server.Prelude.Result.{Result, ok, err, map_err}
use ops_light_secrets_server.Prelude.Action.{
  Action, continue, ◌>>=◌, ◌>>◌, pure, fail, lift, gets, modify, some_or, refuse, when,
}
use ops_light_secrets_server.Prelude.Ends.{
  Ends, Ends-bind, bind-Ends, Ends-pure, Ends-fail, lift_bind-Ends, gets_bind-Ends,
  modify_bind-Ends, some_or_bind-Ends, refuse_bind-Ends, fails_bind, when-Ends, Ends-of,
}
use ops_light_secrets_server.BTreeMap
use ops_light_secrets_server.BTreeMap.{BTreeMap, get, insert, remove}
use ops_light_secrets_server.BTreeMap.Laws.{get-insert, get-insert_self, get-remove}
use ops_light_secrets_server.RawTarget.{EndpointRequest, Resource, data_kind}
use ops_light_secrets_server.Identity.Records.{GrantRecord}
use ops_light_secrets_server.Identity.Request.{
  SecretAction, AuthorizationRequest, secret_request, local_destroy_all, read_action, write_action,
  soft_delete_action, undelete_action, destroy_action,
}
use ops_light_secrets_server.Identity.Authorize.{authorize}
use ops_light_secrets_server.Identity.Grants.{Permits, authorize_sound, authorize_complete}
use ops_light_secrets_server.Kv.Types.{
  KvCatalog, KvError, KvAuditEvent, KvAuditOperation, VersionValue, VersionState, Entry, new_entry,
  succeeded, failed, denied, live, soft_deleted, destroyed, state_live, state_destroyed,
  max_secret_encoded_bytes, cas_conflict, not_found, internal, permission_denied,
}
use ops_light_secrets_server.Kv.Types
use ops_light_secrets_server.Kv.Catalog.{
  Kv, prune_entry, put_entry, entry_at, entry_or_insert, push_audit, set_entry, next_u64, prune,
  missing_version,
}
use ops_light_secrets_server.Kv.Value.{Value, Map, object, validate_secret_value}
use ops_light_secrets_server.Kv.Access.{
  authorize_operation, authorize_destroy_all, allowed, audit_event, audit_operation, logical_path,
  validate_endpoint,
}
use ops_light_secrets_server.Kv.Service.{
  Json, WriteResult, ReadResult, commit_version, write, write_conflict, disclose, read_version,
  read_entry, read, read_failed, new_version,
}
use ops_light_secrets_server.Identity.Token.{owned_grants}
use ops_light_secrets_server.Kv.Granted.{
  Granted, authorize_operation_bind-Ends, authorize_operation_complete,
}
use ops_light_secrets_server.Kv.Service.{entry_version, entry_exists}
use ops_light_secrets_server.Kv.Catalog.{evictable, effective_cas_required}
use ops_light_secrets_server.Kv.Disclosure.{read_complete}
use ops_light_secrets_server.Kv.Retention.{get-prune_loop_kept}

-- What a step on one path leaves: the other paths, the grants, the settings and the audit.
pub record Touches (path : Text) (c d : KvCatalog) : Type 0 where
  pub others : (p : Text) → text_eq path p ≡ false → get p d.entries ≡ get p c.entries
  pub grants : d.grants ≡ c.grants
  pub audit : d.audit ≡ c.audit
  pub flag : d.fail_next_read_audit_commit ≡ c.fail_next_read_audit_commit

set_entry-Touches :
    (path : Text) (e : Entry) (c d : KvCatalog)
    → Touches path c d
    → Touches path c (set_entry path e d)
set_entry-Touches path e c d h = record {
  others = λ p other. ground (arith, get-insert path p e d.entries, h.others p other);
  grants = h.grants;
  audit = h.audit;
  flag = h.flag;
}

Touches-self : (path : Text) (c : KvCatalog) → Touches path c c
Touches-self path c = record { others = λ p other. refl; grants = refl; audit = refl; flag = refl }

inserted :
    {B : Type 0} (path : Text) (new : Entry) (f : Entry → Kv B) (o : Option Entry) {c d : KvCatalog}
    {b : B}
    → get path c.entries ≡ o
    → Ends (entry_or_insert path new >>= f) c b d
    → (u : KvCatalog) × Touches path c u
      × (u.effective_unix_milliseconds ≡ c.effective_unix_milliseconds)
      × Ends (f (unwrap_or o new)) u b d
unfolding ◌>>=◌ entry_or_insert
inserted path new f none {c} e h = (
  set_entry path new c,
  set_entry-Touches path new c c (Touches-self path c),
  refl,
  record {
    returned = rw (e, entry_or_insert) at h.returned;
    left = rw (e, entry_or_insert) at h.left;
  },
)
inserted path new f (some x) {c} e h = (
  c,
  Touches-self path c,
  refl,
  record {
    returned = rw (e, entry_or_insert) at h.returned;
    left = rw (e, entry_or_insert) at h.left;
  },
)

prune_bind-Ends :
    {B : Type 0} (path : Text) (e : Entry) (f : Unit {0} → Kv B) {c d : KvCatalog} {b : B}
    → get path c.entries ≡ some e
    → Ends (prune path >>= f) c b d
    → Ends (f tt) (set_entry path (prune_entry c.mount_max_versions e) c) b d
unfolding ◌>>=◌ prune entry_at
prune_bind-Ends path e f g h = record { returned = rw g at h.returned; left = rw g at h.left }

-- The current version outlives the pruning.
get-prune_entry_current :
    (mount_max : ℕ) (e : Entry)
    → get e.current_version (prune_entry mount_max e).versions ≡ get e.current_version e.versions
unfolding prune_entry
get-prune_entry_current mount_max e =
    get-prune_loop_kept e.protected_version e.current_version e.current_version (length e.versions)
      (unwrap_or e.max_versions mount_max) e.versions
      (current_kept e.protected_version e.current_version)
  where
    current_kept : (p : Option ℕ) (v : ℕ) → evictable p v v ≡ false
    current_kept p v = ground arith

-- What a write of the bytes leaves.
pub record Written (identity_id : ℕ) (path : Text) (encoded : List ℕ) (c d : KvCatalog)
    (r : WriteResult) : Type 0 where
  pub entry : Entry
  pub stored : get path d.entries ≡ some entry
  pub is_current : entry.current_version ≡ r.version
  pub next : r.version ≡ entry_version (get path c.entries) + 1
  pub value :
      get r.version entry.versions ≡ some (new_version encoded c.effective_unix_milliseconds)
  pub created : r.created ≡ c.effective_unix_milliseconds
  pub others : (p : Text) → text_eq path p ≡ false → get p d.entries ≡ get p c.entries
  pub grants : d.grants ≡ c.grants
  pub flag : d.fail_next_read_audit_commit ≡ c.fail_next_read_audit_commit
  pub audited :
      d.audit
      ≡ c.audit ++ audit_event identity_id path Types.write succeeded (some r.version) none ∷ []

current_of_new :
    (o : Option Entry) (cas : Option Bool)
    → (unwrap_or o (new_entry cas)).current_version ≡ entry_version o
unfolding new_entry
current_of_new none cas = refl
current_of_new (some e) cas = refl

next_version :
    (o : Option Entry) (version : ℕ)
    → checked_add (unwrap_or o (new_entry none)).current_version 1 ≡ some version
    → version ≡ entry_version o + 1
unfolding new_entry
next_version none version h = ground arith
next_version (some e) version h = ground arith

-- The catalog that the steps of a write leave.
written :
    (identity_id : ℕ) (path : Text) (encoded : List ℕ) (version generation : ℕ) (c u : KvCatalog)
    (e1 e : Entry)
    → Touches path c u
    → version ≡ entry_version (get path c.entries) + 1
    → Written identity_id path encoded c
        (push_audit (audit_event identity_id path Types.write succeeded (some version) none) (
          set_entry path
            (prune_entry u.mount_max_versions (record e {
              current_version = version;
              metadata_generation = generation;
              versions =
                  insert version (new_version encoded c.effective_unix_milliseconds) e.versions;
            }))
            (set_entry path
              (record e {
                current_version = version;
                metadata_generation = generation;
                versions =
                    insert version (new_version encoded c.effective_unix_milliseconds) e.versions;
              })
              (set_entry path e1 u))))
        (record { version = version; created = c.effective_unix_milliseconds })
written identity_id path encoded version generation c u e1 e touched next =
    let e2 = record e {
      current_version = version;
      metadata_generation = generation;
      versions = insert version (new_version encoded c.effective_unix_milliseconds) e.versions;
    } in
    let t =
      set_entry-Touches path (prune_entry u.mount_max_versions e2) c _
        (set_entry-Touches path e2 c _ (set_entry-Touches path e1 c u touched)) in
    record {
      entry = prune_entry u.mount_max_versions e2;
      stored = get-insert_self path _ _;
      is_current = unfold prune_entry in refl;
      next = next;
      value =
          get-prune_entry_current u.mount_max_versions e2 ∙ get-insert_self version _ e.versions;
      created = refl;
      others = t.others;
      grants = t.grants;
      flag = t.flag;
      audited =
          ap (λ a. a ++ audit_event identity_id path Types.write succeeded (some version) none ∷ [])
            t.audit;
    }

pub commit_version-Ends :
    (identity_id : ℕ) (path : Text) (encoded : List ℕ) {c d : KvCatalog} {r : WriteResult}
    → Ends (commit_version identity_id path encoded) c r d
    → Written identity_id path encoded c d r
unfolding commit_version
commit_version-Ends identity_id path encoded {c} {d} {r} h =
    let (u, touched, now, h1) =
      inserted path (new_entry none) _ (get path c.entries) refl (gets_bind-Ends _ _ h) in
    let e = unwrap_or (get path c.entries) (new_entry none) in
    let (version, v, h2) = some_or_bind-Ends _ _ _ h1 in
    let (generation, _, h3) = some_or_bind-Ends _ _ _ (modify_bind-Ends _ _ h2) in
    let h4 =
      prune_bind-Ends path
        (record e {
          current_version = version;
          metadata_generation = generation;
          versions =
              BTreeMap.insert version (new_version encoded c.effective_unix_milliseconds)
                e.versions;
        })
        _ (get-insert_self _ _ _) (modify_bind-Ends _ _ h3) in
    let (e5, s) = Ends-pure _ (modify_bind-Ends _ _ h4) in
    subst (λ x. Written identity_id path encoded c d x) (sym e5)
      (subst
        (λ x.
          Written identity_id path encoded c x
            (record { version = version; created = c.effective_unix_milliseconds }))
        (sym s)
        (written identity_id path encoded version generation c u _ e touched
          (next_version (get path c.entries) version v)))
