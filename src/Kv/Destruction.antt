-- ===== src/Kv/Destruction.antt =====
-- src/kv.rs: what soft deletion, undeletion and destruction do to the versions they name.
pub mod Final
use mathlib.Core.List.{Memᴰ, append-nil, append_assoc}
use ops_light_secrets_server.Prelude.{
  ℕ, zero, suc, ◌+◌, ◌≤◌, ◌≡◌, ◌≢◌, refl, sym, ap, ◌∙◌, subst, inl, inr, Bool, true, false, not,
  ◌&&◌, Option, none, some, List, [], ◌∷◌, ◌++◌, arith, is_some, unwrap_or, checked_add, any,
  Bool-cases, ltb, ◌==◌, length,
}
use ops_light_secrets_server.Prelude.Order.{nat_ord, list_ord, same_key, same_key_iff}
use ops_light_secrets_server.Prelude.Search.{mem-select, select-mem}
use ops_light_secrets_server.Prelude.Text.{Text, text, text_eq, text_eq_iff}
use ops_light_secrets_server.Prelude.Result.{Result, ok, err, map_err}
use ops_light_secrets_server.Prelude.Action.{
  Action, continue, ◌>>=◌, ◌>>◌, pure, fail, lift, gets, modify, some_or, refuse, when,
}
use ops_light_secrets_server.Prelude.Ends.{
  Ends, Ends-bind, bind-Ends, Ends-pure, Ends-fail, lift_bind-Ends, gets_bind-Ends,
  modify_bind-Ends, some_or_bind-Ends, refuse_bind-Ends, fails_bind, when-Ends, Ends-of,
}
use ops_light_secrets_server.BTreeMap
use ops_light_secrets_server.BTreeMap.{BTreeMap, get, insert, remove}
use ops_light_secrets_server.BTreeMap.Laws.{get-insert, get-insert_self, get-remove}
use ops_light_secrets_server.RawTarget.{EndpointRequest, Resource, data_kind}
use ops_light_secrets_server.Identity.Records.{GrantRecord}
use ops_light_secrets_server.Identity.Request.{
  SecretAction, AuthorizationRequest, secret_request, local_destroy_all, read_action, write_action,
  soft_delete_action, undelete_action, destroy_action,
}
use ops_light_secrets_server.Identity.Authorize.{authorize}
use ops_light_secrets_server.Identity.Grants.{Permits, authorize_sound, authorize_complete}
use ops_light_secrets_server.Kv.Types.{
  KvCatalog, KvError, KvAuditEvent, KvAuditOperation, VersionValue, VersionState, Entry, new_entry,
  succeeded, failed, denied, live, soft_deleted, destroyed, state_live, state_destroyed,
  max_secret_encoded_bytes, cas_conflict, not_found, internal, permission_denied,
}
use ops_light_secrets_server.Kv.Types
use ops_light_secrets_server.Kv.Catalog.{
  Kv, prune_entry, put_entry, entry_at, entry_or_insert, push_audit, set_entry, next_u64, prune,
  missing_version,
}
use ops_light_secrets_server.Kv.Value.{Value, Map, object, validate_secret_value}
use ops_light_secrets_server.Kv.Access.{
  authorize_operation, authorize_destroy_all, allowed, audit_event, audit_operation, logical_path,
  validate_endpoint,
}
use ops_light_secrets_server.Kv.Service.{
  Json, WriteResult, ReadResult, commit_version, write, write_conflict, disclose, read_version,
  read_entry, read, read_failed, new_version,
}
use ops_light_secrets_server.Identity.Token.{owned_grants}
use ops_light_secrets_server.Kv.Granted.{
  Granted, authorize_operation_bind-Ends, authorize_operation_complete,
}
use ops_light_secrets_server.Kv.Value.{has_duplicate, validate_versions}
use ops_light_secrets_server.Prelude.Result
use ops_light_secrets_server.Prelude.{if◌then◌else◌, map, ◌⊎◌}
use ops_light_secrets_server.Kv.Mutations.{
  Versions, mutate_at, mutate_loop, mutate_value, mutate_versions_locked, mutate_versions,
  mutation_operation, mutation_kind, audit_versions, is_destroyed, is_soft_delete,
}
use ops_light_secrets_server.Prelude.Ends.{Ends-modify}
use ops_light_secrets_server.Kv.Batch.{
  named, Mutated, mutate_loop-Ends, entry_at_bind-Ends, events, audit_versions-events,
}

-- What a mutation of versions that succeeds leaves.
pub record Mutates (identity_id : ℕ) (path : Text) (versions : List ℕ) (action : SecretAction)
    (c d : KvCatalog) : Type 0 where
  pub before : Entry
  pub entry : Entry
  pub found : get path c.entries ≡ some before
  pub stored : get path d.entries ≡ some entry
  pub mutated : Mutated action c.effective_unix_milliseconds versions before.versions entry.versions
  pub soft :
      (is_soft_delete action && any (λ v. is_destroyed (get v before.versions)) versions) ≡ false
  pub grants : d.grants ≡ c.grants
  pub is_current : entry.current_version ≡ before.current_version
  pub others : (p : Text) → text_eq path p ≡ false → get p d.entries ≡ get p c.entries
  pub operation : KvAuditOperation
  pub named_operation : mutation_operation action ≡ some operation
  pub audited : d.audit ≡ c.audit ++ events identity_id path operation versions

mutate_versions_locked-Ends :
    (identity_id : ℕ) (path : Text) (versions : List ℕ) (action : SecretAction) {c d : KvCatalog}
    {u : Unit {0}}
    → has_duplicate versions ≡ false
    → Ends (mutate_versions_locked identity_id path versions action) c u d
    → Mutates identity_id path versions action c d
unfolding mutate_versions_locked
mutate_versions_locked-Ends identity_id path versions action {c} {d} unique h =
    let (e, f, h1) = entry_at_bind-Ends path _ (gets_bind-Ends _ _ h) in
    let (_, h2) = refuse_bind-Ends _ _ _ h1 in
    let (soft, h3) = refuse_bind-Ends _ _ _ h2 in
    let (a, loop, h4) = lift_bind-Ends _ _ (modify_bind-Ends _ _ h3) in
    let (generation, _, h5) = some_or_bind-Ends _ _ _ h4 in
    let (operation, o, h6) = some_or_bind-Ends _ _ _ (modify_bind-Ends _ _ h5) in
    let s = Ends-modify _ h6 ∙ audit_versions-events identity_id path operation versions _ in
    let left = (mutate_loop action c.effective_unix_milliseconds versions e.versions).1 in
    let e1 = record e { versions = left } in
    let e2 = record e { versions = left; metadata_generation = generation } in
    record {
      before = e;
      entry = e2;
      found = f;
      stored = ap (λ (x : KvCatalog). get path x.entries) s ∙ get-insert_self path e2 _;
      mutated =
          mutate_loop-Ends action c.effective_unix_milliseconds versions unique
            (record { returned = loop; left = refl });
      soft = soft;
      grants = ap (λ (x : KvCatalog). x.grants) s;
      is_current = refl;
      others = λ p other.
          ap (λ (x : KvCatalog). get p x.entries) s
          ∙ ground (
            arith,
            get-insert path p e2 (set_entry path e1 c).entries,
            get-insert path p e1 c.entries,
          );
      operation = operation;
      named_operation = o;
      audited = ap (λ (x : KvCatalog). x.audit) s;
    }

versions_unique :
    (versions : List ℕ) → validate_versions versions ≡ ok tt → has_duplicate versions ≡ false
unfolding validate_versions
versions_unique versions h = ground arith

-- A soft deletion, an undeletion or a destruction that succeeds was permitted by a grant of the
-- identity, and all the versions it names were there. Each of them takes the value that the action
-- makes of it; the other versions, the current version and the other paths are as before, and one
-- event of success for each named version, in their order, is added to the audit.
pub mutate_versions_sound :
    (identity_id : ℕ) (endpoint : EndpointRequest) (versions : List ℕ) (action : SecretAction)
    (c d : KvCatalog)
    → mutate_versions identity_id endpoint versions action c ≡ (ok tt, d)
    → Granted identity_id endpoint action c
      × Mutates identity_id (logical_path endpoint) versions action c d
unfolding mutate_versions
mutate_versions_sound identity_id endpoint versions action c d h =
    let (_, _, h1) = some_or_bind-Ends _ _ _ (Ends-of _ h) in
    let (_, _, h2) = lift_bind-Ends _ _ h1 in
    let (_, v, h3) = lift_bind-Ends _ _ h2 in
    let (granted, h4) = authorize_operation_bind-Ends identity_id endpoint action _ h3 in
    (
      granted,
      mutate_versions_locked-Ends identity_id _ versions action (versions_unique versions v) h4,
    )
