-- ===== src/Kv/Writes/RoundTrip.antt =====
-- src/kv.rs: when a write succeeds and what it stores, when it conflicts, and that a read gives the
-- written value back.
use ops_light_secrets_server.Prelude.{
  ℕ, zero, suc, ◌≤◌, ◌≡◌, ◌≢◌, refl, sym, ap, ◌∙◌, subst, inl, inr, true, false, Option, none, some,
  List, arith, unwrap_or, ltb, length,
}
use ops_light_secrets_server.Prelude.Order.{nat_ord, list_ord}
use ops_light_secrets_server.Prelude.Text.{Text, text}
use ops_light_secrets_server.Prelude.Result.{ok, err}
use ops_light_secrets_server.Prelude.Action.{◌>>=◌, when}
use ops_light_secrets_server.Prelude.Ends.{
  lift_bind-Ends, gets_bind-Ends, some_or_bind-Ends, refuse_bind-Ends, fails_bind, when-Ends,
  Ends-of,
}
use ops_light_secrets_server.BTreeMap.{get}
use ops_light_secrets_server.RawTarget.{EndpointRequest, data_kind}
use ops_light_secrets_server.Identity.Request.{read_action, write_action}
use ops_light_secrets_server.Kv.Types.{
  KvCatalog, KvError, KvAuditEvent, KvAuditOperation, VersionValue, VersionState, Entry, new_entry,
  succeeded, failed, denied, live, soft_deleted, destroyed, state_live, state_destroyed,
  max_secret_encoded_bytes, cas_conflict, not_found, internal, permission_denied,
}
use ops_light_secrets_server.Kv.Types
use ops_light_secrets_server.Kv.Catalog.{push_audit, effective_cas_required}
use ops_light_secrets_server.Kv.Value.{Value, Map, object, validate_secret_value}
use ops_light_secrets_server.Kv.Access.{audit_event, logical_path, validate_endpoint}
use ops_light_secrets_server.Kv.Service.{
  Json, WriteResult, write, write_conflict, read, new_version,
}
use ops_light_secrets_server.Kv.Granted.{
  Granted, authorize_operation_bind-Ends, authorize_operation_complete,
}
use ops_light_secrets_server.Kv.Disclosure.{read_complete}
use ops_light_secrets_server.Kv.Writes.{Written, commit_version-Ends}

-- A write that succeeds was permitted by a grant of the identity and met no conflict. The path's
-- entry then has the next version number as its current version, which is the one returned, and
-- holds there, live and stamped with the catalog's time, the bytes that the value encodes to. The
-- other paths and the grants are as before, and one event of success is added to the audit.
pub write_sound :
    (json : Json) (identity_id : ℕ) (endpoint : EndpointRequest) (values : Map) (cas : Option ℕ)
    (c d : KvCatalog) (r : WriteResult)
    → write json identity_id endpoint values cas c ≡ (ok r, d)
    → Granted identity_id endpoint write_action c
      × (write_conflict (logical_path endpoint) cas c ≡ false)
      × ((encoded : List ℕ) × (json.to_vec (object values) ≡ some encoded)
          × Written identity_id (logical_path endpoint) encoded c d r)
unfolding write
write_sound json identity_id endpoint values cas c d r h =
    let (_, _, h1) = lift_bind-Ends _ _ (Ends-of _ h) in
    let (_, _, h2) = lift_bind-Ends _ _ h1 in
    let (encoded, e, h3) = some_or_bind-Ends _ _ _ h2 in
    let (_, h4) = refuse_bind-Ends _ _ _ h3 in
    let (granted, h5) = authorize_operation_bind-Ends identity_id endpoint write_action _ h4 in
    elim (when-Ends _ _ _ (gets_bind-Ends _ _ h5)) [
      | inl (_, k) ↦ fails_bind _ cas_conflict k
      | inr (f, k) ↦ (granted, f, (encoded, e, commit_version-Ends identity_id _ encoded k))
    ]

-- When the check-and-set of a write to a path conflicts with what the catalog holds there.
pub data Conflicting (path : Text) (c : KvCatalog) : Option ℕ → Type 0 where
  -- Zero asks for a path without an entry.
  already_there : (e : Entry) → get path c.entries ≡ some e → Conflicting path c (some 0)
  -- Another number asks for the current version.
  other_version :
      (n : ℕ) (e : Entry)
      → get path c.entries ≡ some e
      → e.current_version ≢ suc n
      → Conflicting path c (some (suc n))
  not_there : (n : ℕ) → get path c.entries ≡ none → Conflicting path c (some (suc n))
  -- None at all is refused where the path, or else the mount, requires one.
  required_by_path :
      (e : Entry)
      → get path c.entries ≡ some e
      → e.cas_required ≡ some true
      → Conflicting path c none
  required_by_mount :
      (e : Entry)
      → get path c.entries ≡ some e
      → e.cas_required ≡ none
      → c.mount_cas_required ≡ true
      → Conflicting path c none
  required_of_new :
      get path c.entries ≡ none → c.mount_cas_required ≡ true → Conflicting path c none

Conflicting-write_conflict :
    (path : Text) (c : KvCatalog) (cas : Option ℕ)
    → Conflicting path c cas
    → write_conflict path cas c ≡ true
unfolding write_conflict effective_cas_required
Conflicting-write_conflict path c (some zero) (already_there e h) = ground (arith, h)
Conflicting-write_conflict path c (some (suc n)) (other_version k e h other) =
    ground (arith, h, other)
Conflicting-write_conflict path c (some (suc n)) (not_there k h) = ground (arith, h)
Conflicting-write_conflict path c none (required_by_path e h r) = ground (arith, h, r)
Conflicting-write_conflict path c none (required_by_mount e h r m) = ground (arith, h, r, m)
Conflicting-write_conflict path c none (required_of_new h m) = ground (arith, h, m)

-- A write that is permitted and fits the bounds fails with `CasConflict` when it asks for a path
-- without an entry and there is one, for a version that is not the current one, or for none at all where
-- the path, or else the mount, requires one: the entries stay as they are and one failed event is
-- added to the audit.
pub write-conflict :
    (json : Json) (identity_id : ℕ) (endpoint : EndpointRequest) (values : Map) (cas : Option ℕ)
    (encoded : List ℕ) (c : KvCatalog)
    → validate_endpoint endpoint data_kind ≡ ok tt
    → validate_secret_value values ≡ ok tt
    → json.to_vec (object values) ≡ some encoded
    → length encoded ≤ max_secret_encoded_bytes
    → Granted identity_id endpoint write_action c
    → Conflicting (logical_path endpoint) c cas
    → write json identity_id endpoint values cas c ≡ (
      err cas_conflict,
      push_audit
          (audit_event identity_id
            (logical_path endpoint)
            Types.write
            failed
            none
            (some (text "cas-conflict")))
          c,
    )
unfolding write ◌>>=◌ when
write-conflict json identity_id endpoint values cas encoded c valid bounds e fits granted conflict =
    let small : ltb max_secret_encoded_bytes (length encoded) ≡ false = ground arith in
    rw
      (
        valid,
        bounds,
        e,
        small,
        authorize_operation_complete identity_id endpoint write_action c granted,
        Conflicting-write_conflict (logical_path endpoint) c cas conflict,
      )
      refl

write-valid :
    (json : Json) (identity_id : ℕ) (endpoint : EndpointRequest) (values : Map) (cas : Option ℕ)
    (c d : KvCatalog) (r : WriteResult)
    → write json identity_id endpoint values cas c ≡ (ok r, d)
    → validate_endpoint endpoint data_kind ≡ ok tt
unfolding write
write-valid json identity_id endpoint values cas c d r h =
    let (_, e, _) = lift_bind-Ends _ _ (Ends-of _ h) in e

-- What a write stored reads back, in the catalog that the write left: whoever may read the current
-- version of the endpoint gets what the encoding of the written value decodes to, so the value itself
-- where its encoding decodes to it, with the version and the time that the write returned. The read
-- asks for no version, and the next audit commit of a read is not made to fail.
pub read-write :
    (json : Json) (writer reader : ℕ) (endpoint : EndpointRequest) (values : Map) (cas : Option ℕ)
    (c d : KvCatalog) (r : WriteResult)
    → write json writer endpoint values cas c ≡ (ok r, d)
    → endpoint.version ≡ none
    → Granted reader endpoint read_action c
    → c.fail_next_read_audit_commit ≡ false
    → (encoded : List ℕ) (back : Value) → json.to_vec (object values) ≡ some encoded
    → json.from_slice encoded ≡ some back
    → (read json reader endpoint d).0
      ≡ ok (record { value = back; version = r.version; created = r.created })
read-write json writer reader endpoint values cas c d r h current granted flag encoded back to
      from =
    let (_, _, (stored, e, w)) = write_sound json writer endpoint values cas c d r h in
    let same : encoded ≡ stored = ground (arith, to, e) in
    let answer =
      read_complete json reader endpoint d r.version
        (new_version stored c.effective_unix_milliseconds) back
        (write-valid json writer endpoint values cas c d r h)
        (subst (λ gs. Granted reader endpoint read_action (record c { grants = gs })) (sym w.grants)
          granted)
        (
          w.entry,
          w.stored,
          sym (ap (λ v. unwrap_or v w.entry.current_version) current ∙ w.is_current),
          w.value,
        )
        refl (subst (λ x. json.from_slice x ≡ some back) same from) (w.flag ∙ flag) in
    ap (λ x. x.0) answer
    ∙ ap (λ t. ok (record { value = back; version = r.version; created = t })) (sym w.created)
