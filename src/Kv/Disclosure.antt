-- ===== src/Kv/Disclosure.antt =====
-- src/kv.rs: what a read discloses, to whom, and what it leaves in the audit.
use ops_light_secrets_server.Prelude.{
  ℕ, ◌≡◌, refl, sym, subst, inl, inr, true, false, Option, none, some, arith, unwrap_or,
}
use ops_light_secrets_server.Prelude.Order.{nat_ord, list_ord}
use ops_light_secrets_server.Prelude.Text.{Text}
use ops_light_secrets_server.Prelude.Result.{ok}
use ops_light_secrets_server.Prelude.Action.{◌>>=◌, when}
use ops_light_secrets_server.Prelude.Ends.{
  Ends, Ends-pure, lift_bind-Ends, gets_bind-Ends, modify_bind-Ends, some_or_bind-Ends, fails_bind,
  when-Ends, Ends-of,
}
use ops_light_secrets_server.BTreeMap.{get}
use ops_light_secrets_server.RawTarget.{EndpointRequest, data_kind}
use ops_light_secrets_server.Identity.Request.{read_action}
use ops_light_secrets_server.Kv.Types.{
  KvCatalog, KvError, KvAuditEvent, KvAuditOperation, VersionValue, VersionState, Entry, new_entry,
  succeeded, failed, denied, live, soft_deleted, destroyed, state_live, state_destroyed,
  max_secret_encoded_bytes, cas_conflict, not_found, internal, permission_denied,
}
use ops_light_secrets_server.Kv.Types
use ops_light_secrets_server.Kv.Catalog.{push_audit}
use ops_light_secrets_server.Kv.Value.{Value}
use ops_light_secrets_server.Kv.Access.{audit_event, logical_path, validate_endpoint}
use ops_light_secrets_server.Kv.Service.{Json, ReadResult, disclose, read_version, read_entry, read}
use ops_light_secrets_server.Kv.Granted.{
  Granted, authorize_operation_bind-Ends, authorize_operation_complete,
}

-- The read answers with the value that the version's bytes decode to.
record Reads (json : Json) (version : ℕ) (value : VersionValue) (r : ReadResult) : Type 0 where
  pub decoded : json.from_slice value.encoded ≡ some r.value
  pub at_version : r.version ≡ version
  pub created : r.created ≡ value.created_unix_milliseconds

abbrev audited_read : ℕ → Text → ℕ → KvCatalog → KvCatalog
audited_read identity_id path version c =
    push_audit (audit_event identity_id path Types.read succeeded (some version) none) c

-- A read that ends at a stored version.
record Discloses (json : Json) (identity_id : ℕ) (path : Text) (version : ℕ)
    (o : Option VersionValue) (c d : KvCatalog) (r : ReadResult) : Type 0 where
  pub value : VersionValue
  pub found : o ≡ some value
  pub is_live : state_live value.state ≡ true
  pub reads : Reads json version value r
  pub left : d ≡ audited_read identity_id path version c

module _ (json : Json) (identity_id : ℕ) (path : Text) where
  disclose-Ends :
      (version : ℕ) (value : VersionValue) {c d : KvCatalog} {r : ReadResult}
      → Ends (disclose json identity_id path version value) c r d
      → Reads json version value r × (d ≡ audited_read identity_id path version c)
  unfolding disclose
  disclose-Ends version value h = elim (when-Ends _ _ _ (gets_bind-Ends _ _ h)) [
    | inl (_, k) ↦ fails_bind _ internal k
    | inr (_, k) ↦
        let (x, e, k1) = some_or_bind-Ends _ _ _ k in
        let (e2, s) = Ends-pure _ (modify_bind-Ends _ _ k1) in
        (record { decoded = ground arith; at_version = ground arith; created = ground arith }, s)
  ]

  read_version-Ends :
      (version : ℕ) (o : Option VersionValue) {c d : KvCatalog} {r : ReadResult}
      → Ends (read_version json identity_id path version o) c r d
      → Discloses json identity_id path version o c d r
  unfolding read_version
  read_version-Ends version none h = fails_bind _ not_found h
  read_version-Ends version (some value) h = elim (when-Ends _ _ _ h) [
    | inl (_, k) ↦ fails_bind _ _ k
    | inr (e, k) ↦
        let (p, s) = disclose-Ends version value k in
        record { value = value; found = refl; is_live = ground arith; reads = p; left = s }
  ]

  read_entry-Ends :
      (version : Option ℕ) (o : Option Entry) {c d : KvCatalog} {r : ReadResult}
      → Ends (read_entry json identity_id path version o) c r d
      → (e : Entry) × (o ≡ some e)
        × Discloses json identity_id path
            (unwrap_or version e.current_version)
            (get (unwrap_or version e.current_version) e.versions)
            c
            d
            r
  unfolding read_entry
  read_entry-Ends version none h = fails_bind _ not_found h
  read_entry-Ends version (some e) h = (e, refl, read_version-Ends _ _ h)

is_live-eq : (s : VersionState) → state_live s ≡ true → s ≡ live
is_live-eq live h = refl
is_live-eq soft_deleted h = ground arith
is_live-eq destroyed h = ground arith

-- The stored version that a read of the endpoint answers from: the one it asks for, else the
-- current one.
abbrev pub Stored : EndpointRequest → KvCatalog → ℕ → VersionValue → Type 0
Stored endpoint c version value =
    (e : Entry) × (get (logical_path endpoint) c.entries ≡ some e)
    × (version ≡ unwrap_or endpoint.version e.current_version)
    × (get version e.versions ≡ some value)

-- A read that succeeds was permitted by a grant of the identity; it answers with what a live stored
-- version, the one asked for or the current one, decodes to; and all that it changes is to add an
-- event of success that names the identity, the path and the version.
pub read_sound :
    (json : Json) (identity_id : ℕ) (endpoint : EndpointRequest) (c d : KvCatalog) (r : ReadResult)
    → read json identity_id endpoint c ≡ (ok r, d)
    → Granted identity_id endpoint read_action c
      × ((value : VersionValue) × Stored endpoint c r.version value
          × (value.state ≡ live)
          × (json.from_slice value.encoded ≡ some r.value)
          × (r.created ≡ value.created_unix_milliseconds))
      × (d
          ≡ push_audit
              (audit_event identity_id
                (logical_path endpoint)
                Types.read
                succeeded
                (some r.version)
                none)
              c)
unfolding read
read_sound json identity_id endpoint c d r h =
    let (_, _, h1) = lift_bind-Ends _ _ (Ends-of _ h) in
    let (granted, h2) = authorize_operation_bind-Ends identity_id endpoint read_action _ h1 in
    let (e, f, found) =
      read_entry-Ends json identity_id (logical_path endpoint) endpoint.version _
        (gets_bind-Ends _ _ h2) in
    let v = sym found.reads.at_version in
    (
      granted,
      (
        found.value,
        (
          e,
          f,
          found.reads.at_version,
          subst (λ n. get n e.versions ≡ some found.value) v found.found,
        ),
        is_live-eq _ found.is_live,
        found.reads.decoded,
        found.reads.created,
      ),
      subst
          (λ n.
            d
            ≡ push_audit
                (audit_event identity_id (logical_path endpoint) Types.read succeeded (some n) none)
                c)
          v found.left,
    )

-- A read of a data endpoint that a grant of the identity permits, of a live stored version whose
-- bytes decode, answers with that value, its version and its time, unless the next audit commit of
-- a read is made to fail.
pub read_complete :
    (json : Json) (identity_id : ℕ) (endpoint : EndpointRequest) (c : KvCatalog) (version : ℕ)
    (value : VersionValue) (decoded : Value)
    → validate_endpoint endpoint data_kind ≡ ok tt
    → Granted identity_id endpoint read_action c
    → Stored endpoint c version value
    → value.state ≡ live
    → json.from_slice value.encoded ≡ some decoded
    → c.fail_next_read_audit_commit ≡ false
    → read json identity_id endpoint c ≡ (
      ok (record { value = decoded; version = version; created = value.created_unix_milliseconds }),
      push_audit
          (audit_event identity_id (logical_path endpoint) Types.read succeeded (some version) none)
          c,
    )
unfolding read ◌>>=◌ read_entry read_version disclose when
read_complete json identity_id endpoint c version value decoded valid granted (e, f, v, g) alive dec
      flag =
    rw
      (
        valid,
        authorize_operation_complete identity_id endpoint read_action c granted,
        f,
        ← v,
        g,
        alive,
        flag,
        dec,
      )
      refl
