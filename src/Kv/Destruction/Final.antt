-- ===== src/Kv/Destruction/Final.antt =====
-- src/kv.rs: destruction is final. No later mutation brings a destroyed version back, and a read of
-- one says that it is destroyed.
use ops_light_secrets_server.Prelude.{
  ℕ, ◌≡◌, refl, sym, ap, ◌∙◌, subst, inl, inr, Bool, true, false, ◌&&◌, Option, none, some, List,
  [], ◌∷◌, arith, any, Bool-cases, ◌==◌,
}
use ops_light_secrets_server.Prelude.Order.{nat_ord, list_ord}
use ops_light_secrets_server.Prelude.Result.{ok, err}
use ops_light_secrets_server.Prelude.Action.{◌>>=◌}
use ops_light_secrets_server.BTreeMap.{get}
use ops_light_secrets_server.RawTarget.{EndpointRequest, data_kind}
use ops_light_secrets_server.Identity.Request.{
  SecretAction, read_action, write_action, soft_delete_action, undelete_action, destroy_action,
}
use ops_light_secrets_server.Kv.Types.{KvCatalog, VersionValue, Entry, destroyed}
use ops_light_secrets_server.Kv.Access.{logical_path, validate_endpoint}
use ops_light_secrets_server.Kv.Service.{Json, read_version, read_entry, read}
use ops_light_secrets_server.Kv.Granted.{Granted, authorize_operation_complete}
use ops_light_secrets_server.Kv.Mutations.{
  Versions, mutate_value, mutate_versions, is_destroyed, is_soft_delete,
}
use ops_light_secrets_server.Kv.Batch.{named}
use ops_light_secrets_server.Kv.Destruction.{mutate_versions_sound}
use ops_light_secrets_server.Kv.Types.{version_unavailable}

destroyed-stays :
    (action : SecretAction) (now : ℕ) (old new : VersionValue)
    → mutate_value action now old ≡ ok new
    → is_soft_delete action ≡ false
    → old.state ≡ destroyed
    → new.state ≡ destroyed
unfolding mutate_value
destroyed-stays soft_delete_action now old new h k d = ground arith
destroyed-stays undelete_action now old new h k d = ground arith
destroyed-stays destroy_action now old new h k d = ground arith
destroyed-stays read_action now old new h k d = ground arith
destroyed-stays SecretAction.metadata_action now old new h k d = ground arith
destroyed-stays SecretAction.list_action now old new h k d = ground arith
destroyed-stays write_action now old new h k d = ground arith

any-false :
    (p : ℕ → Bool) (v : ℕ) (versions : List ℕ)
    → named v versions ≡ true
    → any p versions ≡ false
    → p v ≡ false
any-false p v [] h k = ground arith
any-false p v (w ∷ rest) h k = elim (Bool-cases (v == w)) [
  | inl same ↦ let e : w ≡ v = ground arith in subst (λ x. p x ≡ false) e (ground arith)
  | inr other ↦ any-false p v rest (ground arith) (ground arith)
]

hard :
    (action : SecretAction) (m : Versions) (v : ℕ) (versions : List ℕ) (value : VersionValue)
    → (is_soft_delete action && any (λ w. is_destroyed (get w m)) versions) ≡ false
    → named v versions ≡ true
    → get v m ≡ some value
    → value.state ≡ destroyed
    → is_soft_delete action ≡ false
hard action m v versions value h hit g d = elim (Bool-cases (is_soft_delete action)) [
  | inr k ↦ k
  | inl k ↦
      let missed = any-false (λ w. is_destroyed (get w m)) v versions hit (ground arith) in
      let seen : is_destroyed (get v m) ≡ true = rw (g, d) refl in ground arith
]

some-same : {A : Type 0} (o : Option A) (a b : A) → o ≡ some a → o ≡ some b → a ≡ b
some-same o a b h k = ground arith

-- A destroyed version stays destroyed through every soft deletion, undeletion or destruction on its
-- path that succeeds, whichever versions it names.
pub destroyed_final :
    (identity_id : ℕ) (endpoint : EndpointRequest) (versions : List ℕ) (action : SecretAction)
    (c d : KvCatalog) (e : Entry) (v : ℕ) (value : VersionValue)
    → mutate_versions identity_id endpoint versions action c ≡ (ok tt, d)
    → get (logical_path endpoint) c.entries ≡ some e
    → get v e.versions ≡ some value
    → value.state ≡ destroyed
    → (after : Entry) × (left : VersionValue) × (get (logical_path endpoint) d.entries ≡ some after)
      × (get v after.versions ≡ some left)
      × (left.state ≡ destroyed)
destroyed_final identity_id endpoint versions action c d e v value h f g gone =
    let (_, m) = mutate_versions_sound identity_id endpoint versions action c d h in
    let same = some-same _ e m.before f m.found in
    let g' = subst (λ (x : Entry). get v x.versions ≡ some value) same g in
    elim (Bool-cases (named v versions)) [
      | inr miss ↦ (m.entry, value, m.stored, m.mutated.same v miss ∙ g', gone)
      | inl hit ↦
          let (old, new, o, k, n) = m.mutated.changed v hit in
          let eq = some-same _ old value o g' in
          (
            m.entry,
            new,
            m.stored,
            n,
            destroyed-stays action c.effective_unix_milliseconds old new k
                (hard action m.before.versions v versions value m.soft hit g' gone)
                (ap (λ (x : VersionValue). x.state) eq ∙ gone),
          )
    ]

-- After a destruction that succeeds, whoever may read a version it named gets no value but the error
-- that the version is destroyed.
pub destroy-read :
    (json : Json) (identity_id reader : ℕ) (endpoint target : EndpointRequest) (versions : List ℕ)
    (c d : KvCatalog) (v : ℕ)
    → mutate_versions identity_id endpoint versions destroy_action c ≡ (ok tt, d)
    → named v versions ≡ true
    → target.resource ≡ endpoint.resource
    → target.version ≡ some v
    → validate_endpoint target data_kind ≡ ok tt
    → Granted reader target read_action c
    → (read json reader target d).0 ≡ err (version_unavailable v 0 true)
unfolding read ◌>>=◌ read_entry read_version mutate_value logical_path
destroy-read json identity_id reader endpoint target versions c d v h hit place asked valid
      granted =
    let (_, m) = mutate_versions_sound identity_id endpoint versions destroy_action c d h in
    let (old, new, o, k, n) = m.mutated.changed v hit in
    let granted' =
      subst (λ gs. Granted reader target read_action (record c { grants = gs })) (sym m.grants)
        granted in
    let gone : new.state ≡ destroyed = ground arith in
    let time : new.deletion_unix_milliseconds ≡ none = ground arith in
    rw
      (
        valid,
        authorize_operation_complete reader target read_action d granted',
        place,
        m.stored,
        asked,
        n,
        gone,
        time,
      )
      refl
