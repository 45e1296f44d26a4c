-- ===== src/Kv/Granted.antt =====
-- src/kv.rs: an operation that passes its authorization was permitted by a grant of its identity,
-- and one that does not is audited as denied.
use mathlib.Core.List.{Memᴰ}
use ops_light_secrets_server.Prelude.{
  ℕ, ◌≡◌, refl, subst, inl, inr, Bool, true, false, none, some, arith, Bool-cases, ◌==◌,
}
use ops_light_secrets_server.Prelude.Order.{nat_ord, list_ord}
use ops_light_secrets_server.Prelude.Search.{mem-select, select-mem}
use ops_light_secrets_server.Prelude.Text.{text}
use ops_light_secrets_server.Prelude.Result.{Result, ok, err, map_err}
use ops_light_secrets_server.Prelude.Action.{◌>>=◌, pure, fail, when}
use ops_light_secrets_server.Prelude.Ends.{
  Ends, Ends-bind, Ends-pure, Ends-fail, lift_bind-Ends, gets_bind-Ends,
}
use ops_light_secrets_server.RawTarget.{EndpointRequest}
use ops_light_secrets_server.Identity.Records.{GrantRecord}
use ops_light_secrets_server.Identity.Request.{SecretAction, AuthorizationRequest, secret_request}
use ops_light_secrets_server.Identity.Grants.{Permits, authorize_sound, authorize_complete}
use ops_light_secrets_server.Kv.Types.{KvCatalog, KvError, denied, permission_denied}
use ops_light_secrets_server.Kv.Catalog.{Kv, push_audit}
use ops_light_secrets_server.Kv.Access.{
  authorize_operation, allowed, audit_event, audit_operation, logical_path,
}
use ops_light_secrets_server.Identity.Token.{owned_grants}

-- A grant that the identity owns permits the request that the operation makes of the endpoint.
abbrev pub Granted : ℕ → EndpointRequest → SecretAction → KvCatalog → Type 0
Granted identity_id endpoint action c =
    (r : AuthorizationRequest) × (secret_request endpoint action ≡ ok r)
    × (g : GrantRecord) × Memᴰ g c.grants
    × (g.owner_identity_id ≡ identity_id)
    × Permits r g

pub map_err-ok :
    {E F A : Type 0} (f : E → F) (r : Result E A) (a : A) → map_err f r ≡ ok a → r ≡ ok a
map_err-ok f (ok x) a h = ground arith
map_err-ok f (err e) a h = ground arith

owned_same : (a b : ℕ) → (a == b) ≡ true → a ≡ b
owned_same a b h = ground arith

pub allowed-grant :
    (identity_id : ℕ) (r : AuthorizationRequest) (c : KvCatalog)
    → allowed identity_id r c ≡ true
    → (g : GrantRecord) × Memᴰ g c.grants × (g.owner_identity_id ≡ identity_id) × Permits r g
unfolding allowed
allowed-grant identity_id r c h =
    let (g, m, p, _) = authorize_sound r (owned_grants identity_id c.grants) h in
    let (k, own) = mem-select _ c.grants g m in (g, k, owned_same _ _ own, p)

pub pass-Ends :
    (allow : Bool) (m : Kv (Unit {0})) (e : KvError) {s t : KvCatalog} {u : Unit {0}}
    → Ends (when allow (pure tt) (m >>= λ _. fail e)) s u t
    → (allow ≡ true) × (t ≡ s)
unfolding when
pass-Ends true m e h = (refl, (Ends-pure tt h).1)
pass-Ends false m e h = let (_, _, _, k) = Ends-bind m _ h in Ends-fail e k

pub authorize_operation-Ends :
    (identity_id : ℕ) (endpoint : EndpointRequest) (action : SecretAction) {c d : KvCatalog}
    {u : Unit {0}}
    → Ends (authorize_operation identity_id endpoint action) c u d
    → Granted identity_id endpoint action c × (d ≡ c)
unfolding authorize_operation
authorize_operation-Ends identity_id endpoint action {c} h =
    let (r, e, h1) = lift_bind-Ends _ _ h in
    let (a, s) = pass-Ends _ _ permission_denied (gets_bind-Ends _ _ h1) in
    let (g, m, own, p) = allowed-grant identity_id r c a in
    ((r, map_err-ok _ _ r e, g, m, own, p), s)

-- The rest of an operation, after its authorization.
pub authorize_operation_bind-Ends :
    {B : Type 0} (identity_id : ℕ) (endpoint : EndpointRequest) (action : SecretAction)
    (f : Unit {0} → Kv B) {c d : KvCatalog} {b : B}
    → Ends (authorize_operation identity_id endpoint action >>= f) c b d
    → Granted identity_id endpoint action c × Ends (f tt) c b d
authorize_operation_bind-Ends identity_id endpoint action f {c} {d} {b} h =
    let (_, u, k, rest) = Ends-bind _ _ h in
    let (g, s) = authorize_operation-Ends identity_id endpoint action k in
    (g, subst (λ x. Ends (f tt) x b d) s rest)

denied-left :
    (identity_id : ℕ) (endpoint : EndpointRequest) (action : SecretAction) (c : KvCatalog)
    (r : AuthorizationRequest)
    → secret_request endpoint action ≡ ok r
    → allowed identity_id r c ≡ false
    → authorize_operation identity_id endpoint action c ≡ (
      err permission_denied,
      push_audit
          (audit_event identity_id
            (logical_path endpoint)
            (audit_operation action)
            denied
            none
            (some (text "permission-denied")))
          c,
    )
unfolding authorize_operation ◌>>=◌
denied-left identity_id endpoint action c r e h = rw (e, h) refl

-- If no grant that the identity owns permits the request, then the operation ends with
-- `PermissionDenied`, the entries stay as they are, and one denied event is added to the audit.
pub authorize_operation-denied :
    (identity_id : ℕ) (endpoint : EndpointRequest) (action : SecretAction) (c : KvCatalog)
    (r : AuthorizationRequest)
    → secret_request endpoint action ≡ ok r
    → ((g : GrantRecord) → Memᴰ g c.grants → g.owner_identity_id ≡ identity_id → ¬ (Permits r g))
    → authorize_operation identity_id endpoint action c ≡ (
      err permission_denied,
      push_audit
          (audit_event identity_id
            (logical_path endpoint)
            (audit_operation action)
            denied
            none
            (some (text "permission-denied")))
          c,
    )
authorize_operation-denied identity_id endpoint action c r e none_permits =
    elim (Bool-cases (allowed identity_id r c)) [
      | inr h ↦ denied-left identity_id endpoint action c r e h
      | inl h ↦
          let (g, m, own, p) = allowed-grant identity_id r c h in absurd (none_permits g m own p)
    ]

owner_same : (a b : ℕ) → a ≡ b → (a == b) ≡ true
owner_same a b h = ground arith

-- An operation that a grant of the identity permits passes its authorization, and leaves the
-- catalog alone.
pub authorize_operation_complete :
    (identity_id : ℕ) (endpoint : EndpointRequest) (action : SecretAction) (c : KvCatalog)
    → Granted identity_id endpoint action c
    → authorize_operation identity_id endpoint action c ≡ (ok tt, c)
unfolding authorize_operation ◌>>=◌ allowed
authorize_operation_complete identity_id endpoint action c (r, e, g, m, own, p) =
    rw
      (
        e,
        authorize_complete r (owned_grants identity_id c.grants) g
            (select-mem (λ x. x.owner_identity_id == identity_id) c.grants g m (owner_same _ _ own))
            p,
      )
      refl
