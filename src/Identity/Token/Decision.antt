-- ===== src/Identity/Token/Decision.antt =====
-- The decision over a token against the live credentials and the grants that stand behind it.
use mathlib.Core.List.{Memᴰ}
use ops_light_secrets_server.Prelude.{
  ℕ, ◌+◌, ◌<◌, ◌≡◌, ◌∙◌, ◌↔◌, true, none, some, arith, Option-cases, inl, inr,
}
use ops_light_secrets_server.Prelude.Text.{Text}
use ops_light_secrets_server.Prelude.Result.{ok}
use ops_light_secrets_server.Prelude.Search.{mem-select, select-mem}
use ops_light_secrets_server.Identity.Records.{GrantRecord, IdentityRecord, identity_active}
use ops_light_secrets_server.Identity.Request.{AuthorizationRequest}
use ops_light_secrets_server.Identity.Authorize.{authorize}
use ops_light_secrets_server.Identity.Grants.{
  Permits, authorize_sound, authorize_complete, allow_iff_reason,
}
use ops_light_secrets_server.Identity.Token.{
  TokenServerRecord, token_active, issue, revoke, revoked_token, TokenAuthorizationSnapshot, denied,
  owned_grants, authorize_token,
}

-- The live credentials that stand behind an allowed request.
pub record Live (s : TokenAuthorizationSnapshot) (t : TokenServerRecord) (i : IdentityRecord)
    : Type 0 where
  pub token_found : s.token ≡ some t
  pub not_revoked : token_active t.status ≡ true
  pub not_expired : s.effective_seconds < t.expires_at_effective_seconds
  pub same_epoch : s.credential_epoch ≡ t.issue_epoch
  pub identity_found : s.identity ≡ some i
  pub same_identity : i.id ≡ t.identity_id
  pub identity_live : identity_active i.status ≡ true

allowed-Live :
    (s : TokenAuthorizationSnapshot) (r : AuthorizationRequest)
    → (authorize_token s r).allow ≡ true
    → (t : TokenServerRecord) × (i : IdentityRecord) × Live s t i
      × ((authorize r (owned_grants i.id s.grants)).allow ≡ true)
unfolding authorize_token
allowed-Live s r h = elim (Option-cases s.token) [
  | inl e ↦ ground arith
  | inr (t, e) ↦ elim (Option-cases s.identity) [
    | inl f ↦ ground arith
    | inr (i, f) ↦ (t, i, ground arith, ground arith)
  ]
]

Live-allowed :
    (s : TokenAuthorizationSnapshot) (r : AuthorizationRequest) (t : TokenServerRecord)
    (i : IdentityRecord)
    → Live s t i
    → (authorize r (owned_grants i.id s.grants)).allow ≡ true
    → (authorize_token s r).allow ≡ true
unfolding authorize_token
Live-allowed s r t i l h = ground arith

Live-named :
    (s : TokenAuthorizationSnapshot) (r : AuthorizationRequest) (t : TokenServerRecord)
    (i : IdentityRecord)
    → Live s t i
    → (authorize r (owned_grants i.id s.grants)).allow ≡ true
    → ((authorize_token s r).identity_id ≡ some i.id)
      × ((authorize_token s r).matched_grant
          ≡ (authorize r (owned_grants i.id s.grants)).matched_grant)
unfolding authorize_token
Live-named s r t i l h = (ground arith, ground arith)

-- A bearer is let through only while its token is neither revoked nor expired nor of an older
-- epoch, its identity is active, and a grant that this identity owns now permits the request; the
-- decision names that identity and that grant.
pub authorize_token_sound :
    (s : TokenAuthorizationSnapshot) (r : AuthorizationRequest)
    → (authorize_token s r).allow ≡ true
    → (t : TokenServerRecord) × (i : IdentityRecord) × (g : GrantRecord) × Live s t i
      × Memᴰ g s.grants
      × (g.owner_identity_id ≡ i.id)
      × Permits r g
      × ((authorize_token s r).identity_id ≡ some i.id)
      × ((authorize_token s r).matched_grant ≡ some g.id)
authorize_token_sound s r h =
    let (t, i, live, a) = allowed-Live s r h in
    let (g, m, p, named) = authorize_sound r (owned_grants i.id s.grants) a in
    let (m', o) = mem-select _ s.grants g m in
    let (whose, by) = Live-named s r t i live a in
    (t, i, g, live, m', ground arith, p, whose, by ∙ named)

-- Live credentials and a permitting grant of their identity are enough.
pub authorize_token_complete :
    (s : TokenAuthorizationSnapshot) (r : AuthorizationRequest) (t : TokenServerRecord)
    (i : IdentityRecord) (g : GrantRecord)
    → Live s t i
    → Memᴰ g s.grants
    → g.owner_identity_id ≡ i.id
    → Permits r g
    → (authorize_token s r).allow ≡ true
authorize_token_complete s r t i g live m o p =
    Live-allowed s r t i live
      (authorize_complete r _ g (select-mem _ s.grants g m (ground arith)) p)

-- Every decision is to be audited, and a denial always carries its reason, so the `expect` of the
-- code does not panic.
pub authorize_token-audited :
    (s : TokenAuthorizationSnapshot) (r : AuthorizationRequest)
    → ((authorize_token s r).audit_required ≡ true)
      × (((authorize_token s r).allow ≡ true) ↔ ((authorize_token s r).deny_reason ≡ none))
unfolding authorize_token
authorize_token-audited s r = elim (Option-cases s.token) [
  | inl e ↦ ground arith
  | inr (t, e) ↦ elim (Option-cases s.identity) [
    | inl f ↦ ground arith
    | inr (i, f) ↦ ground (arith, allow_iff_reason r (owned_grants i.id s.grants))
  ]
]

-- A token that was revoked is never accepted again, whatever the clock, the epoch and the grants.
pub revoke-denied :
    (t t' : TokenServerRecord) (generation : ℕ) (s : TokenAuthorizationSnapshot)
    (r : AuthorizationRequest)
    → revoke t generation ≡ ok t'
    → s.token ≡ some t'
    → authorize_token s r ≡ denied (some t.identity_id) revoked_token
unfolding authorize_token revoke
revoke-denied t t' generation s r h e = ground arith

-- A token issued with `ttl` is accepted for less than `ttl` seconds of effective time.
pub issue-lifetime :
    (id identity_id issued_at ttl epoch : ℕ) (name : Text) (t : TokenServerRecord)
    (s : TokenAuthorizationSnapshot) (r : AuthorizationRequest)
    → issue id identity_id issued_at ttl epoch name ≡ ok t
    → s.token ≡ some t
    → (authorize_token s r).allow ≡ true
    → s.effective_seconds < issued_at + ttl
unfolding authorize_token issue
issue-lifetime id identity_id issued_at ttl epoch name t s r h e a = ground arith
