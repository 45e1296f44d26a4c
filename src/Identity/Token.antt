-- ===== src/Identity/Token.antt =====
-- src/identity.rs: token records, and the decision over a token, its identity and its grants.
pub mod Decision
use mathlib.Core.List.{Memᴰ}
use ops_light_secrets_server.Prelude.{
  ℕ, ◌+◌, ◌≤◌, ◌<◌, ◌≡◌, ◌≢◌, refl, sym, ◌↔◌, ◌∙◌, Bool, true, false, not, ◌&&◌, ◌||◌, Option, none,
  some, List, [], ◌∷◌, arith, any, all, leb, select, ◌==◌, if◌then◌else◌, Bool-cases, Option-cases,
  inl, inr, checked_add, u64_max,
}
use ops_light_secrets_server.Prelude.Text.{Text}
use ops_light_secrets_server.Prelude.Result.{Result, ok, err, ◌>>=◌, ◌>>◌, refuse, ok_or}
use ops_light_secrets_server.Prelude.Search.{mem-select, select-mem}
use ops_light_secrets_server.Identity.Records.{
  GrantRecord, IdentityRecord, identity_active, grant_active, valid_label,
}
use ops_light_secrets_server.Identity.Request.{AuthorizationRequest}
use ops_light_secrets_server.Identity.Authorize.{
  DenyReason, AuthorizationDecision, authorize, verdict,
}
use ops_light_secrets_server.Identity.Grants.{
  Permits, authorize_sound, authorize_complete, allow_iff_reason,
}

pub data TokenStatus : Type 0 where
  active revoked : TokenStatus

abbrev pub token_active : TokenStatus → Bool
token_active active = true
token_active revoked = false

pub record TokenServerRecord : Type 0 where
  pub id : ℕ
  pub identity_id : ℕ
  pub issued_at_effective_seconds : ℕ
  pub expires_at_effective_seconds : ℕ
  pub issue_epoch : ℕ
  pub status : TokenStatus
  pub generation : ℕ
  pub display_name : Text

pub data TokenError : Type 0 where
  invalid stale_generation : TokenError

-- `TokenServerRecord::issue`
unfoldable pub issue : ℕ → ℕ → ℕ → ℕ → ℕ → Text → Result TokenError TokenServerRecord
unfolding valid_label
issue id identity_id issued_at ttl_seconds issue_epoch display_name = do
  expires_at ← ok_or (checked_add issued_at ttl_seconds) invalid
  refuse
      (id == 0
        || identity_id == 0
        || issued_at == 0
        || ttl_seconds == 0
        || issue_epoch == 0
        || not (valid_label display_name))
      invalid
  ok (record {
    id = id;
    identity_id = identity_id;
    issued_at_effective_seconds = issued_at;
    expires_at_effective_seconds = expires_at;
    issue_epoch = issue_epoch;
    status = active;
    generation = 1;
    display_name = display_name;
  })

-- `TokenServerRecord::revoke`
unfoldable pub revoke : TokenServerRecord → ℕ → Result TokenError TokenServerRecord
revoke t expected_generation = do
  refuse (not (token_active t.status) || not (t.generation == expected_generation)) stale_generation
  generation ← ok_or (checked_add t.generation 1) invalid
  ok (record t { status = revoked; generation = generation })

pub data TokenDenyReason : Type 0 where
  credential_not_found revoked_token expired epoch_changed : TokenDenyReason
  identity_not_found identity_disabled : TokenDenyReason
  no_grant_for_mount prefix_boundary_miss missing_capability : TokenDenyReason

pub record TokenAuthorizationDecision : Type 0 where
  pub allow : Bool
  pub identity_id : Option ℕ
  pub matched_grant : Option ℕ
  pub deny_reason : Option TokenDenyReason
  pub audit_required : Bool

pub record TokenAuthorizationSnapshot : Type 0 where
  pub token : Option TokenServerRecord
  pub identity : Option IdentityRecord
  pub grants : List GrantRecord
  pub effective_seconds : ℕ
  pub credential_epoch : ℕ

abbrev pub denied : Option ℕ → TokenDenyReason → TokenAuthorizationDecision
denied identity_id reason = record {
  allow = false;
  identity_id = identity_id;
  matched_grant = none;
  deny_reason = some reason;
  audit_required = true;
}

abbrev pub token_reason : DenyReason → TokenDenyReason
token_reason DenyReason.no_grant_for_mount = no_grant_for_mount
token_reason DenyReason.prefix_boundary_miss = prefix_boundary_miss
token_reason DenyReason.missing_capability = missing_capability

-- `deny_reason.expect("denial always has reason")`: the panic is `none` here, which
-- no decision of `authorize` reaches.
abbrev pub grants_reason : Option DenyReason → Option TokenDenyReason
grants_reason none = none
grants_reason (some r) = some (token_reason r)

-- `self.grants.iter().filter(|grant| grant.owner_identity_id == id)`
abbrev pub owned_grants : ℕ → List GrantRecord → List GrantRecord
owned_grants id grants = select (λ g. g.owner_identity_id == id) grants

-- The end of `authorize`: the identity's current grants decide.
unfoldable pub authorize_grants :
    IdentityRecord → List GrantRecord → AuthorizationRequest → TokenAuthorizationDecision
authorize_grants identity grants request =
    let decision = authorize request (owned_grants identity.id grants) in
    if decision.allow
    then record {
      allow = true;
      identity_id = some identity.id;
      matched_grant = decision.matched_grant;
      deny_reason = none;
      audit_required = true;
    }
    else record {
      allow = false;
      identity_id = some identity.id;
      matched_grant = none;
      deny_reason = grants_reason decision.deny_reason;
      audit_required = true;
    }

-- `identity.filter(|identity| identity.id == token.identity_id)`, and its status.
unfoldable pub authorize_identity :
    Option IdentityRecord
    → TokenServerRecord
    → List GrantRecord
    → AuthorizationRequest
    → TokenAuthorizationDecision
unfolding authorize_grants
authorize_identity none token grants request = denied (some token.identity_id) identity_not_found
authorize_identity (some identity) token grants request =
    if not (identity.id == token.identity_id)
    then denied (some token.identity_id) identity_not_found
    else if not (identity_active identity.status)
    then denied (some token.identity_id) identity_disabled
    else authorize_grants identity grants request

unfoldable pub authorize_some :
    TokenServerRecord
    → TokenAuthorizationSnapshot
    → AuthorizationRequest
    → TokenAuthorizationDecision
unfolding authorize_identity
authorize_some token s request =
    if not (token_active token.status)
    then denied (some token.identity_id) revoked_token
    else if leb token.expires_at_effective_seconds s.effective_seconds
    then denied (some token.identity_id) expired
    else if not (s.credential_epoch == token.issue_epoch)
    then denied (some token.identity_id) epoch_changed
    else authorize_identity s.identity token s.grants request

-- `TokenAuthorizationSnapshot::authorize`
unfoldable pub authorize_token :
    TokenAuthorizationSnapshot → AuthorizationRequest → TokenAuthorizationDecision
unfolding authorize_some
authorize_token s request = elim s.token [
  | none ↦ denied none credential_not_found
  | some token ↦ authorize_some token s request
]
