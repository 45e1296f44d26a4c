-- ===== src/Identity/Examples.antt =====
-- Tests of src/identity.rs: a workload with a grant on a subtree of the secret mount.
use mathlib.Core.List.{Memᴰ}
use ops_light_secrets_server.Prelude.{◌≡◌, refl, true, false, none, some, [], ◌∷◌, arith}
use ops_light_secrets_server.Prelude.Text.{text}
use ops_light_secrets_server.RawTarget.{Resource, EndpointRequest, data_kind}
use ops_light_secrets_server.Identity.Capability.{holds, secret_read_current, secret_write}
use ops_light_secrets_server.Identity.Records.{
  GrantRecord, validate_grant, GrantStatus, GrantScope, IdentityRecord, IdentityKind,
  IdentityStatus, management_mount,
}
use ops_light_secrets_server.Identity.Request.{
  AuthorizationRequest, read_action, read_current, secret_request, shape_matches,
}
use ops_light_secrets_server.Identity.Authorize.{authorize}
use ops_light_secrets_server.Identity.Grants.{
  Permits, authorize_sound, authorize_complete, secret_request-never_management,
}
use ops_light_secrets_server.Identity.Token.{
  TokenServerRecord, TokenStatus, TokenAuthorizationSnapshot, authorize_token, revoke, denied,
  revoked_token,
}
use ops_light_secrets_server.Identity.Token.Decision.{
  Live, authorize_token_sound, authorize_token_complete, revoke-denied,
}

abbrev app_grant : GrantRecord
app_grant = record {
  id = 7;
  owner_identity_id = 1;
  generation = 1;
  status = GrantStatus.active;
  mount = text "secret";
  scope = GrantScope.subtree;
  prefix_segments = text "app" ∷ [];
  capabilities = secret_write ∷ secret_read_current ∷ [];
}

abbrev app_resource : Resource
app_resource = record { mount = text "secret"; canonical_segments = text "app" ∷ text "db" ∷ [] }

abbrev app_request : AuthorizationRequest
app_request = record {
  resource = app_resource;
  operation = read_current;
  capability = secret_read_current;
}

app_request-Permits : Permits app_request app_grant
unfolding holds
app_request-Permits = record {
  is_active = refl;
  at_mount = refl;
  covers = refl;
  has_capability = refl;
}

authorize_sound_example :
    (g : GrantRecord) × Memᴰ g (app_grant ∷ [])
    × Permits app_request g
    × ((authorize app_request (app_grant ∷ [])).matched_grant ≡ some g.id)
unfolding authorize shape_matches holds
authorize_sound_example = authorize_sound app_request (app_grant ∷ []) refl

authorize_complete_example : (authorize app_request (app_grant ∷ [])).allow ≡ true
authorize_complete_example =
    authorize_complete app_request (app_grant ∷ []) app_grant (Memᴰ.head refl) app_request-Permits

abbrev sys_endpoint : EndpointRequest
sys_endpoint = record {
  kind = data_kind;
  resource = record { mount = management_mount; canonical_segments = text "x" ∷ [] };
  version = none;
}

abbrev sys_request : AuthorizationRequest
sys_request = record {
  resource = sys_endpoint.resource;
  operation = read_current;
  capability = secret_read_current;
}

secret_request-never_management_example : (authorize sys_request (app_grant ∷ [])).allow ≡ false
unfolding secret_request validate_grant
secret_request-never_management_example =
    secret_request-never_management sys_endpoint read_action sys_request (app_grant ∷ []) refl refl
      refl

abbrev app_token : TokenServerRecord
app_token = record {
  id = 5;
  identity_id = 1;
  issued_at_effective_seconds = 100;
  expires_at_effective_seconds = 160;
  issue_epoch = 3;
  status = TokenStatus.active;
  generation = 1;
  display_name = text "app";
}

abbrev app_identity : IdentityRecord
app_identity = record {
  id = 1;
  name = text "app";
  kind = IdentityKind.workload;
  status = IdentityStatus.active;
  generation = 1;
}

abbrev app_snapshot : TokenAuthorizationSnapshot
app_snapshot = record {
  token = some app_token;
  identity = some app_identity;
  grants = app_grant ∷ [];
  effective_seconds = 130;
  credential_epoch = 3;
}

app_snapshot-Live : Live app_snapshot app_token app_identity
app_snapshot-Live = record {
  token_found = refl;
  not_revoked = refl;
  not_expired = omega arith;
  same_epoch = refl;
  identity_found = refl;
  same_identity = refl;
  identity_live = refl;
}

authorize_token_sound_example :
    (t : TokenServerRecord) × (i : IdentityRecord) × (g : GrantRecord) × Live app_snapshot t i
    × Memᴰ g app_snapshot.grants
    × (g.owner_identity_id ≡ i.id)
    × Permits app_request g
    × ((authorize_token app_snapshot app_request).identity_id ≡ some i.id)
    × ((authorize_token app_snapshot app_request).matched_grant ≡ some g.id)
unfolding authorize_token authorize shape_matches holds
authorize_token_sound_example = authorize_token_sound app_snapshot app_request refl

authorize_token_complete_example : (authorize_token app_snapshot app_request).allow ≡ true
authorize_token_complete_example =
    authorize_token_complete app_snapshot app_request app_token app_identity app_grant
      app_snapshot-Live (Memᴰ.head refl) refl app_request-Permits

abbrev revoked_app_token : TokenServerRecord
revoked_app_token = record app_token { status = TokenStatus.revoked; generation = 2 }

revoke-denied_example :
    authorize_token (record app_snapshot { token = some revoked_app_token }) app_request
    ≡ denied (some 1) revoked_token
unfolding revoke
revoke-denied_example =
    revoke-denied app_token revoked_app_token 1
      (record app_snapshot { token = some revoked_app_token }) app_request refl refl
