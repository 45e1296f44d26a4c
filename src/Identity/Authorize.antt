-- ===== src/Identity/Authorize.antt =====
-- src/identity.rs: `authorize`, the one decision over a request and the grants of an identity.
use ops_light_secrets_server.Prelude.{
  ℕ, Bool, true, false, Option, none, some, List, find, select, is_empty,
}
use ops_light_secrets_server.Prelude.Text.{text_eq}
use ops_light_secrets_server.Identity.Capability.{holds}
use ops_light_secrets_server.Identity.Records.{GrantRecord, grant_active}
use ops_light_secrets_server.Identity.Request.{
  AuthorizationRequest, AuthorizationResource, AuthorizationOperation, shape_matches,
}

pub data DenyReason : Type 0 where
  no_grant_for_mount prefix_boundary_miss missing_capability : DenyReason

pub record AuthorizationDecision : Type 0 where
  pub allow : Bool
  pub resource : AuthorizationResource
  pub operation : AuthorizationOperation
  pub matched_grant : Option ℕ
  pub deny_reason : Option DenyReason

abbrev pub applicable : List GrantRecord → List GrantRecord
applicable grants = select (λ g. grant_active g.status) grants

abbrev pub same_mount : AuthorizationRequest → List GrantRecord → List GrantRecord
same_mount r grants = select (λ g. text_eq g.mount r.resource.mount) (applicable grants)

abbrev pub matching : AuthorizationRequest → List GrantRecord → List GrantRecord
matching r grants = select (λ g. shape_matches g r.resource) (same_mount r grants)

abbrev pub matched : AuthorizationRequest → List GrantRecord → Option GrantRecord
matched r grants = find (λ g. holds g.capabilities r.capability) (matching r grants)

-- The `match matched`: whether a grant was found, and which of the two lists is empty.
unfoldable pub verdict : Option GrantRecord → Bool → Bool → Bool × Option ℕ × Option DenyReason
verdict (some grant) _ _ = (true, some grant.id, none)
verdict none true _ = (false, none, some no_grant_for_mount)
verdict none false true = (false, none, some prefix_boundary_miss)
verdict none false false = (false, none, some missing_capability)

unfoldable pub authorize : AuthorizationRequest → List GrantRecord → AuthorizationDecision
unfolding verdict
authorize r grants =
    let v =
      verdict (matched r grants) (is_empty (same_mount r grants)) (is_empty (matching r grants)) in
    record {
      allow = v.0;
      resource = r.resource;
      operation = r.operation;
      matched_grant = v.1;
      deny_reason = v.2;
    }
