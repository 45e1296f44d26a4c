-- ===== src/Control/Explain.antt =====
-- src/control/management.rs: `explain`, the decision on a request with its reason.
use ops_light_secrets_server.Prelude.{ℕ, Bool, true, false, Option, none, some, List}
use ops_light_secrets_server.Prelude.Order.{nat_ord}
use ops_light_secrets_server.Prelude.Text.{Text, text}
use ops_light_secrets_server.Prelude.Action.{◌>>=◌, ◌>>◌, pure, gets}
use ops_light_secrets_server.BTreeMap
use ops_light_secrets_server.Identity.Records.{IdentityRecord, identity_active}
use ops_light_secrets_server.Identity.Request.{
  AuthorizationRequest, AuthorizationOperation, read_current, read_history, list_op, write_op,
  soft_delete_op, undelete_op, destroy_op, destroy_all, management_op,
}
use ops_light_secrets_server.Identity.Authorize.{
  AuthorizationDecision, DenyReason, authorize, no_grant_for_mount, prefix_boundary_miss,
  missing_capability,
}
use ops_light_secrets_server.Identity.Token.{owned_grants}
use ops_light_secrets_server.Control.Commands.{authz_explain}
use ops_light_secrets_server.Control.Catalog.{
  Manage, ManagementPrincipal, ManagementCatalog, authorize_command, succeed, fail_audited,
  not_found,
}
use ops_light_secrets_server.Control.Views.{encode_id, management_output_schema}
use ops_light_secrets_server.Control.Service.{map_option}

pub record ExplainView : Type 0 where
  pub schema : ℕ
  pub allow : Bool
  pub resource_mount : Text
  pub resource_segments : List Text
  pub operation : Text
  pub matched_grant : Option Text
  pub deny_reason : Option Text

abbrev pub operation_label : AuthorizationOperation → Text
operation_label read_current = text "read-current"
operation_label read_history = text "read-history"
operation_label list_op = text "list"
operation_label write_op = text "write"
operation_label soft_delete_op = text "soft-delete"
operation_label undelete_op = text "undelete"
operation_label destroy_op = text "destroy"
operation_label destroy_all = text "destroy-all"
operation_label management_op = text "management"

abbrev pub reason_label : DenyReason → Text
reason_label no_grant_for_mount = text "no-grant-for-mount"
reason_label prefix_boundary_miss = text "prefix-boundary-miss"
reason_label missing_capability = text "missing-capability"

abbrev pub explain_view : AuthorizationDecision → ExplainView
explain_view decision = record {
  schema = management_output_schema;
  allow = decision.allow;
  resource_mount = decision.resource.mount;
  resource_segments = decision.resource.canonical_segments;
  operation = operation_label decision.operation;
  matched_grant = map_option encode_id decision.matched_grant;
  deny_reason = map_option reason_label decision.deny_reason;
}

-- The decision on an identity that is there.
unfoldable pub explained :
    ManagementCatalog → ℕ → IdentityRecord → AuthorizationRequest → AuthorizationDecision
explained c identity_id identity request = elim (identity_active identity.status) [
  | true ↦ authorize request (owned_grants identity_id (BTreeMap.values c.grants))
  | false ↦ record {
    allow = false;
    resource = request.resource;
    operation = request.operation;
    matched_grant = none;
    deny_reason = some no_grant_for_mount;
  }
]

unfoldable pub explain_found :
    ManagementPrincipal → ℕ → ℕ → AuthorizationRequest → Option IdentityRecord → Manage ExplainView
explain_found principal request_id identity_id request none =
    fail_audited principal request_id authz_explain not_found
explain_found principal request_id identity_id request (some identity) = do
  decision ← gets (λ c. explained c identity_id identity request)
  succeed principal request_id authz_explain identity_id none
  pure (explain_view decision)

unfoldable pub explain : ManagementPrincipal → ℕ → ℕ → AuthorizationRequest → Manage ExplainView
explain principal request_id identity_id request = do
  authorize_command principal authz_explain request_id
  found ← gets (λ c. BTreeMap.get identity_id c.identities)
  explain_found principal request_id identity_id request found
