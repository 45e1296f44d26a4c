-- ===== src/Identity/Request.antt =====
-- src/identity.rs: structured authorisation requests and the shape test of a grant.
use ops_light_secrets_server.Prelude.{
  ℕ, ◌≡◌, Bool, true, ◌&&◌, Option, none, some, List, [], arith, is_some, if◌then◌else◌,
}
use ops_light_secrets_server.Prelude.Text.{Text, text_eq, texts_eq, starts_with}
use ops_light_secrets_server.Prelude.Result.{Result, ok, err, ◌>>◌, require, refuse}
use ops_light_secrets_server.RawTarget.{
  Resource, EndpointKind, EndpointRequest, data_kind, metadata, list, delete, undelete, destroy,
}
use ops_light_secrets_server.Identity.Capability.{
  Capability, secret_read_current, secret_read_history, secret_list, secret_write,
  secret_soft_delete, secret_undelete, secret_destroy, secret_destroy_all, is_secret, is_management,
}
use ops_light_secrets_server.Identity.Records.{
  GrantRecord, GrantScope, exact, subtree, IdentityError, cross_plane, invalid_request_shape,
  management_mount,
}

-- `AuthorizationResource` has the two fields of `Resource`, and `From<&Resource>` copies them.
abbrev pub AuthorizationResource : Type 0
AuthorizationResource = Resource

pub data AuthorizationOperation : Type 0 where
  read_current read_history list_op write_op soft_delete_op undelete_op : AuthorizationOperation
  destroy_op destroy_all management_op : AuthorizationOperation

pub data SecretAction : Type 0 where
  read_action metadata_action list_action write_action : SecretAction
  soft_delete_action undelete_action destroy_action : SecretAction

pub record AuthorizationRequest : Type 0 where
  pub resource : AuthorizationResource
  pub operation : AuthorizationOperation
  pub capability : Capability

-- The `match action` of `AuthorizationRequest::secret`, over the endpoint's kind and version.
unfoldable pub secret_shape :
    SecretAction → EndpointKind → Option ℕ → Option (AuthorizationOperation × Capability)
secret_shape read_action data_kind version =
    if is_some version
    then some (read_history, secret_read_history)
    else some (read_current, secret_read_current)
secret_shape list_action list version = some (list_op, secret_list)
secret_shape metadata_action metadata version = some (list_op, secret_list)
secret_shape write_action data_kind version = some (write_op, secret_write)
secret_shape write_action metadata version = some (write_op, secret_write)
secret_shape soft_delete_action delete version = some (soft_delete_op, secret_soft_delete)
secret_shape undelete_action undelete version = some (undelete_op, secret_undelete)
secret_shape destroy_action destroy version = some (destroy_op, secret_destroy)
secret_shape _ _ _ = none

-- `AuthorizationRequest::secret`
unfoldable pub secret_request :
    EndpointRequest → SecretAction → Result IdentityError AuthorizationRequest
unfolding secret_shape
secret_request endpoint action = elim (secret_shape action endpoint.kind endpoint.version) [
  | none ↦ err invalid_request_shape
  | some (operation, capability) ↦
      ok (record { resource = endpoint.resource; operation = operation; capability = capability })
]

-- `AuthorizationRequest::local_destroy_all`
unfoldable pub local_destroy_all : Resource → Result IdentityError AuthorizationRequest
local_destroy_all resource = do
  refuse (text_eq resource.mount management_mount) cross_plane
  ok (record { resource = resource; operation = destroy_all; capability = secret_destroy_all })

-- `AuthorizationRequest::management`
unfoldable pub management_request : Capability → Result IdentityError AuthorizationRequest
unfolding is_management
management_request capability = do
  require (is_management capability) cross_plane
  ok (record {
    resource = record { mount = management_mount; canonical_segments = [] };
    operation = management_op;
    capability = capability;
  })

abbrev pub scope_matches : GrantScope → List Text → List Text → Bool
scope_matches exact prefix segments = texts_eq prefix segments
scope_matches subtree prefix segments = starts_with segments prefix

-- `GrantRecord::shape_matches`
unfoldable pub shape_matches : GrantRecord → AuthorizationResource → Bool
shape_matches g resource =
    text_eq g.mount resource.mount
    && scope_matches g.scope g.prefix_segments resource.canonical_segments

-- A request for a secret asks for a capability of the secret plane.
pub secret_request-is_secret :
    (endpoint : EndpointRequest) (action : SecretAction) (r : AuthorizationRequest)
    → secret_request endpoint action ≡ ok r
    → (is_secret r.capability ≡ true) × (r.resource ≡ endpoint.resource)
unfolding secret_request is_secret
secret_request-is_secret endpoint action r h = ground arith

-- A management request asks for a capability of the management plane, at the management mount.
pub management_request-is_management :
    (c : Capability) (r : AuthorizationRequest)
    → management_request c ≡ ok r
    → (is_management r.capability ≡ true)
      × (r.resource.mount ≡ management_mount)
      × (r.capability ≡ c)
unfolding management_request
management_request-is_management c r h = ground arith
