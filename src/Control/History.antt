-- ===== src/Control/History.antt =====
-- src/control/management.rs: the commands that reach a catalog, in whatever order.
use ops_light_secrets_server.Prelude.{ℕ, Option, List, [], ◌∷◌}
use ops_light_secrets_server.Prelude.Text.{Text}
use ops_light_secrets_server.Identity.Records.{IdentityKind, GrantRecord}
use ops_light_secrets_server.Identity.Request.{AuthorizationRequest}
use ops_light_secrets_server.Control.Commands.{ControlCommand}
use ops_light_secrets_server.Control.Catalog.{ManagementCatalog, ManagementPrincipal}
use ops_light_secrets_server.Control.Catalog
use ops_light_secrets_server.Control.Service
use ops_light_secrets_server.Control.Explain
use ops_light_secrets_server.Control.Steps.{Step}
use ops_light_secrets_server.Control.Effects.{
  create_identity-Step, disable_identity-Step, add_grant-Step, remove_grant-Step,
  list_identities-Step, show_identity-Step, list_grants-Step, explain-Step, authorize_command-Step,
  record_command_success-Step,
}

-- A method of `ManagementCatalog` with its arguments.
pub data Call : Type 0 where
  authorize_command : ControlCommand → Call
  record_command_success : ControlCommand → ℕ → Option Text → Call
  create_identity : ℕ → Text → IdentityKind → Call
  disable_identity : ℕ → ℕ → Text → Call
  add_grant : GrantRecord → Call
  remove_grant : ℕ → ℕ → Text → Call
  list_identities : Option ℕ → ℕ → Call
  show_identity : ℕ → Call
  list_grants : ℕ → Option ℕ → ℕ → Call
  explain : ℕ → AuthorizationRequest → Call

-- A call comes from a principal, under the id of its request.
pub record Sent : Type 0 where
  pub principal : ManagementPrincipal
  pub request_id : ℕ
  pub call : Call

unfoldable pub answered : ManagementPrincipal → ℕ → Call → ManagementCatalog → ManagementCatalog
answered p request_id (Call.authorize_command command) c =
    (Catalog.authorize_command p command request_id c).1
answered p request_id (Call.record_command_success command target reason) c =
    (Catalog.record_command_success p request_id command target reason c).1
answered p request_id (Call.create_identity id name kind) c =
    (Service.create_identity p request_id id name kind c).1
answered p request_id (Call.disable_identity id expected_generation reason) c =
    (Service.disable_identity p request_id id expected_generation reason c).1
answered p request_id (Call.add_grant grant) c = (Service.add_grant p request_id grant c).1
answered p request_id (Call.remove_grant id expected_generation reason) c =
    (Service.remove_grant p request_id id expected_generation reason c).1
answered p request_id (Call.list_identities cursor count) c =
    (Service.list_identities p request_id cursor count c).1
answered p request_id (Call.show_identity id) c = (Service.show_identity p request_id id c).1
answered p request_id (Call.list_grants owner cursor count) c =
    (Service.list_grants p request_id owner cursor count c).1
answered p request_id (Call.explain identity_id request) c =
    (Explain.explain p request_id identity_id request c).1

unfoldable pub run : List Sent → ManagementCatalog → ManagementCatalog
run [] c = c
run (sent ∷ rest) c = run rest (answered sent.principal sent.request_id sent.call c)

pub answered-Step :
    (p : ManagementPrincipal) (request_id : ℕ) (call : Call) (c : ManagementCatalog)
    → Step c (answered p request_id call c)
unfolding answered
answered-Step p request_id (Call.authorize_command command) c =
    authorize_command-Step p request_id c command
answered-Step p request_id (Call.record_command_success command target reason) c =
    record_command_success-Step p request_id c command target reason
answered-Step p request_id (Call.create_identity id name kind) c =
    create_identity-Step p request_id c id name kind
answered-Step p request_id (Call.disable_identity id expected_generation reason) c =
    disable_identity-Step p request_id c id expected_generation reason
answered-Step p request_id (Call.add_grant grant) c = add_grant-Step p request_id c grant
answered-Step p request_id (Call.remove_grant id expected_generation reason) c =
    remove_grant-Step p request_id c id expected_generation reason
answered-Step p request_id (Call.list_identities cursor count) c =
    list_identities-Step p request_id c cursor count
answered-Step p request_id (Call.show_identity id) c = show_identity-Step p request_id c id
answered-Step p request_id (Call.list_grants owner cursor count) c =
    list_grants-Step p request_id c owner cursor count
answered-Step p request_id (Call.explain identity_id request) c =
    explain-Step p request_id c identity_id request

-- What every step keeps, every history keeps.
pub run_keeps :
    (P : ManagementCatalog → Type 0)
    → ((c d : ManagementCatalog) → Step c d → P c → P d)
    → (history : List Sent) (c : ManagementCatalog) → P c
    → P (run history c)
unfolding run
run_keeps P keep [] c h = h
run_keeps P keep (sent ∷ rest) c h =
    run_keeps P keep rest _ (keep c _ (answered-Step sent.principal sent.request_id sent.call c) h)
