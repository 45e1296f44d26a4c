-- ===== src/Control/Catalog.antt =====
-- src/control/management.rs: `ManagementCatalog`, its authorisation of a command and the record it
-- keeps of the requests that were completed.
use ops_light_secrets_server.Prelude.{
  ℕ, Bool, true, false, ◌&&◌, Option, none, some, List, [], ◌∷◌, ◌++◌, ◌==◌, if◌then◌else◌,
}
use ops_light_secrets_server.Prelude.Order.{nat_ord}
use ops_light_secrets_server.Prelude.Text.{Text}
use ops_light_secrets_server.Prelude.Result.{Result, ok, err}
use ops_light_secrets_server.Prelude.Action.{
  Action, ◌>>=◌, ◌>>◌, pure, fail, lift, gets, modify, when,
}
use ops_light_secrets_server.BTreeMap
use ops_light_secrets_server.BTreeMap.{BTreeMap}
use ops_light_secrets_server.Identity.Capability.{Capability}
use ops_light_secrets_server.Identity.Records.{IdentityRecord, GrantRecord, identity_active}
use ops_light_secrets_server.Identity.Request.{management_request}
use ops_light_secrets_server.Identity.Authorize.{authorize}
use ops_light_secrets_server.Identity.Token.{owned_grants}
use ops_light_secrets_server.Control.Commands.{
  phase_server, ControlCommand, command_eq, command_authorization,
}

-- src/credential.rs.
pub data CredentialAudience : Type 0 where
  control data_plane : CredentialAudience

abbrev pub audience_control : CredentialAudience → Bool
audience_control control = true
audience_control data_plane = false

pub record ManagementPrincipal : Type 0 where
  pub identity_id : ℕ
  pub audience : CredentialAudience
  pub peer_uid : ℕ
  pub expected_uid : ℕ
  pub credential_active : Bool

pub data ManagementError : Type 0 where
  denied invalid conflict not_found stale_generation limit : ManagementError

pub record ManagementAudit : Type 0 where
  pub request_id : ℕ
  pub actor_identity_id : ℕ
  pub command : ControlCommand
  pub allowed : Bool
  pub reason : Option Text

pub record ManagementCatalog : Type 0 where
  pub identities : BTreeMap ℕ IdentityRecord
  pub grants : BTreeMap ℕ GrantRecord
  pub completed_requests : BTreeMap ℕ (ControlCommand × ℕ)
  pub audit : List ManagementAudit

abbrev pub Manage : Type 0 → Type 0
Manage A = Action ManagementCatalog ManagementError A

abbrev pub push_audit : ManagementAudit → ManagementCatalog → ManagementCatalog
push_audit event c = record c { audit = c.audit ++ event ∷ [] }

abbrev pub entry_active : Option IdentityRecord → Bool
entry_active none = false
entry_active (some identity) = identity_active identity.status

-- `AuthorizationRequest::management(capability).expect(…)`: the registry has management capabilities
-- only, so the other case does not arise.
unfoldable pub grants_allow : ManagementCatalog → ℕ → Capability → Bool
grants_allow c identity_id capability = elim (management_request capability) [
  | err e ↦ false
  | ok request ↦ (authorize request (owned_grants identity_id (BTreeMap.values c.grants))).allow
]

abbrev pub capability_allowed : ManagementCatalog → ℕ → Option Capability → Bool
capability_allowed c identity_id none = false
capability_allowed c identity_id (some capability) = grants_allow c identity_id capability

-- What the two tests of a principal have in common.
abbrev pub principal_active : ManagementCatalog → ManagementPrincipal → Bool
principal_active c principal =
    audience_control principal.audience
    && principal.peer_uid == principal.expected_uid
    && principal.credential_active
    && entry_active (BTreeMap.get principal.identity_id c.identities)

unfoldable pub principal_has_capability :
    ManagementPrincipal → Capability → ManagementCatalog → Bool
principal_has_capability principal capability c =
    principal_active c principal && grants_allow c principal.identity_id capability

-- The `allowed` of `authorize_command`.
unfoldable pub command_allowed : ManagementPrincipal → ControlCommand → ManagementCatalog → Bool
command_allowed principal command c =
    let mapping = command_authorization command in
    phase_server mapping.0
    && principal_active c principal
    && capability_allowed c principal.identity_id mapping.1

abbrev pub audited : ManagementPrincipal → ℕ → ControlCommand → Bool → Option Text → ManagementAudit
audited principal request_id command allowed reason = record {
  request_id = request_id;
  actor_identity_id = principal.identity_id;
  command = command;
  allowed = allowed;
  reason = reason;
}

unfoldable pub authorize_command : ManagementPrincipal → ControlCommand → ℕ → Manage (Unit {0})
authorize_command principal command request_id = do
  allowed ← gets (command_allowed principal command)
  when allowed (pure tt)
      (do modify (push_audit (audited principal request_id command false none)); fail denied)

abbrev pub same_request : ControlCommand × ℕ → ControlCommand → ℕ → Bool
same_request previous command target = command_eq previous.0 command && previous.1 == target

abbrev pub completed_as :
    Option (ControlCommand × ℕ) → ControlCommand → ℕ → Result ManagementError Bool
completed_as none command target = ok false
completed_as (some previous) command target =
    if same_request previous command target then ok true else err conflict

unfoldable pub completed : ℕ → ControlCommand → ℕ → Manage Bool
completed request_id command target = do
  requests ← gets (λ c. c.completed_requests)
  lift (completed_as (BTreeMap.get request_id requests) command target)

abbrev pub succeeded :
    ManagementPrincipal
    → ℕ
    → ControlCommand
    → ℕ
    → Option Text
    → ManagementCatalog
    → ManagementCatalog
succeeded principal request_id command target reason c = record c {
  completed_requests = BTreeMap.insert request_id (command, target) c.completed_requests;
  audit = c.audit ++ audited principal request_id command true reason ∷ [];
}

unfoldable pub succeed :
    ManagementPrincipal → ℕ → ControlCommand → ℕ → Option Text → Manage (Unit {0})
succeed principal request_id command target reason =
    modify (succeeded principal request_id command target reason)

-- `self.fail`
unfoldable pub fail_audited :
    {A : Type 0} → ManagementPrincipal → ℕ → ControlCommand → ManagementError → Manage A
fail_audited principal request_id command error = do
  modify (push_audit (audited principal request_id command true none))
  fail error

unfoldable pub record_command_success :
    ManagementPrincipal → ℕ → ControlCommand → ℕ → Option Text → Manage (Unit {0})
record_command_success principal request_id command target reason = do
  repeated ← completed request_id command target
  when repeated (pure tt) (succeed principal request_id command target reason)
