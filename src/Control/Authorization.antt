-- ===== src/Control/Authorization.antt =====
-- src/control/management.rs: `authorize_command` against a description of who may run a command.
use mathlib.Core.List.{Memᴰ}
use ops_light_secrets_server.Prelude.{
  ℕ, ◌≡◌, refl, sym, ap, ◌∙◌, inl, inr, ◌⊎◌, true, false, none, some, [], arith, ◌==◌, ==_iff,
  Bool-cases, Option-cases,
}
use ops_light_secrets_server.Prelude.Order.{nat_ord}
use ops_light_secrets_server.Prelude.Search.{mem-select, select-mem}
use ops_light_secrets_server.Prelude.Result.{ok, err}
use ops_light_secrets_server.Prelude.Action.{◌>>=◌}
use ops_light_secrets_server.BTreeMap.{get, values}
use ops_light_secrets_server.Identity.Capability.{Capability, is_management}
use ops_light_secrets_server.Identity.Records.{
  IdentityRecord, GrantRecord, IdentityStatus, management_mount,
}
use ops_light_secrets_server.Identity.Request.{
  AuthorizationRequest, management_request, management_op,
}
use ops_light_secrets_server.Identity.Authorize.{authorize}
use ops_light_secrets_server.Identity.Grants.{Permits, authorize_sound, authorize_complete}
use ops_light_secrets_server.Identity.Token.{owned_grants}
use ops_light_secrets_server.Control.Commands.{
  ControlCommand, server, command_authorization, command_authorization-is_management,
}
use ops_light_secrets_server.Control.Catalog.{
  ManagementCatalog, ManagementPrincipal, control, denied, audited, push_audit, command_allowed,
  grants_allow, authorize_command, entry_active,
}

-- The request that a command makes for a capability.
abbrev pub asked : Capability → AuthorizationRequest
asked capability = record {
  resource = record { mount = management_mount; canonical_segments = [] };
  operation = management_op;
  capability = capability;
}

-- Who may run a command on the server: a live credential for the control plane, from the expected user,
-- of an active identity that owns a grant which permits the capability that the command needs.
pub record Entitled (p : ManagementPrincipal) (command : ControlCommand) (c : ManagementCatalog)
    : Type 0 where
  pub phase : (command_authorization command).0 ≡ server
  pub capability : Capability
  pub needs : (command_authorization command).1 ≡ some capability
  pub audience : p.audience ≡ control
  pub same_user : p.peer_uid ≡ p.expected_uid
  pub live : p.credential_active ≡ true
  pub identity : IdentityRecord
  pub found : get p.identity_id c.identities ≡ some identity
  pub is_active : identity.status ≡ IdentityStatus.active
  pub grant : GrantRecord
  pub stored : Memᴰ grant (values c.grants)
  pub owned : grant.owner_identity_id ≡ p.identity_id
  pub permits : Permits (asked capability) grant

management_request-asked :
    (capability : Capability)
    → is_management capability ≡ true
    → management_request capability ≡ ok (asked capability)
unfolding management_request
management_request-asked capability h = ground arith

grants_allow-asked :
    (c : ManagementCatalog) (id : ℕ) (capability : Capability)
    → is_management capability ≡ true
    → grants_allow c id capability
      ≡ (authorize (asked capability) (owned_grants id (values c.grants))).allow
unfolding grants_allow
grants_allow-asked c id capability h = rw (management_request-asked capability h, grants_allow) refl

pub allowed-Entitled :
    (p : ManagementPrincipal) (command : ControlCommand) (c : ManagementCatalog)
    → command_allowed p command c ≡ true
    → Entitled p command c
unfolding command_allowed
allowed-Entitled p command c h = elim (Option-cases (command_authorization command).1) [
  | inl none_ ↦ absurd (ground (arith, none_))
  | inr (capability, needs) ↦ elim (Option-cases (get p.identity_id c.identities)) [
    | inl missing ↦ absurd (ground (arith, missing))
    | inr (identity, found) ↦
        let has : grants_allow c p.identity_id capability ≡ true = ground (arith, needs) in
        let asks =
          grants_allow-asked c p.identity_id capability
            (command_authorization-is_management command capability needs) in
        let (grant, m, permits, _) = authorize_sound (asked capability) _ (sym asks ∙ has) in
        let (stored, mine) = mem-select _ (values c.grants) grant m in
        record {
          phase = ground arith;
          capability = capability;
          needs = needs;
          audience = ground arith;
          same_user = ground arith;
          live = ground arith;
          identity = identity;
          found = found;
          is_active = ground (arith, found);
          grant = grant;
          stored = stored;
          owned = (==_iff _ _).0 mine;
          permits = permits;
        }
  ]
]

Entitled-allowed :
    (p : ManagementPrincipal) (command : ControlCommand) (c : ManagementCatalog)
    → Entitled p command c
    → command_allowed p command c ≡ true
unfolding command_allowed
Entitled-allowed p command c h =
    let asks =
      grants_allow-asked c p.identity_id h.capability
        (command_authorization-is_management command h.capability h.needs) in
    let mine =
      select-mem (λ g. g.owner_identity_id == p.identity_id) (values c.grants) h.grant h.stored
        ((==_iff _ _).1 h.owned) in
    let has : grants_allow c p.identity_id h.capability ≡ true =
      asks ∙ authorize_complete (asked h.capability) _ h.grant mine h.permits in
    rw (h.phase, h.needs, has, h.found, h.is_active, h.live, h.audience, h.same_user) (ground arith)

-- A command that is not allowed is denied, and the denial is in the audit trail.
pub refused-denied :
    (p : ManagementPrincipal) (command : ControlCommand) (request_id : ℕ) (c : ManagementCatalog)
    → command_allowed p command c ≡ false
    → authorize_command p command request_id c
      ≡ (err denied, push_audit (audited p request_id command false none) c)
unfolding authorize_command ◌>>=◌
refused-denied p command request_id c h = rw h refl

-- A command goes on, with nothing changed, exactly when the principal is entitled to it; otherwise it
-- is denied, and all that changes is an event of the denial in the audit trail.
pub authorize_command_cases :
    (p : ManagementPrincipal) (command : ControlCommand) (request_id : ℕ) (c : ManagementCatalog)
    → (Entitled p command c × (authorize_command p command request_id c ≡ (ok tt, c)))
      ⊎ ((¬ Entitled p command c)
          × (authorize_command p command request_id c
              ≡ (err denied, push_audit (audited p request_id command false none) c)))
unfolding authorize_command ◌>>=◌
authorize_command_cases p command request_id c = elim (Bool-cases (command_allowed p command c)) [
  | inl yes_ ↦ inl (allowed-Entitled p command c yes_, rw yes_ refl)
  | inr no_ ↦ inr (
    (λ h. ground (arith, no_, Entitled-allowed p command c h)),
    refused-denied p command request_id c no_,
  )
]

-- A principal whose identity is not active is denied.
pub inactive-denied :
    (p : ManagementPrincipal) (command : ControlCommand) (request_id : ℕ) (c : ManagementCatalog)
    → entry_active (get p.identity_id c.identities) ≡ false
    → (authorize_command p command request_id c).0 ≡ err denied
unfolding command_allowed
inactive-denied p command request_id c h =
    ap (λ x. x.0) (refused-denied p command request_id c (ground (arith, h)))
