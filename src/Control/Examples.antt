-- ===== src/Control/Examples.antt =====
-- Tests of src/control/management.rs: an administrator with a grant to manage identities.
use ops_light_secrets_server.Prelude.{
  ℕ, ◌≡◌, refl, subst, is_some, inl, inr, ◌⊎◌, true, false, none, some, List, [], ◌∷◌, ◌++◌, arith,
}
use ops_light_secrets_server.Prelude.Order.{nat_ord}
use ops_light_secrets_server.Prelude.Text.{text}
use ops_light_secrets_server.Prelude.Result.{ok, err}
use ops_light_secrets_server.Prelude.Action.{◌>>=◌}
use ops_light_secrets_server.BTreeMap.{get, insert, values}
use ops_light_secrets_server.Identity.Capability.{identity_grant_manage, as_u16, holds}
use ops_light_secrets_server.Identity.Request.{management_request, shape_matches}
use ops_light_secrets_server.Identity.Records.{
  IdentityRecord, IdentityStatus, GrantRecord, GrantStatus, human, workload, retired, removed,
  exact, management_mount, identity_valid, new_identity, validate_grant,
}
use ops_light_secrets_server.Identity.Authorize.{authorize}
use ops_light_secrets_server.Control.Commands.{
  ControlCommand, identity_create, command_authorization, command_code,
}
use ops_light_secrets_server.Control.Catalog.{
  ManagementCatalog, ManagementPrincipal, ManagementAudit, control, denied, command_allowed,
  grants_allow, authorize_command, audited, push_audit, completed, succeed, fail_audited,
}
use ops_light_secrets_server.Control.Service.{create_identity, insert_identity, shown_identity}
use ops_light_secrets_server.Control.History.{Sent, Call, run, answered}
use ops_light_secrets_server.Control.Authorization.{Entitled, authorize_command_cases}
use ops_light_secrets_server.Control.Validity.{ManagementOk, run-ManagementOk}
use ops_light_secrets_server.Control.Finality.{retired_final, removed_final, run-trail}

abbrev admin : IdentityRecord
admin = record {
  id = 7;
  name = text "admin";
  kind = human;
  status = IdentityStatus.active;
  generation = 1;
}

abbrev former : IdentityRecord
former = record { id = 9; name = text "former"; kind = workload; status = retired; generation = 2 }

abbrev managing_grant : GrantRecord
managing_grant = record {
  id = 3;
  owner_identity_id = 7;
  generation = 1;
  status = GrantStatus.active;
  mount = management_mount;
  scope = exact;
  prefix_segments = [];
  capabilities = identity_grant_manage ∷ [];
}

abbrev withdrawn : GrantRecord
withdrawn = record {
  id = 4;
  owner_identity_id = 9;
  generation = 2;
  status = removed;
  mount = management_mount;
  scope = exact;
  prefix_segments = [];
  capabilities = identity_grant_manage ∷ [];
}

abbrev start : ManagementCatalog
start = record {
  identities = (7, admin) ∷ (9, former) ∷ [];
  grants = (3, managing_grant) ∷ (4, withdrawn) ∷ [];
  completed_requests = (50, (identity_create, 9)) ∷ [];
  audit = [];
}

abbrev principal : ManagementPrincipal
principal = record {
  identity_id = 7;
  audience = control;
  peer_uid = 1000;
  expected_uid = 1000;
  credential_active = true;
}

abbrev creating : Sent
creating = record {
  principal = principal;
  request_id = 51;
  call = Call.create_identity 12 (text "backup") workload;
}

abbrev history : List Sent
history =
    creating
    ∷ record {
      principal = principal;
      request_id = 52;
      call = Call.disable_identity 12 1 (text "left");
    }
    ∷ []

created :
    get 12 (run (creating ∷ []) start).identities
    ≡ some (record {
      id = 12;
      name = text "backup";
      kind = workload;
      status = IdentityStatus.active;
      generation = 1;
    })
unfolding run answered create_identity insert_identity shown_identity authorize_command
    command_allowed command_authorization command_code grants_allow authorize completed succeed
    fail_audited ◌>>=◌ get insert values new_identity as_u16 management_request shape_matches holds
created = refl

two_rows :
    {V : Type 0} (i j k : ℕ) (v w x : V)
    → get k ((i, v) ∷ (j, w) ∷ []) ≡ some x
    → ((i ≡ k) × (v ≡ x)) ⊎ ((j ≡ k) × (w ≡ x))
unfolding get
two_rows i j k v w x h = ground arith

identity_rows :
    (id : ℕ) (r : IdentityRecord)
    → get id start.identities ≡ some r
    → (r.id ≡ id) × (identity_valid r ≡ true)
unfolding identity_valid
identity_rows id r h = elim (two_rows 7 9 id admin former r h) [
  | inl (e, f) ↦ subst (λ x. (x.id ≡ id) × (identity_valid x ≡ true)) f (e, refl)
  | inr (e, f) ↦ subst (λ x. (x.id ≡ id) × (identity_valid x ≡ true)) f (e, refl)
]

named_rows :
    (i j : ℕ) (r s : IdentityRecord)
    → get i start.identities ≡ some r
    → get j start.identities ≡ some s
    → r.name ≡ s.name
    → i ≡ j
named_rows i j r s h k n =
    ground (arith, two_rows 7 9 i admin former r h, two_rows 7 9 j admin former s k)

grant_rows :
    (id : ℕ) (g : GrantRecord)
    → get id start.grants ≡ some g
    → (g.id ≡ id)
      × (validate_grant g ≡ ok tt)
      × (is_some (get g.owner_identity_id start.identities) ≡ true)
unfolding validate_grant get as_u16
grant_rows id g h = elim (two_rows 3 4 id managing_grant withdrawn g h) [
  | inl (e, f) ↦
      subst
        (λ x.
          (x.id ≡ id)
          × (validate_grant x ≡ ok tt)
          × (is_some (get x.owner_identity_id start.identities) ≡ true))
        f (e, refl, refl)
  | inr (e, f) ↦
      subst
        (λ x.
          (x.id ≡ id)
          × (validate_grant x ≡ ok tt)
          × (is_some (get x.owner_identity_id start.identities) ≡ true))
        f (e, refl, refl)
]

start_ok : ManagementOk start
start_ok = record { identity_at = identity_rows; one_name = named_rows; grant_at = grant_rows }

run-ManagementOk_example : ManagementOk (run history start)
run-ManagementOk_example = run-ManagementOk history start start_ok

former_row : get 9 start.identities ≡ some former
unfolding get
former_row = refl

retired_final_example :
    (get 9 (run history start).identities ≡ some former)
    × ((p : ManagementPrincipal) (command : ControlCommand) (request_id : ℕ)
        → p.identity_id ≡ 9
        → (authorize_command p command request_id (run history start)).0 ≡ err denied)
retired_final_example = retired_final 9 former refl history start former_row

withdrawn_row : get 4 start.grants ≡ some withdrawn
unfolding get
withdrawn_row = refl

removed_final_example : get 4 (run history start).grants ≡ some withdrawn
removed_final_example = removed_final 4 withdrawn history start refl withdrawn_row

run-trail_example :
    (later : List ManagementAudit) × ((run history start).audit ≡ start.audit ++ later)
run-trail_example = run-trail history start

authorize_command_cases_example :
    (Entitled principal identity_create start
      × (authorize_command principal identity_create 51 start ≡ (ok tt, start)))
    ⊎ ((¬ Entitled principal identity_create start)
        × (authorize_command principal identity_create 51 start
            ≡ (err denied, push_audit (audited principal 51 identity_create false none) start)))
authorize_command_cases_example = authorize_command_cases principal identity_create 51 start
