-- ===== src/Control/Effects.antt =====
-- src/control/management.rs: each command makes one step.
use ops_light_secrets_server.Prelude.{ℕ, ◌≡◌, refl, inl, inr, false, Option, none, some, Bool-cases}
use ops_light_secrets_server.Prelude.Order.{nat_ord}
use ops_light_secrets_server.Prelude.Text.{Text}
use ops_light_secrets_server.Prelude.Result.{Result, ok, err}
use ops_light_secrets_server.Prelude.Action.{◌>>=◌, modify}
use ops_light_secrets_server.Prelude.Leads.{
  gets_leads, lift_leads, some_or_leads, modify_leads, when_leads, pure_leads,
}
use ops_light_secrets_server.Identity.Records.{
  IdentityRecord, IdentityKind, IdentityError, GrantRecord,
}
use ops_light_secrets_server.Control.Commands.{
  ControlCommand, identity_create, identity_disable, identity_list, identity_show, grant_add,
  grant_remove, grant_list,
}
use ops_light_secrets_server.Control.Catalog.{
  Manage, ManagementCatalog, ManagementPrincipal, ManagementError, command_allowed,
  authorize_command, succeed, fail_audited, record_command_success,
}
use ops_light_secrets_server.Control.Service.{
  identity_taken, grant_taken, create_identity, insert_identity, shown_identity, shown_grant,
  disable_identity, retire_identity, disable_result, replacement_or_fail, add_grant, insert_grant,
  retire_grant, map_option, is_err, answer, list_identities, show_identity, list_grants,
}
use ops_light_secrets_server.Control.Service
use ops_light_secrets_server.Identity.Request.{AuthorizationRequest}
use ops_light_secrets_server.Control.Commands.{authz_explain}
use ops_light_secrets_server.Control.Explain.{explain, explain_found}
use ops_light_secrets_server.Control.Steps.{
  Step, no_change, identity_added, identity_retired, grant_added, grant_removed, unchanged,
  authorized, failed, map_err-ok, not_err, completed_leads,
}

module _ (c d : ManagementCatalog) (s : Step c d) where
  shown_identity-Step : (id : ℕ) (error : ManagementError) → Step c (shown_identity id error d).1
  unfolding shown_identity
  shown_identity-Step id error =
      gets_leads (Step c) _ _ d
        (some_or_leads (Step c) _ _ _ d s (λ r e. pure_leads _ (Step c) _ d s))

  shown_grant-Step : (id : ℕ) (error : ManagementError) → Step c (shown_grant id error d).1
  unfolding shown_grant
  shown_grant-Step id error =
      gets_leads (Step c) _ _ d
        (some_or_leads (Step c) _ _ _ d s (λ r e. pure_leads _ (Step c) _ d s))

  disable_result-Step : (id : ℕ) (error : ManagementError) → Step c (disable_result id error d).1
  unfolding disable_result
  disable_result-Step id error =
      gets_leads (Step c) _ _ d
        (some_or_leads (Step c) _ _ _ d s (λ r e. pure_leads _ (Step c) _ d s))

module _ (principal : ManagementPrincipal) (request_id : ℕ) (c : ManagementCatalog) where
  insert_identity-Step :
      (id : ℕ) (name : Text) (kind : IdentityKind)
      → identity_taken id name c.identities ≡ false
      → Step c (insert_identity principal request_id id name kind c).1
  unfolding insert_identity succeed
  insert_identity-Step id name kind free = lift_leads (Step c) _ _ c (unchanged c) (λ r e.
      modify_leads (Step c) _ _ c (
        modify_leads (Step c) _ _ _ (
          shown_identity-Step c _
            (record {
              change = identity_added id name kind r free (map_err-ok _ _ e) refl refl;
              events = _;
              logged = refl;
            })
            id _)))

  pub create_identity-Step :
      (id : ℕ) (name : Text) (kind : IdentityKind)
      → Step c (create_identity principal request_id id name kind c).1
  unfolding create_identity
  create_identity-Step id name kind = authorized principal request_id identity_create _ c (
      completed_leads request_id identity_create id _ c (λ repeated. gets_leads (Step c) _ _ c (
        when_leads (Step c) repeated _ _ c (λ h. shown_identity-Step c c (unchanged c) id _)
          (λ h.
            when_leads (Step c) _ _ _ c (λ t. failed _ principal request_id _ _ c)
              (λ t. insert_identity-Step id name kind t)))))

  -- What a replacement goes through: the old row was there.
  replacement_leads :
      {R B : Type 0} (command : ControlCommand) (found : Option R)
      (change : R → Result IdentityError R) (rest : R → Manage B)
      → ((old new : R) → found ≡ some old → change old ≡ ok new → Step c (rest new c).1)
      → Step c
          ((replacement_or_fail principal request_id command (map_option change found) >>= rest)
            c).1
  unfolding replacement_or_fail ◌>>=◌ fail_audited
  replacement_leads command none change rest k = record {
    change = no_change refl refl;
    events = _;
    logged = refl;
  }
  replacement_leads {R} {B} command (some old) change rest k = go (change old) (k old)
    where
      go :
          (r : Result IdentityError R)
          → ((new : R) → some old ≡ some old → r ≡ ok new → Step c (rest new c).1)
          → Step c ((replacement_or_fail principal request_id command (some r) >>= rest) c).1
      go (err e) k = record { change = no_change refl refl; events = _; logged = refl }
      go (ok new) k = k new refl refl

  retire_identity-Step :
      (id expected_generation : ℕ) (reason : Text)
      → Step c (retire_identity principal request_id id expected_generation reason c).1
  unfolding retire_identity succeed
  retire_identity-Step id expected_generation reason = gets_leads (Step c) _ _ c (
      replacement_leads _ _ _ _ (λ old r e f. modify_leads (Step c) _ _ c (
        modify_leads (Step c) _ _ _ (
          disable_result-Step c _
            (record {
              change = identity_retired id expected_generation old r e f refl refl;
              events = _;
              logged = refl;
            })
            id _))))

  pub disable_identity-Step :
      (id expected_generation : ℕ) (reason : Text)
      → Step c (disable_identity principal request_id id expected_generation reason c).1
  unfolding disable_identity
  disable_identity-Step id expected_generation reason =
      authorized principal request_id identity_disable _ c (
        when_leads (Step c) _ _ _ c (λ h. failed _ principal request_id _ _ c)
          (λ h. completed_leads request_id identity_disable id _ c (λ repeated.
            when_leads (Step c) _ _ _ c (λ t. disable_result-Step c c (unchanged c) id _)
              (λ t. retire_identity-Step id expected_generation reason))))

  insert_grant-Step :
      (g : GrantRecord) → grant_taken g c ≡ false → Step c (insert_grant principal request_id g c).1
  unfolding insert_grant succeed
  insert_grant-Step g free =
      when_leads (Step c) _ _ _ c (λ h. failed _ principal request_id _ _ c)
        (λ h. modify_leads (Step c) _ _ c (
          modify_leads (Step c) _ _ _ (
            shown_grant-Step c _
              (record {
                change = grant_added g free (not_err _ h) refl refl;
                events = _;
                logged = refl;
              })
              g.id _)))

  pub add_grant-Step : (g : GrantRecord) → Step c (add_grant principal request_id g c).1
  unfolding add_grant
  add_grant-Step g = authorized principal request_id grant_add _ c (
      completed_leads request_id grant_add g.id _ c (λ repeated. gets_leads (Step c) _ _ c (
        when_leads (Step c) repeated _ _ c (λ h. shown_grant-Step c c (unchanged c) g.id _)
          (λ h.
            when_leads (Step c) _ _ _ c (λ t. failed _ principal request_id _ _ c)
              (λ t. insert_grant-Step g t)))))

  retire_grant-Step :
      (id expected_generation : ℕ) (reason : Text)
      → Step c (retire_grant principal request_id id expected_generation reason c).1
  unfolding retire_grant succeed
  retire_grant-Step id expected_generation reason = gets_leads (Step c) _ _ c (
      replacement_leads _ _ _ _ (λ old g e f. modify_leads (Step c) _ _ c (
        modify_leads (Step c) _ _ _ (
          shown_grant-Step c _
            (record {
              change = grant_removed id expected_generation old g e f refl refl;
              events = _;
              logged = refl;
            })
            id _))))

  pub remove_grant-Step :
      (id expected_generation : ℕ) (reason : Text)
      → Step c (Service.remove_grant principal request_id id expected_generation reason c).1
  unfolding Service.remove_grant
  remove_grant-Step id expected_generation reason =
      authorized principal request_id grant_remove _ c (
        when_leads (Step c) _ _ _ c (λ h. failed _ principal request_id _ _ c)
          (λ h. completed_leads request_id grant_remove id _ c (λ repeated.
            when_leads (Step c) _ _ _ c (λ t. shown_grant-Step c c (unchanged c) id _)
              (λ t. retire_grant-Step id expected_generation reason))))

  answer-Step :
      {V : Type 0} (command : ControlCommand) (target : ℕ) (r : Result ManagementError V)
      → Step c (answer principal request_id command target r c).1
  unfolding answer succeed
  answer-Step command target (err e) = failed _ principal request_id command e c
  answer-Step command target (ok v) = modify_leads (Step c) _ _ c (
      pure_leads _ (Step c) v _
        (record { change = no_change refl refl; events = _; logged = refl }))

  pub list_identities-Step :
      (cursor : Option ℕ) (count : ℕ)
      → Step c (list_identities principal request_id cursor count c).1
  unfolding list_identities
  list_identities-Step cursor count =
      authorized principal request_id identity_list _ c
        (gets_leads (Step c) _ _ c (answer-Step _ _ _))

  pub show_identity-Step : (id : ℕ) → Step c (show_identity principal request_id id c).1
  unfolding show_identity
  show_identity-Step id =
      authorized principal request_id identity_show _ c
        (gets_leads (Step c) _ _ c (answer-Step _ _ _))

  pub list_grants-Step :
      (owner : ℕ) (cursor : Option ℕ) (count : ℕ)
      → Step c (list_grants principal request_id owner cursor count c).1
  unfolding list_grants
  list_grants-Step owner cursor count =
      authorized principal request_id grant_list _ c (gets_leads (Step c) _ _ c (answer-Step _ _ _))

  explain_found-Step :
      (identity_id : ℕ) (request : AuthorizationRequest) (found : Option IdentityRecord)
      → Step c (explain_found principal request_id identity_id request found c).1
  unfolding explain_found succeed
  explain_found-Step identity_id request none = failed _ principal request_id _ _ c
  explain_found-Step identity_id request (some identity) = gets_leads (Step c) _ _ c (
      modify_leads (Step c) _ _ c (
        pure_leads _ (Step c) _ _
          (record { change = no_change refl refl; events = _; logged = refl })))

  pub explain-Step :
      (identity_id : ℕ) (request : AuthorizationRequest)
      → Step c (explain principal request_id identity_id request c).1
  unfolding explain
  explain-Step identity_id request =
      authorized principal request_id authz_explain _ c
        (gets_leads (Step c) _ _ c (explain_found-Step identity_id request _))

  pub authorize_command-Step :
      (command : ControlCommand) → Step c (authorize_command principal command request_id c).1
  unfolding authorize_command ◌>>=◌
  authorize_command-Step command = elim (Bool-cases (command_allowed principal command c)) [
    | inl allowed ↦ rw allowed (unchanged c)
    | inr refused ↦ rw refused (record { change = no_change refl refl; events = _; logged = refl })
  ]

  succeed-Step :
      (command : ControlCommand) (target : ℕ) (reason : Option Text)
      → Step c (succeed principal request_id command target reason c).1
  unfolding succeed modify
  succeed-Step command target reason = record {
    change = no_change refl refl;
    events = _;
    logged = refl;
  }

  pub record_command_success-Step :
      (command : ControlCommand) (target : ℕ) (reason : Option Text)
      → Step c (record_command_success principal request_id command target reason c).1
  unfolding record_command_success
  record_command_success-Step command target reason =
      completed_leads request_id command target _ c (λ repeated.
        when_leads (Step c) repeated _ _ c (λ h. pure_leads _ (Step c) tt c (unchanged c))
          (λ h. succeed-Step command target reason))
