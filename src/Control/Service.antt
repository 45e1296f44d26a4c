-- ===== src/Control/Service.antt =====
-- src/control/management.rs: the commands on identities and grants.
use ops_light_secrets_server.Prelude.{
  ℕ, Bool, true, false, not, ◌&&◌, ◌||◌, Option, none, some, List, [], ◌∷◌, ◌==◌, is_some, length,
  any, select, unwrap_or, if◌then◌else◌,
}
use ops_light_secrets_server.Prelude.Order.{nat_ord}
use ops_light_secrets_server.Prelude.Text.{Text, text_eq, texts_eq}
use ops_light_secrets_server.Prelude.Result.{Result, ok, err, map_err, ok_or}
use ops_light_secrets_server.Prelude.Action.{◌>>=◌, ◌>>◌, pure, lift, gets, modify, some_or, when}
use ops_light_secrets_server.BTreeMap
use ops_light_secrets_server.BTreeMap.{BTreeMap}
use ops_light_secrets_server.Identity.Capability.{Capability, capability_eq}
use ops_light_secrets_server.Identity.Records.{
  IdentityRecord, IdentityKind, IdentityError, GrantRecord, GrantScope, identity_active,
  grant_active, scope_exact, new_identity, retire, validate_grant,
}
use ops_light_secrets_server.Identity.Records
use ops_light_secrets_server.Kv.Purge.{reason_refused}
use ops_light_secrets_server.Control.Commands.{
  ControlCommand, identity_create, identity_list, identity_show, identity_disable, grant_add,
  grant_remove, grant_list,
}
use ops_light_secrets_server.Control.Catalog.{
  Manage, ManagementCatalog, ManagementPrincipal, ManagementError, authorize_command, completed,
  succeed, fail_audited, invalid, conflict, not_found, stale_generation,
}
use ops_light_secrets_server.Control.Views.{
  IdentityView, GrantView, Page, identity_view, grant_view, page,
}

abbrev pub put_identity : ℕ → IdentityRecord → ManagementCatalog → ManagementCatalog
put_identity id identity c = record c { identities = BTreeMap.insert id identity c.identities }

abbrev pub put_grant : ℕ → GrantRecord → ManagementCatalog → ManagementCatalog
put_grant id grant c = record c { grants = BTreeMap.insert id grant c.grants }

-- `self.identities.get(&id).map(IdentityView::from).ok_or(error)`
unfoldable pub shown_identity : ℕ → ManagementError → Manage IdentityView
shown_identity id error = do
  identities ← gets (λ c. c.identities)
  identity ← some_or (BTreeMap.get id identities) error
  pure (identity_view identity)

unfoldable pub shown_grant : ℕ → ManagementError → Manage GrantView
shown_grant id error = do
  grants ← gets (λ c. c.grants)
  grant ← some_or (BTreeMap.get id grants) error
  pure (grant_view grant)

abbrev pub identity_taken : ℕ → Text → BTreeMap ℕ IdentityRecord → Bool
identity_taken id name identities =
    id == 0
    || is_some (BTreeMap.get id identities)
    || any (λ identity. text_eq identity.name name) (BTreeMap.values identities)

-- The part of `create_identity` after its early returns.
unfoldable pub insert_identity :
    ManagementPrincipal → ℕ → ℕ → Text → IdentityKind → Manage IdentityView
insert_identity principal request_id id name kind = do
  identity ← lift (map_err (λ _. invalid) (new_identity id name kind))
  modify (put_identity id identity)
  succeed principal request_id identity_create id none
  shown_identity id not_found

unfoldable pub create_identity :
    ManagementPrincipal → ℕ → ℕ → Text → IdentityKind → Manage IdentityView
create_identity principal request_id id name kind = do
  authorize_command principal identity_create request_id
  repeated ← completed request_id identity_create id
  taken ← gets (λ c. identity_taken id name c.identities)
  when repeated (shown_identity id conflict) (
      when taken (fail_audited principal request_id identity_create conflict)
        (insert_identity principal request_id id name kind))

pub record DisableResult : Type 0 where
  pub identity : IdentityView
  pub affected_grant_count : ℕ
  pub affected_credential_count : ℕ

abbrev pub active_grants_of : ℕ → BTreeMap ℕ GrantRecord → List GrantRecord
active_grants_of id grants =
    select (λ g. g.owner_identity_id == id && grant_active g.status) (BTreeMap.values grants)

unfoldable pub disable_result : ℕ → ManagementError → Manage DisableResult
disable_result id error = do
  c ← gets (λ c. c)
  identity ← some_or (BTreeMap.get id c.identities) error
  pure (record {
    identity = identity_view identity;
    affected_grant_count = length (active_grants_of identity.id c.grants);
    affected_credential_count = 0;
  })

-- A replacement, or the failure that is audited.
unfoldable pub replacement_or_fail :
    {R : Type 0}
    → ManagementPrincipal
    → ℕ
    → ControlCommand
    → Option (Result IdentityError R)
    → Manage R
replacement_or_fail principal request_id command none =
    fail_audited principal request_id command not_found
replacement_or_fail principal request_id command (some (err e)) =
    fail_audited principal request_id command stale_generation
replacement_or_fail principal request_id command (some (ok replacement)) = pure replacement

abbrev pub map_option : {A B : Type 0} → (A → B) → Option A → Option B
map_option f none = none
map_option f (some a) = some (f a)

unfoldable pub retire_identity : ManagementPrincipal → ℕ → ℕ → ℕ → Text → Manage DisableResult
retire_identity principal request_id id expected_generation reason = do
  found ← gets (λ c. BTreeMap.get id c.identities)
  replacement ←
      replacement_or_fail principal request_id identity_disable
        (map_option (λ identity. retire identity expected_generation) found)
  modify (put_identity id replacement)
  succeed principal request_id identity_disable id (some reason)
  disable_result id not_found

unfoldable pub disable_identity : ManagementPrincipal → ℕ → ℕ → ℕ → Text → Manage DisableResult
disable_identity principal request_id id expected_generation reason = do
  authorize_command principal identity_disable request_id
  when (reason_refused reason) (fail_audited principal request_id identity_disable invalid) (do
    repeated ← completed request_id identity_disable id
    when repeated (disable_result id conflict)
        (retire_identity principal request_id id expected_generation reason))

abbrev pub capabilities_eq : List Capability → List Capability → Bool
capabilities_eq [] [] = true
capabilities_eq (a ∷ as') (b ∷ bs) = capability_eq a b && capabilities_eq as' bs
capabilities_eq _ _ = false

abbrev pub scope_eq : GrantScope → GrantScope → Bool
scope_eq a b = if scope_exact a then scope_exact b else not (scope_exact b)

-- The test of `add_grant` for an active grant of the same content.
unfoldable pub same_grant : GrantRecord → GrantRecord → Bool
same_grant grant current =
    grant_active current.status
    && current.owner_identity_id == grant.owner_identity_id
    && text_eq current.mount grant.mount
    && scope_eq current.scope grant.scope
    && texts_eq current.prefix_segments grant.prefix_segments
    && capabilities_eq current.capabilities grant.capabilities

abbrev pub grant_taken : GrantRecord → ManagementCatalog → Bool
grant_taken grant c =
    not (is_some (BTreeMap.get grant.owner_identity_id c.identities))
    || is_some (BTreeMap.get grant.id c.grants)
    || any (same_grant grant) (BTreeMap.values c.grants)

abbrev pub is_err {ℓ κ} : {E : Type ℓ} {A : Type κ} → Result E A → Bool
is_err (ok a) = false
is_err (err e) = true

unfoldable pub insert_grant : ManagementPrincipal → ℕ → GrantRecord → Manage GrantView
insert_grant principal request_id grant =
    when (is_err (validate_grant grant)) (fail_audited principal request_id grant_add invalid) (do
      modify (put_grant grant.id grant)
      succeed principal request_id grant_add grant.id none
      shown_grant grant.id not_found)

unfoldable pub add_grant : ManagementPrincipal → ℕ → GrantRecord → Manage GrantView
add_grant principal request_id grant = do
  authorize_command principal grant_add request_id
  repeated ← completed request_id grant_add grant.id
  taken ← gets (grant_taken grant)
  when repeated (shown_grant grant.id conflict) (
      when taken (fail_audited principal request_id grant_add conflict)
        (insert_grant principal request_id grant))

unfoldable pub retire_grant : ManagementPrincipal → ℕ → ℕ → ℕ → Text → Manage GrantView
retire_grant principal request_id id expected_generation reason = do
  found ← gets (λ c. BTreeMap.get id c.grants)
  replacement ← replacement_or_fail principal request_id grant_remove (
      map_option
        (λ current. Records.remove_grant current current.owner_identity_id expected_generation)
        found)
  modify (put_grant id replacement)
  succeed principal request_id grant_remove id (some reason)
  shown_grant id not_found

unfoldable pub remove_grant : ManagementPrincipal → ℕ → ℕ → ℕ → Text → Manage GrantView
remove_grant principal request_id id expected_generation reason = do
  authorize_command principal grant_remove request_id
  when (reason_refused reason) (fail_audited principal request_id grant_remove invalid) (do
    repeated ← completed request_id grant_remove id
    when repeated (shown_grant id conflict)
        (retire_grant principal request_id id expected_generation reason))

-- The end of the commands that only look.
unfoldable pub answer :
    {V : Type 0}
    → ManagementPrincipal
    → ℕ
    → ControlCommand
    → ℕ
    → Result ManagementError V
    → Manage V
answer principal request_id command target (err error) =
    fail_audited principal request_id command error
answer principal request_id command target (ok value) = do
  succeed principal request_id command target none
  pure value

unfoldable pub list_identities : ManagementPrincipal → ℕ → Option ℕ → ℕ → Manage (Page IdentityView)
list_identities principal request_id cursor count = do
  authorize_command principal identity_list request_id
  identities ← gets (λ c. c.identities)
  answer principal request_id identity_list (unwrap_or cursor 0)
      (page identities cursor count identity_view)

unfoldable pub show_identity : ManagementPrincipal → ℕ → ℕ → Manage IdentityView
show_identity principal request_id id = do
  authorize_command principal identity_show request_id
  identities ← gets (λ c. c.identities)
  answer principal request_id identity_show id
      (ok_or (map_option identity_view (BTreeMap.get id identities)) not_found)

unfoldable pub list_grants : ManagementPrincipal → ℕ → ℕ → Option ℕ → ℕ → Manage (Page GrantView)
list_grants principal request_id owner cursor count = do
  authorize_command principal grant_list request_id
  grants ← gets (λ c. c.grants)
  answer principal request_id grant_list owner
      (page (select (λ row. row.1.owner_identity_id == owner) grants) cursor count grant_view)
