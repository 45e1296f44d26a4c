-- ===== src/Control/Steps.antt =====
-- src/control/management.rs: what each command does to the catalog, as a step relation.
use mathlib.Core.List.{append-nil}
use ops_light_secrets_server.Prelude.{
  ℕ, ◌≡◌, refl, sym, subst, inl, inr, Bool, false, some, List, [], ◌++◌, arith, Bool-cases,
}
use ops_light_secrets_server.Prelude.Order.{nat_ord}
use ops_light_secrets_server.Prelude.Text.{Text}
use ops_light_secrets_server.Prelude.Result.{Result, ok, err, map_err}
use ops_light_secrets_server.Prelude.Action.{◌>>=◌}
use ops_light_secrets_server.Prelude.Leads.{bind_leads}
use ops_light_secrets_server.BTreeMap.{get, insert}
use ops_light_secrets_server.Identity.Records.{
  IdentityRecord, IdentityKind, IdentityError, GrantRecord, new_identity, retire, validate_grant,
}
use ops_light_secrets_server.Control.Commands.{ControlCommand}
use ops_light_secrets_server.Control.Catalog.{
  Manage, ManagementCatalog, ManagementPrincipal, ManagementAudit, ManagementError, command_allowed,
  authorize_command, completed, fail_audited,
}
use ops_light_secrets_server.Control.Service.{identity_taken, grant_taken, is_err}
use ops_light_secrets_server.Identity.Records

-- A change of the rows, with what its command had found.
pub data Change (c d : ManagementCatalog) : Type 0 where
  no_change : d.identities ≡ c.identities → d.grants ≡ c.grants → Change c d
  identity_added :
      (id : ℕ) (name : Text) (kind : IdentityKind) (r : IdentityRecord)
      → identity_taken id name c.identities ≡ false
      → new_identity id name kind ≡ ok r
      → d.identities ≡ insert id r c.identities
      → d.grants ≡ c.grants
      → Change c d
  identity_retired :
      (id generation : ℕ) (old r : IdentityRecord)
      → get id c.identities ≡ some old
      → retire old generation ≡ ok r
      → d.identities ≡ insert id r c.identities
      → d.grants ≡ c.grants
      → Change c d
  grant_added :
      (g : GrantRecord)
      → grant_taken g c ≡ false
      → validate_grant g ≡ ok tt
      → d.identities ≡ c.identities
      → d.grants ≡ insert g.id g c.grants
      → Change c d
  grant_removed :
      (id generation : ℕ) (old g : GrantRecord)
      → get id c.grants ≡ some old
      → Records.remove_grant old old.owner_identity_id generation ≡ ok g
      → d.identities ≡ c.identities
      → d.grants ≡ insert id g c.grants
      → Change c d

-- One command: a change of the rows, and events after those of the trail.
pub record Step (c d : ManagementCatalog) : Type 0 where
  pub change : Change c d
  pub events : List ManagementAudit
  pub logged : d.audit ≡ c.audit ++ events

pub unchanged : (c : ManagementCatalog) → Step c c
unchanged c = record {
  change = no_change refl refl;
  events = [];
  logged = sym (append-nil c.audit);
}

-- A command that is not allowed leaves an event, and one that is goes on.
pub authorized :
    {A : Type 0} (principal : ManagementPrincipal) (request_id : ℕ) (command : ControlCommand)
    (rest : Unit {0} → Manage A) (c : ManagementCatalog)
    → Step c (rest tt c).1
    → Step c ((authorize_command principal command request_id >>= rest) c).1
unfolding authorize_command ◌>>=◌
authorized principal request_id command rest c s =
    elim (Bool-cases (command_allowed principal command c)) [
      | inl allowed ↦ rw allowed s
      | inr refused ↦
          rw refused (record { change = no_change refl refl; events = _; logged = refl })
    ]

pub failed :
    (A : Type 0) (principal : ManagementPrincipal) (request_id : ℕ) (command : ControlCommand)
    (error : ManagementError) (c : ManagementCatalog)
    → Step c (fail_audited {A = A} principal request_id command error c).1
unfolding fail_audited ◌>>=◌
failed A principal request_id command error c = record {
  change = no_change refl refl;
  events = _;
  logged = refl;
}

completed-state :
    (request_id : ℕ) (command : ControlCommand) (target : ℕ) (c : ManagementCatalog)
    → (completed request_id command target c).1 ≡ c
unfolding completed ◌>>=◌
completed-state request_id command target c = refl

pub map_err-ok :
    (e : ManagementError) (r : Result IdentityError IdentityRecord) {a : IdentityRecord}
    → map_err (λ _. e) r ≡ ok a
    → r ≡ ok a
map_err-ok e (ok b) h = ground arith
map_err-ok e (err b) h = ground arith

pub not_err : (r : Result IdentityError (Unit {0})) → is_err r ≡ false → r ≡ ok tt
not_err (ok tt) h = refl
not_err (err e) h = ground arith

-- A request that was completed before is answered or refused, with nothing changed.
pub completed_leads :
    {A : Type 0} (request_id : ℕ) (command : ControlCommand) (target : ℕ) (rest : Bool → Manage A)
    (c : ManagementCatalog)
    → ((repeated : Bool) → Step c (rest repeated c).1)
    → Step c ((completed request_id command target >>= rest) c).1
completed_leads request_id command target rest c k =
    let still = completed-state request_id command target c in
    bind_leads (Step c) (completed request_id command target) rest c
      (subst (Step c) (sym still) (unchanged c))
      (λ b e. subst (λ d. Step c (rest b d).1) (sym still) (k b))
