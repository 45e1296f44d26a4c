-- ===== src/Control/Commands.antt =====
-- src/control/management.rs: the registry of control commands, each with the phase in which it runs and
-- the capability that it needs.
use ops_light_secrets_server.Prelude.{
  ℕ, ◌≡◌, refl, ◌↔◌, ap, Bool, true, false, ◌==◌, ==_iff, Option, none, some, List, [], ◌∷◌, arith,
  get_elem?,
}
use ops_light_secrets_server.Identity.Capability.{Capability, is_management}

pub data CommandPhase : Type 0 where
  server local : CommandPhase

abbrev pub phase_server : CommandPhase → Bool
phase_server server = true
phase_server local = false

pub data ControlCommand : Type 0 where
  identity_create identity_list identity_show identity_disable grant_add : ControlCommand
  grant_remove grant_list authz_explain credential_issue credential_revoke : ControlCommand
  checkpoint_prepare checkpoint_register checkpoint_sign signing_trust_enroll : ControlCommand
  signing_trust_transition backup_create backup_recipient_mutate : ControlCommand
  backup_signature_register backup_abandon backup_receipt_register backup_list : ControlCommand
  backup_show backup_resume audit_export_create audit_export_recipient_mutate : ControlCommand
  audit_export_signature_register audit_export_abandon audit_export_list : ControlCommand
  audit_export_show audit_export_resume tls_reload store_migrate_plan : ControlCommand
  store_migrate_apply store_migrate_abort store_compact_plan store_compact_apply : ControlCommand
  store_compact_abort store_reserve_status store_reserve_release : ControlCommand
  store_reserve_recreate recipient_rewrap consumer_list consumer_show : ControlCommand
  consumer_reconcile consumer_create consumer_update consumer_retire : ControlCommand
  rotation_create rotation_update rotation_retire rotation_lifecycle : ControlCommand
  rotation_catalog rotation_status rotation_due rotation_interval doctor : ControlCommand

-- The place of a command in `ControlCommand::ALL`, by which the derived `PartialEq` tells them apart.
unfoldable pub command_code : ControlCommand → ℕ
command_code identity_create = 0
command_code identity_list = 1
command_code identity_show = 2
command_code identity_disable = 3
command_code grant_add = 4
command_code grant_remove = 5
command_code grant_list = 6
command_code authz_explain = 7
command_code credential_issue = 8
command_code credential_revoke = 9
command_code checkpoint_prepare = 10
command_code checkpoint_register = 11
command_code checkpoint_sign = 12
command_code signing_trust_enroll = 13
command_code signing_trust_transition = 14
command_code backup_create = 15
command_code backup_recipient_mutate = 16
command_code backup_signature_register = 17
command_code backup_abandon = 18
command_code backup_receipt_register = 19
command_code backup_list = 20
command_code backup_show = 21
command_code backup_resume = 22
command_code audit_export_create = 23
command_code audit_export_recipient_mutate = 24
command_code audit_export_signature_register = 25
command_code audit_export_abandon = 26
command_code audit_export_list = 27
command_code audit_export_show = 28
command_code audit_export_resume = 29
command_code tls_reload = 30
command_code store_migrate_plan = 31
command_code store_migrate_apply = 32
command_code store_migrate_abort = 33
command_code store_compact_plan = 34
command_code store_compact_apply = 35
command_code store_compact_abort = 36
command_code store_reserve_status = 37
command_code store_reserve_release = 38
command_code store_reserve_recreate = 39
command_code recipient_rewrap = 40
command_code consumer_list = 41
command_code consumer_show = 42
command_code consumer_reconcile = 43
command_code consumer_create = 44
command_code consumer_update = 45
command_code consumer_retire = 46
command_code rotation_create = 47
command_code rotation_update = 48
command_code rotation_retire = 49
command_code rotation_lifecycle = 50
command_code rotation_catalog = 51
command_code rotation_status = 52
command_code rotation_due = 53
command_code rotation_interval = 54
command_code doctor = 55

abbrev pub all_commands : List ControlCommand
all_commands =
    identity_create ∷ identity_list ∷ identity_show ∷ identity_disable ∷ grant_add ∷ grant_remove
    ∷ grant_list ∷ authz_explain ∷ credential_issue ∷ credential_revoke ∷ checkpoint_prepare
    ∷ checkpoint_register ∷ checkpoint_sign ∷ signing_trust_enroll ∷ signing_trust_transition
    ∷ backup_create ∷ backup_recipient_mutate ∷ backup_signature_register ∷ backup_abandon
    ∷ backup_receipt_register ∷ backup_list ∷ backup_show ∷ backup_resume ∷ audit_export_create
    ∷ audit_export_recipient_mutate ∷ audit_export_signature_register ∷ audit_export_abandon
    ∷ audit_export_list ∷ audit_export_show ∷ audit_export_resume ∷ tls_reload ∷ store_migrate_plan
    ∷ store_migrate_apply ∷ store_migrate_abort ∷ store_compact_plan ∷ store_compact_apply
    ∷ store_compact_abort ∷ store_reserve_status ∷ store_reserve_release ∷ store_reserve_recreate
    ∷ recipient_rewrap ∷ consumer_list ∷ consumer_show ∷ consumer_reconcile ∷ consumer_create
    ∷ consumer_update ∷ consumer_retire ∷ rotation_create ∷ rotation_update ∷ rotation_retire
    ∷ rotation_lifecycle ∷ rotation_catalog ∷ rotation_status ∷ rotation_due ∷ rotation_interval
    ∷ doctor ∷ []

unfoldable pub command_eq : ControlCommand → ControlCommand → Bool
unfolding command_code
command_eq a b = command_code a == command_code b

unfoldable pub command_authorization : ControlCommand → CommandPhase × Option Capability
command_authorization identity_create = (server, some Capability.identity_grant_manage)
command_authorization identity_list = (server, some Capability.identity_grant_manage)
command_authorization identity_show = (server, some Capability.identity_grant_manage)
command_authorization identity_disable = (server, some Capability.identity_grant_manage)
command_authorization grant_add = (server, some Capability.identity_grant_manage)
command_authorization grant_remove = (server, some Capability.identity_grant_manage)
command_authorization grant_list = (server, some Capability.identity_grant_manage)
command_authorization authz_explain = (server, some Capability.diagnostics)
command_authorization credential_issue = (server, some Capability.credential_issue)
command_authorization credential_revoke = (server, some Capability.credential_revoke)
command_authorization checkpoint_prepare = (server, some Capability.audit_checkpoint_manage)
command_authorization checkpoint_register = (server, some Capability.audit_checkpoint_manage)
command_authorization checkpoint_sign = (local, none)
command_authorization signing_trust_enroll = (server, some Capability.audit_checkpoint_manage)
command_authorization signing_trust_transition = (server, some Capability.audit_checkpoint_manage)
command_authorization backup_create = (server, some Capability.backup)
command_authorization backup_recipient_mutate = (server, some Capability.backup_recipient_manage)
command_authorization backup_signature_register = (server, some Capability.backup)
command_authorization backup_abandon = (server, some Capability.backup)
command_authorization backup_receipt_register = (server, some Capability.backup)
command_authorization backup_list = (server, some Capability.backup)
command_authorization backup_show = (server, some Capability.backup)
command_authorization backup_resume = (server, some Capability.backup)
command_authorization audit_export_create = (server, some Capability.audit_export)
command_authorization audit_export_recipient_mutate =
    (server, some Capability.audit_export_recipient_manage)
command_authorization audit_export_signature_register = (server, some Capability.audit_export)
command_authorization audit_export_abandon = (server, some Capability.audit_export)
command_authorization audit_export_list = (server, some Capability.audit_export)
command_authorization audit_export_show = (server, some Capability.audit_export)
command_authorization audit_export_resume = (server, some Capability.audit_export)
command_authorization tls_reload = (server, some Capability.transport_manage)
command_authorization store_migrate_plan = (server, some Capability.diagnostics)
command_authorization store_migrate_apply = (server, some Capability.store_maintenance)
command_authorization store_migrate_abort = (server, some Capability.store_maintenance)
command_authorization store_compact_plan = (server, some Capability.diagnostics)
command_authorization store_compact_apply = (server, some Capability.store_maintenance)
command_authorization store_compact_abort = (server, some Capability.store_maintenance)
command_authorization store_reserve_status = (server, some Capability.store_maintenance)
command_authorization store_reserve_release = (server, some Capability.store_maintenance)
command_authorization store_reserve_recreate = (server, some Capability.store_maintenance)
command_authorization recipient_rewrap = (server, some Capability.key_rotation)
command_authorization consumer_list = (server, some Capability.consumer_enumerate)
command_authorization consumer_show = (server, some Capability.consumer_enumerate)
command_authorization consumer_reconcile = (server, some Capability.consumer_enumerate)
command_authorization consumer_create = (server, some Capability.rotation_manage)
command_authorization consumer_update = (server, some Capability.rotation_manage)
command_authorization consumer_retire = (server, some Capability.rotation_manage)
command_authorization rotation_create = (server, some Capability.rotation_manage)
command_authorization rotation_update = (server, some Capability.rotation_manage)
command_authorization rotation_retire = (server, some Capability.rotation_manage)
command_authorization rotation_lifecycle = (server, some Capability.rotation_manage)
command_authorization rotation_catalog = (server, some Capability.rotation_manage)
command_authorization rotation_status = (server, some Capability.rotation_manage)
command_authorization rotation_due = (server, some Capability.rotation_manage)
command_authorization rotation_interval = (server, some Capability.rotation_manage)
command_authorization doctor = (server, some Capability.diagnostics)

command-of_code : (c : ControlCommand) → get_elem? all_commands (command_code c) ≡ some c
unfolding command_code
command-of_code identity_create = refl
command-of_code _ = refl

command_code-injective : (a b : ControlCommand) → command_code a ≡ command_code b → a ≡ b
command_code-injective a b h = cc (h, command-of_code a, command-of_code b)

pub command_eq_iff : (a b : ControlCommand) → (command_eq a b ≡ true) ↔ (a ≡ b)
unfolding command_eq
command_eq_iff a b =
    (λ h. command_code-injective a b ((==_iff _ _).0 h), λ e. (==_iff _ _).1 (ap command_code e))

-- Each command that the server runs needs a capability of the management plane, so the request for it
-- can be made.
pub command_authorization-is_management :
    (command : ControlCommand) (capability : Capability)
    → (command_authorization command).1 ≡ some capability
    → is_management capability ≡ true
unfolding command_authorization is_management
command_authorization-is_management identity_create capability h = ground arith
command_authorization-is_management _ capability h = ground arith
