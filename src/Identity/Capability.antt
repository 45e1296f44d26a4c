-- ===== src/Identity/Capability.antt =====
-- src/identity.rs: the closed registry of capabilities and its two planes.
use ops_light_secrets_server.Prelude.{
  ℕ, ◌≡◌, refl, ap, ◌↔◌, Bool, true, not, Option, some, List, [], ◌∷◌, arith, ltb, ◌==◌, ==_iff,
  some, any, all, find,
}

pub data Capability : Type 0 where
  secret_read_current secret_read_history secret_list secret_write : Capability
  secret_soft_delete secret_undelete secret_destroy secret_destroy_all : Capability
  identity_grant_manage credential_issue credential_revoke rotation_manage : Capability
  consumer_enumerate audit_read audit_export audit_export_recipient_manage : Capability
  audit_checkpoint_manage backup backup_recipient_manage key_rotation : Capability
  store_maintenance transport_manage diagnostics : Capability

-- `self as u16`: the declared discriminants.
unfoldable pub as_u16 : Capability → ℕ
as_u16 secret_read_current = 1
as_u16 secret_read_history = 2
as_u16 secret_list = 3
as_u16 secret_write = 4
as_u16 secret_soft_delete = 5
as_u16 secret_undelete = 6
as_u16 secret_destroy = 7
as_u16 secret_destroy_all = 8
as_u16 identity_grant_manage = 101
as_u16 credential_issue = 102
as_u16 credential_revoke = 103
as_u16 rotation_manage = 104
as_u16 consumer_enumerate = 105
as_u16 audit_read = 106
as_u16 audit_export = 107
as_u16 audit_export_recipient_manage = 108
as_u16 audit_checkpoint_manage = 109
as_u16 backup = 110
as_u16 backup_recipient_manage = 111
as_u16 key_rotation = 112
as_u16 store_maintenance = 113
as_u16 transport_manage = 114
as_u16 diagnostics = 115

abbrev pub all_capabilities : List Capability
all_capabilities =
    secret_read_current ∷ secret_read_history ∷ secret_list ∷ secret_write ∷ secret_soft_delete
    ∷ secret_undelete ∷ secret_destroy ∷ secret_destroy_all ∷ identity_grant_manage
    ∷ credential_issue ∷ credential_revoke ∷ rotation_manage ∷ consumer_enumerate ∷ audit_read
    ∷ audit_export ∷ audit_export_recipient_manage ∷ audit_checkpoint_manage ∷ backup
    ∷ backup_recipient_manage ∷ key_rotation ∷ store_maintenance ∷ transport_manage ∷ diagnostics
    ∷ []

unfoldable pub is_secret : Capability → Bool
unfolding as_u16
is_secret c = ltb (as_u16 c) 100

unfoldable pub is_management : Capability → Bool
unfolding is_secret
is_management c = not (is_secret c)

-- `Capability::decode`, with `None` for `CodecError::Invalid`.
unfoldable pub decode_capability : ℕ → Option Capability
unfolding as_u16
decode_capability value = find (λ c. as_u16 c == value) all_capabilities

-- The derived `PartialEq`.
unfoldable pub capability_eq : Capability → Capability → Bool
unfolding as_u16
capability_eq a b = as_u16 a == as_u16 b

-- `capabilities.contains(&c)`.
unfoldable pub holds : List Capability → Capability → Bool
unfolding capability_eq
holds cs c = any (λ held. capability_eq held c) cs

-- Decoding reads back the code of every capability.
pub decode_capability-as_u16 : (c : Capability) → decode_capability (as_u16 c) ≡ some c
unfolding decode_capability
decode_capability-as_u16 secret_read_current = refl
decode_capability-as_u16 _ = refl

pub as_u16-injective : (a b : Capability) → as_u16 a ≡ as_u16 b → a ≡ b
as_u16-injective a b h = cc (h, decode_capability-as_u16 a, decode_capability-as_u16 b)

pub capability_eq_iff : (a b : Capability) → (capability_eq a b ≡ true) ↔ (a ≡ b)
unfolding capability_eq
capability_eq_iff a b =
    (λ h. as_u16-injective a b ((==_iff _ _).0 h), λ e. (==_iff _ _).1 (ap as_u16 e))

-- A capability that a list of one plane holds is of that plane.
pub all-holds :
    (p : Capability → Bool) (cs : List Capability) (c : Capability)
    → all p cs ≡ true
    → holds cs c ≡ true
    → p c ≡ true
unfolding holds
all-holds p [] c h k = ground arith
all-holds p (x ∷ xs) c h k = ground (arith, capability_eq_iff x c, all-holds p xs c)
