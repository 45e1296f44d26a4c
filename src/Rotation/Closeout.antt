-- ===== src/Rotation/Closeout.antt =====
-- src/rotation.rs: the method that closes a rotation.
use ops_light_secrets_server.Prelude.{
  ℕ, Bool, true, false, not, ◌&&◌, ◌||◌, Option, none, some, List, [], ◌∷◌, leb, ◌==◌, is_empty,
  select, if◌then◌else◌,
}
use ops_light_secrets_server.Prelude.Text.{Text, text}
use ops_light_secrets_server.Prelude.Action.{
  ◌>>=◌, ◌>>◌, pure, lift, gets, modify, some_or, refuse, when,
}
use ops_light_secrets_server.Store.Sealed.{Mac}
use ops_light_secrets_server.Control.Commands.{rotation_lifecycle}
use ops_light_secrets_server.Control.Catalog.{
  ManagementPrincipal, authorize_command, record_command_success,
}
use ops_light_secrets_server.Rotation.Lifecycle.{
  RotationRecord, RotationLifecycle, RotationError, rotation_record, invalid, conflict, limit,
  integrity, lifecycle_eq,
}
use ops_light_secrets_server.Rotation.Lifecycle
use ops_light_secrets_server.Rotation.Catalog.{
  Rotate, managing, was_completed, put_completed, install, show_inner, require_state,
  validate_effective_time, ensure_history_room, next,
}
use ops_light_secrets_server.Rotation.Service.{ended_record}
use ops_light_secrets_server.Rotation.Reads.{
  AdoptionMember, AdoptionClass, on_current, retired_without_proof, class_eq,
}

-- `str::trim` leaves nothing: each character is white space, here in its UTF-8 bytes.
unfoldable pub blank : Text → Bool
blank [] = true
blank (a ∷ []) = (leb 9 a && leb a 13) || a == 0x20
blank (a ∷ b ∷ []) =
    if (leb 9 a && leb a 13) || a == 0x20
    then (leb 9 b && leb b 13) || b == 0x20
    else a == 0xc2 && (b == 0x85 || b == 0xa0)
blank (a ∷ b ∷ c ∷ rest) =
    let after_one = blank (b ∷ c ∷ rest) in
    let after_two = blank (c ∷ rest) in
    let after_three = blank rest in
    if (leb 9 a && leb a 13) || a == 0x20
    then after_one
    else if a == 0xc2 && (b == 0x85 || b == 0xa0)
    then after_two
    else ((a == 0xe1 && b == 0x9a && c == 0x80)
        || (a == 0xe2
            && b == 0x80
            && ((leb 0x80 c && leb c 0x8a) || c == 0xa8 || c == 0xa9 || c == 0xaf))
        || (a == 0xe2 && b == 0x81 && c == 0x9f)
        || (a == 0xe3 && b == 0x80 && c == 0x80))
      && after_three

pub record RotationCloseoutReport : Type 0 where
  pub rotation_id : ℕ
  pub state : RotationLifecycle
  pub acknowledged_unverified : Bool
  pub warnings : List Text

abbrev pub report : ℕ → Bool → List Text → RotationCloseoutReport
report id acknowledged warnings = record {
  rotation_id = id;
  state = Lifecycle.completed;
  acknowledged_unverified = acknowledged;
  warnings = warnings;
}

abbrev pub settled : AdoptionClass → Bool
settled class = class_eq class on_current || class_eq class retired_without_proof

unfoldable pub unresolved : List AdoptionMember → List AdoptionMember
unresolved members = select (λ member. not (settled member.class)) members

abbrev pub reason_blank : Option Text → Bool
reason_blank none = true
reason_blank (some reason) = blank reason

-- The guard of the adoption: what is unresolved must be acknowledged, with a reason.
unfoldable pub adoption_refused : List AdoptionMember → Bool → Option Text → Bool
adoption_refused members acknowledged reason =
    not (is_empty (unresolved members)) && (not acknowledged || reason_blank reason)

abbrev pub closeout_warnings : Bool → List Text
closeout_warnings true = text "acknowledge-unverified" ∷ []
closeout_warnings false = []

module _ (m : Mac) where
  -- `complete` after its early answer to a repeated request.
  unfoldable pub close :
      ManagementPrincipal
      → ℕ
      → ℕ
      → ℕ
      → ℕ
      → List AdoptionMember
      → Bool
      → Option Text
      → ℕ
      → Rotate RotationCloseoutReport
  close principal request_id id expected_generation current_version members acknowledged reason
        effective_unix_seconds =
      do
        lift (validate_effective_time effective_unix_seconds)
        current ← show_inner m id
        lift (require_state current expected_generation Lifecycle.cutover)
        lift (ensure_history_room current)
        target ← some_or current.rotation.target_version invalid
        refuse (not (current_version == target)) (conflict current.rotation.state)
        refuse (adoption_refused members acknowledged reason) invalid
        generation ← lift (next expected_generation)
        install m (ended_record current.rotation Lifecycle.completed target effective_unix_seconds)
            generation
        modify (put_completed request_id rotation_lifecycle id)
        managing (record_command_success principal request_id rotation_lifecycle id none)
        pure (report id acknowledged (closeout_warnings acknowledged))

  unfoldable pub complete :
      ManagementPrincipal
      → ℕ
      → ℕ
      → ℕ
      → ℕ
      → List AdoptionMember
      → Bool
      → Option Text
      → ℕ
      → Rotate RotationCloseoutReport
  complete principal request_id id expected_generation current_version members acknowledged reason
        effective_unix_seconds =
      do
        managing (authorize_command principal rotation_lifecycle request_id)
        repeated ← gets (was_completed request_id rotation_lifecycle id)
        when repeated (pure (report id acknowledged [])) (
            close principal request_id id expected_generation current_version members acknowledged
              reason effective_unix_seconds)
