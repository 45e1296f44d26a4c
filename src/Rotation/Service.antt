-- ===== src/Rotation/Service.antt =====
-- src/rotation.rs: the methods of `RotationCatalog` that move a rotation along.
use ops_light_secrets_server.Prelude.{
  ℕ, true, false, ◌||◌, Option, none, some, [], ◌∷◌, ◌++◌, leb, ◌==◌, is_some, unwrap_or,
}
use ops_light_secrets_server.Prelude.Order.{nat_ord}
use ops_light_secrets_server.Prelude.Text.{Text}
use ops_light_secrets_server.Prelude.Action.{◌>>=◌, ◌>>◌, lift, gets, modify, refuse, when}
use ops_light_secrets_server.BTreeMap
use ops_light_secrets_server.Kv.Value.{Map}
use ops_light_secrets_server.Kv.Service.{Json}
use ops_light_secrets_server.Kv.Cutover
use ops_light_secrets_server.Store.Sealed.{Mac}
use ops_light_secrets_server.Control.Commands.{
  ControlCommand, rotation_create, rotation_update, rotation_lifecycle,
}
use ops_light_secrets_server.Control.Catalog.{
  ManagementPrincipal, authorize_command, record_command_success,
}
use ops_light_secrets_server.Rotation.Lifecycle.{
  RotationRecord, RotationLifecycle, endpoint_for, invalid, cas_conflict,
}
use ops_light_secrets_server.Rotation.Lifecycle
use ops_light_secrets_server.Rotation.Catalog.{
  RotationView, RotationSnapshotInput, Rotate, managing, serving, was_completed, put_completed,
  install, show_inner, require_state, validate_snapshot, validate_reason, validate_effective_time,
  ensure_history_room, next, open_rotation, refuse_open, transition,
}

-- What a method does after it installed the record.
unfoldable pub finish :
    Mac → ManagementPrincipal → ℕ → ControlCommand → ℕ → Option Text → Rotate RotationView
finish m principal request_id command id reason = do
  modify (put_completed request_id command id)
  managing (record_command_success principal request_id command id reason)
  show_inner m id

-- The start of the methods that answer a repeated request with the record as it is.
unfoldable pub unless_completed :
    Mac → ManagementPrincipal → ℕ → ControlCommand → ℕ → Rotate RotationView → Rotate RotationView
unless_completed m principal request_id command id rest = do
  managing (authorize_command principal command request_id)
  repeated ← gets (was_completed request_id command id)
  when repeated (show_inner m id) rest

-- A new record for a rotation of the current version.
abbrev pub prepared_record : ℕ → Text → RotationSnapshotInput → ℕ → ℕ → ℕ → RotationRecord
prepared_record id resource snapshot current actor effective_unix_seconds = record {
  id = id;
  resource = resource;
  state = Lifecycle.prepared;
  declared_consumers = snapshot.declared_consumers;
  authorized_identities = snapshot.authorized_identities;
  active_instances = snapshot.active_instances;
  protected_version = current;
  expected_cas = current;
  target_version = none;
  actor_identity_id = actor;
  prepared_unix_seconds = effective_unix_seconds;
  cutover_unix_seconds = none;
  history = transition Lifecycle.prepared effective_unix_seconds current ∷ [];
}

abbrev pub refreshed_record : RotationRecord → RotationSnapshotInput → ℕ → ℕ → RotationRecord
refreshed_record r snapshot current effective_unix_seconds = record r {
  declared_consumers = snapshot.declared_consumers;
  authorized_identities = snapshot.authorized_identities;
  active_instances = snapshot.active_instances;
  protected_version = current;
  expected_cas = current;
  prepared_unix_seconds = effective_unix_seconds;
  history = r.history ++ transition Lifecycle.prepared effective_unix_seconds current ∷ [];
}

abbrev pub cutover_record : RotationRecord → ℕ → ℕ → RotationRecord
cutover_record r version effective_unix_seconds = record r {
  state = Lifecycle.cutover;
  target_version = some version;
  cutover_unix_seconds = some effective_unix_seconds;
  history = r.history ++ transition Lifecycle.cutover effective_unix_seconds version ∷ [];
}

-- A record that ends in a state.
abbrev pub ended_record : RotationRecord → RotationLifecycle → ℕ → ℕ → RotationRecord
ended_record r state version effective_unix_seconds = record r {
  state = state;
  history = r.history ++ transition state effective_unix_seconds version ∷ [];
}

module _ (json : Json) (m : Mac) where
  unfoldable pub begin :
      ManagementPrincipal → ℕ → ℕ → Text → RotationSnapshotInput → ℕ → Rotate RotationView
  begin principal request_id id resource snapshot effective_unix_seconds =
      unless_completed m principal request_id rotation_create id (do
        refuse (id == 0 || effective_unix_seconds == 0) invalid
        taken ← gets (λ w. is_some (BTreeMap.get id w.rotations.rows))
        refuse taken invalid
        open_row ← gets (λ w. open_rotation resource w.rotations.rows)
        lift (refuse_open open_row)
        lift (validate_snapshot snapshot)
        endpoint ← lift (endpoint_for resource)
        current ← serving (Cutover.rotation_snapshot endpoint)
        serving (Cutover.set_rotation_snapshot_protection endpoint current.current_version true)
        install m
            (prepared_record id resource snapshot current.current_version principal.identity_id
              effective_unix_seconds)
            1
        finish m principal request_id rotation_create id none)

  unfoldable pub refresh :
      ManagementPrincipal → ℕ → ℕ → ℕ → RotationSnapshotInput → ℕ → Rotate RotationView
  refresh principal request_id id expected_generation snapshot effective_unix_seconds =
      unless_completed m principal request_id rotation_update id (do
        lift (validate_effective_time effective_unix_seconds)
        lift (validate_snapshot snapshot)
        current ← show_inner m id
        lift (require_state current expected_generation Lifecycle.prepared)
        lift (ensure_history_room current)
        generation ← lift (next expected_generation)
        endpoint ← lift (endpoint_for current.rotation.resource)
        live ← serving (Cutover.rotation_snapshot endpoint)
        serving (Cutover.set_rotation_snapshot_protection endpoint live.current_version true)
        install m
            (refreshed_record current.rotation snapshot live.current_version effective_unix_seconds)
            generation
        finish m principal request_id rotation_update id none)

  unfoldable pub cutover : ManagementPrincipal → ℕ → ℕ → ℕ → Map → ℕ → Rotate RotationView
  cutover principal request_id id expected_generation replacement effective_unix_seconds =
      unless_completed m principal request_id rotation_lifecycle id (do
        lift (validate_effective_time effective_unix_seconds)
        current ← show_inner m id
        lift (require_state current expected_generation Lifecycle.prepared)
        lift (ensure_history_room current)
        generation ← lift (next expected_generation)
        endpoint ← lift (endpoint_for current.rotation.resource)
        written ← serving (
            Cutover.rotation_cutover_write json principal.identity_id endpoint replacement
              current.rotation.expected_cas)
        install m (cutover_record current.rotation written.version effective_unix_seconds)
            generation
        finish m principal request_id rotation_lifecycle id none)

  unfoldable pub cancel : ManagementPrincipal → ℕ → ℕ → ℕ → ℕ → Text → Rotate RotationView
  cancel principal request_id id expected_generation effective_unix_seconds reason =
      unless_completed m principal request_id rotation_lifecycle id (do
        lift (validate_effective_time effective_unix_seconds)
        lift (validate_reason reason)
        current ← show_inner m id
        lift (require_state current expected_generation Lifecycle.prepared)
        lift (ensure_history_room current)
        generation ← lift (next expected_generation)
        endpoint ← lift (endpoint_for current.rotation.resource)
        serving (
            Cutover.set_rotation_snapshot_protection endpoint current.rotation.protected_version
              false)
        install m
            (ended_record current.rotation Lifecycle.cancelled_before_cutover
              current.rotation.expected_cas effective_unix_seconds)
            generation
        finish m principal request_id rotation_lifecycle id (some reason))

  unfoldable pub rollback : ManagementPrincipal → ℕ → ℕ → ℕ → ℕ → Text → Rotate RotationView
  rollback principal request_id id expected_generation effective_unix_seconds reason =
      unless_completed m principal request_id rotation_lifecycle id (do
        lift (validate_effective_time effective_unix_seconds)
        lift (validate_reason reason)
        current ← show_inner m id
        lift (require_state current expected_generation Lifecycle.cutover)
        lift (ensure_history_room current)
        generation ← lift (next expected_generation)
        endpoint ← lift (endpoint_for current.rotation.resource)
        live ← serving (Cutover.rotation_snapshot endpoint)
        written ← serving (
            Cutover.rotation_rollback_copy_forward principal.identity_id endpoint
              live.current_version current.rotation.protected_version)
        serving (
            Cutover.set_rotation_snapshot_protection endpoint current.rotation.protected_version
              false)
        install m
            (ended_record current.rotation Lifecycle.superseded written.version
              effective_unix_seconds)
            generation
        finish m principal request_id rotation_lifecycle id (some reason))

  unfoldable pub supersede_after_plain_write : ℕ → ℕ → ℕ → Rotate RotationView
  supersede_after_plain_write id expected_generation effective_unix_seconds = do
    lift (validate_effective_time effective_unix_seconds)
    current ← show_inner m id
    lift (require_state current expected_generation Lifecycle.cutover)
    lift (ensure_history_room current)
    generation ← lift (next expected_generation)
    endpoint ← lift (endpoint_for current.rotation.resource)
    live ← serving (Cutover.rotation_snapshot endpoint)
    refuse (leb live.current_version (unwrap_or current.rotation.target_version 0)) cas_conflict
    serving
        (Cutover.set_rotation_snapshot_protection endpoint current.rotation.protected_version false)
    install m
        (ended_record current.rotation Lifecycle.superseded live.current_version
          effective_unix_seconds)
        generation
    show_inner m id
