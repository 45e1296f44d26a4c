-- ===== src/Rotation/Examples.antt =====
-- Tests of src/rotation.rs: a rotation of a secret that is prepared, cut over and closed.
mod Closing
use mathlib.Core.List.{Memᴰ}
use ops_light_secrets_server.Prelude.{
  ℕ, ◌≡◌, ◌≢◌, ◌≤◌, ◌%◌, refl, ◌⊎◌, true, false, Option, none, some, List, [], ◌∷◌, length, arith,
}
use ops_light_secrets_server.Prelude.Order.{nat_ord, list_ord}
use ops_light_secrets_server.Prelude.Text.{Text, text}
use ops_light_secrets_server.Prelude.Result.{ok}
use ops_light_secrets_server.Prelude.Action.{◌>>=◌, when}
use ops_light_secrets_server.BTreeMap.{get, insert, remove, values}
use ops_light_secrets_server.Identity.Capability.{rotation_manage, is_management, as_u16, holds}
use ops_light_secrets_server.Identity.Records.{
  IdentityRecord, IdentityStatus, GrantRecord, GrantStatus, human, exact, management_mount,
}
use ops_light_secrets_server.Identity.Request.{management_request, shape_matches}
use ops_light_secrets_server.Identity.Authorize.{authorize}
use ops_light_secrets_server.Kv.Examples.{toy_json, stored, value_v}
use ops_light_secrets_server.Codec.Encoder.{bytes}
use ops_light_secrets_server.Store.Classes.{rotation_state, table_code, code, domain}
use ops_light_secrets_server.Store.Sealed.{Sealed, Mac, seal, verify, record_mac, verify-seal}
use ops_light_secrets_server.Control.Commands.{
  command_authorization, command_code, rotation_lifecycle,
}
use ops_light_secrets_server.Control.Catalog.{
  ManagementCatalog, ManagementPrincipal, control, command_allowed, grants_allow, authorize_command,
  completed, succeed, record_command_success,
}
use ops_light_secrets_server.Control.Authorization.{Entitled, allowed-Entitled}
use ops_light_secrets_server.Rotation.Lifecycle.{
  RotationRecord, rotation_record, record_valid, endpoint_for, split_slash, lifecycle_code,
  lifecycle_eq, terminal, encode_each, encode_ids, encode_optional_u64, encode_history,
  encode_record, prepared, cutover,
}
use ops_light_secrets_server.Rotation.Catalog.{
  World, Rotate, new_rotations, RotationView, RotationSnapshotInput, key_of, managing, serving,
  was_completed, install, show_inner, require_state, validate_snapshot, validate_effective_time,
  ensure_history_room, next, open_rotation, refuse_open, from_management, map_kv,
}
use ops_light_secrets_server.Rotation.Adoption.{
  classify_consumer, consumer_class, identity_members, classify_identity, classify_rollup,
  instance_members, rollup_class, found_members, find_member,
}
use ops_light_secrets_server.Rotation.Reads.{
  AdoptionMember, ReadObservation, on_current, on_current, on_prior, classify_alone,
  classify_instance, latest_class, latest, latest_from, in_window, class_code,
}
use ops_light_secrets_server.Rotation.Closeout.{
  RotationCloseoutReport, complete, close, report, adoption_refused, unresolved, blank,
  closeout_warnings,
}
use ops_light_secrets_server.Rotation.Closing.{Closed, complete_sound}
use ops_light_secrets_server.Rotation.Repeats.{cutover-complete}
use ops_light_secrets_server.Rotation.Current.{consumer_current_sound, identities_of, UpToDate}
use ops_light_secrets_server.Rotation.Service.{unless_completed, finish}
use ops_light_secrets_server.Rotation.Service
use ops_light_secrets_server.Kv.Cutover.{
  rotation_cutover_write, rotation_write_encoded, rotation_snapshot,
  set_rotation_snapshot_protection, protect,
}
use ops_light_secrets_server.Kv.Access.{validate_endpoint, logical_path, canonical_resource}
use ops_light_secrets_server.Kv.Catalog.{
  entry_at, prune, prune_entry, prune_loop, prune_candidate, effective_max_versions,
}
use ops_light_secrets_server.Kv.Value.{validate_secret_value, walk_map, walk, map_len, chars_count}
use ops_light_secrets_server.Rotation.History.{Call, run}
use ops_light_secrets_server.Rotation.History
use ops_light_secrets_server.Rotation.Lives.{RowsOk, run-RowsOk, new_rotations-RowsOk}
use ops_light_secrets_server.Rotation.Progress.{run-progress}

-- A hash that keeps the length only.
abbrev toy_mac : Mac
toy_mac = record {
  key = 7 ∷ [];
  keyed_hash = λ key input. length input % 256 ∷ key;
  store_id = 1 ∷ 2 ∷ [];
}

abbrev operator : IdentityRecord
operator = record {
  id = 7;
  name = text "operator";
  kind = human;
  status = IdentityStatus.active;
  generation = 1;
}

abbrev managing_grant : GrantRecord
managing_grant = record {
  id = 3;
  owner_identity_id = 7;
  generation = 1;
  status = GrantStatus.active;
  mount = management_mount;
  scope = exact;
  prefix_segments = [];
  capabilities = rotation_manage ∷ [];
}

abbrev start_management : ManagementCatalog
start_management = record {
  identities = (7, operator) ∷ [];
  grants = (3, managing_grant) ∷ [];
  completed_requests = [];
  audit = [];
}

abbrev principal : ManagementPrincipal
principal = record {
  identity_id = 7;
  audience = control;
  peer_uid = 1000;
  expected_uid = 1000;
  credential_active = true;
}

-- No rotation yet, over a catalog with one version of the secret `app`.
abbrev start : World
start = record { rotations = new_rotations; management = start_management; kv = stored }

abbrev snapshot : RotationSnapshotInput
snapshot = record {
  declared_consumers = 5 ∷ [];
  authorized_identities = 1 ∷ [];
  active_instances = 70 ∷ [];
}

abbrev calls : List Call
calls =
    Call.begin principal 50 9 (text "secret/app") snapshot 2000
    ∷ Call.cutover principal 51 9 1 value_v 2100
    ∷ Call.complete principal 52 9 2 2 [] false none 2200
    ∷ []

run-RowsOk_example : RowsOk toy_mac (run toy_json toy_mac calls start).rotations.rows
run-RowsOk_example = run-RowsOk toy_json toy_mac calls start (new_rotations-RowsOk toy_mac)

-- What `begin` is to store.
abbrev first_record : RotationRecord
first_record = record {
  id = 9;
  resource = text "secret/app";
  state = prepared;
  declared_consumers = 5 ∷ [];
  authorized_identities = 1 ∷ [];
  active_instances = 70 ∷ [];
  protected_version = 1;
  expected_cas = 1;
  target_version = none;
  actor_identity_id = 7;
  prepared_unix_seconds = 2000;
  cutover_unix_seconds = none;
  history = record { state = prepared; effective_unix_seconds = 2000; version = 1 } ∷ [];
}

abbrev first_row : Sealed RotationRecord
first_row = record {
  generation = 1;
  value = first_record;
  class = rotation_state;
  schema_version = 1;
  mac_format_version = 1;
  mac = 64 ∷ 7 ∷ [];
}

first_sealed : seal rotation_record toy_mac first_record 1 (key_of 9) ≡ ok first_row
unfolding seal record_mac encode_record record_valid endpoint_for split_slash lifecycle_eq
    encode_ids encode_each encode_optional_u64 encode_history lifecycle_code bytes table_code code
    domain key_of
first_sealed = refl

abbrev beginning : List Call
beginning = Call.begin principal 50 9 (text "secret/app") snapshot 2000 ∷ []

abbrev after_begin : World
after_begin = run toy_json toy_mac beginning start

abbrev later_calls : List Call
later_calls =
    Call.cutover principal 51 9 1 value_v 2100
    ∷ Call.complete principal 52 9 2 2 [] false none 2200
    ∷ Call.cancel principal 53 9 3 2300 (text "late")
    ∷ []

abbrev cut_over_view : RotationView
cut_over_view = record {
  rotation = record first_record {
    state = cutover;
    target_version = some 2;
    cutover_unix_seconds = some 2100;
    history =
        record { state = prepared; effective_unix_seconds = 2000; version = 1 }
        ∷ record { state = cutover; effective_unix_seconds = 2100; version = 2 }
        ∷ [];
  };
  generation = 2;
}

abbrev cutting_over : Rotate RotationView
cutting_over = Service.cutover toy_json toy_mac principal 51 9 1 value_v 2100

abbrev after_cutover : World
after_cutover = (cutting_over after_begin).1

-- One instance has not taken up the new version.
abbrev behind : AdoptionMember
behind = record {
  kind = text "instance";
  id = 70;
  class = on_prior;
  fetched_version = some 1;
  last_read_unix_seconds = some 2050;
  recency_lookback_exceeded = false;
}

abbrev closing : Rotate RotationCloseoutReport
closing = complete toy_mac principal 52 9 2 2 (behind ∷ []) true (some (text "retired")) 2200

abbrev acknowledged_report : RotationCloseoutReport
acknowledged_report = report 9 true (text "acknowledge-unverified" ∷ [])

-- What `classify_adoption` says once each reader has fetched the new version.
abbrev up_to_date : Text → ℕ → Option ℕ → Option ℕ → AdoptionMember
up_to_date kind id version last = record {
  kind = kind;
  id = id;
  class = on_current;
  fetched_version = version;
  last_read_unix_seconds = last;
  recency_lookback_exceeded = false;
}

abbrev all_current : List AdoptionMember
all_current =
    up_to_date (text "consumer") 5 none none
    ∷ up_to_date (text "identity") 1 (some 2) (some 2150)
    ∷ up_to_date (text "instance") 70 (some 2) (some 2150)
    ∷ []

abbrev closing_current : Rotate RotationCloseoutReport
closing_current = complete toy_mac principal 52 9 2 2 all_current false none 2200

abbrev second_row : Sealed RotationRecord
second_row = record {
  generation = 2;
  value = cut_over_view.rotation;
  class = rotation_state;
  schema_version = 1;
  mac_format_version = 1;
  mac = 97 ∷ 7 ∷ [];
}

-- The rotation is begun, cut over and closed, by a principal who may do so throughout.
scenario :
    (get 9 after_begin.rotations.rows ≡ some first_row)
    × (cutting_over after_begin ≡ (ok cut_over_view, after_cutover))
    × (command_allowed principal rotation_lifecycle after_cutover.management ≡ true)
    × (closing after_cutover ≡ (ok acknowledged_report, (closing after_cutover).1))
    × (get 9 after_cutover.rotations.rows ≡ some second_row)
    × (was_completed 52 rotation_lifecycle 9 after_cutover ≡ false)
    × (closing_current after_cutover ≡ (ok (report 9 false []), (closing_current after_cutover).1))
unfolding new_rotations complete close adoption_refused unresolved blank class_code Service.cutover
    rotation_cutover_write rotation_write_encoded require_state ensure_history_room
    validate_effective_time next validate_secret_value walk_map walk map_len chars_count prune
    prune_entry prune_loop prune_candidate remove effective_max_versions run History.after
    Service.begin unless_completed finish managing serving authorize_command command_allowed
    command_authorization command_code grants_allow management_request authorize values
    shape_matches holds as_u16 is_management was_completed open_rotation refuse_open
    validate_snapshot endpoint_for split_slash rotation_snapshot set_rotation_snapshot_protection
    protect validate_endpoint entry_at logical_path canonical_resource record_command_success
    completed succeed show_inner verify install get insert map_kv from_management when ◌>>=◌ seal
    record_mac encode_record record_valid lifecycle_eq encode_ids encode_each encode_optional_u64
    encode_history lifecycle_code bytes table_code code domain key_of
scenario = (refl, refl, refl, refl, refl, refl, refl)

run-progress_example :
    (b : Sealed RotationRecord) × (get 9
        (run toy_json toy_mac later_calls after_begin).rotations.rows
      ≡ some b)
    × (1 ≤ b.generation)
    × (b.generation ≤ 32)
    × (b.generation ≡ 1 → b ≡ first_row)
    × (terminal prepared ≡ true → b ≡ first_row)
run-progress_example =
    run-progress toy_json toy_mac later_calls after_begin 9 first_row
      (run-RowsOk toy_json toy_mac beginning start (new_rotations-RowsOk toy_mac)) scenario.0
