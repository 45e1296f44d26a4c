-- ===== src/Rotation/Examples/Closing.antt =====
-- Tests of src/rotation.rs: the end of the rotation of the parent, and a consumer that is current.
use mathlib.Core.List.{Memᴰ}
use ops_light_secrets_server.Prelude.{ℕ, ◌≡◌, ◌≢◌, refl, false, none, some, [], ◌∷◌}
use ops_light_secrets_server.Prelude.Order.{nat_ord, list_ord}
use ops_light_secrets_server.Prelude.Result.{ok}
use ops_light_secrets_server.BTreeMap.{get}
use ops_light_secrets_server.Kv.Examples.{toy_json, value_v}
use ops_light_secrets_server.Store.Sealed.{Sealed}
use ops_light_secrets_server.Control.Commands.{rotation_lifecycle}
use ops_light_secrets_server.Control.Authorization.{Entitled, allowed-Entitled}
use ops_light_secrets_server.Rotation.Lifecycle.{RotationRecord}
use ops_light_secrets_server.Rotation.Adoption.{
  classify_adoption, last_read, first_version, sort_members, insert_member, classify_consumer,
  consumer_class, identity_members, classify_identity, classify_rollup, instance_members,
  rollup_class, found_members, find_member,
}
use ops_light_secrets_server.Rotation.Reads.{
  lookback_exceeded, ReadObservation, on_current, classify_alone, classify_instance, latest_class,
  latest, latest_from, in_window, class_code,
}
use ops_light_secrets_server.Rotation.Closeout.{complete, report}
use ops_light_secrets_server.Rotation.Repeats.{cutover-complete}
use ops_light_secrets_server.Rotation.Settled.{InstanceSettled, complete_adopted}
use ops_light_secrets_server.Rotation.Current.{consumer_current_sound, identities_of, UpToDate}
use ops_light_secrets_server.Rotation.Examples.{
  all_current, closing_current, second_row, toy_mac, principal, snapshot, after_begin,
  cut_over_view, after_cutover, scenario,
}

still-Entitled : Entitled principal rotation_lifecycle after_cutover.management
still-Entitled = allowed-Entitled principal rotation_lifecycle after_cutover.management scenario.2

-- The request id of the cutover, sent again to `complete`.
cutover-complete_example :
    (complete toy_mac principal 51 9 2 1 [] false none 2200 after_cutover
      ≡ (ok (report 9 false []), after_cutover))
    × ((row : Sealed RotationRecord) × (get 9 after_cutover.rotations.rows ≡ some row)
        × (row.value ≡ cut_over_view.rotation)
        × (row.generation ≡ 2))
cutover-complete_example =
    cutover-complete toy_json toy_mac principal principal 51 9 1 value_v 2100 after_begin
      after_cutover cut_over_view 2 1 [] false none 2200 scenario.1 still-Entitled

abbrev fetching : ReadObservation
fetching = record {
  sequence = 12;
  identity_id = 1;
  consumer_instance_id = some 70;
  version = 2;
  effective_unix_seconds = 2150;
}

consumer_is_current :
    (classify_consumer snapshot 2 10 20
      (fetching ∷ [])
      []
      none
      2200
      ((70, 1) ∷ [])
      ((1, 5) ∷ [])
      5).class
    ≡ on_current
unfolding classify_consumer consumer_class identity_members classify_identity classify_rollup
    classify_alone instance_members classify_instance rollup_class found_members find_member
    latest_class latest latest_from in_window class_code get
consumer_is_current = refl

consumer_current_sound_example :
    (identities_of snapshot 2 10 20 (fetching ∷ []) [] none 2200 ((70, 1) ∷ []) ((1, 5) ∷ []) 5
      ≢ [])
    × ((identity : ℕ)
        → Memᴰ identity (
            identities_of snapshot 2 10 20
              (fetching ∷ [])
              []
              none
              2200
              ((70, 1) ∷ [])
              ((1, 5) ∷ [])
              5)
        → UpToDate snapshot 2 10 20
            (fetching ∷ [])
            []
            none
            2200
            ((70, 1) ∷ [])
            ((1, 5) ∷ [])
            identity)
consumer_current_sound_example =
    consumer_current_sound snapshot 2 10 20 (fetching ∷ []) [] none 2200 ((70, 1) ∷ [])
      ((1, 5) ∷ []) 5 consumer_is_current

all_are_current :
    classify_adoption snapshot 2 10 20 (fetching ∷ []) [] none 2200 ((70, 1) ∷ []) ((1, 5) ∷ [])
    ≡ ok all_current
unfolding classify_adoption classify_consumer consumer_class identity_members classify_identity
    classify_rollup classify_alone instance_members classify_instance rollup_class found_members
    find_member latest_class latest latest_from in_window class_code get last_read first_version
    lookback_exceeded sort_members insert_member
all_are_current = refl

complete_adopted_example :
    (second_row.value.target_version ≡ some 2)
    × InstanceSettled snapshot 2 10 20
        (fetching ∷ [])
        []
        none
        2200
        ((70, 1) ∷ [])
        ((1, 5) ∷ [])
        false
        none
        70
complete_adopted_example =
    complete_adopted toy_mac principal 52 9 2 2 all_current false none 2200 second_row 10 20
      (fetching ∷ []) [] none 2200 ((70, 1) ∷ []) ((1, 5) ∷ []) after_cutover
      (closing_current after_cutover).1 (report 9 false []) 70 scenario.4 all_are_current scenario.5
      scenario.6 (Memᴰ.head refl)
