-- ===== src/Rotation/Overview.antt =====
-- src/rotation.rs: the methods that only look.
use ops_light_secrets_server.Prelude.{
  ℕ, zero, suc, Bool, true, false, not, ◌&&◌, ◌||◌, Option, none, some, List, [], ◌∷◌, leb, ltb,
  ◌==◌, length, select, if◌then◌else◌,
}
use ops_light_secrets_server.Prelude.Text.{Text, text_eq}
use ops_light_secrets_server.Prelude.Result.{Result, ok, err, map_err}
use ops_light_secrets_server.Prelude.Result
use ops_light_secrets_server.Prelude.Action.{◌>>=◌, ◌>>◌, pure, lift, gets, some_or, refuse}
use ops_light_secrets_server.BTreeMap.{BTreeMap}
use ops_light_secrets_server.Store.Sealed.{Sealed, Mac, verify}
use ops_light_secrets_server.Control.Commands.{rotation_status, rotation_catalog}
use ops_light_secrets_server.Control.Catalog.{ManagementPrincipal, authorize_command}
use ops_light_secrets_server.Control.Views.{
  Page, encode_id, management_output_schema, max_page_size,
}
use ops_light_secrets_server.Rotation.Lifecycle.{
  RotationRecord, RotationLifecycle, RotationError, rotation_record, invalid, conflict, limit,
  integrity, lifecycle_eq,
}
use ops_light_secrets_server.Rotation.Lifecycle
use ops_light_secrets_server.Rotation.Catalog.{
  RotationView, RotationSnapshotInput, Rotate, managing, show_inner, next, key_of,
}
use ops_light_secrets_server.Rotation.Adoption.{classify_adoption}
use ops_light_secrets_server.Rotation.Reads.{
  AdoptionMember, ReadObservation, instance_kind, identity_kind, consumer_kind,
}

module _ (m : Mac) where
  unfoldable pub show : ManagementPrincipal → ℕ → ℕ → Rotate RotationView
  show principal request_id id = do
    managing (authorize_command principal rotation_status request_id)
    show_inner m id

pub record RotationAdoptionStatus : Type 0 where
  pub rotation_id : ℕ
  pub resource : Text
  pub state : RotationLifecycle
  pub target_version : ℕ
  pub cutover_sequence : ℕ
  pub cutoff_sequence : ℕ
  pub instances : List AdoptionMember
  pub identities : List AdoptionMember
  pub consumers : List AdoptionMember

abbrev pub of_kind : Text → List AdoptionMember → List AdoptionMember
of_kind kind members = select (λ member. text_eq member.kind kind) members

abbrev pub snapshot_of : RotationRecord → RotationSnapshotInput
snapshot_of r = record {
  declared_consumers = r.declared_consumers;
  authorized_identities = r.authorized_identities;
  active_instances = r.active_instances;
}

unfoldable pub status :
    Mac
    → ManagementPrincipal
    → ℕ
    → ℕ
    → List ReadObservation
    → List ℕ
    → ℕ
    → ℕ
    → Option ℕ
    → ℕ
    → BTreeMap ℕ ℕ
    → BTreeMap ℕ ℕ
    → Rotate RotationAdoptionStatus
status m principal request_id id observations retired_instances cutover_sequence cutoff_sequence
      lookback now instance_to_identity identity_to_consumer =
    do
      managing (authorize_command principal rotation_status request_id)
      view ← show_inner m id
      refuse
          (not (lifecycle_eq view.rotation.state Lifecycle.cutover)
            && not (lifecycle_eq view.rotation.state Lifecycle.completed))
          (conflict view.rotation.state)
      target ← some_or view.rotation.target_version invalid
      members ← lift (
          classify_adoption (snapshot_of view.rotation) target cutover_sequence cutoff_sequence
            observations retired_instances lookback now instance_to_identity identity_to_consumer)
      pure (record {
        rotation_id = view.rotation.id;
        resource = view.rotation.resource;
        state = view.rotation.state;
        target_version = target;
        cutover_sequence = cutover_sequence;
        cutoff_sequence = cutoff_sequence;
        instances = of_kind instance_kind members;
        identities = of_kind identity_kind members;
        consumers = of_kind consumer_kind members;
      })

-- The filters of `list`.
pub record RotationFilter : Type 0 where
  pub cursor : Option ℕ
  pub resource : Option Text
  pub state : Option RotationLifecycle
  pub prepared_from_unix_seconds : Option ℕ
  pub prepared_to_unix_seconds : Option ℕ

abbrev pub is_some_and {ℓ} : {A : Type ℓ} → Option A → (A → Bool) → Bool
is_some_and none f = false
is_some_and (some a) f = f a

abbrev pub range_empty : Option ℕ → Option ℕ → Bool
range_empty (some from) (some to) = ltb to from
range_empty _ _ = false

unfoldable pub passed_over : RotationFilter → ℕ → RotationRecord → Bool
passed_over f id r =
    is_some_and f.cursor (λ cursor. leb id cursor)
    || is_some_and f.resource (λ value. not (text_eq r.resource value))
    || is_some_and f.state (λ value. not (lifecycle_eq r.state value))
    || is_some_and f.prepared_from_unix_seconds (λ value. ltb r.prepared_unix_seconds value)
    || is_some_and f.prepared_to_unix_seconds (λ value. ltb value r.prepared_unix_seconds)

-- The loop over the rows, with the number of items that are still wanted: one more than the page
-- holds, to see whether there are more.
unfoldable pub collect :
    Mac
    → RotationFilter
    → BTreeMap ℕ (Sealed RotationRecord)
    → ℕ
    → Result RotationError (List RotationView)
collect m f [] wanted = ok []
collect m f ((id, row) ∷ rows) zero = ok []
collect m f ((id, row) ∷ rows) (suc wanted) =
    let over = collect m f rows (suc wanted) in
    let rest = collect m f rows wanted in
    elim (passed_over f id row.value) [
      | true ↦ over
      | false ↦
          Result.◌>>=◌ (map_err (λ _. integrity) (verify rotation_record m row (key_of id))) (λ _.
            Result.◌>>=◌ rest
              (λ items. ok (record { rotation = row.value; generation = row.generation } ∷ items)))
    ]

abbrev pub take_views : ℕ → List RotationView → List RotationView
take_views zero views = []
take_views (suc n) [] = []
take_views (suc n) (view ∷ views) = view ∷ take_views n views

abbrev pub last_id : List RotationView → Option ℕ
last_id [] = none
last_id (view ∷ []) = some view.rotation.id
last_id (view ∷ next ∷ views) = last_id (next ∷ views)

abbrev pub cursor_text : Option ℕ → Option Text
cursor_text none = none
cursor_text (some id) = some (encode_id id)

abbrev pub page_of_views : ℕ → List RotationView → Page RotationView
page_of_views count views = record {
  schema = management_output_schema;
  items = take_views count views;
  next_cursor =
      if ltb count (length views) then cursor_text (last_id (take_views count views)) else none;
}

unfoldable pub list :
    Mac → ManagementPrincipal → ℕ → ℕ → RotationFilter → Rotate (Page RotationView)
list m principal request_id count f = do
  managing (authorize_command principal rotation_catalog request_id)
  refuse
      (count == 0
        || ltb max_page_size count
        || range_empty f.prepared_from_unix_seconds f.prepared_to_unix_seconds)
      limit
  rows ← gets (λ w. w.rotations.rows)
  views ← lift (collect m f rows (suc count))
  pure (page_of_views count views)
