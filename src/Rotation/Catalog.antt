-- ===== src/Rotation/Catalog.antt =====
-- src/rotation.rs: `RotationCatalog` beside the control plane and the secrets that its methods take, and
-- the steps that they share.
use ops_light_secrets_server.Prelude.{
  ℕ, Bool, true, false, not, ◌&&◌, ◌||◌, Option, none, some, List, [], ◌∷◌, ltb, leb, ◌==◌, length,
  any, find, checked_add,
}
use ops_light_secrets_server.Prelude.Order.{nat_ord}
use ops_light_secrets_server.Prelude.Text.{Text, text_eq}
use ops_light_secrets_server.Prelude.Words.{be_bytes_of}
use ops_light_secrets_server.Prelude.Result.{Result, ok, err, map_err}
use ops_light_secrets_server.Prelude.Result
use ops_light_secrets_server.Prelude.Action.{Action, ◌>>=◌, ◌>>◌, pure, lift, gets, modify, some_or}
use ops_light_secrets_server.BTreeMap
use ops_light_secrets_server.BTreeMap.{BTreeMap}
use ops_light_secrets_server.Kv.Types.{KvCatalog, KvError}
use ops_light_secrets_server.Kv.Types
use ops_light_secrets_server.Kv.Catalog.{Kv}
use ops_light_secrets_server.Kv.Purge.{reason_refused}
use ops_light_secrets_server.Store.Sealed.{Sealed, Mac, seal, verify}
use ops_light_secrets_server.Control.Commands.{ControlCommand, command_eq}
use ops_light_secrets_server.Control.Catalog.{ManagementCatalog, ManagementError, Manage}
use ops_light_secrets_server.Control.Catalog
use ops_light_secrets_server.Rotation.Lifecycle.{
  RotationLifecycle, RotationRecord, RotationTransition, RotationError, rotation_record,
  lifecycle_eq, max_ids, max_history, prepared, conflict, not_found, stale_generation, integrity,
  limit, invalid, denied, cas_conflict, protected_version_unavailable,
}
use ops_light_secrets_server.Rotation.Lifecycle

pub record RotationView : Type 0 where
  pub rotation : RotationRecord
  pub generation : ℕ

pub record RotationSnapshotInput : Type 0 where
  pub declared_consumers : List ℕ
  pub authorized_identities : List ℕ
  pub active_instances : List ℕ

-- The set of completed requests is a list: only membership matters.
pub record RotationCatalog : Type 0 where
  pub rows : BTreeMap ℕ (Sealed RotationRecord)
  pub completed : List (ℕ × ControlCommand × ℕ)

-- `RotationCatalog::new`, whose key and store id are those of a `Mac` here.
unfoldable pub new_rotations : RotationCatalog
new_rotations = record { rows = []; completed = [] }

-- What the methods reach: the catalog itself, and the two that they are given.
pub record World : Type 0 where
  pub rotations : RotationCatalog
  pub management : ManagementCatalog
  pub kv : KvCatalog

abbrev pub Rotate : Type 0 → Type 0
Rotate A = Action World RotationError A

-- `From<ManagementError>`
unfoldable pub from_management : ManagementError → RotationError
from_management Catalog.denied = denied
from_management Catalog.not_found = not_found
from_management Catalog.stale_generation = stale_generation
from_management Catalog.limit = limit
from_management Catalog.invalid = invalid
from_management Catalog.conflict = invalid

unfoldable pub map_kv : KvError → RotationError
map_kv Types.cas_conflict = cas_conflict
map_kv Types.not_found = protected_version_unavailable
map_kv (Types.version_unavailable version deletion destroyed) = protected_version_unavailable
map_kv Types.internal = integrity
map_kv _ = invalid

-- A call of the control plane, and one of the secrets.
unfoldable pub managing : {A : Type 0} → Manage A → Rotate A
managing m w =
    (map_err from_management (m w.management).0, record w { management = (m w.management).1 })

unfoldable pub serving : {A : Type 0} → Kv A → Rotate A
serving m w = (map_err map_kv (m w.kv).0, record w { kv = (m w.kv).1 })

abbrev pub same_triple : ℕ × ControlCommand × ℕ → ℕ → ControlCommand → ℕ → Bool
same_triple previous request_id command id =
    previous.0 == request_id && command_eq previous.1 command && previous.2 == id

unfoldable pub was_completed : ℕ → ControlCommand → ℕ → World → Bool
was_completed request_id command id w =
    any (λ previous. same_triple previous request_id command id) w.rotations.completed

abbrev pub put_completed : ℕ → ControlCommand → ℕ → World → World
put_completed request_id command id w = record w {
  rotations = record w.rotations { completed = (request_id, command, id) ∷ w.rotations.completed };
}

abbrev pub put_row : ℕ → Sealed RotationRecord → World → World
put_row id row w = record w {
  rotations = record w.rotations { rows = BTreeMap.insert id row w.rotations.rows };
}

unfoldable pub key_of : ℕ → List ℕ
key_of id = be_bytes_of 16 id

module _ (m : Mac) where
  unfoldable pub install : RotationRecord → ℕ → Rotate (Unit {0})
  install r generation = do
    row ← lift (map_err (λ _. invalid) (seal rotation_record m r generation (key_of r.id)))
    modify (put_row r.id row)

  unfoldable pub show_inner : ℕ → Rotate RotationView
  show_inner id = do
    rows ← gets (λ w. w.rotations.rows)
    row ← some_or (BTreeMap.get id rows) not_found
    lift (map_err (λ _. integrity) (verify rotation_record m row (key_of id)))
    pure (record { rotation = row.value; generation = row.generation })

unfoldable pub require_state :
    RotationView → ℕ → RotationLifecycle → Result RotationError (Unit {0})
require_state view expected_generation state =
    Result.◌>>◌ (Result.refuse (not (view.generation == expected_generation)) stale_generation)
      (Result.refuse (not (lifecycle_eq view.rotation.state state)) (conflict view.rotation.state))

unfoldable pub validate_snapshot : RotationSnapshotInput → Result RotationError (Unit {0})
validate_snapshot value =
    Result.refuse
      (ltb max_ids (length value.declared_consumers)
        || ltb max_ids (length value.authorized_identities)
        || ltb max_ids (length value.active_instances))
      limit

unfoldable pub validate_reason : Text → Result RotationError (Unit {0})
validate_reason value = Result.refuse (reason_refused value) invalid

unfoldable pub validate_effective_time : ℕ → Result RotationError (Unit {0})
validate_effective_time value = Result.refuse (value == 0) invalid

unfoldable pub ensure_history_room : RotationView → Result RotationError (Unit {0})
ensure_history_room value = Result.refuse (leb max_history (length value.rotation.history)) limit

unfoldable pub next : ℕ → Result RotationError ℕ
next value = Result.ok_or (checked_add value 1) limit

abbrev pub is_open : RotationLifecycle → Bool
is_open Lifecycle.prepared = true
is_open Lifecycle.cutover = true
is_open _ = false

-- The rotation of the resource that is open, if there is one.
unfoldable pub open_rotation :
    Text → BTreeMap ℕ (Sealed RotationRecord) → Option (Sealed RotationRecord)
open_rotation resource rows =
    find (λ row. text_eq row.value.resource resource && is_open row.value.state)
      (BTreeMap.values rows)

unfoldable pub refuse_open : Option (Sealed RotationRecord) → Result RotationError (Unit {0})
refuse_open none = ok tt
refuse_open (some row) = err (conflict row.value.state)

abbrev pub transition : RotationLifecycle → ℕ → ℕ → RotationTransition
transition state effective_unix_seconds version = record {
  state = state;
  effective_unix_seconds = effective_unix_seconds;
  version = version;
}
