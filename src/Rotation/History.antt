-- ===== src/Rotation/History.antt =====
-- src/rotation.rs: the calls that reach the catalog, in whatever order, with whatever else happens to the
-- control plane and the secrets in between.
use ops_light_secrets_server.Prelude.{ℕ, refl, Bool, Option, List, [], ◌∷◌}
use ops_light_secrets_server.Prelude.Text.{Text}
use ops_light_secrets_server.BTreeMap.{BTreeMap}
use ops_light_secrets_server.Kv.Types.{KvCatalog}
use ops_light_secrets_server.Kv.Value.{Map}
use ops_light_secrets_server.Kv.Service.{Json}
use ops_light_secrets_server.Store.Sealed.{Mac}
use ops_light_secrets_server.Control.Catalog.{ManagementCatalog, ManagementPrincipal}
use ops_light_secrets_server.Rotation.Catalog.{World, RotationSnapshotInput}
use ops_light_secrets_server.Rotation.Service
use ops_light_secrets_server.Rotation.Reads.{AdoptionMember, ReadObservation}
use ops_light_secrets_server.Rotation.Overview.{RotationFilter}
use ops_light_secrets_server.Rotation.Closeout
use ops_light_secrets_server.Rotation.Overview
use ops_light_secrets_server.Rotation.Moves.{Rows, Move, stay}
use ops_light_secrets_server.Rotation.Effects.{
  begin-Move, refresh-Move, cutover-Move, cancel-Move, rollback-Move,
  supersede_after_plain_write-Move, complete-Move, show-Move, status-Move, list-Move,
}

pub data Call : Type 0 where
  begin : ManagementPrincipal → ℕ → ℕ → Text → RotationSnapshotInput → ℕ → Call
  refresh : ManagementPrincipal → ℕ → ℕ → ℕ → RotationSnapshotInput → ℕ → Call
  cutover : ManagementPrincipal → ℕ → ℕ → ℕ → Map → ℕ → Call
  cancel rollback : ManagementPrincipal → ℕ → ℕ → ℕ → ℕ → Text → Call
  supersede_after_plain_write : ℕ → ℕ → ℕ → Call
  complete :
      ManagementPrincipal → ℕ → ℕ → ℕ → ℕ → List AdoptionMember → Bool → Option Text → ℕ → Call
  show : ManagementPrincipal → ℕ → ℕ → Call
  status :
      ManagementPrincipal
      → ℕ
      → ℕ
      → List ReadObservation
      → List ℕ
      → ℕ
      → ℕ
      → Option ℕ
      → ℕ
      → BTreeMap ℕ ℕ
      → BTreeMap ℕ ℕ
      → Call
  list : ManagementPrincipal → ℕ → ℕ → RotationFilter → Call
  -- What others do to the control plane and the secrets.
  elsewhere : ManagementCatalog → KvCatalog → Call

module _ (json : Json) (m : Mac) where
  unfoldable pub after : Call → World → World
  after (Call.begin p request_id id resource snapshot now) w =
      (Service.begin json m p request_id id resource snapshot now w).1
  after (Call.refresh p request_id id expected snapshot now) w =
      (Service.refresh json m p request_id id expected snapshot now w).1
  after (Call.cutover p request_id id expected replacement now) w =
      (Service.cutover json m p request_id id expected replacement now w).1
  after (Call.cancel p request_id id expected now reason) w =
      (Service.cancel json m p request_id id expected now reason w).1
  after (Call.rollback p request_id id expected now reason) w =
      (Service.rollback json m p request_id id expected now reason w).1
  after (Call.supersede_after_plain_write id expected now) w =
      (Service.supersede_after_plain_write json m id expected now w).1
  after (Call.complete p request_id id expected current members acknowledged reason now) w =
      (Closeout.complete m p request_id id expected current members acknowledged reason now w).1
  after (Call.show p request_id id) w = (Overview.show m p request_id id w).1
  after
        (Call.status p request_id id reads retired cutover_at cutoff lookback now instances
          identities)
        w =
      (Overview.status m p request_id id reads retired cutover_at cutoff lookback now instances
        identities w).1
  after (Call.list p request_id count f) w = (Overview.list m p request_id count f w).1
  after (Call.elsewhere management kv) w = record w { management = management; kv = kv }

  unfoldable pub run : List Call → World → World
  run [] w = w
  run (call ∷ rest) w = run rest (after call w)

  pub after-Move : (call : Call) (w : World) → Move m w.rotations.rows (after call w).rotations.rows
  unfolding after
  after-Move (Call.begin p request_id id resource snapshot now) w =
      begin-Move m w p request_id id json resource snapshot now
  after-Move (Call.refresh p request_id id expected snapshot now) w =
      refresh-Move m w p request_id id json expected snapshot now
  after-Move (Call.cutover p request_id id expected replacement now) w =
      cutover-Move m w p request_id id json expected replacement now
  after-Move (Call.cancel p request_id id expected now reason) w =
      cancel-Move m w p request_id id json expected now reason
  after-Move (Call.rollback p request_id id expected now reason) w =
      rollback-Move m w p request_id id json expected now reason
  after-Move (Call.supersede_after_plain_write id expected now) w =
      supersede_after_plain_write-Move m w json id expected now
  after-Move (Call.complete p request_id id expected current members acknowledged reason now) w =
      complete-Move m w p request_id id expected current members acknowledged reason now
  after-Move (Call.show p request_id id) w = show-Move m w p request_id id
  after-Move
        (Call.status p request_id id reads retired cutover_at cutoff lookback now instances
          identities)
        w =
      status-Move m w p request_id id reads retired cutover_at cutoff lookback now instances
        identities
  after-Move (Call.list p request_id count f) w = list-Move m w p request_id request_id count f
  after-Move (Call.elsewhere management kv) w = stay refl

  -- What every move keeps, every history keeps.
  pub run_keeps :
      (P : Rows → Type 0)
      → ((c d : Rows) → Move m c d → P c → P d)
      → (calls : List Call) (w : World) → P w.rotations.rows
      → P (run calls w).rotations.rows
  unfolding run
  run_keeps P keep [] w h = h
  run_keeps P keep (call ∷ rest) w h = run_keeps P keep rest _ (keep _ _ (after-Move call w) h)
