-- ===== src/Rotation/Repeats.antt =====
-- src/rotation.rs: what `cutover` leaves behind, and what `complete` says to the same request id.
use ops_light_secrets_server.Prelude.{
  ℕ, ◌≡◌, ◌∙◌, refl, sym, ap, subst, Bool, true, Option, none, some, List, [], arith, ==_iff, inl,
  inr,
}
use ops_light_secrets_server.Prelude.Order.{nat_ord}
use ops_light_secrets_server.Prelude.Text.{Text}
use ops_light_secrets_server.Prelude.Result.{ok}
use ops_light_secrets_server.Prelude.Action.{◌>>=◌, when}
use ops_light_secrets_server.Prelude.Ends.{
  Ends, Ends-bind, lift_bind-Ends, gets_bind-Ends, modify_bind-Ends, when-Ends, Ends-of,
}
use ops_light_secrets_server.BTreeMap.{get}
use ops_light_secrets_server.Kv.Value.{Map}
use ops_light_secrets_server.Kv.Service.{Json}
use ops_light_secrets_server.Store.Sealed.{Sealed, Mac}
use ops_light_secrets_server.Control.Commands.{ControlCommand, rotation_lifecycle, command_eq_iff}
use ops_light_secrets_server.Control.Catalog.{ManagementPrincipal, authorize_command}
use ops_light_secrets_server.Control.Authorization.{Entitled, authorize_command_cases}
use ops_light_secrets_server.Rotation.Lifecycle.{RotationRecord}
use ops_light_secrets_server.Rotation.Catalog.{
  World, RotationView, Rotate, managing, was_completed, put_completed, show_inner,
}
use ops_light_secrets_server.Rotation.Service.{cutover, finish, unless_completed}
use ops_light_secrets_server.Rotation.Reads.{AdoptionMember}
use ops_light_secrets_server.Rotation.Closeout.{complete, report}
use ops_light_secrets_server.Rotation.Moves.{view_of, show_inner-cases}

module _ (m : Mac) (request_id id : ℕ) where
  -- The request is noted as done, and the view is that of the row.
  record Shown (command : ControlCommand) (w : World) (view : RotationView) : Type 0 where
    used : was_completed request_id command id w ≡ true
    row : Sealed RotationRecord
    found : get id w.rotations.rows ≡ some row
    seen : view ≡ view_of row

  show_inner-Shown :
      (command : ControlCommand) {w u : World} {view : RotationView}
      → was_completed request_id command id w ≡ true
      → Ends (show_inner m id) w view u
      → Shown command u view
  show_inner-Shown command {w} {u} {view} used h = elim (show_inner-cases m id w) [
    | inl (e, failed) ↦ let r = h.returned in absurd (ground (arith, r, failed))
    | inr (row, found, shown) ↦
        let same : w ≡ u = sym (ap (λ x. x.1) shown) ∙ h.left in
        let r = h.returned in
        record {
          used = subst (λ x. was_completed request_id command id x ≡ true) same used;
          row = row;
          found = subst (λ x. get id x.rotations.rows ≡ some row) same found;
          seen = ground (arith, r, shown);
        }
  ]

  put_completed-used :
      (command : ControlCommand) (w : World)
      → was_completed request_id command id (put_completed request_id command id w) ≡ true
  unfolding was_completed
  put_completed-used command w =
      rw
        (
          (==_iff request_id request_id).1 refl,
          (command_eq_iff command command).1 refl,
          (==_iff id id).1 refl,
        )
        refl

  finish-Shown :
      (principal : ManagementPrincipal) (command : ControlCommand) (reason : Option Text)
      {w u : World} {view : RotationView}
      → Ends (finish m principal request_id command id reason) w view u
      → Shown command u view
  unfolding finish managing was_completed
  finish-Shown principal command reason {w} h =
      let (_, x, recorded, shown) =
        Ends-bind _ _ (modify_bind-Ends (put_completed request_id command id) _ h) in
      show_inner-Shown command
        (ap (λ y. was_completed request_id command id y) (sym recorded.left)
          ∙ put_completed-used command w)
        shown

  unless_completed-Shown :
      (principal : ManagementPrincipal) (command : ControlCommand) (rest : Rotate RotationView)
      {w u : World} {view : RotationView}
      → ((x : World) → Ends rest x view u → Shown command u view)
      → Ends (unless_completed m principal request_id command id rest) w view u
      → Shown command u view
  unfolding unless_completed
  unless_completed-Shown principal command rest {w} {u} {view} k h =
      let (_, x, _, branch) = Ends-bind _ _ h in
      elim (when-Ends (was_completed request_id command id x) (show_inner m id) rest
        (gets_bind-Ends _ _ branch)) [
          | inl (used, shown) ↦ show_inner-Shown command used shown
          | inr (_, done) ↦ k x done
        ]

  cutover-Shown :
      (json : Json) (principal : ManagementPrincipal) (expected : ℕ) (replacement : Map) (now : ℕ)
      {w u : World} {view : RotationView}
      → Ends (cutover json m principal request_id id expected replacement now) w view u
      → Shown rotation_lifecycle u view
  unfolding cutover
  cutover-Shown json principal expected replacement now h =
      unless_completed-Shown principal rotation_lifecycle _
        (λ x k.
          let (_, _, k1) = lift_bind-Ends _ _ k in
          let (_, _, _, k2) = Ends-bind (show_inner m id) _ k1 in
          let (_, _, k3) = lift_bind-Ends _ _ k2 in
          let (_, _, k4) = lift_bind-Ends _ _ k3 in
          let (_, _, k5) = lift_bind-Ends _ _ k4 in
          let (_, _, k6) = lift_bind-Ends _ _ k5 in
          let (_, _, _, k7) = Ends-bind _ _ k6 in
          let (_, _, _, k8) = Ends-bind _ _ k7 in finish-Shown principal rotation_lifecycle none k8)
        h

managing-passed :
    {B : Type 0} (p : ManagementPrincipal) (command : ControlCommand) (request_id : ℕ)
    (f : Unit {0} → Rotate B) (w : World)
    → Entitled p command w.management
    → (managing (authorize_command p command request_id) >>= f) w ≡ f tt w
unfolding ◌>>=◌ managing
managing-passed p command request_id f w h =
    elim (authorize_command_cases p command request_id w.management) [
      | inl (_, passed) ↦ rw passed refl
      | inr (not_, _) ↦ absurd (not_ h)
    ]

complete-used :
    (m : Mac) (p : ManagementPrincipal) (request_id id expected current_version : ℕ)
    (members : List AdoptionMember) (acknowledged : Bool) (reason : Option Text) (now : ℕ)
    (w : World)
    → Entitled p rotation_lifecycle w.management
    → was_completed request_id rotation_lifecycle id w ≡ true
    → complete m p request_id id expected current_version members acknowledged reason now w
      ≡ (ok (report id acknowledged []), w)
unfolding complete when ◌>>=◌
complete-used m p request_id id expected current_version members acknowledged reason now w h used =
    managing-passed p rotation_lifecycle request_id _ w h ∙ rw used refl

-- `complete` takes the request id of a cutover of the same rotation for a repetition of itself: when a cutover
-- has answered with a view of the rotation, and an entitled principal sends its request id to `complete`, the answer
-- reports the rotation as completed, with no look at the generation, the version or the members, while
-- nothing changes and the stored rotation is still the one that the cutover showed, in its state.
pub cutover-complete :
    (json : Json) (m : Mac) (p q : ManagementPrincipal) (request_id id expected : ℕ)
    (replacement : Map) (now : ℕ) (w u : World) (view : RotationView) (again current_version : ℕ)
    (members : List AdoptionMember) (acknowledged : Bool) (reason : Option Text) (later : ℕ)
    → cutover json m p request_id id expected replacement now w ≡ (ok view, u)
    → Entitled q rotation_lifecycle u.management
    → (complete m q request_id id again current_version members acknowledged reason later u
        ≡ (ok (report id acknowledged []), u))
      × ((row : Sealed RotationRecord) × (get id u.rotations.rows ≡ some row)
          × (row.value ≡ view.rotation)
          × (row.generation ≡ view.generation))
cutover-complete json m p q request_id id expected replacement now w u view again current_version
      members acknowledged reason later h entitled =
    let shown = cutover-Shown m request_id id json p expected replacement now (Ends-of _ h) in
    (
      complete-used m q request_id id again current_version members acknowledged reason later u
          entitled shown.used,
      (
        shown.row,
        shown.found,
        sym (ap (λ v. v.rotation) shown.seen),
        sym (ap (λ v. v.generation) shown.seen),
      ),
    )
