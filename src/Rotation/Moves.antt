-- ===== src/Rotation/Moves.antt =====
-- src/rotation.rs: what one method may do to the rows of the catalog, as a step relation, and the rules
-- by which the methods are seen to do it.
use ops_light_secrets_server.Prelude.{
  ℕ, ◌+◌, ◌<◌, ◌≡◌, refl, Option, none, some, [], ◌∷◌, ◌++◌, length, arith, Option-cases, inl, inr,
  ◌⊎◌,
}
use ops_light_secrets_server.Prelude.Order.{nat_ord}
use ops_light_secrets_server.Prelude.Result.{Result, ok, err, map_err, Result-cases}
use ops_light_secrets_server.Prelude.Text.{Text}
use ops_light_secrets_server.Prelude.Action.{◌>>=◌}
use ops_light_secrets_server.Prelude.Leads.{
  returned_leads, failed_leads, bind_leads, gets_leads, lift_leads, some_or_leads, modify_leads,
  when_leads, pure_leads,
}
use ops_light_secrets_server.BTreeMap.{BTreeMap, get, insert}
use ops_light_secrets_server.Kv.Types.{KvCatalog}
use ops_light_secrets_server.Kv.Catalog.{Kv}
use ops_light_secrets_server.Codec.{CodecError}
use ops_light_secrets_server.Store.Sealed.{Sealed, Mac, seal, verify}
use ops_light_secrets_server.Control.Commands.{ControlCommand}
use ops_light_secrets_server.Control.Catalog.{ManagementCatalog, ManagementPrincipal, Manage}
use ops_light_secrets_server.Rotation.Lifecycle.{
  RotationLifecycle, RotationRecord, RotationTransition, RotationError, rotation_record, prepared,
  cutover, completed, cancelled_before_cutover, superseded, max_history, invalid, not_found,
  integrity,
}
use ops_light_secrets_server.Rotation.Catalog.{
  RotationView, Rotate, World, managing, serving, put_row, install, show_inner, key_of,
  open_rotation,
}
use ops_light_secrets_server.Rotation.Service.{finish, unless_completed}

abbrev pub Rows : Type 0
Rows = BTreeMap ℕ (Sealed RotationRecord)

-- The lifecycle of a rotation. A rotation that is prepared may be prepared anew.
pub data Follows : RotationLifecycle → RotationLifecycle → Type 0 where
  refreshed : Follows prepared prepared
  cut_over : Follows prepared cutover
  cancelled : Follows prepared cancelled_before_cutover
  closed : Follows cutover completed
  overtaken : Follows cutover superseded

-- One record after another of the same rotation.
pub record Edge (a b : RotationRecord) : Type 0 where
  pub follows : Follows a.state b.state
  pub same_id : b.id ≡ a.id
  pub same_resource : b.resource ≡ a.resource
  pub had_room : length a.history < max_history
  pub entry : RotationTransition
  pub grown : b.history ≡ a.history ++ entry ∷ []
  pub entry_state : entry.state ≡ b.state

pub data Move (m : Mac) (c d : Rows) : Type 0 where
  stay : d ≡ c → Move m c d
  begun :
      (r : RotationRecord) (row : Sealed RotationRecord)
      → get r.id c ≡ none
      → open_rotation r.resource c ≡ none
      → r.state ≡ prepared
      → (t : RotationTransition) × (r.history ≡ t ∷ []) × (t.state ≡ prepared)
      → seal rotation_record m r 1 (key_of r.id) ≡ ok row
      → d ≡ insert r.id row c
      → Move m c d
  advanced :
      (id : ℕ) (old row : Sealed RotationRecord) (r : RotationRecord)
      → get id c ≡ some old
      → Edge old.value r
      → seal rotation_record m r (old.generation + 1) (key_of r.id) ≡ ok row
      → d ≡ insert r.id row c
      → Move m c d

pub map_err-eq-ok :
    {A E F : Type 0} (f : E → F) (r : Result E A) {a : A} → map_err f r ≡ ok a → r ≡ ok a
map_err-eq-ok f (ok b) h = ground arith
map_err-eq-ok f (err e) h = ground arith

-- The view of a row.
abbrev pub view_of : Sealed RotationRecord → RotationView
view_of row = record { rotation = row.value; generation = row.generation }

pub show_inner-cases :
    (m : Mac) (id : ℕ) (w : World)
    → ((e : RotationError) × (show_inner m id w ≡ (err e, w)))
      ⊎ ((row : Sealed RotationRecord) × (get id w.rotations.rows ≡ some row)
          × (show_inner m id w ≡ (ok (view_of row), w)))
unfolding show_inner ◌>>=◌
show_inner-cases m id w = elim (Option-cases (get id w.rotations.rows)) [
  | inl missing ↦ inl (not_found, rw missing refl)
  | inr (row, found) ↦ elim (Result-cases (verify rotation_record m row (key_of id))) [
    | inl (u, good) ↦ inr (row, found, rw (found, good) refl)
    | inr (e, bad) ↦ inl (integrity, rw (found, bad) refl)
  ]
]

install-ok :
    (m : Mac) (r : RotationRecord) (generation : ℕ) (w : World) (row : Sealed RotationRecord)
    → seal rotation_record m r generation (key_of r.id) ≡ ok row
    → install m r generation w ≡ (ok tt, put_row r.id row w)
unfolding install ◌>>=◌
install-ok m r generation w row e = rw e refl

install-err :
    (m : Mac) (r : RotationRecord) (generation : ℕ) (w : World) (e : CodecError)
    → seal rotation_record m r generation (key_of r.id) ≡ err e
    → install m r generation w ≡ (err invalid, w)
unfolding install ◌>>=◌
install-err m r generation w e h = rw h refl

-- The rules speak of a property of the rows.
module _ (P : Rows → Type 0) where
  abbrev pub R : World → Type 0
  R w = P w.rotations.rows

  pub managing_leads :
      {A B : Type 0} (a : Manage A) (f : A → Rotate B) (w : World)
      → R w
      → ((v : A) (management : ManagementCatalog)
          → R (f v (record w { management = management })).1)
      → R ((managing a >>= f) w).1
  unfolding managing
  managing_leads a f w h k = bind_leads R (managing a) f w h (λ v e. k v (a w.management).1)

  pub serving_leads :
      {A B : Type 0} (a : Kv A) (f : A → Rotate B) (w : World)
      → R w
      → ((v : A) (kv : KvCatalog) → R (f v (record w { kv = kv })).1)
      → R ((serving a >>= f) w).1
  unfolding serving
  serving_leads a f w h k = bind_leads R (serving a) f w h (λ v e. k v (a w.kv).1)

  module _ (m : Mac) where
    pub show_leads :
        {B : Type 0} (id : ℕ) (f : RotationView → Rotate B) (w : World)
        → R w
        → ((row : Sealed RotationRecord)
            → get id w.rotations.rows ≡ some row
            → R (f (view_of row) w).1)
        → R ((show_inner m id >>= f) w).1
    show_leads id f w h k = elim (show_inner-cases m id w) [
      | inl (e, failed) ↦ failed_leads R (show_inner m id) f w w e failed h
      | inr (row, found, returned) ↦
          returned_leads R (show_inner m id) f w w _ returned (k row found)
    ]

    pub install_leads :
        {B : Type 0} (r : RotationRecord) (generation : ℕ) (f : Unit {0} → Rotate B) (w : World)
        → R w
        → ((row : Sealed RotationRecord)
            → seal rotation_record m r generation (key_of r.id) ≡ ok row
            → R (f tt (put_row r.id row w)).1)
        → R ((install m r generation >>= f) w).1
    install_leads r generation f w h k =
        elim (Result-cases (seal rotation_record m r generation (key_of r.id))) [
          | inr (e, failed) ↦
              failed_leads R (install m r generation) f w w invalid
                (install-err m r generation w e failed) h
          | inl (row, sealed) ↦
              returned_leads R (install m r generation) f w _ tt
                (install-ok m r generation w row sealed) (k row sealed)
        ]

    pub show_ends : (id : ℕ) (w : World) → R w → R (show_inner m id w).1
    unfolding show_inner
    show_ends id w h = gets_leads R _ _ w (
        some_or_leads R _ _ _ w h
          (λ row e. lift_leads R _ _ w h (λ u v. pure_leads RotationError R _ w h)))

    pub finish_leads :
        (principal : ManagementPrincipal) (request_id : ℕ) (command : ControlCommand) (id : ℕ)
        (reason : Option Text) (w : World)
        → R w
        → R (finish m principal request_id command id reason w).1
    unfolding finish
    finish_leads principal request_id command id reason w h =
        modify_leads R _ _ w (managing_leads _ _ _ h (λ v management. show_ends id _ h))

    pub unless_completed_leads :
        (principal : ManagementPrincipal) (request_id : ℕ) (command : ControlCommand) (id : ℕ)
        (rest : Rotate RotationView) (w : World)
        → R w
        → ((management : ManagementCatalog) → R (rest (record w { management = management })).1)
        → R (unless_completed m principal request_id command id rest w).1
    unfolding unless_completed
    unless_completed_leads principal request_id command id rest w h k =
        managing_leads _ _ w h (λ v management.
          gets_leads R _ _ _ (when_leads R _ _ _ _ (λ e. show_ends id _ h) (λ e. k management)))
