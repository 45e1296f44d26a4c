-- ===== src/Rotation/Guards.antt =====
-- src/rotation.rs: the guards that the methods have in common, and the moves that they allow.
use ops_light_secrets_server.Prelude.{
  ℕ, ◌+◌, ◌<◌, ◌≡◌, ◌∙◌, refl, sym, ap, subst, false, Option, none, some, [], ◌∷◌, ◌++◌, length,
  is_some, arith,
}
use ops_light_secrets_server.Prelude.Order.{nat_ord}
use ops_light_secrets_server.Prelude.Result.{ok}
use ops_light_secrets_server.Prelude.Action.{◌>>=◌, lift}
use ops_light_secrets_server.Prelude.Leads.{lift_leads}
use ops_light_secrets_server.RawTarget.{EndpointRequest}
use ops_light_secrets_server.BTreeMap.{get, insert}
use ops_light_secrets_server.Store.Sealed.{Sealed, Mac, seal}
use ops_light_secrets_server.Control.Catalog.{ManagementCatalog}
use ops_light_secrets_server.Rotation.Lifecycle.{
  RotationLifecycle, RotationRecord, RotationTransition, endpoint_for, rotation_record,
  lifecycle_eq, lifecycle_code, max_history,
}
use ops_light_secrets_server.Rotation.Catalog.{
  RotationView, World, Rotate, require_state, ensure_history_room, next, key_of, refuse_open,
  show_inner,
}
use ops_light_secrets_server.Rotation.Moves.{
  Rows, Follows, Edge, Move, stay, advanced, R, view_of, show_leads,
}

-- What the guards of a method establish.
pub require_state-fields :
    (view : RotationView) (generation : ℕ) (state : RotationLifecycle) {u : Unit {0}}
    → require_state view generation state ≡ ok u
    → (view.generation ≡ generation) × (view.rotation.state ≡ state)
unfolding require_state lifecycle_eq lifecycle_code
require_state-fields view generation state h = ground arith

pub ensure_history_room-fields :
    (view : RotationView) {u : Unit {0}}
    → ensure_history_room view ≡ ok u
    → length view.rotation.history < max_history
unfolding ensure_history_room
ensure_history_room-fields view h = ground arith

pub next-fields : (value n : ℕ) → next value ≡ ok n → n ≡ value + 1
unfolding next
next-fields value n h = ground arith

pub refuse_open-none :
    (o : Option (Sealed RotationRecord)) {u : Unit {0}} → refuse_open o ≡ ok u → o ≡ none
unfolding refuse_open
refuse_open-none none h = refl
refuse_open-none (some row) h = ground arith

pub none_of : {V : Type 0} (o : Option V) → is_some o ≡ false → o ≡ none
none_of none h = refl
none_of (some v) h = ground arith

module _ (m : Mac) (w : World) where
  abbrev pub Moved : Rows → Type 0
  Moved d = Move m w.rotations.rows d

  abbrev pub still : Moved w.rotations.rows
  still = stay refl

  -- The guards that the methods on a row have in common, and what they establish of it.
  pub record Guarded (id expected generation : ℕ) (state : RotationLifecycle)
      (old : Sealed RotationRecord) : Type 0 where
    pub found : get id w.rotations.rows ≡ some old
    pub current : old.generation ≡ expected
    pub in_state : old.value.state ≡ state
    pub had_room : length old.value.history < max_history
    pub bumped : next expected ≡ ok generation

  pub guarded :
      {B : Type 0} (id expected : ℕ) (state : RotationLifecycle)
      (f : RotationView → ℕ → EndpointRequest → Rotate B) (management : ManagementCatalog)
      → ((old : Sealed RotationRecord) (generation : ℕ) (endpoint : EndpointRequest)
          → Guarded id expected generation state old
          → R Moved (f (view_of old) generation endpoint (record w { management = management })).1)
      → R Moved
          ((show_inner m id >>= λ current. lift (require_state current expected state) >>= λ _.
              lift (ensure_history_room current) >>= λ _. lift (next expected) >>= λ generation.
              lift (endpoint_for current.rotation.resource) >>= λ endpoint.
              f current generation endpoint)
            (record w { management = management })).1
  guarded id expected state f management k = show_leads Moved m id _ _ still (λ old found.
      lift_leads (R Moved) _ _ _ still (λ u1 e1. lift_leads (R Moved) _ _ _ still (λ u2 e2.
        lift_leads (R Moved) _ _ _ still (λ generation e3.
          lift_leads (R Moved) _ _ _ still (λ endpoint e4.
            let (a, b) = require_state-fields (view_of old) expected state e1 in
            k old generation endpoint (record {
              found = found;
              current = a;
              in_state = b;
              had_room = ensure_history_room-fields (view_of old) e2;
              bumped = e3;
            }))))))

  -- The end of a method that installs a record after the one it saw.
  pub advance :
      (id generation expected : ℕ) (state : RotationLifecycle) (old row : Sealed RotationRecord)
      (r : RotationRecord)
      → Guarded id expected generation state old
      → Edge old.value r
      → seal rotation_record m r generation (key_of r.id) ≡ ok row
      → Moved (insert r.id row w.rotations.rows)
  advance id generation expected state old row r h edge sealed =
      let e : generation ≡ old.generation + 1 =
        next-fields expected generation h.bumped ∙ ap (λ x. x + 1) (sym h.current) in
      advanced id old row r h.found edge
        (subst (λ n. seal rotation_record m r n (key_of r.id) ≡ ok row) e sealed) refl

  pub edge :
      (id generation expected : ℕ) (state : RotationLifecycle) (old : Sealed RotationRecord)
      (r : RotationRecord) (entry : RotationTransition)
      → Guarded id expected generation state old
      → Follows state r.state
      → r.id ≡ old.value.id
      → r.resource ≡ old.value.resource
      → r.history ≡ old.value.history ++ entry ∷ []
      → entry.state ≡ r.state
      → Edge old.value r
  edge id generation expected state old r entry h follows same_id same_resource grown entry_state =
      record {
        follows = subst (λ s. Follows s r.state) (sym h.in_state) follows;
        same_id = same_id;
        same_resource = same_resource;
        had_room = h.had_room;
        entry = entry;
        grown = grown;
        entry_state = entry_state;
      }
