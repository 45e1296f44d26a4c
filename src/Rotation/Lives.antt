-- ===== src/Rotation/Lives.antt =====
-- src/rotation.rs: the invariant of the rows: each rotation has lived along the lifecycle, under an
-- intact seal, and at most one rotation of a resource is open.
use ops_light_secrets_server.Prelude.{
  ℕ, ◌+◌, ◌≡◌, ◌∙◌, refl, sym, ap, subst, Bool, true, false, none, some, List, [], ◌∷◌, ◌++◌,
  length, find, arith, inl, inr, length-append,
}
use ops_light_secrets_server.Prelude.Order.{nat_ord}
use ops_light_secrets_server.Prelude.Text.{text_eq, text_eq_iff}
use ops_light_secrets_server.Prelude.Result.{ok, require, >>=-eq-ok}
use ops_light_secrets_server.BTreeMap.{get, insert, values}
use ops_light_secrets_server.Kv.Service.{Json}
use ops_light_secrets_server.Codec.{CodecError}
use ops_light_secrets_server.Codec
use ops_light_secrets_server.Store.Sealed.{Sealed, Mac, seal, verify, seal-fields, verify-seal}
use ops_light_secrets_server.Control.Rows.{get-insert_cases}
use ops_light_secrets_server.Rotation.Lifecycle.{
  RotationLifecycle, RotationRecord, RotationTransition, rotation_record, encode_record,
  record_valid, prepared,
}
use ops_light_secrets_server.Rotation.Catalog.{World, new_rotations, key_of, is_open, open_rotation}
use ops_light_secrets_server.Rotation.Moves.{
  Rows, Follows, refreshed, cut_over, cancelled, closed, overtaken, Edge, Move, stay, begun,
  advanced,
}
use ops_light_secrets_server.Rotation.History.{Call, run, run_keeps}

-- A history along the lifecycle, which ends in a state.
pub data Life : List RotationTransition → RotationLifecycle → Type 0 where
  born : (t : RotationTransition) → t.state ≡ prepared → Life (t ∷ []) prepared
  grown :
      {h : List RotationTransition} {s : RotationLifecycle}
      → Life h s
      → (t : RotationTransition) (state : RotationLifecycle) → Follows s state
      → t.state ≡ state
      → (longer : List RotationTransition) → longer ≡ h ++ t ∷ []
      → Life longer state

pub record RowOk (m : Mac) (id : ℕ) (row : Sealed RotationRecord) : Type 0 where
  pub own_key : row.value.id ≡ id
  pub intact : verify rotation_record m row (key_of id) ≡ ok tt
  pub valid : record_valid row.value ≡ true
  pub life : Life row.value.history row.value.state
  pub counted : row.generation ≡ length row.value.history

require-ok : (b : Bool) (e : CodecError) {u : Unit {0}} → require b e ≡ ok u → b ≡ true
require-ok true e h = refl
require-ok false e h = ground arith

encode_record-valid :
    (r : RotationRecord) (encoded : List ℕ) → encode_record r ≡ ok encoded → record_valid r ≡ true
unfolding encode_record
encode_record-valid r encoded h =
    let (u, e, k) = >>=-eq-ok (require (record_valid r) Codec.invalid) _ h in
    require-ok (record_valid r) Codec.invalid e

-- A row that was just sealed is as it should be.
sealed-RowOk :
    (m : Mac) (r : RotationRecord) (generation : ℕ) (row : Sealed RotationRecord)
    → seal rotation_record m r generation (key_of r.id) ≡ ok row
    → Life r.history r.state
    → generation ≡ length r.history
    → RowOk m r.id row
sealed-RowOk m r generation row h life counted =
    let (value, gen, e) = seal-fields rotation_record m r generation (key_of r.id) row h in
    record {
      own_key = ap (λ x. x.id) value;
      intact = verify-seal rotation_record m r generation (key_of r.id) row h;
      valid = ap record_valid value ∙ encode_record-valid r e.0 e.1;
      life = subst (λ x. Life x.history x.state) (sym value) life;
      counted = gen ∙ (counted ∙ sym (ap (λ x. length x.history) value));
    }

pub record RowsOk (m : Mac) (rows : Rows) : Type 0 where
  pub row_at : (id : ℕ) (row : Sealed RotationRecord) → get id rows ≡ some row → RowOk m id row
  pub one_open :
      (i j : ℕ) (a b : Sealed RotationRecord)
      → get i rows ≡ some a
      → get j rows ≡ some b
      → is_open a.value.state ≡ true
      → is_open b.value.state ≡ true
      → a.value.resource ≡ b.value.resource
      → i ≡ j

-- A new row that is in order, and whose resource no other open row has.
insert-RowsOk :
    (m : Mac) (id : ℕ) (row : Sealed RotationRecord) (rows : Rows)
    → RowsOk m rows
    → RowOk m id row
    → ((j : ℕ) (b : Sealed RotationRecord)
        → get j rows ≡ some b
        → is_open row.value.state ≡ true
        → is_open b.value.state ≡ true
        → b.value.resource ≡ row.value.resource
        → id ≡ j)
    → RowsOk m (insert id row rows)
insert-RowsOk m id row rows h good alone = record { row_at = at; one_open = single }
  where
    at : (j : ℕ) (b : Sealed RotationRecord) → get j (insert id row rows) ≡ some b → RowOk m j b
    at j b k = elim (get-insert_cases id j row b rows k) [
      | inl (same, new) ↦ subst (λ x. RowOk m x b) same (subst (RowOk m id) new good)
      | inr old ↦ h.row_at j b old
    ]

    single :
        (i j : ℕ) (a b : Sealed RotationRecord)
        → get i (insert id row rows) ≡ some a
        → get j (insert id row rows) ≡ some b
        → is_open a.value.state ≡ true
        → is_open b.value.state ≡ true
        → a.value.resource ≡ b.value.resource
        → i ≡ j
    single i j a b k l o p e = elim (get-insert_cases id i row a rows k) [
      | inl (same, new) ↦ elim (get-insert_cases id j row b rows l) [
        | inl (same', new') ↦ sym same ∙ same'
        | inr old ↦
            sym same
            ∙ alone j b old (subst (λ x. is_open x.value.state ≡ true) (sym new) o) p
                (sym e ∙ sym (ap (λ x. x.value.resource) new))
      ]
      | inr old ↦ elim (get-insert_cases id j row b rows l) [
        | inl (same', new') ↦
            sym (
              alone i a old (subst (λ x. is_open x.value.state ≡ true) (sym new') p) o
                (e ∙ sym (ap (λ x. x.value.resource) new')))
            ∙ same'
        | inr old' ↦ h.one_open i j a b old old' o p e
      ]
    ]

find-none-get :
    (p : Sealed RotationRecord → Bool) (rows : Rows) (j : ℕ) (b : Sealed RotationRecord)
    → find p (values rows) ≡ none
    → get j rows ≡ some b
    → p b ≡ false
unfolding values get
find-none-get p [] j b h e = ground arith
find-none-get p ((k, w) ∷ rows) j b h e = ground (arith, find-none-get p rows j b)

open-after : (a b : RotationRecord) → Edge a b → is_open b.state ≡ true → is_open a.state ≡ true
open-after a b h o = start a.state b.state h.follows
  where
    start : (s t : RotationLifecycle) → Follows s t → is_open s ≡ true
    start s t refreshed = refl
    start s t cut_over = refl
    start s t cancelled = refl
    start s t closed = refl
    start s t overtaken = refl

pub Move-RowsOk : (m : Mac) (c d : Rows) → Move m c d → RowsOk m c → RowsOk m d
unfolding open_rotation
Move-RowsOk m c d (stay e) h = subst (RowsOk m) (sym e) h
Move-RowsOk m c d (begun r row free none_open s (t, whole, ts) sealed e) h =
    subst (RowsOk m) (sym e) (
      insert-RowsOk m r.id row c h
        (sealed-RowOk m r 1 row sealed
          (subst (λ x. Life x r.state) (sym whole) (subst (Life (t ∷ [])) (sym s) (born t ts)))
          (sym (ap length whole)))
        (λ j b k o p same.
          let (value, _, _) = seal-fields rotation_record m r 1 (key_of r.id) row sealed in
          let closed_ = find-none-get _ c j b none_open k in
          let named : text_eq b.value.resource r.resource ≡ true =
            (text_eq_iff _ _).1 (same ∙ ap (λ x. x.resource) value) in
          absurd (ground (arith, closed_, named, p))))
Move-RowsOk m c d (advanced id old row r found step sealed e) h =
    let was = h.row_at id old found in
    let own : r.id ≡ id = step.same_id ∙ was.own_key in
    let (value, _, _) =
      seal-fields rotation_record m r (old.generation + 1) (key_of r.id) row sealed in
    subst (RowsOk m) (sym e) (
      insert-RowsOk m r.id row c h
        (sealed-RowOk m r (old.generation + 1) row sealed
          (grown was.life step.entry r.state step.follows step.entry_state r.history step.grown)
          (ap (λ x. x + 1) was.counted
            ∙ sym (ap length step.grown ∙ length-append old.value.history (step.entry ∷ []))))
        (λ j b k o p same.
          own
          ∙ h.one_open id j old b found k
              (open-after old.value r step (subst (λ x. is_open x.state ≡ true) value o)) p
              (sym step.same_resource ∙ sym (ap (λ x. x.resource) value) ∙ sym same)))

-- The catalog that the server starts with is in order.
pub new_rotations-RowsOk : (m : Mac) → RowsOk m new_rotations.rows
unfolding new_rotations get
new_rotations-RowsOk m = record {
  row_at = λ id row h. absurd (ground (arith, h));
  one_open = λ i j a b h k p q e. absurd (ground (arith, h));
}

-- Whatever calls reach a catalog, in whatever order, with whatever happens to the control plane and the
-- secrets in between: if it was in order it stays so, which means that each rotation is stored under its id, its seal verifies, its record is valid,
-- its history is a walk along the lifecycle that ends in its state, its generation counts the entries
-- of the history, and no two rotations of one resource are open at once.
pub run-RowsOk :
    (json : Json) (m : Mac) (calls : List Call) (w : World)
    → RowsOk m w.rotations.rows
    → RowsOk m (run json m calls w).rotations.rows
run-RowsOk json m = run_keeps json m (RowsOk m) (λ c d s h. Move-RowsOk m c d s h)
