-- ===== src/Rotation/Progress.antt =====
-- src/rotation.rs: a rotation goes forward only, and not without end.
use ops_light_secrets_server.Prelude.{
  ℕ, ◌+◌, ◌≤◌, ◌≡◌, ◌∙◌, refl, sym, ap, subst, Bool, true, false, not, ◌&&◌, some, List, length,
  arith, ltb, ◌==◌, is_empty, is_some, Bool-cases, inl, inr,
}
use ops_light_secrets_server.Prelude.Order.{nat_ord}
use ops_light_secrets_server.Prelude.Result.{is_ok}
use ops_light_secrets_server.BTreeMap.{get, insert}
use ops_light_secrets_server.BTreeMap.Laws.{get-insert_self}
use ops_light_secrets_server.Kv.Service.{Json}
use ops_light_secrets_server.Store.Sealed.{Sealed, Mac, seal-fields}
use ops_light_secrets_server.Control.Finality.{get-insert_other}
use ops_light_secrets_server.Rotation.Lifecycle.{
  RotationLifecycle, RotationRecord, rotation_record, record_valid, terminal, max_history,
  endpoint_for, last_is, same_bool, before_cutover,
}
use ops_light_secrets_server.Rotation.Catalog.{World, key_of}
use ops_light_secrets_server.Rotation.Moves.{
  Rows, Follows, refreshed, cut_over, cancelled, closed, overtaken, Move, stay, begun, advanced,
}
use ops_light_secrets_server.Rotation.History.{Call, run, run_keeps}
use ops_light_secrets_server.Rotation.Lives.{RowsOk, Move-RowsOk}

-- Nothing follows the end of a rotation.
Follows-open : (s t : RotationLifecycle) → Follows s t → terminal s ≡ false
unfolding terminal
Follows-open s t refreshed = refl
Follows-open s t cut_over = refl
Follows-open s t cancelled = refl
Follows-open s t closed = refl
Follows-open s t overtaken = refl

-- A row that was there, after a move: the same, or a later generation.
data Later (a b : Sealed RotationRecord) : Type 0 where
  same : b ≡ a → Later a b
  later : b.generation ≡ a.generation + 1 → terminal a.value.state ≡ false → Later a b

Move-Later :
    (m : Mac) (id : ℕ) (a : Sealed RotationRecord) (c d : Rows)
    → Move m c d
    → RowsOk m c
    → get id c ≡ some a
    → (b : Sealed RotationRecord) × (get id d ≡ some b) × Later a b
Move-Later m id a c d (stay e) h k = (a, subst (λ x. get id x ≡ some a) (sym e) k, same refl)
Move-Later m id a c d (begun r row free none_open s w sealed e) h k = (
  a,
  subst (λ x. get id x ≡ some a) (sym e)
      (get-insert_other r.id id row a c k (λ at.
        let here : get r.id c ≡ some a = subst (λ x. get x c ≡ some a) (sym at) k in
        ground (arith, free, here))),
  same refl,
)
Move-Later m id a c d (advanced i old row r found step sealed e) h k =
    let was = h.row_at i old found in
    let own : r.id ≡ i = step.same_id ∙ was.own_key in
    let (value, gen, _) =
      seal-fields rotation_record m r (old.generation + 1) (key_of r.id) row sealed in
    elim (Bool-cases (r.id == id)) [
      | inr other ↦ (
        a,
        subst (λ x. get id x ≡ some a) (sym e)
            (get-insert_other r.id id row a c k (λ at. ground (arith, other, at))),
        same refl,
      )
      | inl hit ↦
          let at : r.id ≡ id = ground (arith, hit) in
          let here : get id c ≡ some old = subst (λ x. get x c ≡ some old) (sym own ∙ at) found in
          let it : old ≡ a = ground (arith, here, k) in
          (
            row,
            subst (λ x. get id x ≡ some row) (sym e)
                (subst (λ x. get x (insert r.id row c) ≡ some row) at (get-insert_self r.id row c)),
            later (gen ∙ ap (λ x. x.generation + 1) it) (
                ap (λ x. terminal x.value.state) (sym it)
                ∙ Follows-open old.value.state r.state step.follows),
          )
    ]

-- The eighth of the eleven tests of `validate`, the others taken together where they can be.
eighth : (front over l s b : Bool) → (front && not over && l && s && b) ≡ true → over ≡ false
eighth true false l s b h = refl
eighth true true l s b h = ground arith
eighth false over l s b h = ground arith

-- The bound on the length of the history of a valid record.
valid-history : (r : RotationRecord) → record_valid r ≡ true → length r.history ≤ max_history
unfolding record_valid
valid-history r h =
    let within =
      eighth
        (not (r.id == 0)
          && not (r.actor_identity_id == 0)
          && is_ok (endpoint_for r.resource)
          && not (r.protected_version == 0)
          && not (r.expected_cas == 0)
          && not (r.prepared_unix_seconds == 0)
          && not (is_empty r.history))
        (ltb max_history (length r.history)) (last_is r.state r.history)
        (same_bool (is_some r.target_version) (is_some r.cutover_unix_seconds))
        (not (before_cutover r.state && is_some r.target_version)) h in
    ground (arith, within)

-- What came of a row: it is there, not in an earlier generation, and as it was if it is in the same
-- generation.
record Since (m : Mac) (id : ℕ) (a : Sealed RotationRecord) (rows : Rows) : Type 0 where
  ok_rows : RowsOk m rows
  now : Sealed RotationRecord
  there : get id rows ≡ some now
  not_before : a.generation ≤ now.generation
  no_change : now.generation ≡ a.generation → now ≡ a
  ended : terminal a.value.state ≡ true → now ≡ a

Move-Since :
    (m : Mac) (id : ℕ) (a : Sealed RotationRecord) (c d : Rows)
    → Move m c d
    → Since m id a c
    → Since m id a d
Move-Since m id a c d move h =
    let (b, there, change) = Move-Later m id h.now c d move h.ok_rows h.there in go b there change
  where
    go : (b : Sealed RotationRecord) → get id d ≡ some b → Later h.now b → Since m id a d
    go b there (same e) = record {
      ok_rows = Move-RowsOk m c d move h.ok_rows;
      now = b;
      there = there;
      not_before = subst (λ x. a.generation ≤ x.generation) (sym e) h.not_before;
      no_change = λ g. e ∙ h.no_change (ap (λ x. x.generation) (sym e) ∙ g);
      ended = λ t. e ∙ h.ended t;
    }
    go b there (later grew unended) = record {
      ok_rows = Move-RowsOk m c d move h.ok_rows;
      now = b;
      there = there;
      not_before = omega (arith, grew, h.not_before);
      no_change = λ g. absurd (omega (arith, grew, h.not_before, g));
      ended = λ t.
          let still = h.ended t in
          absurd (ground (arith, unended, ap (λ x. terminal x.value.state) still, t));
    }

-- A rotation goes forward only, and at most 31 times: in a catalog that was in order, whatever calls
-- come, a rotation stays there, its generation does not go back and does not pass 32, the record of one
-- generation is never replaced by another of the same generation, and a rotation that has ended
-- stays as it is.
pub run-progress :
    (json : Json) (m : Mac) (calls : List Call) (w : World) (id : ℕ) (a : Sealed RotationRecord)
    → RowsOk m w.rotations.rows
    → get id w.rotations.rows ≡ some a
    → (b : Sealed RotationRecord) × (get id (run json m calls w).rotations.rows ≡ some b)
      × (a.generation ≤ b.generation)
      × (b.generation ≤ 32)
      × (b.generation ≡ a.generation → b ≡ a)
      × (terminal a.value.state ≡ true → b ≡ a)
run-progress json m calls w id a h k =
    let start : Since m id a w.rotations.rows = record {
      ok_rows = h;
      now = a;
      there = k;
      not_before = omega arith;
      no_change = λ g. refl;
      ended = λ t. refl;
    } in
    let end = run_keeps json m (Since m id a) (λ c d s. Move-Since m id a c d s) calls w start in
    let row = end.ok_rows.row_at id end.now end.there in
    (
      end.now,
      end.there,
      end.not_before,
      omega (arith, row.counted, valid-history end.now.value row.valid),
      end.no_change,
      end.ended,
    )
