-- ===== src/Rotation/Closing.antt =====
-- src/rotation.rs: what `complete` needs to close a rotation, and what it answers to a repeated request.
use mathlib.Core.List.{Memᴰ}
use ops_light_secrets_server.Prelude.{
  ℕ, ◌+◌, ◌≡◌, ◌∙◌, sym, ap, subst, Bool, true, false, not, ◌||◌, Option, some, List, [], is_empty,
  arith, ◌==◌, inl, inr, ◌⊎◌,
}
use ops_light_secrets_server.Prelude.Order.{nat_ord}
use ops_light_secrets_server.Prelude.Text.{Text}
use ops_light_secrets_server.Prelude.Search.{select-mem, mem-nonempty}
use ops_light_secrets_server.Prelude.Result.{ok}
use ops_light_secrets_server.Prelude.Action.{◌>>=◌, when, pure}
use ops_light_secrets_server.Prelude.Ends.{
  Ends, Ends-bind, Ends-pure, Ends-modify, lift_bind-Ends, gets_bind-Ends, modify_bind-Ends,
  some_or_bind-Ends, refuse_bind-Ends, when-Ends, Ends-of,
}
use ops_light_secrets_server.BTreeMap.{get, insert}
use ops_light_secrets_server.Store.Sealed.{Sealed, Mac, seal, verify}
use ops_light_secrets_server.Control.Commands.{rotation_lifecycle}
use ops_light_secrets_server.Control.Catalog.{ManagementPrincipal, authorize_command}
use ops_light_secrets_server.Control.Authorization.{Entitled, authorize_command_cases}
use ops_light_secrets_server.Rotation.Lifecycle.{
  RotationRecord, rotation_record, invalid, integrity, cutover,
}
use ops_light_secrets_server.Rotation.Lifecycle
use ops_light_secrets_server.Rotation.Catalog.{
  World, RotationView, Rotate, managing, was_completed, put_completed, install, show_inner, key_of,
  put_row,
}
use ops_light_secrets_server.Rotation.Service.{ended_record}
use ops_light_secrets_server.Rotation.Reads.{AdoptionMember}
use ops_light_secrets_server.Rotation.Closeout.{
  RotationCloseoutReport, complete, close, report, settled, unresolved, adoption_refused,
  reason_blank, closeout_warnings,
}
use ops_light_secrets_server.Rotation.Moves.{Rows, view_of, map_err-eq-ok}
use ops_light_secrets_server.Rotation.Guards.{require_state-fields, next-fields}

-- Each member that is listed has the class of one that took up the new version or was retired, or
-- else the request says that it goes on all the same, and why.
abbrev pub Adopted : List AdoptionMember → Bool → Option Text → Type 0
Adopted members acknowledged reason =
    (member : AdoptionMember)
    → Memᴰ member members
    → settled member.class ≡ false
    → (acknowledged ≡ true) × (reason_blank reason ≡ false)

-- What a rotation that is closed was, and what it became.
pub record Closed (m : Mac) (id expected current_version : ℕ) (members : List AdoptionMember)
    (acknowledged : Bool) (reason : Option Text) (now : ℕ) (c d : Rows) : Type 0 where
  pub old : Sealed RotationRecord
  pub found : get id c ≡ some old
  pub intact : verify rotation_record m old (key_of id) ≡ ok tt
  pub was_cut_over : old.value.state ≡ cutover
  pub generation : old.generation ≡ expected
  pub target : old.value.target_version ≡ some current_version
  pub adopted : Adopted members acknowledged reason
  pub row : Sealed RotationRecord
  pub sealed :
      seal rotation_record m
        (ended_record old.value Lifecycle.completed current_version now)
        (expected + 1)
        (key_of old.value.id)
      ≡ ok row
  pub stored : d ≡ insert old.value.id row c

Adopted-guard :
    (members : List AdoptionMember) (acknowledged : Bool) (reason : Option Text)
    → adoption_refused members acknowledged reason ≡ false
    → Adopted members acknowledged reason
unfolding adoption_refused unresolved
Adopted-guard members acknowledged reason h member at unsettled =
    let open_ : is_empty (unresolved members) ≡ false =
      mem-nonempty member (unresolved members)
        (select-mem (λ x. not (settled x.class)) members member at (ap not unsettled)) in
    both acknowledged (reason_blank reason) (ground (arith, h, open_))
  where
    both : (a b : Bool) → (not a || b) ≡ false → (a ≡ true) × (b ≡ false)
    both a b e = (ground arith, ground arith)

pub show_bind-Ends :
    {B : Type 0} (m : Mac) (id : ℕ) (f : RotationView → Rotate B) {w u : World} {b : B}
    → Ends (show_inner m id >>= f) w b u
    → (row : Sealed RotationRecord) × (get id w.rotations.rows ≡ some row)
      × (verify rotation_record m row (key_of id) ≡ ok tt)
      × Ends (f (view_of row)) w b u
unfolding show_inner
show_bind-Ends m id f {w} {u} {b} h =
    let (view, x, s, rest) = Ends-bind _ f h in
    let (row, found, k) = some_or_bind-Ends _ _ _ (gets_bind-Ends _ _ s) in
    let (_, good, l) = lift_bind-Ends _ _ k in
    let (e, same) = Ends-pure (view_of row) l in
    (
      row,
      found,
      map_err-eq-ok _ _ good,
      subst (λ y. Ends (f y) w b u) e (subst (λ y. Ends (f view) y b u) same rest),
    )

pub install_bind-Ends :
    {B : Type 0} (m : Mac) (r : RotationRecord) (generation : ℕ) (f : Unit {0} → Rotate B)
    {w u : World} {b : B}
    → Ends (install m r generation >>= f) w b u
    → (row : Sealed RotationRecord) × (seal rotation_record m r generation (key_of r.id) ≡ ok row)
      × Ends (f tt) (put_row r.id row w) b u
unfolding install
install_bind-Ends m r generation f {w} {u} {b} h =
    let (_, x, s, rest) = Ends-bind _ f h in
    let (row, sealed, k) = lift_bind-Ends _ _ s in
    (
      row,
      map_err-eq-ok _ _ sealed,
      subst (λ y. Ends (f tt) y b u) (Ends-modify (put_row r.id row) k) rest,
    )

module _ (m : Mac) (principal : ManagementPrincipal) (request_id id expected current_version : ℕ)
    (members : List AdoptionMember) (acknowledged : Bool) (reason : Option Text) (now : ℕ) where
  authorized-Ends :
      {w u : World} {x : Unit {0}}
      → Ends (managing (authorize_command principal rotation_lifecycle request_id)) w x u
      → Entitled principal rotation_lifecycle w.management × (u ≡ w)
  unfolding managing
  authorized-Ends {w} h =
      elim (authorize_command_cases principal rotation_lifecycle request_id w.management) [
        | inl (entitled, passed) ↦
            (entitled, sym h.left ∙ ap (λ a. record w { management = a.1 }) passed)
        | inr (not_, refused) ↦
            let r = h.returned in absurd (ground (arith, r, ap (λ a. a.0) refused))
      ]

  close-Closed :
      {w u : World} {r : RotationCloseoutReport}
      → Ends
          (close m principal request_id id expected current_version members acknowledged reason now)
          w
          r
          u
      → (r ≡ report id acknowledged (closeout_warnings acknowledged))
        × Closed m id expected current_version members acknowledged reason now w.rotations.rows
            u.rotations.rows
  unfolding close managing
  close-Closed {w} {u} h =
      let (_, _, h1) = lift_bind-Ends _ _ h in
      let (old, found, intact, h2) = show_bind-Ends m id _ h1 in
      let (_, guarded, h3) = lift_bind-Ends _ _ h2 in
      let (generation, in_state) = require_state-fields (view_of old) expected cutover guarded in
      let (_, _, h4) = lift_bind-Ends _ _ h3 in
      let (target, has_target, h5) = some_or_bind-Ends old.value.target_version _ _ h4 in
      let (is_current, h6) = refuse_bind-Ends (not (current_version == target)) _ _ h5 in
      let (adopted, h7) = refuse_bind-Ends (adoption_refused members acknowledged reason) _ _ h6 in
      let (next_, bumped, h8) = lift_bind-Ends _ _ h7 in
      let (row, sealed, h9) =
        install_bind-Ends m (ended_record old.value Lifecycle.completed target now) next_ _ h8 in
      let (_, w3, recorded, h10) =
        Ends-bind _ _ (modify_bind-Ends (put_completed request_id rotation_lifecycle id) _ h9) in
      let (answer, same) = Ends-pure _ h10 in
      let it : target ≡ current_version = ground (arith, is_current) in
      (
        answer,
        record {
          old = old;
          found = found;
          intact = intact;
          was_cut_over = in_state;
          generation = generation;
          target = has_target ∙ ap some it;
          adopted = Adopted-guard members acknowledged reason adopted;
          row = row;
          sealed =
              subst
                (λ t.
                  seal rotation_record m (ended_record old.value Lifecycle.completed t now)
                    (expected + 1) (key_of old.value.id)
                  ≡ ok row)
                it
                (subst
                  (λ n.
                    seal rotation_record m (ended_record old.value Lifecycle.completed target now) n
                      (key_of old.value.id)
                    ≡ ok row)
                  (next-fields expected next_ bumped) sealed);
          stored = ap (λ x. x.rotations.rows) same ∙ sym (ap (λ x. x.rotations.rows) recorded.left);
        },
      )

  -- A rotation is reported closed to a principal who is entitled to its command, in one of two cases.
  -- The request id was used before for the command on this rotation, and nothing changes. Or else
  -- the rotation, with an intact seal, was cut over, in the generation that the request names and to
  -- the version that the request gives as the current one, and each member that the request lists
  -- has the class of one that took up that version or was retired, unless the request acknowledges
  -- the rest with a reason that is not blank; then it is stored as completed, one generation on.
  pub complete_sound :
      (w u : World) (r : RotationCloseoutReport)
      → complete m principal request_id id expected current_version members acknowledged reason now
          w
        ≡ (ok r, u)
      → Entitled principal rotation_lifecycle w.management
        × (((was_completed request_id rotation_lifecycle id w ≡ true)
              × (r ≡ report id acknowledged [])
              × (u ≡ w))
            ⊎ ((was_completed request_id rotation_lifecycle id w ≡ false)
                × (r ≡ report id acknowledged (closeout_warnings acknowledged))
                × Closed m id expected current_version members acknowledged reason now
                    w.rotations.rows u.rotations.rows))
  unfolding complete
  complete_sound w u r h =
      let (_, x, allowed, k) = Ends-bind _ _ (Ends-of _ h) in
      let (entitled, same) = authorized-Ends allowed in
      let closing =
        close m principal request_id id expected current_version members acknowledged reason now in
      let rest =
        subst
          (λ y.
            Ends
              (when (was_completed request_id rotation_lifecycle id y)
                (pure (report id acknowledged [])) closing)
              y r u)
          same (gets_bind-Ends _ _ k) in
      (
        entitled,
        elim (when-Ends (was_completed request_id rotation_lifecycle id w)
            (pure (report id acknowledged [])) closing rest) [
              | inl (used, done) ↦ let (answer, left) = Ends-pure _ done in inl (used, answer, left)
              | inr (fresh, done) ↦
                  let (answer, closed) = close-Closed done in inr (fresh, answer, closed)
            ],
      )
