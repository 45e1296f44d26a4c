-- ===== src/Rotation/Settled.antt =====
-- src/rotation.rs: what `complete` needs when it is given what `classify_adoption` says of the rotation.
use mathlib.Core.List.{Memᴰ}
use ops_light_secrets_server.Prelude.{
  ℕ, ◌≡◌, refl, ap, subst, Bool, true, false, not, ◌&&◌, Option, some, List, [], ◌∷◌, ◌++◌, map,
  select, option_eq, ltb, ◌==◌, ==_iff, arith, inl, inr, ◌⊎◌, Bool-cases, if◌then◌else◌,
}
use Prim.Native.Nat.Ordering.{lt, eq, gt}
use Prim.Native.Nat.{Ordering}
use ops_light_secrets_server.Prelude.Order.{nat_ord}
use ops_light_secrets_server.Prelude.Text.{Text}
use ops_light_secrets_server.Prelude.Search.{any_sound}
use ops_light_secrets_server.Prelude.Result.{Result, ok, >>=-eq-ok, refuse}
use ops_light_secrets_server.BTreeMap.{BTreeMap, get}
use ops_light_secrets_server.Store.Sealed.{Sealed, Mac}
use ops_light_secrets_server.Control.Commands.{rotation_lifecycle}
use ops_light_secrets_server.Control.Catalog.{ManagementPrincipal}
use ops_light_secrets_server.Rotation.Lifecycle.{RotationRecord, RotationError, invalid}
use ops_light_secrets_server.Rotation.Catalog.{World, RotationSnapshotInput, was_completed}
use ops_light_secrets_server.Rotation.Reads.{
  AdoptionClass, AdoptionMember, ReadObservation, on_current, retired_without_proof, class_code,
  class_eq, latest_class, contains_id, classify_instance,
}
use ops_light_secrets_server.Rotation.Adoption.{
  classify_adoption, sort_members, insert_member, member_cmp, instance_members,
}
use ops_light_secrets_server.Rotation.Closeout.{
  RotationCloseoutReport, complete, settled, reason_blank,
}
use ops_light_secrets_server.Rotation.Overview.{snapshot_of}
use ops_light_secrets_server.Rotation.Closing.{Adopted, complete_sound}
use ops_light_secrets_server.Rotation.Rollup.{class_code-of}
use ops_light_secrets_server.Rotation.Uptake.{Fetched}
use ops_light_secrets_server.Rotation.Current.{instance_of, instance-current, window}

-- Sorting loses no member.
insert_member-mem :
    (x y : AdoptionMember) (ys : List AdoptionMember)
    → Memᴰ x (y ∷ ys)
    → Memᴰ x (insert_member y ys)
unfolding insert_member
insert_member-mem x y [] m = m
insert_member-mem x y (z ∷ ys) m = go (member_cmp y z) refl (λ k. insert_member-mem x y ys k) m
  where
    go :
        (o : Ordering)
        → member_cmp y z ≡ o
        → (Memᴰ x (y ∷ ys) → Memᴰ x (insert_member y ys))
        → Memᴰ x (y ∷ z ∷ ys)
        → Memᴰ x (insert_member y (z ∷ ys))
    go lt e rest k = rw (insert_member, e) k
    go eq e rest k = rw (insert_member, e) k
    go gt e rest (Memᴰ.head h) = rw (insert_member, e) (Memᴰ.tail (rest (Memᴰ.head h)))
    go gt e rest (Memᴰ.tail (Memᴰ.head h)) = rw (insert_member, e) (Memᴰ.head h)
    go gt e rest (Memᴰ.tail (Memᴰ.tail n)) = rw (insert_member, e) (Memᴰ.tail (rest (Memᴰ.tail n)))

sort_members-mem :
    (x : AdoptionMember) (ys : List AdoptionMember) → Memᴰ x ys → Memᴰ x (sort_members ys)
unfolding sort_members
sort_members-mem x [] m = m
sort_members-mem x (y ∷ ys) (Memᴰ.head e) = insert_member-mem x y (sort_members ys) (Memᴰ.head e)
sort_members-mem x (y ∷ ys) (Memᴰ.tail m) =
    insert_member-mem x y (sort_members ys) (Memᴰ.tail (sort_members-mem x ys m))

append-mem : {A : Type 0} (x : A) (xs ys : List A) → Memᴰ x xs → Memᴰ x (xs ++ ys)
append-mem x [] ys m = elim m [ ]
append-mem x (z ∷ xs) ys (Memᴰ.head e) = Memᴰ.head e
append-mem x (z ∷ xs) ys (Memᴰ.tail m) = Memᴰ.tail (append-mem x xs ys m)

map-mem : {A B : Type 0} (f : A → B) (x : A) (xs : List A) → Memᴰ x xs → Memᴰ (f x) (map f xs)
map-mem f x [] m = elim m [ ]
map-mem f x (z ∷ xs) (Memᴰ.head e) = Memᴰ.head (ap f e)
map-mem f x (z ∷ xs) (Memᴰ.tail m) = Memᴰ.tail (map-mem f x xs m)

-- A settled class is one of two.
settled-cases :
    (c : AdoptionClass) → settled c ≡ true → (c ≡ on_current) ⊎ (c ≡ retired_without_proof)
settled-cases c h = elim (Bool-cases (class_eq c on_current)) [
  | inl current ↦ inl (class_code-of c on_current current)
  | inr other ↦ inr (class_code-of c retired_without_proof (ground (arith, h, other)))
]

contains_id-mem : (ids : List ℕ) (id : ℕ) → contains_id ids id ≡ true → Memᴰ id ids
contains_id-mem ids id h =
    let (other, m, same) = any_sound (λ x. x == id) ids h in
    subst (λ x. Memᴰ x ids) ((==_iff other id).0 same) m

-- Only a retired instance has the class of one.
only_retired :
    (b : Bool) (c : AdoptionClass)
    → class_eq c retired_without_proof ≡ false
    → (if b then retired_without_proof else c) ≡ retired_without_proof
    → b ≡ true
unfolding class_code
only_retired true c h e = refl
only_retired false c h e = absurd (ground (arith, h, ap class_code e))

latest_class-unretired :
    (reads : List ReadObservation) (target : ℕ)
    → class_eq (latest_class reads target).0 retired_without_proof ≡ false
unfolding latest_class class_code
latest_class-unretired reads target = ground arith

instance-retired :
    (reads : List ReadObservation) (target : ℕ) (lookback : Option ℕ) (now : ℕ) (retired : List ℕ)
    (id : ℕ)
    → (classify_instance reads target lookback now retired id).class ≡ retired_without_proof
    → Memᴰ id retired
unfolding classify_instance
instance-retired reads target lookback now retired id h =
    let mine = select (λ item. option_eq item.consumer_instance_id (some id)) reads in
    let (noted, _) =
      both (contains_id retired id) (not (class_eq (latest_class mine target).0 on_current)) (
        only_retired
          (contains_id retired id && not (class_eq (latest_class mine target).0 on_current))
          (latest_class mine target).0 (latest_class-unretired mine target) h) in
    contains_id-mem retired id noted
  where
    both : (a b : Bool) → (a && b) ≡ true → (a ≡ true) × (b ≡ true)
    both a b e = (ground arith, ground arith)

ok_eq :
    (a b : List AdoptionMember) (r : Result RotationError (List AdoptionMember))
    → r ≡ ok a
    → r ≡ ok b
    → a ≡ b
ok_eq a b r h k = ground (arith, h, k)

-- The request goes on whatever is unsettled, and says why.
abbrev pub Acknowledged : Bool → Option Text → Type 0
Acknowledged acknowledged reason = (acknowledged ≡ true) × (reason_blank reason ≡ false)

module _ (snapshot : RotationSnapshotInput) (target cutover_sequence cutoff_sequence : ℕ)
    (observations : List ReadObservation) (retired_instances : List ℕ) (lookback : Option ℕ)
    (now : ℕ) (instance_to_identity identity_to_consumer : BTreeMap ℕ ℕ) where
  abbrev one : ℕ → AdoptionMember
  one =
      instance_of snapshot target cutover_sequence cutoff_sequence observations retired_instances
        lookback now instance_to_identity identity_to_consumer

  abbrev answer : Result RotationError (List AdoptionMember)
  answer =
      classify_adoption snapshot target cutover_sequence cutoff_sequence observations
        retired_instances lookback now instance_to_identity identity_to_consumer

  -- Each active instance has its member in the answer.
  answer-mem :
      (members : List AdoptionMember) (id : ℕ)
      → answer ≡ ok members
      → Memᴰ id snapshot.active_instances
      → Memᴰ (one id) members
  unfolding classify_adoption instance_members
  answer-mem members id h active =
      let (_, _, k) = >>=-eq-ok (refuse (ltb cutoff_sequence cutover_sequence) invalid) _ h in
      subst (Memᴰ (one id)) (ok_eq _ _ (ok _) refl k)
        (sort_members-mem (one id) _ (append-mem (one id) _ _ (map-mem one id _ active)))

  -- What an active instance of the rotation comes to.
  abbrev pub InstanceSettled : Bool → Option Text → ℕ → Type 0
  InstanceSettled acknowledged reason id =
      Fetched observations cutover_sequence cutoff_sequence target
        (λ item. option_eq item.consumer_instance_id (some id))
      ⊎ (Memᴰ id retired_instances ⊎ Acknowledged acknowledged reason)

  instance-settled :
      (members : List AdoptionMember) (acknowledged : Bool) (reason : Option Text) (id : ℕ)
      → Memᴰ (one id) members
      → Adopted members acknowledged reason
      → InstanceSettled acknowledged reason id
  instance-settled members acknowledged reason id m adopted =
      elim (Bool-cases (settled (one id).class)) [
        | inr open_ ↦ inr (inr (adopted (one id) m open_))
        | inl done ↦ elim (settled-cases (one id).class done) [
          | inl current ↦ inl (
              (instance-current snapshot target cutover_sequence cutoff_sequence observations
                  retired_instances lookback now instance_to_identity identity_to_consumer id).1
                current)
          | inr gone ↦ inr (
              inl (
                instance-retired
                  (window snapshot target cutover_sequence cutoff_sequence observations
                    retired_instances lookback now instance_to_identity identity_to_consumer)
                  target lookback now retired_instances id gone))
        ]
      ]

-- When `complete` is given what `classify_adoption` answers for the snapshot that the rotation records, at the
-- version the request gives as the current one, then a rotation that it closes, other than by
-- repeating an answer, has that version as its target and each active instance of that snapshot
-- accounted for: the latest of its
-- reads between the cutover and the cutoff fetched that version, or it is among the retired
-- instances, or the request acknowledges what is unverified with a reason that is not blank.
pub complete_adopted :
    (m : Mac) (principal : ManagementPrincipal) (request_id id expected current_version : ℕ)
    (members : List AdoptionMember) (acknowledged : Bool) (reason : Option Text) (now : ℕ)
    (old : Sealed RotationRecord) (cutover_sequence cutoff_sequence : ℕ)
    (observations : List ReadObservation) (retired_instances : List ℕ) (lookback : Option ℕ)
    (read_at : ℕ) (instance_to_identity identity_to_consumer : BTreeMap ℕ ℕ) (w u : World)
    (r : RotationCloseoutReport) (instance_id : ℕ)
    → get id w.rotations.rows ≡ some old
    → classify_adoption
        (snapshot_of old.value)
        current_version
        cutover_sequence
        cutoff_sequence
        observations
        retired_instances
        lookback
        read_at
        instance_to_identity
        identity_to_consumer
      ≡ ok members
    → was_completed request_id rotation_lifecycle id w ≡ false
    → complete m principal request_id id expected current_version members acknowledged reason now w
      ≡ (ok r, u)
    → Memᴰ instance_id old.value.active_instances
    → (old.value.target_version ≡ some current_version)
      × InstanceSettled
          (snapshot_of old.value)
          current_version
          cutover_sequence
          cutoff_sequence
          observations
          retired_instances
          lookback
          read_at
          instance_to_identity
          identity_to_consumer
          acknowledged
          reason
          instance_id
complete_adopted m principal request_id id expected current_version members acknowledged reason now
      old cutover_sequence cutoff_sequence observations retired_instances lookback read_at
      instance_to_identity identity_to_consumer w u r instance_id found answered fresh h active =
    elim (complete_sound m principal request_id id expected current_version members acknowledged
      reason now w u r h).1 [
        | inl (used, _, _) ↦ absurd (ground (arith, used, fresh))
        | inr (_, _, closed) ↦
            let it : closed.old ≡ old = ground (arith, found, closed.found) in
            (
              subst (λ x. x.value.target_version ≡ some current_version) it closed.target,
              instance-settled (snapshot_of old.value) current_version cutover_sequence
                  cutoff_sequence observations retired_instances lookback read_at
                  instance_to_identity identity_to_consumer members acknowledged reason instance_id
                  (answer-mem (snapshot_of old.value) current_version cutover_sequence
                    cutoff_sequence observations retired_instances lookback read_at
                    instance_to_identity identity_to_consumer members instance_id answered active)
                  closed.adopted,
            )
      ]
