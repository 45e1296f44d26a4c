-- ===== src/Rotation/Current.antt =====
-- src/rotation.rs: a consumer is called current only when all its identities and their instances are.
use mathlib.Core.List.{Memᴰ}
use ops_light_secrets_server.Prelude.{
  ℕ, ◌≡◌, ◌≢◌, refl, Bool, true, false, not, ◌&&◌, Option, none, some, List, [], map, ◌==◌,
  is_empty, select, option_eq, arith, inl, inr, Bool-cases, if◌then◌else◌,
}
use ops_light_secrets_server.Prelude.Order.{nat_ord}
use ops_light_secrets_server.Prelude.Search.{mem-select, mem-nonempty}
use ops_light_secrets_server.BTreeMap.{BTreeMap}
use ops_light_secrets_server.Rotation.Catalog.{RotationSnapshotInput}
use ops_light_secrets_server.Rotation.Adoption.{
  classify_rollup, found_members, rollup_class, consumer_class, mapped_to, instance_members,
  identity_members, classify_identity, classify_consumer,
}
use ops_light_secrets_server.Rotation.Reads.{
  AdoptionClass, AdoptionMember, ReadObservation, on_current, no_instance_observation,
  retired_without_proof, class_code, class_eq, latest_class, in_window, contains_id,
  classify_instance, classify_alone, reads_without_instance, instance_kind, identity_kind,
}
use ops_light_secrets_server.Rotation.Uptake.{Fetched, current-Fetched}
use ops_light_secrets_server.Rotation.Rollup.{
  found_members-mem, consumer_class-current, rollup_class-current,
}

-- An instance that was retired is not called current for that.
unless_retired :
    (b : Bool) (c : AdoptionClass)
    → class_eq c no_instance_observation ≡ false
    → (class_eq (if b then retired_without_proof else c) no_instance_observation ≡ false)
      × ((if b then retired_without_proof else c) ≡ on_current → c ≡ on_current)
unfolding class_code
unless_retired true c h = (refl, λ e. ground (arith, e))
unless_retired false c h = (h, λ e. e)

module _ (snapshot : RotationSnapshotInput) (target cutover_sequence cutoff_sequence : ℕ)
    (observations : List ReadObservation) (retired_instances : List ℕ) (lookback : Option ℕ)
    (now : ℕ) (instance_to_identity identity_to_consumer : BTreeMap ℕ ℕ) where
  abbrev pub window : List ReadObservation
  window = in_window cutover_sequence cutoff_sequence observations

  abbrev pub instance_of : ℕ → AdoptionMember
  instance_of = classify_instance window target lookback now retired_instances

  abbrev identity_of : ℕ → AdoptionMember
  identity_of =
      classify_identity snapshot target cutover_sequence cutoff_sequence observations
        retired_instances lookback now instance_to_identity identity_to_consumer

  -- The reads that count for an instance, and those for an identity without instances.
  abbrev pub by_instance : ℕ → ReadObservation → Bool
  by_instance id item = option_eq item.consumer_instance_id (some id)

  abbrev pub by_identity : ℕ → ReadObservation → Bool
  by_identity id item = item.identity_id == id && option_eq item.consumer_instance_id none

  abbrev pub FetchedBy : (ReadObservation → Bool) → Type 0
  FetchedBy counts = Fetched observations cutover_sequence cutoff_sequence target counts

  latest_class-never :
      (reads : List ReadObservation)
      → class_eq (latest_class reads target).0 no_instance_observation ≡ false
  unfolding latest_class class_code
  latest_class-never reads = ground arith

  pub instance-current :
      (id : ℕ)
      → (class_eq (instance_of id).class no_instance_observation ≡ false)
        × ((instance_of id).class ≡ on_current → FetchedBy (by_instance id))
  unfolding classify_instance
  instance-current id =
      let reads = select (by_instance id) window in
      let (never, current) =
        unless_retired
          (contains_id retired_instances id
            && not (class_eq (latest_class reads target).0 on_current))
          (latest_class reads target).0 (latest_class-never reads) in
      (
        never,
        λ h.
            current-Fetched observations cutover_sequence cutoff_sequence target (by_instance id)
              (current h),
      )

  alone-current :
      (id : ℕ)
      → (classify_alone window target lookback now id).class ≡ on_current
      → FetchedBy (by_identity id)
  unfolding classify_alone
  alone-current id h =
      elim (Bool-cases (is_empty (reads_without_instance window target lookback now id))) [
        | inl none_ ↦ absurd (ground (arith, h, none_))
        | inr some_ ↦
            current-Fetched observations cutover_sequence cutoff_sequence target (by_identity id)
              (ground (arith, h, some_))
      ]

  abbrev pub instances_of : ℕ → List ℕ
  instances_of identity = mapped_to instance_to_identity identity snapshot.active_instances

  -- An identity is current by all its instances, or by its own reads if it has none.
  abbrev pub UpToDate : ℕ → Type 0
  UpToDate identity =
      ((instance_id : ℕ)
        → Memᴰ instance_id (instances_of identity)
        → FetchedBy (by_instance instance_id))
      × (instances_of identity ≡ [] → FetchedBy (by_identity identity))

  instance_of-names :
      (id : ℕ) → ((instance_of id).kind ≡ instance_kind) × ((instance_of id).id ≡ id)
  unfolding classify_instance
  instance_of-names id = (refl, refl)

  identity_of-names :
      (id : ℕ) → ((identity_of id).kind ≡ identity_kind) × ((identity_of id).id ≡ id)
  unfolding classify_identity classify_alone classify_rollup
  identity_of-names id = elim (Bool-cases (is_empty (instances_of id))) [
    | inl none_ ↦ rw none_ (refl, refl)
    | inr some_ ↦ rw some_ (refl, refl)
  ]

  identity-current : (identity : ℕ) → (identity_of identity).class ≡ on_current → UpToDate identity
  unfolding classify_identity classify_rollup instance_members
  identity-current identity h = elim (Bool-cases (is_empty (instances_of identity))) [
    | inl none_ ↦ (
      (λ id m. absurd (ground (arith, none_, mem-nonempty id (instances_of identity) m))),
      λ e. alone-current identity (ground (arith, h, none_)),
    )
    | inr some_ ↦
        let rolled : rollup_class (
              found_members (map instance_of snapshot.active_instances) instance_kind
                (instances_of identity))
            ≡ on_current =
          ground (arith, h, some_) in
        (
          (λ id m.
              let (active, mine) = mem-select _ snapshot.active_instances id m in
              let (never, current) = instance-current id in
              current (
                rollup_class-current _ (instance_of id) rolled never (
                  found_members-mem instance_kind instance_of (λ x. (instance_of-names x).0)
                    (λ x. (instance_of-names x).1) snapshot.active_instances (instances_of identity)
                    id m active))),
          λ e. absurd (ground (arith, some_, e)),
        )
  ]

  abbrev pub identities_of : ℕ → List ℕ
  identities_of consumer = mapped_to identity_to_consumer consumer snapshot.authorized_identities

  -- A consumer is called current only if it has an identity that may read the secret, and each such
  -- identity has fetched the new version with the latest of its reads between the cutover and the
  -- cutoff: each of its active instances has, or, when it has none, the identity by itself.
  pub consumer_current_sound :
      (consumer : ℕ)
      → (classify_consumer snapshot target cutover_sequence cutoff_sequence observations
          retired_instances lookback now instance_to_identity identity_to_consumer consumer).class
        ≡ on_current
      → (identities_of consumer ≢ [])
        × ((identity : ℕ) → Memᴰ identity (identities_of consumer) → UpToDate identity)
  unfolding classify_consumer consumer_class identity_members
  consumer_current_sound consumer h = (
    (λ e. ground (arith, h, e)),
    λ identity m.
        let (authorized, _) = mem-select _ snapshot.authorized_identities identity m in
        identity-current identity (
          consumer_class-current (identities_of consumer) _ (identity_of identity) h (
            found_members-mem identity_kind identity_of (λ x. (identity_of-names x).0)
              (λ x. (identity_of-names x).1) snapshot.authorized_identities (identities_of consumer)
              identity m authorized)),
  )
