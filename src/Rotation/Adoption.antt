-- ===== src/Rotation/Adoption.antt =====
-- src/rotation.rs: `classify_adoption`, how far the consumers of a secret have taken up its new version.
use ops_light_secrets_server.Prelude.{
  ℕ, Bool, false, not, ◌&&◌, ◌||◌, Option, none, some, List, [], ◌∷◌, ◌++◌, ltb, ◌==◌, max,
  is_empty, any, find, select, map, option_eq, if◌then◌else◌,
}
use ops_light_secrets_server.Prelude.Order.{nat_ord, list_ord, then_cmp}
use Prim.Native.Nat.Ordering.{lt, eq, gt}
use Prim.Native.Nat.{compare, Ordering}
use ops_light_secrets_server.Prelude.Text.{Text, text_eq}
use ops_light_secrets_server.Prelude.Result.{Result, ok, ◌>>◌, refuse}
use ops_light_secrets_server.BTreeMap
use ops_light_secrets_server.BTreeMap.{BTreeMap}
use ops_light_secrets_server.Rotation.Lifecycle.{RotationError, invalid}
use ops_light_secrets_server.Rotation.Catalog.{RotationSnapshotInput}
use ops_light_secrets_server.Rotation.Reads.{
  AdoptionClass, AdoptionMember, ReadObservation, class_eq, classify_alone, classify_instance,
  consumer_kind, identity_kind, in_window, instance_kind, lookback_exceeded,
  no_instance_observation, on_current, on_prior, retired_without_proof, silent_since_write,
}

-- `members.iter().find(|member| member.kind == kind && member.id == id)`
unfoldable pub find_member : List AdoptionMember → Text → ℕ → Option AdoptionMember
find_member members kind id = find (λ member. text_eq member.kind kind && member.id == id) members

-- `filter_map` over the members found, and the set of their classes.
unfoldable pub found_members : List AdoptionMember → Text → List ℕ → List AdoptionMember
found_members members kind [] = []
found_members members kind (id ∷ ids) =
    let rest = found_members members kind ids in
    elim (find_member members kind id) [ none ↦ rest | some member ↦ member ∷ rest ]

abbrev pub holds_class : AdoptionClass → List AdoptionMember → Bool
holds_class class members = any (λ member. class_eq member.class class) members

-- The set of the classes has one element: all are that of the first.
abbrev pub single_class : List AdoptionMember → Option AdoptionClass
single_class [] = none
single_class (member ∷ rest) =
    if any (λ other. not (class_eq other.class member.class)) rest then none else some member.class

unfoldable pub rollup_class : List AdoptionMember → AdoptionClass
rollup_class found = elim (single_class found) [
  | some class ↦ class
  | none ↦
      if holds_class on_prior found
      then on_prior
      else if holds_class silent_since_write found
      then silent_since_write
      else if holds_class retired_without_proof found
      then retired_without_proof
      else on_current
]

abbrev pub max_option : Option ℕ → Option ℕ → Option ℕ
max_option none b = b
max_option (some a) none = some a
max_option (some a) (some b) = some (max a b)

unfoldable pub last_read : List AdoptionMember → Option ℕ
last_read [] = none
last_read (member ∷ rest) = max_option member.last_read_unix_seconds (last_read rest)

unfoldable pub first_version : List AdoptionMember → Option ℕ
first_version [] = none
first_version (member ∷ rest) = elim member.fetched_version [
  | none ↦ first_version rest
  | some version ↦ some version
]

-- An identity with instances.
unfoldable pub classify_rollup : Option ℕ → ℕ → List AdoptionMember → ℕ → AdoptionMember
classify_rollup lookback now found identity = record {
  kind = identity_kind;
  id = identity;
  class = rollup_class found;
  fetched_version = first_version found;
  last_read_unix_seconds = last_read found;
  recency_lookback_exceeded = lookback_exceeded (last_read found) lookback now;
}

unfoldable pub consumer_class : List ℕ → List AdoptionMember → AdoptionClass
consumer_class identities found =
    if is_empty identities
    then silent_since_write
    else if holds_class on_prior found
    then on_prior
    else if holds_class silent_since_write found || holds_class no_instance_observation found
    then silent_since_write
    else if holds_class retired_without_proof found
    then retired_without_proof
    else on_current

abbrev pub mapped_to : BTreeMap ℕ ℕ → ℕ → List ℕ → List ℕ
mapped_to owners owner ids = select (λ id. option_eq (BTreeMap.get id owners) (some owner)) ids

-- The order of the answer: by kind, then by id.
abbrev pub member_cmp : AdoptionMember → AdoptionMember → Ordering
member_cmp a b = then_cmp (list_ord.cmp a.kind b.kind) (compare a.id b.id)

-- `sort_by`, which is stable: an element goes before those that are greater.
unfoldable pub insert_member : AdoptionMember → List AdoptionMember → List AdoptionMember
insert_member member [] = member ∷ []
insert_member member (other ∷ rest) =
    let later = insert_member member rest in
    elim (member_cmp member other) [
      | gt ↦ other ∷ later
      | eq ↦ member ∷ other ∷ rest
      | lt ↦ member ∷ other ∷ rest
    ]

unfoldable pub sort_members : List AdoptionMember → List AdoptionMember
sort_members [] = []
sort_members (member ∷ rest) = insert_member member (sort_members rest)

module _ (snapshot : RotationSnapshotInput) (target_version cutover_sequence cutoff_sequence : ℕ)
    (observations : List ReadObservation) (retired_instances : List ℕ) (lookback : Option ℕ)
    (now : ℕ) (instance_to_identity identity_to_consumer : BTreeMap ℕ ℕ) where
  unfoldable pub instance_members : List AdoptionMember
  instance_members =
      map
        (classify_instance (in_window cutover_sequence cutoff_sequence observations) target_version
          lookback now retired_instances)
        snapshot.active_instances

  unfoldable pub classify_identity : ℕ → AdoptionMember
  classify_identity identity =
      let ids = mapped_to instance_to_identity identity snapshot.active_instances in
      if is_empty ids
      then classify_alone (in_window cutover_sequence cutoff_sequence observations) target_version
          lookback now identity
      else classify_rollup lookback now (found_members instance_members instance_kind ids) identity

  unfoldable pub identity_members : List AdoptionMember
  identity_members = map classify_identity snapshot.authorized_identities

  unfoldable pub classify_consumer : ℕ → AdoptionMember
  classify_consumer consumer =
      let identities = mapped_to identity_to_consumer consumer snapshot.authorized_identities in
      record {
        kind = consumer_kind;
        id = consumer;
        class = consumer_class identities (found_members identity_members identity_kind identities);
        fetched_version = none;
        last_read_unix_seconds = none;
        recency_lookback_exceeded = false;
      }

  -- The members of the other kinds are passed over where members of one kind are looked up.
  unfoldable pub classify_adoption : Result RotationError (List AdoptionMember)
  classify_adoption = do
    refuse (ltb cutoff_sequence cutover_sequence) invalid
    ok (
        sort_members (
          instance_members
          ++ (identity_members ++ map classify_consumer snapshot.declared_consumers)))
