-- ===== src/Rotation/Reads.antt =====
-- src/rotation.rs: the reads of a secret after its cutover, and what they tell of one reader.
use ops_light_secrets_server.Prelude.{
  ℕ, ◌-◌, Bool, false, not, ◌&&◌, Option, none, some, List, [], ◌∷◌, ltb, leb, ◌==◌, is_empty, any,
  select, option_eq, if◌then◌else◌,
}
use ops_light_secrets_server.Prelude.Order.{nat_ord, list_ord}
use ops_light_secrets_server.Prelude.Text.{Text, text}

pub data AdoptionClass : Type 0 where
  on_current on_prior silent_since_write no_instance_observation retired_without_proof :
      AdoptionClass

-- The place of a class in the derived order, by which its derived `PartialEq` tells it apart.
unfoldable pub class_code : AdoptionClass → ℕ
class_code on_current = 0
class_code on_prior = 1
class_code silent_since_write = 2
class_code no_instance_observation = 3
class_code retired_without_proof = 4

abbrev pub class_eq : AdoptionClass → AdoptionClass → Bool
class_eq a b = class_code a == class_code b

pub record ReadObservation : Type 0 where
  pub sequence : ℕ
  pub identity_id : ℕ
  pub consumer_instance_id : Option ℕ
  pub version : ℕ
  pub effective_unix_seconds : ℕ

pub record AdoptionMember : Type 0 where
  pub kind : Text
  pub id : ℕ
  pub class : AdoptionClass
  pub fetched_version : Option ℕ
  pub last_read_unix_seconds : Option ℕ
  pub recency_lookback_exceeded : Bool

-- `max_by_key(|item| item.sequence)`: the last of the greatest.
unfoldable pub latest_from : ReadObservation → List ReadObservation → ReadObservation
latest_from best [] = best
latest_from best (item ∷ rest) =
    latest_from (if leb best.sequence item.sequence then item else best) rest

unfoldable pub latest : List ReadObservation → Option ReadObservation
latest [] = none
latest (item ∷ rest) = some (latest_from item rest)

unfoldable pub latest_class : List ReadObservation → ℕ → AdoptionClass × Option ℕ × Option ℕ
latest_class reads target_version = elim (latest reads) [
  | none ↦ (silent_since_write, none, none)
  | some item ↦ (
    if item.version == target_version then on_current else on_prior,
    some item.version,
    some item.effective_unix_seconds,
  )
]

unfoldable pub lookback_exceeded : Option ℕ → Option ℕ → ℕ → Bool
lookback_exceeded (some last) (some window) now = ltb window (now - last)
lookback_exceeded _ _ now = false

abbrev pub instance_kind : Text
instance_kind = text "instance"

abbrev pub identity_kind : Text
identity_kind = text "identity"

abbrev pub consumer_kind : Text
consumer_kind = text "consumer"

-- The reads after the cutover, up to the cutoff.
unfoldable pub in_window : ℕ → ℕ → List ReadObservation → List ReadObservation
in_window cutover_sequence cutoff_sequence observations =
    select (λ item. ltb cutover_sequence item.sequence && leb item.sequence cutoff_sequence)
      observations

abbrev pub contains_id : List ℕ → ℕ → Bool
contains_id ids id = any (λ other. other == id) ids

-- The first loop: one member for each active instance.
module _ (window : List ReadObservation) (target_version : ℕ) (lookback : Option ℕ) (now : ℕ) where
  unfoldable pub classify_instance : List ℕ → ℕ → AdoptionMember
  classify_instance retired_instances instance_id =
      let found =
        latest_class
          (select (λ item. option_eq item.consumer_instance_id (some instance_id)) window)
          target_version in
      record {
        kind = instance_kind;
        id = instance_id;
        class =
            if contains_id retired_instances instance_id && not (class_eq found.0 on_current)
            then retired_without_proof
            else found.0;
        fetched_version = found.1;
        last_read_unix_seconds = found.2;
        recency_lookback_exceeded = lookback_exceeded found.2 lookback now;
      }

  abbrev pub reads_without_instance : ℕ → List ReadObservation
  reads_without_instance identity =
      select (λ item. item.identity_id == identity && option_eq item.consumer_instance_id none)
        window

  -- An identity with no instance.
  unfoldable pub classify_alone : ℕ → AdoptionMember
  classify_alone identity =
      let reads = reads_without_instance identity in
      let found : AdoptionClass × Option ℕ × Option ℕ =
        if is_empty reads
        then (no_instance_observation, none, none)
        else latest_class reads target_version in
      record {
        kind = identity_kind;
        id = identity;
        class = found.0;
        fetched_version = found.1;
        last_read_unix_seconds = found.2;
        recency_lookback_exceeded = lookback_exceeded found.2 lookback now;
      }
