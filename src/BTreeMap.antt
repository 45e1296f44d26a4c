-- ===== src/BTreeMap.antt =====
-- `std::collections::BTreeMap`: an association list that is kept in the order of its keys.
-- The standard library is not part of the program; this is the reading of it that every
-- component shares. Lookups have laws at any list; what depends on the order of the keys
-- (the first key) has them on ordered lists.
pub mod Laws
pub mod Order
pub mod All
pub mod Total
use Prim.Native.Nat.Ordering.{lt, eq, gt}
use ops_light_secrets_server.Prelude.{
  Bool, Option, none, some, List, [], ◌∷◌, if◌then◌else◌, is_some,
}
use ops_light_secrets_server.Prelude.Order.{Ord, same_key}

abbrev pub BTreeMap {ℓ κ} : Type ℓ → Type κ → Type (ℓ ⊔ κ)
BTreeMap K V = List (K × V)

module _ {ℓ κ} {K : Type ℓ} {V : Type κ} ⦃o : Ord K⦄ where
  unfoldable pub get : K → BTreeMap K V → Option V
  get k [] = none
  get k ((j, v) ∷ m) = if same_key j k then some v else get k m

  abbrev pub contains_key : K → BTreeMap K V → Bool
  contains_key k m = is_some (get k m)

  -- A key that is there keeps its place and takes the new value.
  unfoldable pub insert : K → V → BTreeMap K V → BTreeMap K V
  insert k v [] = (k, v) ∷ []
  insert k v ((j, w) ∷ m) =
      let rest = insert k v m in
      elim (o.cmp k j) [ lt ↦ (k, v) ∷ (j, w) ∷ m | eq ↦ (k, v) ∷ m | gt ↦ (j, w) ∷ rest ]

  unfoldable pub remove : K → BTreeMap K V → BTreeMap K V
  remove k [] = []
  remove k ((j, v) ∷ m) = let rest = remove k m in if same_key j k then rest else (j, v) ∷ rest

  unfoldable pub keys : BTreeMap K V → List K
  keys [] = []
  keys ((k, v) ∷ m) = k ∷ keys m

  unfoldable pub values : BTreeMap K V → List V
  values [] = []
  values ((k, v) ∷ m) = v ∷ values m

  -- `keys().next()`: the least key.
  unfoldable pub first_key : BTreeMap K V → Option K
  first_key [] = none
  first_key ((k, v) ∷ m) = some k
