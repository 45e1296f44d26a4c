-- ===== src/BTreeMap/Order.antt =====
-- The order of the keys: insertion and removal keep it, and the first key is the least.
use Prim.Native.Nat.Ordering.{lt}
use ops_light_secrets_server.Prelude.{◌≡◌, ◌≢◌, refl, none, [], ◌∷◌, arith, length}
use ops_light_secrets_server.Prelude.Order.{Ord}
use ops_light_secrets_server.BTreeMap.{BTreeMap, get, insert, remove}

module _ {ℓ κ} {K : Type ℓ} {V : Type κ} ⦃o : Ord K⦄ where
  -- Every key of the map is greater than `k`.
  abbrev pub Above : K → BTreeMap K V → Type 0
  Above k [] = Unit
  Above k ((j, v) ∷ m) = (o.cmp k j ≡ lt) × Above k m

  abbrev pub IsSorted : BTreeMap K V → Type 0
  IsSorted [] = Unit
  IsSorted ((k, v) ∷ m) = Above k m × IsSorted m

  pub Above-trans : (a b : K) (m : BTreeMap K V) → o.cmp a b ≡ lt → Above b m → Above a m
  Above-trans a b [] h s = tt
  Above-trans a b ((j, v) ∷ m) h s = (o.cmp_trans a b j h s.0, Above-trans a b m h s.1)

  insert-Above :
      (a k : K) (v : V) (m : BTreeMap K V) → o.cmp a k ≡ lt → Above a m → Above a (insert k v m)
  unfolding insert
  insert-Above a k v [] h s = (h, tt)
  insert-Above a k v ((j, w) ∷ m) h s = ground (arith, insert-Above a k v m)

  pub insert-IsSorted : (k : K) (v : V) (m : BTreeMap K V) → IsSorted m → IsSorted (insert k v m)
  unfolding insert
  insert-IsSorted k v [] s = (tt, tt)
  insert-IsSorted k v ((j, w) ∷ m) s = ground (
    arith,
    o.cmp_eq k j,
    o.cmp_flip k j,
    insert-Above j k v m,
    insert-IsSorted k v m,
    Above-trans k j m,
  )

  remove-Above : (a k : K) (m : BTreeMap K V) → Above a m → Above a (remove k m)
  unfolding remove
  remove-Above a k [] s = tt
  remove-Above a k ((j, w) ∷ m) s = ground (arith, remove-Above a k m)

  pub remove-IsSorted : (k : K) (m : BTreeMap K V) → IsSorted m → IsSorted (remove k m)
  unfolding remove
  remove-IsSorted k [] s = tt
  remove-IsSorted k ((j, w) ∷ m) s = ground (arith, remove-Above j k m, remove-IsSorted k m)

  -- A key under all keys of the map is not in it.
  pub get-Above : (k : K) (m : BTreeMap K V) → Above k m → get k m ≡ none
  unfolding get
  get-Above k [] s = refl
  get-Above k ((j, w) ∷ m) s = ground (arith, o.cmp_flip k j, get-Above k m)

  pub length-insert_present :
      (k : K) (v : V) (m : BTreeMap K V)
      → IsSorted m
      → get k m ≢ none
      → length (insert k v m) ≡ length m
  unfolding get insert
  length-insert_present k v [] s h = absurd (h refl)
  length-insert_present k v ((j, w) ∷ m) s h = ground (
    arith,
    o.cmp_flip k j,
    o.cmp_eq k j,
    length-insert_present k v m,
    get-Above k m,
    Above-trans k j m,
  )
