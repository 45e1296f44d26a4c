-- ===== src/BTreeMap/Total.antt =====
-- The sum of the values of a map of numbers.
use ops_light_secrets_server.Prelude.{ℕ, ◌+◌, ◌≡◌, refl, [], ◌∷◌, arith, unwrap_or}
use ops_light_secrets_server.Prelude.Order.{Ord}
use ops_light_secrets_server.BTreeMap.{BTreeMap, get, insert, remove}
use ops_light_secrets_server.BTreeMap.Order.{Above, IsSorted, get-Above, Above-trans}

module _ {ℓ} {K : Type ℓ} ⦃o : Ord K⦄ where
  abbrev pub total : BTreeMap K ℕ → ℕ
  total [] = 0
  total ((k, v) ∷ m) = v + total m

  remove-Above_same : (k : K) (m : BTreeMap K ℕ) → Above k m → remove k m ≡ m
  unfolding remove
  remove-Above_same k [] h = refl
  remove-Above_same k ((j, w) ∷ m) h = ground (arith, o.cmp_flip k j, remove-Above_same k m)

  pub total-insert :
      (k : K) (v : ℕ) (m : BTreeMap K ℕ)
      → IsSorted m
      → total (insert k v m) + unwrap_or (get k m) 0 ≡ total m + v
  unfolding get insert
  total-insert k v [] h = ground arith
  total-insert k v ((j, w) ∷ m) h =
      ground
        (arith, o.cmp_eq k j, o.cmp_flip k j, total-insert k v m, get-Above k m, Above-trans k j m)

  pub total-remove :
      (k : K) (m : BTreeMap K ℕ) → IsSorted m → total (remove k m) + unwrap_or (get k m) 0 ≡ total m
  unfolding get remove
  total-remove k [] h = ground arith
  total-remove k ((j, w) ∷ m) h = ground (
    arith,
    o.cmp_eq j k,
    o.cmp_flip k j,
    o.cmp_self k,
    total-remove k m,
    get-Above k m,
    remove-Above_same k m,
  )
