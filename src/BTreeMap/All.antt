-- ===== src/BTreeMap/All.antt =====
-- A property of all entries of a map: insertion, removal and lookup.
use ops_light_secrets_server.Prelude.{◌≡◌, some, [], ◌∷◌, arith, inl, inr, Bool-cases, subst}
use ops_light_secrets_server.Prelude.Order.{Ord, same_key, same_key_iff}
use ops_light_secrets_server.BTreeMap.{BTreeMap, get, insert, remove}

module _ {ℓ κ} {K : Type ℓ} {V : Type κ} ⦃o : Ord K⦄ where
  abbrev pub All : (K → V → Type 0) → BTreeMap K V → Type 0
  All P [] = Unit
  All P ((k, v) ∷ m) = P k v × All P m

  pub insert-All :
      (P : K → V → Type 0) (k : K) (v : V) (m : BTreeMap K V)
      → P k v
      → All P m
      → All P (insert k v m)
  unfolding insert
  insert-All P k v [] p a = (p, tt)
  insert-All P k v ((j, w) ∷ m) p a = ground (arith, insert-All P k v m)

  pub remove-All : (P : K → V → Type 0) (k : K) (m : BTreeMap K V) → All P m → All P (remove k m)
  unfolding remove
  remove-All P k [] a = tt
  remove-All P k ((j, w) ∷ m) a = ground (arith, remove-All P k m)

  pub All-get :
      (P : K → V → Type 0) (k : K) (m : BTreeMap K V) {v : V} → All P m → get k m ≡ some v → P k v
  unfolding get
  All-get P k [] a h = ground arith
  All-get P k ((j, w) ∷ m) {v} a h = elim (Bool-cases (same_key j k)) [
    | inl hit ↦ subst (λ x. P x v) ((same_key_iff j k).0 hit) (subst (P j) (ground arith) a.0)
    | inr miss ↦ All-get P k m a.1 (ground arith)
  ]

  pub All-imp :
      (P Q : K → V → Type 0) (m : BTreeMap K V)
      → ((k : K) (v : V) → P k v → Q k v)
      → All P m
      → All Q m
  All-imp P Q [] f a = tt
  All-imp P Q ((j, w) ∷ m) f a = (f j w a.0, All-imp P Q m f a.1)
