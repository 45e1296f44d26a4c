-- ===== src/Store/Keys.antt =====
-- src/store/mod.rs: the keys of the states of a summary.
use ops_light_secrets_server.Prelude.{
  ℕ, zero, suc, ◌+◌, ◌≡◌, ◌≢◌, refl, ap, ◌∙◌, subst, Bool, true, List, [], ◌∷◌, ◌++◌, ltb, arith,
  all, none, length,
}
use ops_light_secrets_server.Prelude.Order.{nat_ord}
use ops_light_secrets_server.BTreeMap.{BTreeMap, get, insert, keys}
use ops_light_secrets_server.BTreeMap.Order.{IsSorted, get-Above, Above-trans}
use ops_light_secrets_server.Store.Summary.{one_to}

module _ {V : Type 0} where
  pub keys-insert_present :
      (k : ℕ) (v : V) (m : BTreeMap ℕ V)
      → IsSorted m
      → get k m ≢ none
      → keys (insert k v m) ≡ keys m
  unfolding get insert keys
  keys-insert_present k v [] s h = absurd (h refl)
  keys-insert_present k v ((j, w) ∷ m) s h =
      ground (arith, keys-insert_present k v m, get-Above k m, Above-trans k j m)

  pub keys-insert_last :
      (k : ℕ) (v : V) (m : BTreeMap ℕ V)
      → all (λ j. ltb j k) (keys m) ≡ true
      → keys (insert k v m) ≡ keys m ++ (k ∷ [])
  unfolding insert keys
  keys-insert_last k v [] h = refl
  keys-insert_last k v ((j, w) ∷ m) h = ground (arith, keys-insert_last k v m)

  pub length-keys : (m : BTreeMap ℕ V) → length (keys m) ≡ length m
  unfolding keys
  length-keys [] = refl
  length-keys ((j, w) ∷ m) = ap suc (length-keys m)

  -- A key that is found is one of the keys.
  pub get-keys :
      (k n : ℕ) (m : BTreeMap ℕ V)
      → all (λ j. ltb j n) (keys m) ≡ true
      → get k m ≢ none
      → ltb k n ≡ true
  unfolding get keys
  get-keys k n [] h e = absurd (e refl)
  get-keys k n ((j, w) ∷ m) h e = ground (arith, get-keys k n m)

pub all-append :
    (f : ℕ → Bool) (a b : List ℕ) → all f a ≡ true → all f b ≡ true → all f (a ++ b) ≡ true
all-append f [] b h k = k
all-append f (x ∷ a) b h k = ground (arith, all-append f a b)

pub one_to-below : (n m : ℕ) → ltb n m ≡ true → all (λ j. ltb j m) (one_to n) ≡ true
one_to-below zero m h = refl
one_to-below (suc n) m h =
    all-append (λ j. ltb j m) (one_to n) (suc n ∷ []) (one_to-below n m (ground arith))
      (ground arith)

length-append : (a : List ℕ) (k : ℕ) → length (a ++ (k ∷ [])) ≡ length a + 1
length-append [] k = refl
length-append (x ∷ a) k = ground (arith, length-append a k)

pub length-one_to : (n : ℕ) → length (one_to n) ≡ n
length-one_to zero = refl
length-one_to (suc n) =
    let rest = length-one_to n in length-append (one_to n) (suc n) ∙ ground (arith, rest)

pub one_to-next : (n : ℕ) → one_to (n + 1) ≡ one_to n ++ ((n + 1) ∷ [])
one_to-next n =
    let next : suc n ≡ n + 1 = ground arith in
    subst (λ x. one_to x ≡ one_to n ++ (x ∷ [])) next refl
