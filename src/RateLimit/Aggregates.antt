-- ===== src/RateLimit/Aggregates.antt =====
-- src/rate_limit.rs: the table of dropped requests stays within its slots and loses no drop.
use ops_light_secrets_server.Prelude.{
  ℕ, ◌+◌, ◌%◌, ◌^◌, ◌≤◌, ◌≡◌, ◌≢◌, refl, ◌∙◌, ap, true, false, none, [], ◌∷◌, arith, unwrap_or,
  length, Bool-cases, inl, inr,
}
use ops_light_secrets_server.BTreeMap
use ops_light_secrets_server.BTreeMap.{BTreeMap, get, insert, remove, first_key}
use ops_light_secrets_server.BTreeMap.Laws.{get-insert_self, length-remove-lt, length-insert-le}
use ops_light_secrets_server.BTreeMap.Order.{
  IsSorted, insert-IsSorted, remove-IsSorted, length-insert_present,
}
use ops_light_secrets_server.BTreeMap.Total.{total, total-insert, total-remove}
use ops_light_secrets_server.RateLimit.{
  AggregateKey, key_ord, add_count, full, merge_first, overflow_key, record_drop,
}

abbrev Table : Type 0
Table = BTreeMap AggregateKey ℕ

add_count-IsSorted :
    (k : AggregateKey) (n : ℕ) (m : Table) → IsSorted m → IsSorted (add_count k n m)
unfolding add_count
add_count-IsSorted k n m s = insert-IsSorted k _ m s

-- Modulo 2^64 a count adds what it says.
add_count-total :
    (k : AggregateKey) (n : ℕ) (m : Table)
    → IsSorted m
    → total (add_count k n m) % 2 ^ 64 ≡ (total m + n) % 2 ^ 64
unfolding add_count
add_count-total k n m s =
    let e = total-insert k ((unwrap_or (get k m) 0 + n) % 2 ^ 64) m s in omega (arith, e)

add_count-length :
    (k : AggregateKey) (n max : ℕ) (m : Table)
    → IsSorted m
    → full max k m ≡ false
    → length m ≤ max
    → length (add_count k n m) ≤ max
unfolding add_count
add_count-length k n max m s h fits = elim (Bool-cases (BTreeMap.contains_key k m)) [
  | inl there ↦ ground (arith, length-insert_present k ((unwrap_or (get k m) 0 + n) % 2 ^ 64) m s)
  | inr gone ↦ ground (arith, length-insert-le k ((unwrap_or (get k m) 0 + n) % 2 ^ 64) m)
]

merge_first-IsSorted : (k : AggregateKey) (m : Table) → IsSorted m → IsSorted (merge_first k m)
unfolding merge_first first_key
merge_first-IsSorted k [] s = s
merge_first-IsSorted k ((j, w) ∷ m) s = add_count-IsSorted k _ _ (remove-IsSorted j ((j, w) ∷ m) s)

-- Merging the first key's count into another key's keeps the total.
merge_first-total :
    (k : AggregateKey) (m : Table)
    → IsSorted m
    → total (merge_first k m) % 2 ^ 64 ≡ total m % 2 ^ 64
unfolding merge_first first_key
merge_first-total k [] s = refl
merge_first-total k ((j, w) ∷ m) s =
    let e =
      add_count-total k (unwrap_or (get j ((j, w) ∷ m)) 0) (remove j ((j, w) ∷ m))
        (remove-IsSorted j ((j, w) ∷ m) s) in
    e ∙ ap (λ x. x % 2 ^ 64) (total-remove j ((j, w) ∷ m) s)

first-found : (j : AggregateKey) (w : ℕ) (m : Table) → get j ((j, w) ∷ m) ≢ none
unfolding get
first-found j w m h = ground (arith, key_ord.cmp_self j)

add_count-found : (k : AggregateKey) (n : ℕ) (m : Table) → get k (add_count k n m) ≢ none
unfolding add_count
add_count-found k n m h = ground (arith, get-insert_self k ((unwrap_or (get k m) 0 + n) % 2 ^ 64) m)

add_count-length-le :
    (k : AggregateKey) (n : ℕ) (m : Table) → length (add_count k n m) ≤ length m + 1
unfolding add_count
add_count-length-le k n m = length-insert-le k _ m

add_count-length_present :
    (k : AggregateKey) (n : ℕ) (m : Table)
    → IsSorted m
    → get k m ≢ none
    → length (add_count k n m) ≡ length m
unfolding add_count
add_count-length_present k n m s h = length-insert_present k _ m s h

-- A table that has keys and no room has room for the key that they are merged into.
merge_first-length :
    (k : AggregateKey) (n max : ℕ) (m : Table)
    → IsSorted m
    → length m ≤ max
    → 1 ≤ max
    → get k m ≡ none
    → length (add_count k n (merge_first k m)) ≤ max
unfolding merge_first first_key
merge_first-length k n max [] s fits one gone = omega (arith, add_count-length-le k n [])
merge_first-length k n max ((j, w) ∷ m) s fits one gone =
    let r = remove j ((j, w) ∷ m) in
    let less = length-remove-lt j ((j, w) ∷ m) (first-found j w m) in
    let sorted = remove-IsSorted j ((j, w) ∷ m) s in
    let t = add_count k (unwrap_or (get j ((j, w) ∷ m)) 0) r in
    let more = add_count-length-le k (unwrap_or (get j ((j, w) ∷ m)) 0) r in
    let same =
      add_count-length_present k n t (add_count-IsSorted k _ r sorted) (add_count-found k _ r) in
    omega (arith, less, more, same, fits)

-- A table of dropped requests: its keys in order, and no more of them than there are slots.
pub record TableOk (max : ℕ) (m : Table) : Type 0 where
  pub sorted : IsSorted m
  pub fits : length m ≤ max

gone-of : (k : AggregateKey) (max : ℕ) (m : Table) → full max k m ≡ true → get k m ≡ none
gone-of k max m h = ground arith

-- However many drops come, and whatever their keys: with at least one slot, recording a drop keeps
-- the table in order and within its slots, and the sum of all counts goes up by exactly one, modulo
-- 2^64, also when the table is full and counts are merged.
pub record_drop-TableOk :
    (max : ℕ) (key : AggregateKey) (m : Table)
    → 1 ≤ max
    → TableOk max m
    → TableOk max (record_drop max key m)
      × (total (record_drop max key m) % 2 ^ 64 ≡ (total m + 1) % 2 ^ 64)
unfolding record_drop
record_drop-TableOk max key m one h = elim (Bool-cases (full max key m)) [
  | inr room ↦ rw room (
    record {
      sorted = add_count-IsSorted key 1 m h.sorted;
      fits = add_count-length key 1 max m h.sorted room h.fits;
    },
    add_count-total key 1 m h.sorted,
  )
  | inl packed ↦
      let other = overflow_key key.reason key.window in
      elim (Bool-cases (full max other m)) [
        | inr room ↦
            rw (packed, room)
              (
                record {
                  sorted = add_count-IsSorted other 1 m h.sorted;
                  fits = add_count-length other 1 max m h.sorted room h.fits;
                },
                add_count-total other 1 m h.sorted,
              )
        | inl crowded ↦
            let s = merge_first-IsSorted other m h.sorted in
            rw (packed, crowded)
              (
                record {
                  sorted = add_count-IsSorted other 1 (merge_first other m) s;
                  fits =
                      merge_first-length other 1 max m h.sorted h.fits one
                        (gone-of other max m crowded);
                },
                add_modulo (total (merge_first other m)) (total m) _
                    (add_count-total other 1 (merge_first other m) s)
                    (merge_first-total other m h.sorted),
              )
      ]
]
  where
    add_modulo :
        (a b c : ℕ)
        → c % 2 ^ 64 ≡ (a + 1) % 2 ^ 64
        → a % 2 ^ 64 ≡ b % 2 ^ 64
        → c % 2 ^ 64 ≡ (b + 1) % 2 ^ 64
    add_modulo a b c h k = omega (arith, h, k)
