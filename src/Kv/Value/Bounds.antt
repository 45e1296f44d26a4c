-- ===== src/Kv/Value/Bounds.antt =====
-- What `validate_secret_value` accepts: exactly the values within the bounds of depth, fields and
-- names, each measured by a function of its own.
use ops_light_secrets_server.Prelude.{
  ℕ, suc, ◌+◌, ◌≤◌, ◌≡◌, refl, ◌↔◌, max, Bool, true, ◌&&◌, arith, leb, ltb,
}
use ops_light_secrets_server.Prelude.Result.{Result, ok, err, is_ok, refuse, >>=-eq-ok}
use ops_light_secrets_server.Kv.Types.{KvError}
use ops_light_secrets_server.Kv.Value.{
  Value, Items, Map, null, bool, number, string, array, object, nil, cons, end, field, map_len,
  name_too_long, chars_count, walk, walk_items, walk_map, validate_secret_value,
}

-- How many levels a value has, itself included.
mutual
  depth : Value → ℕ
  depth (object values) = suc (map_depth values)
  depth (array values) = suc (items_depth values)
  depth null = 1
  depth (bool b) = 1
  depth (number n) = 1
  depth (string s) = 1

  items_depth : Items → ℕ
  items_depth nil = 0
  items_depth (cons value rest) = max (depth value) (items_depth rest)

  pub map_depth : Map → ℕ
  map_depth end = 0
  map_depth (field key value rest) = max (depth value) (map_depth rest)

-- How many fields the objects inside a value have together.
mutual
  field_count : Value → ℕ
  field_count (object values) = map_len values + map_field_count values
  field_count (array values) = items_field_count values
  field_count null = 0
  field_count (bool b) = 0
  field_count (number n) = 0
  field_count (string s) = 0

  items_field_count : Items → ℕ
  items_field_count nil = 0
  items_field_count (cons value rest) = field_count value + items_field_count rest

  pub map_field_count : Map → ℕ
  map_field_count end = 0
  map_field_count (field key value rest) = field_count value + map_field_count rest

-- Every field name inside a value is short enough.
mutual
  names_fit : Value → Bool
  names_fit (object values) = map_names_fit values
  names_fit (array values) = items_names_fit values
  names_fit null = true
  names_fit (bool b) = true
  names_fit (number n) = true
  names_fit (string s) = true

  items_names_fit : Items → Bool
  items_names_fit nil = true
  items_names_fit (cons value rest) = names_fit value && items_names_fit rest

  pub map_names_fit : Map → Bool
  map_names_fit end = true
  map_names_fit (field key value rest) =
      leb (chars_count key) 256 && (names_fit value && map_names_fit rest)

-- From level `d` with `n` fields counted, a value with these measures is walked to the total `m`.
pub record Fits (levels extra : ℕ) (names : Bool) (d n m : ℕ) : Type 0 where
  pub deep : d + levels ≤ 33
  pub total : m ≡ n + extra
  pub few : m ≤ 256
  pub named : names ≡ true

mutual
  unfolding walk walk_items walk_map depth items_depth map_depth field_count items_field_count
      map_field_count names_fit items_names_fit map_names_fit

  walk_sound :
      (v : Value) (d n m : ℕ)
      → n ≤ 256
      → walk v d n ≡ ok m
      → Fits (depth v) (field_count v) (names_fit v) d n m
  walk_sound (object values) d n m b h = ground (arith, map_sound values d (n + map_len values) m)
  walk_sound (array values) d n m b h = ground (arith, items_sound values d n m b)
  walk_sound null d n m b h = ground arith
  walk_sound (bool x) d n m b h = ground arith
  walk_sound (number x) d n m b h = ground arith
  walk_sound (string x) d n m b h = ground arith

  items_sound :
      (v : Items) (d n m : ℕ)
      → n ≤ 256
      → d ≤ 32
      → walk_items v d n ≡ ok m
      → Fits (items_depth v) (items_field_count v) (items_names_fit v) (suc d) n m
  items_sound nil d n m b l h = ground arith
  items_sound (cons v rest) d n m b l h =
      let (t, e, f) = >>=-eq-ok (walk v (d + 1) n) _ h in
      let first = walk_sound v (d + 1) n t b e in
      ground (arith, first, items_sound rest d t m first.few l f)

  map_sound :
      (v : Map) (d n m : ℕ)
      → n ≤ 256
      → d ≤ 32
      → walk_map v d n ≡ ok m
      → Fits (map_depth v) (map_field_count v) (map_names_fit v) (suc d) n m
  map_sound end d n m b l h = ground arith
  map_sound (field k v rest) d n m b l h =
      let (_, a, g) = >>=-eq-ok (refuse (name_too_long k) _) _ h in
      let (t, e, f) = >>=-eq-ok (walk v (d + 1) n) _ g in
      let first = walk_sound v (d + 1) n t b e in
      ground (arith, first, map_sound rest d t m first.few l f)

mutual
  unfolding walk walk_items walk_map depth items_depth map_depth field_count items_field_count
      map_field_count names_fit items_names_fit map_names_fit

  walk_complete :
      (v : Value) (d n : ℕ)
      → n + field_count v ≤ 256
      → d + depth v ≤ 33
      → names_fit v ≡ true
      → walk v d n ≡ ok (n + field_count v)
  walk_complete (object values) d n f l h =
      ground (arith, map_complete values d (n + map_len values) (omega arith) (omega arith) h)
  walk_complete (array values) d n f l h =
      ground (arith, items_complete values d n f (omega arith) h)
  walk_complete null d n f l h = ground arith
  walk_complete (bool x) d n f l h = ground arith
  walk_complete (number x) d n f l h = ground arith
  walk_complete (string x) d n f l h = ground arith

  items_complete :
      (v : Items) (d n : ℕ)
      → n + items_field_count v ≤ 256
      → suc d + items_depth v ≤ 33
      → items_names_fit v ≡ true
      → walk_items v d n ≡ ok (n + items_field_count v)
  items_complete nil d n f l h = ground arith
  items_complete (cons v rest) d n f l h =
      rw (walk_complete v (d + 1) n (omega arith) (omega arith) (ground arith))
        (ground (arith, items_complete rest d (n + field_count v) (omega arith) (omega arith)))

  map_complete :
      (v : Map) (d n : ℕ)
      → n + map_field_count v ≤ 256
      → suc d + map_depth v ≤ 33
      → map_names_fit v ≡ true
      → walk_map v d n ≡ ok (n + map_field_count v)
  map_complete end d n f l h = ground arith
  map_complete (field k v rest) d n f l h = ground (
    arith,
    walk_complete v (d + 1) n (omega arith) (omega arith),
    map_complete rest d (n + field_count v) (omega arith) (omega arith),
  )

is_ok-eq_ok : (r : Result KvError (Unit {0})) → is_ok r ≡ true → r ≡ ok tt
is_ok-eq_ok (ok x) h = refl
is_ok-eq_ok (err e) h = ground arith

validate_sound :
    (values : Map)
    → validate_secret_value values ≡ ok tt
    → (map_len values + map_field_count values ≤ 256)
      × (1 + map_depth values ≤ 32)
      × (map_names_fit values ≡ true)
unfolding validate_secret_value
validate_sound values h =
    let (_, a, g) = >>=-eq-ok (refuse (ltb 256 (map_len values)) _) _ h in
    let (t, e, f) = >>=-eq-ok (walk_map values 1 (map_len values)) _ g in
    let fits = map_sound values 1 (map_len values) t (ground arith) (omega arith) e in
    (omega (arith, fits.total, fits.few), omega (arith, fits.deep), fits.named)

-- A secret's value is accepted exactly when it has at most 256 fields at all levels together, at
-- most 32 levels with the outermost object counted, and no field name of more than 256 characters.
pub validate_secret_value_iff :
    (values : Map)
    → (is_ok (validate_secret_value values) ≡ true) ↔ (
        (map_len values + map_field_count values ≤ 256)
        × (1 + map_depth values ≤ 32)
        × (map_names_fit values ≡ true))
unfolding validate_secret_value
validate_secret_value_iff values = (sound, complete)
  where
    sound :
        is_ok (validate_secret_value values) ≡ true
        → (map_len values + map_field_count values ≤ 256)
          × (1 + map_depth values ≤ 32)
          × (map_names_fit values ≡ true)
    sound h = validate_sound values (is_ok-eq_ok _ h)

    complete :
        (map_len values + map_field_count values ≤ 256)
          × (1 + map_depth values ≤ 32)
          × (map_names_fit values ≡ true)
        → is_ok (validate_secret_value values) ≡ true
    complete (f, l, h) = ground (arith, map_complete values 1 (map_len values) f (omega arith) h)
