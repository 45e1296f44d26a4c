-- ===== src/Kv/Value.antt =====
-- src/kv.rs: JSON bodies, the bounds that a secret's value must meet, and the request parsers.
-- `serde_json::Value` is read by its public constructors, a number by the three kinds it may have.
-- Text and maps are the standard library's: a map's entries come in the order of their keys.
pub mod Bounds
use ops_light_secrets_server.Prelude.{
  ℕ, zero, suc, ◌+◌, ◌≤◌, Bool, true, false, not, ◌&&◌, ◌||◌, Option, none, some, List, [], ◌∷◌,
  leb, ltb, ◌==◌, if◌then◌else◌, length, checked_add, any, all, is_empty,
}
use ops_light_secrets_server.Prelude.Text.{Text, text, text_eq}
use ops_light_secrets_server.Prelude.Result.{Result, ok, err, ◌>>=◌, ◌>>◌, require, refuse, ok_or}
use ops_light_secrets_server.BTreeMap.{BTreeMap}
use ops_light_secrets_server.Kv.Types.{
  KvError, invalid, bound_exceeded, max_version_batch, max_secret_fields,
  max_secret_field_name_chars, max_secret_nesting_depth, max_custom_metadata_keys,
  max_custom_metadata_key_chars, max_custom_metadata_value_chars,
}

-- `serde_json::Number`: a `u64`, a negative `i64` by its distance from zero, or an `f64` by its bits.
pub data Number : Type 0 where
  pos_int neg_int float : ℕ → Number

mutual
  pub data Value : Type 0 where
    null : Value
    bool : Bool → Value
    number : Number → Value
    string : Text → Value
    array : Items → Value
    object : Map → Value

  pub data Items : Type 0 where
    nil : Items
    cons : Value → Items → Items

  pub data Map : Type 0 where
    end : Map
    field : Text → Value → Map → Map

-- `values.len()`
unfoldable pub map_len : Map → ℕ
map_len end = 0
map_len (field key value rest) = suc (map_len rest)

-- `chars().count()`: the bytes that do not continue a UTF-8 sequence.
unfoldable pub chars_count : Text → ℕ
chars_count [] = 0
chars_count (b ∷ rest) = (if leb 128 b && ltb b 192 then 0 else 1) + chars_count rest

abbrev pub name_too_long : Text → Bool
name_too_long key = ltb max_secret_field_name_chars (chars_count key)

-- `walk` of `validate_secret_value`; the count of fields, `&mut usize` there, is passed on.
unfoldable mutual
  pub walk : Value → ℕ → ℕ → Result KvError ℕ
  walk (object values) depth fields = do
    refuse (ltb max_secret_nesting_depth depth) (bound_exceeded (text "secret_nesting_depth"))
    total ← ok_or (checked_add fields (map_len values)) (bound_exceeded (text "secret_field_count"))
    refuse (ltb max_secret_fields total) (bound_exceeded (text "secret_field_count"))
    walk_map values depth total
  walk (array values) depth fields = do
    refuse (ltb max_secret_nesting_depth depth) (bound_exceeded (text "secret_nesting_depth"))
    walk_items values depth fields
  walk null depth fields = do
    refuse (ltb max_secret_nesting_depth depth) (bound_exceeded (text "secret_nesting_depth"))
    ok fields
  walk (bool b) depth fields = do
    refuse (ltb max_secret_nesting_depth depth) (bound_exceeded (text "secret_nesting_depth"))
    ok fields
  walk (number n) depth fields = do
    refuse (ltb max_secret_nesting_depth depth) (bound_exceeded (text "secret_nesting_depth"))
    ok fields
  walk (string s) depth fields = do
    refuse (ltb max_secret_nesting_depth depth) (bound_exceeded (text "secret_nesting_depth"))
    ok fields

  pub walk_items : Items → ℕ → ℕ → Result KvError ℕ
  walk_items nil depth fields = ok fields
  walk_items (cons value rest) depth fields = do
    total ← walk value (depth + 1) fields
    walk_items rest depth total

  pub walk_map : Map → ℕ → ℕ → Result KvError ℕ
  walk_map end depth fields = ok fields
  walk_map (field key value rest) depth fields = do
    refuse (name_too_long key) (bound_exceeded (text "secret_field_name_chars"))
    total ← walk value (depth + 1) fields
    walk_map rest depth total

unfoldable pub validate_secret_value : Map → Result KvError (Unit {0})
unfolding map_len walk chars_count
validate_secret_value values = do
  refuse (ltb max_secret_fields (map_len values)) (bound_exceeded (text "secret_field_count"))
  total ← walk_map values 1 (map_len values)
  ok tt

unfoldable pub validate_custom_pairs : BTreeMap Text Text → Result KvError (Unit {0})
unfolding chars_count
validate_custom_pairs [] = ok tt
validate_custom_pairs ((key, value) ∷ rest) = do
  refuse (is_empty key || ltb max_custom_metadata_key_chars (chars_count key))
      (bound_exceeded (text "custom_metadata_key_chars"))
  refuse (ltb max_custom_metadata_value_chars (chars_count value))
      (bound_exceeded (text "custom_metadata_value_chars"))
  validate_custom_pairs rest

unfoldable pub validate_custom_metadata : BTreeMap Text Text → Result KvError (Unit {0})
unfolding validate_custom_pairs
validate_custom_metadata values = do
  refuse (ltb max_custom_metadata_keys (length values))
      (bound_exceeded (text "custom_metadata_keys"))
  validate_custom_pairs values

-- `unique.len() != versions.len()`, for the set of the versions: some version comes twice.
unfoldable pub has_duplicate : List ℕ → Bool
has_duplicate [] = false
has_duplicate (v ∷ rest) = any (λ w. v == w) rest || has_duplicate rest

unfoldable pub validate_versions : List ℕ → Result KvError (Unit {0})
unfolding has_duplicate
validate_versions versions = do
  refuse (ltb max_version_batch (length versions)) (bound_exceeded (text "version_batch"))
  refuse (is_empty versions) invalid
  refuse (has_duplicate versions || any (λ v. v == 0) versions) invalid
  ok tt
