-- ===== src/Store/Sealed.antt =====
-- src/store/mod.rs and src/store/integrity.rs: clear records under a tag that binds them to their class,
-- store, key and generation.
use ops_light_secrets_server.Prelude.{
  ℕ, ◌≡◌, refl, sym, ap, subst, ==_iff, ◌||◌, not, List, [], ◌∷◌, ◌++◌, ltb, ◌==◌, length, is_empty,
  arith,
}
use ops_light_secrets_server.Prelude.Text.{text, text_eq, text_eq_iff}
use ops_light_secrets_server.Prelude.Words.{be_bytes_of}
use ops_light_secrets_server.Prelude.Result.{Result, ok, ◌>>=◌, ◌>>◌, refuse, >>=-eq-ok}
use ops_light_secrets_server.Codec.{CodecError, invalid, limit}
use ops_light_secrets_server.Store.Classes.{RecordClass, code, table_code, domain}

-- `ClearRecord`
pub record ClearRecord (T : Type 0) : Type 0 where
  pub class : RecordClass
  pub schema_version : ℕ
  pub encode : T → Result CodecError (List ℕ)

pub record Sealed (T : Type 0) : Type 0 where
  pub generation : ℕ
  pub value : T
  pub class : RecordClass
  pub schema_version : ℕ
  pub mac_format_version : ℕ
  pub mac : List ℕ

abbrev pub current_mac_format : ℕ
current_mac_format = 1

abbrev pub max_state_key : ℕ
max_state_key = 4096

-- A key, and the BLAKE3 hash under it.
pub record Mac : Type 0 where
  pub key : List ℕ
  pub keyed_hash : List ℕ → List ℕ → List ℕ
  pub store_id : List ℕ

-- A field of the hashed text, after its length.
abbrev pub framed : List ℕ → List ℕ
framed field = be_bytes_of 8 (length field) ++ field

unfoldable pub record_mac : Mac → RecordClass → ℕ → List ℕ → ℕ → List ℕ → Result CodecError (List ℕ)
record_mac m class schema_version primary_key generation value = do
  refuse (is_empty primary_key || ltb max_state_key (length primary_key)) limit
  ok (
      m.keyed_hash m.key (
        text "ops-light-secrets-server.clear-record-mac.v1"
        ++ (0 ∷ []
            ++ (framed (be_bytes_of 2 current_mac_format)
                ++ (framed (be_bytes_of 2 (table_code class))
                    ++ (framed (be_bytes_of 2 (code class))
                        ++ (framed (domain class)
                            ++ (framed (be_bytes_of 2 schema_version)
                                ++ (framed m.store_id
                                    ++ (framed primary_key
                                        ++ (framed (be_bytes_of 8 generation)
                                            ++ framed value)))))))))))

module _ {T : Type 0} (r : ClearRecord T) (m : Mac) where
  unfoldable pub seal : T → ℕ → List ℕ → Result CodecError (Sealed T)
  seal value generation primary_key = do
    encoded ← r.encode value
    mac ← record_mac m r.class r.schema_version primary_key generation encoded
    ok (record {
      generation = generation;
      value = value;
      class = r.class;
      schema_version = r.schema_version;
      mac_format_version = current_mac_format;
      mac = mac;
    })

  -- `verify`; the tags are compared in constant time, which comes to their equality.
  unfoldable pub verify : Sealed T → List ℕ → Result CodecError (Unit {0})
  verify s primary_key = do
    refuse
        (not (s.mac_format_version == current_mac_format)
          || not (code s.class == code r.class)
          || not (s.schema_version == r.schema_version))
        invalid
    encoded ← r.encode s.value
    expected ← record_mac m s.class s.schema_version primary_key s.generation encoded
    refuse (not (text_eq s.mac expected)) invalid

  abbrev pub sealed_as : T → ℕ → List ℕ → Sealed T
  sealed_as value generation mac = record {
    generation = generation;
    value = value;
    class = r.class;
    schema_version = r.schema_version;
    mac_format_version = current_mac_format;
    mac = mac;
  }

  -- What a value is sealed as.
  seal-parts :
      (value : T) (generation : ℕ) (primary_key : List ℕ) (s : Sealed T)
      → seal value generation primary_key ≡ ok s
      → (encoded mac : List ℕ) × (r.encode value ≡ ok encoded)
        × (record_mac m r.class r.schema_version primary_key generation encoded ≡ ok mac)
        × (sealed_as value generation mac ≡ s)
  unfolding seal
  seal-parts value generation primary_key s h =
      let (encoded, e, k) = >>=-eq-ok (r.encode value) _ h in
      let (mac, f, l) =
        >>=-eq-ok (record_mac m r.class r.schema_version primary_key generation encoded) _ k in
      (encoded, mac, e, f, ground arith)

  pub seal-fields :
      (value : T) (generation : ℕ) (primary_key : List ℕ) (s : Sealed T)
      → seal value generation primary_key ≡ ok s
      → (s.value ≡ value)
        × (s.generation ≡ generation)
        × ((encoded : List ℕ) × (r.encode value ≡ ok encoded))
  seal-fields value generation primary_key s h =
      let (encoded, mac, e, f, whole) = seal-parts value generation primary_key s h in
      (sym (ap (λ x. x.value) whole), sym (ap (λ x. x.generation) whole), (encoded, e))

  -- A record that was sealed under a key verifies under that key.
  pub verify-seal :
      (value : T) (generation : ℕ) (primary_key : List ℕ) (s : Sealed T)
      → seal value generation primary_key ≡ ok s
      → verify s primary_key ≡ ok tt
  unfolding verify
  verify-seal value generation primary_key s h =
      let (encoded, mac, e, f, whole) = seal-parts value generation primary_key s h in
      let own_code = (==_iff (code r.class) _).1 refl in
      let own_version = (==_iff r.schema_version _).1 refl in
      let own_mac = (text_eq_iff mac mac).1 refl in
      subst (λ x. verify x primary_key ≡ ok tt) whole
        (rw (own_code, own_version, e, f, own_mac) refl)
