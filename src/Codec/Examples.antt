-- ===== src/Codec/Examples.antt =====
-- Tests of src/store/codec.rs: a record of a number, a flag and a name.
use ops_light_secrets_server.Prelude.{ℕ, ◌≡◌, refl, true, List, [], ◌∷◌, arith}
use ops_light_secrets_server.Prelude.Text.{text}
use ops_light_secrets_server.Prelude.Result.{ok}
use ops_light_secrets_server.Codec.Encoder
use ops_light_secrets_server.Codec.Fields.{
  Field, u64_field, bool_field, bytes_field, write_field, write_fields, encode, decode,
}
use ops_light_secrets_server.Codec.RoundTrip.{decode-encode}

abbrev fields : List Field
fields = u64_field 513 ∷ bool_field true ∷ bytes_field (text "app") 128 ∷ []

abbrev encoded : List ℕ
encoded = 1 ∷ 0 ∷ 0 ∷ 0 ∷ 0 ∷ 0 ∷ 0 ∷ 2 ∷ 1 ∷ 1 ∷ 0 ∷ 0 ∷ 0 ∷ 3 ∷ text "app"

decode-encode_example : (decode 1 fields (record { bytes = encoded; cursor = 0 })).0 ≡ ok fields
unfolding encode write_fields write_field Encoder.bytes
decode-encode_example =
    decode-encode 1 fields encoded (omega arith) (omega arith, (tt, (tt, tt))) refl (omega arith)
