-- ===== src/Codec/Fields.antt =====
-- src/store/codec.rs: a record as the codec sees it: its version and its fields in a row, written with
-- the calls of `Encoder` and read with those of `Decoder`.
use ops_light_secrets_server.Prelude.{ℕ, ◌<◌, Bool, List, [], ◌∷◌, length}
use ops_light_secrets_server.Prelude.Result.{Result, ok, err}
use ops_light_secrets_server.Prelude.Result
use ops_light_secrets_server.Prelude.Action.{◌>>=◌, ◌>>◌, pure}
use ops_light_secrets_server.Codec.{CodecError}
use ops_light_secrets_server.Codec.Encoder
use ops_light_secrets_server.Codec.Decoder
use ops_light_secrets_server.Codec.Decoder.{Decode}

pub data Field : Type 0 where
  u8_field u16_field u32_field u64_field : ℕ → Field
  bool_field : Bool → Field
  fixed_field : List ℕ → Field
  bytes_field : List ℕ → ℕ → Field

unfoldable pub write_field : Field → List ℕ → Result CodecError (List ℕ)
write_field (u8_field n) e = ok (Encoder.u8 n e)
write_field (u16_field n) e = ok (Encoder.u16 n e)
write_field (u32_field n) e = ok (Encoder.u32 n e)
write_field (u64_field n) e = ok (Encoder.u64 n e)
write_field (bool_field b) e = ok (Encoder.bool b e)
write_field (fixed_field xs) e = ok (Encoder.fixed xs e)
write_field (bytes_field xs maximum) e = Encoder.bytes xs maximum e

-- The field is read where one of its shape is expected: its kind, a fixed width and a maximum.
unfoldable pub read_field : Field → Decode Field
read_field (u8_field _) = do n ← Decoder.u8; pure (u8_field n)
read_field (u16_field _) = do n ← Decoder.u16; pure (u16_field n)
read_field (u32_field _) = do n ← Decoder.u32; pure (u32_field n)
read_field (u64_field _) = do n ← Decoder.u64; pure (u64_field n)
read_field (bool_field _) = do b ← Decoder.bool; pure (bool_field b)
read_field (fixed_field xs) = do value ← Decoder.fixed (length xs); pure (fixed_field value)
read_field (bytes_field _ maximum) = do
  value ← Decoder.bytes maximum
  pure (bytes_field value maximum)

unfoldable pub write_fields : List Field → List ℕ → Result CodecError (List ℕ)
write_fields [] e = ok e
write_fields (field ∷ rest) e = Result.◌>>=◌ (write_field field e) (write_fields rest)

unfoldable pub read_fields : List Field → Decode (List Field)
read_fields [] = pure []
read_fields (field ∷ rest) = do
  found ← read_field field
  others ← read_fields rest
  pure (found ∷ others)

unfoldable pub encode : ℕ → List Field → Result CodecError (List ℕ)
encode version fields = write_fields fields (Encoder.version version)

unfoldable pub decode : ℕ → List Field → Decode (List Field)
decode version fields = do
  Decoder.version version
  found ← read_fields fields
  Decoder.finish
  pure found

-- A value is one of its type.
abbrev pub IsTyped : Field → Type 0
IsTyped (u8_field n) = n < 256
IsTyped (u16_field n) = n < 65536
IsTyped (u32_field n) = n < 4294967296
IsTyped (u64_field n) = n < 18446744073709551616
IsTyped (bool_field b) = Unit
IsTyped (fixed_field xs) = Unit
IsTyped (bytes_field xs maximum) = Unit

abbrev pub AreTyped : List Field → Type 0
AreTyped [] = Unit
AreTyped (field ∷ rest) = IsTyped field × AreTyped rest
