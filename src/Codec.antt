-- ===== src/Codec.antt =====
-- src/store/codec.rs: the canonical encoding of records: fields of fixed width, most significant byte
-- first, and byte strings with their length in front. `String` fields, which are byte strings that
-- `from_utf8` accepts, are not modelled.
pub mod Encoder
pub mod Decoder
pub mod Fields
pub mod Reads
pub mod RoundTrip
pub mod Examples
use ops_light_secrets_server.Prelude.{ℕ}

pub data CodecError : Type 0 where
  invalid limit truncated trailing unknown_version : CodecError

abbrev pub u32_max : ℕ
u32_max = 4294967295
