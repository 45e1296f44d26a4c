-- ===== src/Codec/Encoder.antt =====
-- src/store/codec.rs: `Encoder`, which is the bytes it holds.
use ops_light_secrets_server.Prelude.{
  ℕ, Bool, ◌||◌, List, [], ◌∷◌, ◌++◌, ltb, if◌then◌else◌, length,
}
use ops_light_secrets_server.Prelude.Result.{Result, ok, err}
use ops_light_secrets_server.Prelude.Words.{be_bytes_of}
use ops_light_secrets_server.Codec.{CodecError, limit, u32_max}

abbrev pub version : ℕ → List ℕ
version v = v ∷ []

abbrev pub fixed : List ℕ → List ℕ → List ℕ
fixed value e = e ++ value

abbrev pub u8 : ℕ → List ℕ → List ℕ
u8 value e = e ++ value ∷ []

abbrev pub bool : Bool → List ℕ → List ℕ
bool value = u8 (if value then 1 else 0)

abbrev pub u16 : ℕ → List ℕ → List ℕ
u16 value = fixed (be_bytes_of 2 value)

abbrev pub u32 : ℕ → List ℕ → List ℕ
u32 value = fixed (be_bytes_of 4 value)

abbrev pub u64 : ℕ → List ℕ → List ℕ
u64 value = fixed (be_bytes_of 8 value)

unfoldable pub bytes : List ℕ → ℕ → List ℕ → Result CodecError (List ℕ)
bytes value maximum e =
    if ltb maximum (length value) || ltb u32_max (length value)
    then err limit
    else ok (fixed value (u32 (length value) e))
