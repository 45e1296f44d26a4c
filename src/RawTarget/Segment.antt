-- ===== src/RawTarget/Segment.antt =====
-- src/raw_target.rs: `decode_segment`, the decoding of one segment of a request path. The digest of
-- the whole target, which an error carries for the log, is left out of `ParseError`.
use ops_light_secrets_server.Prelude.{
  ℕ, zero, suc, ◌+◌, ◌-◌, ◌*◌, Bool, true, false, not, ◌&&◌, ◌||◌, Option, none, some, [], ◌∷◌, leb,
  ltb, ◌==◌, if◌then◌else◌, all, is_empty,
}
use ops_light_secrets_server.Prelude.Text.{
  Text, text, text_eq, is_ascii_digit, is_ascii_alphanumeric, is_ascii_control,
}
use ops_light_secrets_server.Prelude.Result.{Result, ok, err, ◌>>=◌, ◌>>◌, refuse}

pub data ParseReason : Type 0 where
  target_too_long invalid_endpoint missing_resource empty_segment dot_segment : ParseReason
  malformed_escape encoded_separator encoded_percent noncanonical_encoding : ParseReason
  invalid_utf8 control_character unsupported_character : ParseReason
  duplicate_query noncanonical_query invalid_query : ParseReason

pub record ParseError : Type 0 where
  pub reason : ParseReason
  pub offset : ℕ

abbrev pub error {ℓ} : {A : Type ℓ} → ParseReason → ℕ → Result ParseError A
error reason offset = err (record { reason = reason; offset = offset })

unfoldable pub uppercase_hex : ℕ → Option ℕ
uppercase_hex value =
    if leb b'0' value && leb value b'9'
    then some (value - b'0')
    else if leb b'A' value && leb value b'F'
    then some (value - b'A' + 10)
    else none

abbrev pub is_ascii_hexdigit : ℕ → Bool
is_ascii_hexdigit c = is_ascii_digit c || (leb b'A' c && leb c b'F') || (leb b'a' c && leb c b'f')

-- The bytes that stand for themselves.
unfoldable pub unreserved : ℕ → Bool
unreserved c =
    is_ascii_alphanumeric c || c == b'-' || c == b'_' || c == b'.' || c == b'~' || c == b'+'

abbrev pub push : ℕ → Result ParseError Text → Result ParseError Text
push value later = later >>= λ decoded. ok (value ∷ decoded)

-- The `match value` of an escape.
unfoldable pub push_escaped : ℕ → ℕ → Result ParseError Text → Result ParseError Text
push_escaped offset value later =
    if value == b'/' || value == b'\\'
    then error encoded_separator offset
    else if value == b'%'
    then error encoded_percent offset
    else if leb value 0x1f || value == 0x7f
    then error control_character offset
    else if unreserved value
    then error noncanonical_encoding offset
    else push value later

-- An escape with the two bytes after its percent sign.
unfoldable pub escape : ℕ → ℕ → ℕ → Result ParseError Text → Result ParseError Text
escape offset first second later = elim (uppercase_hex first) [
  | none ↦
      error
        (if is_ascii_hexdigit first && is_ascii_hexdigit second
          then noncanonical_encoding
          else malformed_escape)
        offset
  | some high ↦ elim (uppercase_hex second) [
    | none ↦
        error
          (if is_ascii_hexdigit first && is_ascii_hexdigit second
            then noncanonical_encoding
            else malformed_escape)
          offset
    | some low ↦ push_escaped offset (high * 16 + low) later
  ]
]

-- A byte that is not a percent sign.
unfoldable pub plain : ℕ → ℕ → Result ParseError Text → Result ParseError Text
plain offset byte later =
    if byte == b'\\' || is_ascii_control byte || byte == b' '
    then error (if is_ascii_control byte then control_character else unsupported_character) offset
    else if not (unreserved byte)
    then error unsupported_character offset
    else push byte later

-- The `while` loop, from the byte at `offset` on.
unfoldable pub decode_bytes : ℕ → Text → Result ParseError Text
decode_bytes offset [] = ok []
decode_bytes offset (byte ∷ []) =
    if byte == b'%' then error malformed_escape offset else plain offset byte (ok [])
decode_bytes offset (byte ∷ first ∷ []) =
    let rest = decode_bytes (offset + 1) (first ∷ []) in
    if byte == b'%' then error malformed_escape offset else plain offset byte rest
decode_bytes offset (byte ∷ first ∷ second ∷ later) = elim (byte == b'%') [
  | true ↦ escape offset first second (decode_bytes (offset + 3) later)
  | false ↦ plain offset byte (decode_bytes (offset + 1) (first ∷ second ∷ later))
]

-- `String::from_utf8` of the standard library accepts a sequence of well-formed characters: for the
-- first byte of one, how many bytes follow and the range of the first of them.
unfoldable pub utf8_first : ℕ → Option (ℕ × ℕ × ℕ)
utf8_first b =
    if ltb b 0x80
    then some (0, 0x80, 0xbf)
    else if ltb b 0xc2
    then none
    else if ltb b 0xe0
    then some (1, 0x80, 0xbf)
    else if b == 0xe0
    then some (2, 0xa0, 0xbf)
    else if b == 0xed
    then some (2, 0x80, 0x9f)
    else if ltb b 0xf0
    then some (2, 0x80, 0xbf)
    else if b == 0xf0
    then some (3, 0x90, 0xbf)
    else if ltb b 0xf4
    then some (3, 0x80, 0xbf)
    else if b == 0xf4
    then some (3, 0x80, 0x8f)
    else none

unfoldable pub utf8_rest : ℕ → ℕ → ℕ → Text → Bool
utf8_rest zero low high [] = true
utf8_rest (suc n) low high [] = false
utf8_rest zero low high (b ∷ rest) = elim (utf8_first b) [
  | none ↦ false
  | some (n, low', high') ↦ utf8_rest n low' high' rest
]
utf8_rest (suc n) low high (b ∷ rest) = leb low b && leb b high && utf8_rest n 0x80 0xbf rest

abbrev pub is_utf8 : Text → Bool
is_utf8 bytes = utf8_rest 0 0x80 0xbf bytes

unfoldable pub decode_segment : Text → ℕ → Result ParseError Text
decode_segment raw base_offset = do
  refuse (is_empty raw) (record { reason = empty_segment; offset = base_offset })
  refuse (not (all (λ byte. ltb byte 128) raw))
      (record { reason = noncanonical_encoding; offset = base_offset })
  decoded ← decode_bytes base_offset raw
  refuse (not (is_utf8 decoded)) (record { reason = invalid_utf8; offset = base_offset })
  refuse (text_eq decoded (text ".") || text_eq decoded (text ".."))
      (record { reason = dot_segment; offset = base_offset })
  ok decoded
