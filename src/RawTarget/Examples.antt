-- ===== src/RawTarget/Examples.antt =====
-- Tests of src/raw_target.rs: one segment with an escape, and spellings that are refused.
use ops_light_secrets_server.Prelude.{◌∷◌, arith, ℕ, [], ◌≡◌, ◌≢◌, refl, true, all}
use ops_light_secrets_server.Prelude.Text.{Text, text}
use ops_light_secrets_server.Prelude.Result.{ok}
use ops_light_secrets_server.RawTarget.Segment.{
  uppercase_hex, unreserved, push_escaped, escape, plain, decode_bytes, utf8_first, utf8_rest,
  is_utf8, decode_segment, error, encoded_separator, noncanonical_encoding, malformed_escape,
  dot_segment,
}
use ops_light_secrets_server.RawTarget.RoundTrip.{decode_segment-spell}
use ops_light_secrets_server.RawTarget.Canonical.{decode_segment_canonical}
use ops_light_secrets_server.RawTarget.Spelling.{spell, harmless}

abbrev spaced : Text
spaced = text "a b"

escaped_space : decode_segment (text "a%20b") 5 ≡ ok spaced
unfolding decode_segment decode_bytes plain escape push_escaped uppercase_hex unreserved utf8_first
    utf8_rest
escaped_space = refl

escaped_slash : decode_segment (text "a%2Fb") 5 ≡ error encoded_separator 6
unfolding decode_segment decode_bytes plain escape push_escaped uppercase_hex unreserved
escaped_slash = refl

lowercase_escape : decode_segment (text "%c3%A9") 0 ≡ error noncanonical_encoding 0
unfolding decode_segment decode_bytes plain escape push_escaped uppercase_hex unreserved
lowercase_escape = refl

short_escape : decode_segment (text "ab%2") 0 ≡ error malformed_escape 2
unfolding decode_segment decode_bytes plain escape push_escaped uppercase_hex unreserved
short_escape = refl

dots : decode_segment (text "..") 3 ≡ error dot_segment 3
unfolding decode_segment decode_bytes plain unreserved utf8_first utf8_rest
dots = refl

decode_segment_canonical_example :
    (text "a%20b" ≡ spell spaced)
    × ((other : Text) (offset' : ℕ)
        → decode_segment other offset' ≡ ok spaced
        → other ≡ text "a%20b")
    × (is_utf8 spaced ≡ true)
    × (spaced ≢ [])
    × (spaced ≢ text ".")
    × (spaced ≢ text "..")
    × (all harmless spaced ≡ true)
decode_segment_canonical_example = decode_segment_canonical (text "a%20b") 5 spaced escaped_space

-- `a é`, whose last character is two bytes.
abbrev accented : Text
accented = b'a' ∷ 0x20 ∷ 0xc3 ∷ 0xa9 ∷ []

accented_spelling : spell accented ≡ text "a%20%C3%A9"
unfolding unreserved
accented_spelling = refl

accented_utf8 : is_utf8 accented ≡ true
unfolding utf8_first utf8_rest
accented_utf8 = refl

decode_segment-spell_example : decode_segment (spell accented) 8 ≡ ok accented
decode_segment-spell_example =
    decode_segment-spell accented 8 refl (λ e. ground (arith, e)) (λ e. ground (arith, e))
      accented_utf8 refl refl
