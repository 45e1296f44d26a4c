-- ===== src/RawTarget/RoundTrip.antt =====
-- src/raw_target.rs: the canonical spelling of a segment is accepted.
use ops_light_secrets_server.Prelude.{
  ℕ, ◌+◌, ◌*◌, ◌/◌, ◌%◌, ◌<◌, ◌≡◌, ◌≢◌, refl, ap, ◌∙◌, Bool, true, false, some, [], ◌∷◌, ◌++◌,
  arith, ltb, ◌==◌, all, is_empty, Bool-cases, inl, inr,
}
use ops_light_secrets_server.Prelude.Text.{Text, text, text_eq, text_eq_iff}
use ops_light_secrets_server.Prelude.Result.{Result, ok, err}
use ops_light_secrets_server.RawTarget.Segment.{
  ParseError, uppercase_hex, unreserved, push_escaped, escape, plain, decode_bytes, decode_segment,
  is_utf8,
}
use ops_light_secrets_server.RawTarget.Spelling.{hex, spell_byte, spell, harmless}

uppercase_hex-hex : (n : ℕ) → n < 16 → uppercase_hex (hex n) ≡ some n
unfolding uppercase_hex
uppercase_hex-hex n h = ground arith

push_escaped-harmless :
    (offset b : ℕ) (later : Result ParseError Text) (t : Text)
    → harmless b ≡ true
    → unreserved b ≡ false
    → later ≡ ok t
    → push_escaped offset b later ≡ ok (b ∷ t)
unfolding push_escaped
push_escaped-harmless offset b (ok x) t h reserved e = ground arith
push_escaped-harmless offset b (err x) t h reserved e = ground arith

escape-hex :
    (offset first second high low : ℕ) (later : Result ParseError Text)
    → uppercase_hex first ≡ some high
    → uppercase_hex second ≡ some low
    → escape offset first second later ≡ push_escaped offset (high * 16 + low) later
unfolding escape
escape-hex offset first second high low later e f = rw (e, escape, f) refl

escape-spelled :
    (offset b : ℕ) (later : Result ParseError Text) (t : Text)
    → b < 256
    → harmless b ≡ true
    → unreserved b ≡ false
    → later ≡ ok t
    → escape offset (hex (b / 16)) (hex (b % 16)) later ≡ ok (b ∷ t)
escape-spelled offset b later t bound h reserved e =
    let top : b / 16 < 16 = omega (arith, bound) in
    let bottom : b % 16 < 16 = omega arith in
    let whole : b / 16 * 16 + b % 16 ≡ b = omega arith in
    escape-hex offset _ _ (b / 16) (b % 16) later (uppercase_hex-hex (b / 16) top)
      (uppercase_hex-hex (b % 16) bottom)
    ∙ ap (λ x. push_escaped offset x later) whole
    ∙ push_escaped-harmless offset b later t h reserved e

plain-unreserved :
    (offset b : ℕ) (later : Result ParseError Text) (t : Text)
    → unreserved b ≡ true
    → later ≡ ok t
    → plain offset b later ≡ ok (b ∷ t)
unfolding plain unreserved
plain-unreserved offset b (ok x) t h e = ground arith
plain-unreserved offset b (err x) t h e = ground arith

unreserved-percent : (b : ℕ) → unreserved b ≡ true → (b == b'%') ≡ false
unfolding unreserved
unreserved-percent b h = ground arith

decode_bytes-unreserved :
    (offset b : ℕ) (raw : Text)
    → unreserved b ≡ true
    → decode_bytes offset (b ∷ raw) ≡ plain offset b (decode_bytes (offset + 1) raw)
unfolding decode_bytes
decode_bytes-unreserved offset b [] h = rw (unreserved-percent b h, decode_bytes) refl
decode_bytes-unreserved offset b (x ∷ []) h = rw (unreserved-percent b h, decode_bytes) refl
decode_bytes-unreserved offset b (x ∷ y ∷ raw) h = rw (unreserved-percent b h, decode_bytes) refl

decode_bytes-spell_byte :
    (offset b : ℕ) (raw t : Text)
    → b < 256
    → harmless b ≡ true
    → ((o : ℕ) → decode_bytes o raw ≡ ok t)
    → decode_bytes offset (spell_byte b ++ raw) ≡ ok (b ∷ t)
unfolding decode_bytes
decode_bytes-spell_byte offset b raw t bound h rest = elim (Bool-cases (unreserved b)) [
  | inl literal ↦ rw literal (
      decode_bytes-unreserved offset b raw literal
      ∙ plain-unreserved offset b _ t literal (rest (offset + 1)))
  | inr reserved ↦ rw reserved (escape-spelled offset b _ t bound h reserved (rest (offset + 3)))
]

-- A byte, in eight bits.
abbrev pub byte_sized : ℕ → Bool
byte_sized b = ltb b 256

decode_bytes-spell :
    (s : Text)
    → all byte_sized s ≡ true
    → all harmless s ≡ true
    → (offset : ℕ) → decode_bytes offset (spell s) ≡ ok s
unfolding decode_bytes
decode_bytes-spell [] bytes h offset = refl
decode_bytes-spell (b ∷ s) bytes h offset =
    let later : all byte_sized s ≡ true = ground arith in
    let quiet : all harmless s ≡ true = ground arith in
    decode_bytes-spell_byte offset b (spell s) s (ground arith) (ground arith)
      (decode_bytes-spell s later quiet)

abbrev is_ascii : Text → Bool
is_ascii raw = all (λ byte. ltb byte 128) raw

is_ascii-append : (a b : Text) → is_ascii a ≡ true → is_ascii b ≡ true → is_ascii (a ++ b) ≡ true
is_ascii-append [] b h k = k
is_ascii-append (x ∷ a) b h k = ground (arith, is_ascii-append a b)

spell_byte-ascii : (b : ℕ) → b < 256 → is_ascii (spell_byte b) ≡ true
unfolding unreserved
spell_byte-ascii b h =
    let top : b / 16 < 16 = omega (arith, h) in
    let bottom : b % 16 < 16 = omega arith in ground arith

spell-ascii : (s : Text) → all byte_sized s ≡ true → is_ascii (spell s) ≡ true
spell-ascii [] h = refl
spell-ascii (b ∷ s) h =
    is_ascii-append (spell_byte b) (spell s) (spell_byte-ascii b (ground arith))
      (spell-ascii s (ground arith))

spell-is_empty : (s : Text) → is_empty s ≡ false → is_empty (spell s) ≡ false
spell-is_empty [] h = h
spell-is_empty (b ∷ s) h = elim (Bool-cases (unreserved b)) [
  | inl literal ↦ rw literal refl
  | inr reserved ↦ rw reserved refl
]

-- The canonical spelling of a segment is accepted, and decodes to that segment, wherever it stands in
-- the target: the segment is not empty, `.` or `..`, is well-formed UTF-8 in bytes of eight bits, and
-- holds no slash, backslash, percent sign or ASCII control character.
pub decode_segment-spell :
    (s : Text) (offset : ℕ)
    → is_empty s ≡ false
    → s ≢ text "."
    → s ≢ text ".."
    → is_utf8 s ≡ true
    → all byte_sized s ≡ true
    → all harmless s ≡ true
    → decode_segment (spell s) offset ≡ ok s
unfolding decode_segment
decode_segment-spell s offset nonempty dot dots utf8 bytes quiet =
    let a = text_eq_iff s (text ".") in
    let b = text_eq_iff s (text "..") in
    let c : text_eq s (text ".") ≡ false = ground arith in
    let d : text_eq s (text "..") ≡ false = ground arith in
    rw
      (
        spell-is_empty s nonempty,
        spell-ascii s bytes,
        decode_bytes-spell s bytes quiet offset,
        utf8,
        c,
        d,
      )
      refl
