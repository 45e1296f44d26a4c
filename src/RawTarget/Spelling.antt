-- ===== src/RawTarget/Spelling.antt =====
-- src/raw_target.rs: the one spelling of a segment that `decode_segment` accepts.
use ops_light_secrets_server.Prelude.{
  ℕ, ◌+◌, ◌-◌, ◌*◌, ◌/◌, ◌%◌, ◌<◌, ◌≡◌, refl, Bool, true, false, not, ◌||◌, some, [], ◌∷◌, ◌++◌,
  arith, ltb, ◌==◌, if◌then◌else◌,
}
use ops_light_secrets_server.Prelude.Text.{Text, is_ascii_control}
use ops_light_secrets_server.RawTarget.Segment.{uppercase_hex, unreserved, plain}

-- An uppercase hexadecimal digit.
abbrev pub hex : ℕ → ℕ
hex n = if ltb n 10 then b'0' + n else b'A' + (n - 10)

-- The one spelling of a byte: itself, or its escape.
abbrev pub spell_byte : ℕ → Text
spell_byte b = if unreserved b then b ∷ [] else b'%' ∷ hex (b / 16) ∷ hex (b % 16) ∷ []

abbrev pub spell : Text → Text
spell [] = []
spell (b ∷ rest) = spell_byte b ++ spell rest

-- A byte that a decoded segment may hold.
abbrev pub harmless : ℕ → Bool
harmless b = not (b == b'/' || b == b'\\' || b == b'%' || is_ascii_control b)

pub unreserved-harmless : (b : ℕ) → unreserved b ≡ true → harmless b ≡ true
unfolding unreserved
unreserved-harmless b h = ground arith

hex-digit : (c n : ℕ) → uppercase_hex c ≡ some n → (hex n ≡ c) × (n < 16)
unfolding uppercase_hex
hex-digit c n h = ground arith

pub escaped-spelling :
    (first second high low : ℕ)
    → uppercase_hex first ≡ some high
    → uppercase_hex second ≡ some low
    → unreserved (high * 16 + low) ≡ false
    → spell_byte (high * 16 + low) ≡ b'%' ∷ first ∷ second ∷ []
escaped-spelling first second high low e f plain =
    let (a, b) = hex-digit first high e in
    let (c, d) = hex-digit second low f in
    let top : (high * 16 + low) / 16 ≡ high = omega (arith, d) in
    let bottom : (high * 16 + low) % 16 ≡ low = omega (arith, d) in
    rw (plain, top, bottom, a, c) refl
