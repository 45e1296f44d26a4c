-- ===== src/Codec/Decoder.antt =====
-- src/store/codec.rs: `Decoder`, a cursor in a slice of bytes.
use ops_light_secrets_server.Prelude.{
  ℕ, zero, suc, ◌+◌, ◌*◌, Bool, true, false, not, Option, none, some, List, [], ◌∷◌, ltb, ◌==◌,
  if◌then◌else◌, length, checked_add,
}
use ops_light_secrets_server.Prelude.Action.{
  Action, ◌>>=◌, ◌>>◌, pure, fail, gets, modify, some_or, refuse,
}
use ops_light_secrets_server.Codec.{
  CodecError, invalid, limit, truncated, trailing, unknown_version,
}

pub record Decoder : Type 0 where
  pub bytes : List ℕ
  pub cursor : ℕ

abbrev pub Decode : Type 0 → Type 0
Decode A = Action Decoder CodecError A

-- The first `n` elements after the first `from`, when there are as many.
abbrev pub prefix : ℕ → List ℕ → Option (List ℕ)
prefix zero xs = some []
prefix (suc n) [] = none
prefix (suc n) (x ∷ xs) = elim (prefix n xs) [ none ↦ none | some ys ↦ some (x ∷ ys) ]

abbrev pub slice : ℕ → ℕ → List ℕ → Option (List ℕ)
slice zero n xs = prefix n xs
slice (suc from) n [] = none
slice (suc from) n (x ∷ xs) = slice from n xs

unfoldable pub take : ℕ → Decode (List ℕ)
take length = do
  cursor ← gets (λ d. d.cursor)
  end ← some_or (checked_add cursor length) limit
  bytes ← gets (λ d. d.bytes)
  value ← some_or (slice cursor length bytes) truncated
  modify (λ d. record d { cursor = end })
  pure value

-- `from_be_bytes`
abbrev pub from_be : ℕ → List ℕ → ℕ
from_be high [] = high
from_be high (b ∷ rest) = from_be (high * 256 + b) rest

unfoldable pub number : ℕ → Decode ℕ
number width = do value ← take width; pure (from_be 0 value)

abbrev pub u8 : Decode ℕ
u8 = number 1

unfoldable pub bool : Decode Bool
bool = do
  value ← u8
  if value == 0 then pure false else if value == 1 then pure true else fail invalid

abbrev pub u16 : Decode ℕ
u16 = number 2

abbrev pub u32 : Decode ℕ
u32 = number 4

abbrev pub u64 : Decode ℕ
u64 = number 8

abbrev pub fixed : ℕ → Decode (List ℕ)
fixed width = take width

unfoldable pub bytes : ℕ → Decode (List ℕ)
bytes maximum = do length ← u32; refuse (ltb maximum length) limit; take length

unfoldable pub version : ℕ → Decode (Unit {0})
version expected = do found ← u8; refuse (not (found == expected)) unknown_version

unfoldable pub finish : Decode (Unit {0})
finish = do d ← gets (λ x. x); refuse (not (d.cursor == length d.bytes)) trailing
