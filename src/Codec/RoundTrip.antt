-- ===== src/Codec/RoundTrip.antt =====
-- src/store/codec.rs: a record that is encoded decodes to itself.
use mathlib.Core.List.{append-nil, append_assoc}
use ops_light_secrets_server.Prelude.{
  ℕ, suc, ◌+◌, ◌≤◌, ◌<◌, ◌≡◌, refl, sym, ap, ◌∙◌, subst, false, not, List, [], ◌∷◌, ◌++◌, arith,
  ◌==◌, if◌then◌else◌, length, u64_max,
}
use ops_light_secrets_server.Prelude.Result.{Result, ok}
use ops_light_secrets_server.Prelude.Action.{◌>>=◌, pure}
use ops_light_secrets_server.Prelude.Words.{be_bytes_of}
use ops_light_secrets_server.Codec.{CodecError}
use ops_light_secrets_server.Codec.Encoder
use ops_light_secrets_server.Codec.Decoder
use ops_light_secrets_server.Codec.Decoder.{Decode, take, slice, prefix, from_be, number}
use ops_light_secrets_server.Codec.Fields.{
  Field, u8_field, u16_field, u32_field, u64_field, bool_field, fixed_field, bytes_field,
  write_field, read_field, write_fields, read_fields, encode, decode, IsTyped, AreTyped,
}
use ops_light_secrets_server.Prelude.Result.{>>=-eq-ok}
use ops_light_secrets_server.Codec.Reads.{
  Reads, take-Reads, then-Reads, bind-Reads, number-Reads, u8-Reads, bool-Reads, refuse-Reads,
  bytes-Reads,
}

-- What a field that is written adds, and that it reads back.
record Adds (field : Field) (before after : List ℕ) : Type 0 where
  pub bytes : List ℕ
  pub appended : after ≡ before ++ bytes
  pub reads : Reads (read_field field) bytes field

bytes-Adds :
    (xs : List ℕ) (maximum : ℕ) (before after : List ℕ)
    → Encoder.bytes xs maximum before ≡ ok after
    → Adds (bytes_field xs maximum) before after
unfolding Encoder.bytes read_field
bytes-Adds xs maximum before after h = record {
  bytes = be_bytes_of 4 (length xs) ++ xs;
  appended =
      let e : after ≡ (before ++ be_bytes_of 4 (length xs)) ++ xs = ground arith in
      e ∙ append_assoc before (be_bytes_of 4 (length xs)) xs;
  reads =
      then-Reads (Decoder.bytes maximum) (λ v. bytes_field v maximum) _ xs
        (bytes-Reads xs maximum (ground arith) (ground arith));
}

ok-eq : {A : Type 0} (a b : A) → ◌≡◌ {A = Result CodecError A} (ok a) (ok b) → b ≡ a
ok-eq a b h = ground arith

write_field-Adds :
    (field : Field) (before after : List ℕ)
    → IsTyped field
    → write_field field before ≡ ok after
    → Adds field before after
unfolding write_field read_field
write_field-Adds (u8_field n) before after t h = record {
  bytes = n ∷ [];
  appended = ok-eq _ _ h;
  reads = then-Reads Decoder.u8 u8_field _ n (u8-Reads n t);
}
write_field-Adds (u16_field n) before after t h = record {
  bytes = be_bytes_of 2 n;
  appended = ok-eq _ _ h;
  reads = then-Reads Decoder.u16 u16_field _ n (number-Reads 2 n t);
}
write_field-Adds (u32_field n) before after t h = record {
  bytes = be_bytes_of 4 n;
  appended = ok-eq _ _ h;
  reads = then-Reads Decoder.u32 u32_field _ n (number-Reads 4 n t);
}
write_field-Adds (u64_field n) before after t h = record {
  bytes = be_bytes_of 8 n;
  appended = ok-eq _ _ h;
  reads = then-Reads Decoder.u64 u64_field _ n (number-Reads 8 n t);
}
write_field-Adds (bool_field b) before after t h = record {
  bytes = (if b then 1 else 0) ∷ [];
  appended = ok-eq _ _ h;
  reads = then-Reads Decoder.bool bool_field _ b (bool-Reads b);
}
write_field-Adds (fixed_field xs) before after t h = record {
  bytes = xs;
  appended = ok-eq _ _ h;
  reads = then-Reads (Decoder.fixed (length xs)) fixed_field xs xs (take-Reads xs);
}
write_field-Adds (bytes_field xs maximum) before after t h = bytes-Adds xs maximum before after h

-- The same for the fields in a row.
record AddsAll (fields : List Field) (before after : List ℕ) : Type 0 where
  pub bytes : List ℕ
  pub appended : after ≡ before ++ bytes
  pub reads : Reads (read_fields fields) bytes fields

nil-Adds : (before : List ℕ) → AddsAll [] before before
unfolding read_fields pure
nil-Adds before = record {
  bytes = [];
  appended = sym (append-nil before);
  reads = record {
    at = λ d front rest b c fits.
        let e : d.cursor ≡ length front + 0 = omega (arith, c) in
        ap (λ n. (ok [], record d { cursor = n })) e;
  };
}

cons-Adds :
    (field : Field) (rest : List Field) (before middle after : List ℕ)
    → Adds field before middle
    → AddsAll rest middle after
    → AddsAll (field ∷ rest) before after
unfolding read_fields
cons-Adds field rest before middle after h k = record {
  bytes = h.bytes ++ k.bytes;
  appended = k.appended ∙ ap (λ x. x ++ k.bytes) h.appended ∙ append_assoc before h.bytes k.bytes;
  reads =
      bind-Reads (read_field field) _ h.bytes k.bytes field (field ∷ rest) h.reads
        (then-Reads (read_fields rest) (λ others. field ∷ others) k.bytes rest k.reads);
}

write_fields-Adds :
    (fields : List Field) (before after : List ℕ)
    → AreTyped fields
    → write_fields fields before ≡ ok after
    → AddsAll fields before after
unfolding write_fields
write_fields-Adds [] before after t h =
    subst (λ x. AddsAll [] before x) (sym (ok-eq before after h)) (nil-Adds before)
write_fields-Adds (field ∷ rest) before after (t, ts) h =
    let (middle, e, f) = >>=-eq-ok (write_field field before) (write_fields rest) h in
    cons-Adds field rest before middle after (write_field-Adds field before middle t e)
      (write_fields-Adds rest middle after ts f)

version-Reads : (v : ℕ) → v < 256 → Reads (Decoder.version v) (v ∷ []) tt
unfolding Decoder.version
version-Reads v h =
    bind-Reads Decoder.u8 _ (v ∷ []) [] v tt (u8-Reads v h)
      (refuse-Reads (not (v == v)) _ (ground arith))

decoded :
    (v : ℕ) (fields : List Field) (ys : List ℕ)
    → v < 256
    → Reads (read_fields fields) ys fields
    → length (v ∷ ys) ≤ u64_max
    → (decode v fields (record { bytes = v ∷ ys; cursor = 0 })).0 ≡ ok fields
unfolding decode ◌>>=◌ Decoder.finish
decoded v fields ys small r fits =
    let first =
      (version-Reads v small).at (record { bytes = v ∷ ys; cursor = 0 }) [] ys refl refl
        (omega (arith, fits)) in
    let second =
      r.at (record { bytes = v ∷ ys; cursor = 1 }) (v ∷ []) []
        (ap (λ x. v ∷ x) (sym (append-nil ys))) refl (omega (arith, fits)) in
    let done : not (1 + length ys == suc (length ys)) ≡ false = ground arith in
    rw (first, second, done) refl

-- A record that is encoded as its version and its fields in a row, each a value of its type, decodes
-- with the same version and shapes to exactly these fields, and no byte is left over; the encoding
-- may not be longer than a `usize` counts.
pub decode-encode :
    (version : ℕ) (fields : List Field) (bytes : List ℕ)
    → version < 256
    → AreTyped fields
    → encode version fields ≡ ok bytes
    → length bytes ≤ u64_max
    → (decode version fields (record { bytes = bytes; cursor = 0 })).0 ≡ ok fields
unfolding encode
decode-encode version fields bytes small typed h fits =
    let a = write_fields-Adds fields (version ∷ []) bytes typed h in
    subst (λ x. (decode version fields (record { bytes = x; cursor = 0 })).0 ≡ ok fields)
      (sym a.appended)
      (decoded version fields a.bytes small a.reads
        (subst (λ x. length x ≤ u64_max) a.appended fits))
