-- ===== src/RawTarget/Canonical.antt =====
-- src/raw_target.rs: a segment has one spelling, and what is decoded holds nothing that could escape
-- from it.
use ops_light_secrets_server.Prelude.{
  ℕ, ◌+◌, ◌*◌, ◌≡◌, ◌≢◌, refl, sym, ap, ◌∙◌, subst, Bool, true, false, not, ◌||◌, some, [], ◌∷◌,
  ◌++◌, arith, ltb, ◌==◌, all, is_empty, Bool-cases, Option-cases, inl, inr,
}
use ops_light_secrets_server.Prelude.Text.{Text, text, text_eq, text_eq_iff}
use ops_light_secrets_server.Prelude.Result.{Result, ok, err, refuse, >>=-eq-ok}
use ops_light_secrets_server.RawTarget.Segment.{
  ParseError, uppercase_hex, unreserved, push, push_escaped, escape, plain, decode_bytes,
  decode_segment, is_utf8,
}
use ops_light_secrets_server.RawTarget.Spelling.{
  spell_byte, spell, harmless, unreserved-harmless, escaped-spelling,
}

-- A byte that the decoder pushes, with its spelling.
record Pushed (spelling : Text) (later : Result ParseError Text) (s : Text) : Type 0 where
  pub value : ℕ
  pub tail : Text
  pub decoded : later ≡ ok tail
  pub whole : s ≡ value ∷ tail
  pub spelled : spell_byte value ≡ spelling
  pub is_harmless : harmless value ≡ true

push-ok :
    (spelling : Text) (value : ℕ) (later : Result ParseError Text) (s : Text)
    → push value later ≡ ok s
    → spell_byte value ≡ spelling
    → harmless value ≡ true
    → Pushed spelling later s
push-ok spelling value (ok t) s h e k = record {
  value = value;
  tail = t;
  decoded = refl;
  whole = ground arith;
  spelled = e;
  is_harmless = k;
}
push-ok spelling value (err x) s h e k = ground arith

plain-Pushed :
    (offset byte : ℕ) (later : Result ParseError Text) (s : Text)
    → plain offset byte later ≡ ok s
    → Pushed (byte ∷ []) later s
unfolding plain
plain-Pushed offset byte later s h =
    let good : unreserved byte ≡ true = ground arith in
    let pushed : push byte later ≡ ok s = ground arith in
    push-ok (byte ∷ []) byte later s pushed (rw good refl) (unreserved-harmless byte good)

push_escaped-Pushed :
    (offset first second high low : ℕ) (later : Result ParseError Text) (s : Text)
    → uppercase_hex first ≡ some high
    → uppercase_hex second ≡ some low
    → push_escaped offset (high * 16 + low) later ≡ ok s
    → Pushed (b'%' ∷ first ∷ second ∷ []) later s
unfolding push_escaped
push_escaped-Pushed offset first second high low later s e f h =
    let reserved : unreserved (high * 16 + low) ≡ false = ground arith in
    let pushed : push (high * 16 + low) later ≡ ok s = ground arith in
    push-ok _ (high * 16 + low) later s pushed (escaped-spelling first second high low e f reserved)
      (ground arith)

escape-Pushed :
    (offset first second : ℕ) (later : Result ParseError Text) (s : Text)
    → escape offset first second later ≡ ok s
    → Pushed (b'%' ∷ first ∷ second ∷ []) later s
unfolding escape
escape-Pushed offset first second later s h = elim (Option-cases (uppercase_hex first)) [
  | inl e ↦ ground arith
  | inr (high, e) ↦ elim (Option-cases (uppercase_hex second)) [
    | inl f ↦ ground arith
    | inr (low, f) ↦ push_escaped-Pushed offset first second high low later s e f (ground arith)
  ]
]

-- The bytes are spelled as they came, and each is harmless.
record Spelled (raw s : Text) : Type 0 where
  pub spelled : spell s ≡ raw
  pub is_harmless : all harmless s ≡ true

Pushed-Spelled :
    (spelling raw : Text) (later : Result ParseError Text) (s : Text)
    → Pushed spelling later s
    → ((t : Text) → later ≡ ok t → Spelled raw t)
    → Spelled (spelling ++ raw) s
Pushed-Spelled spelling raw later s p rest =
    let r = rest p.tail p.decoded in
    subst (Spelled (spelling ++ raw)) (sym p.whole) (record {
      spelled = ap (λ x. x ++ spell p.tail) p.spelled ∙ ap (λ x. spelling ++ x) r.spelled;
      is_harmless = ground (arith, p.is_harmless, r.is_harmless);
    })

nil-Spelled : (t : Text) → ◌≡◌ {A = Result ParseError Text} (ok []) (ok t) → Spelled [] t
nil-Spelled [] h = record { spelled = refl; is_harmless = refl }
nil-Spelled (b ∷ t) h = ground arith

decode_bytes-Spelled : (offset : ℕ) (raw s : Text) → decode_bytes offset raw ≡ ok s → Spelled raw s
unfolding decode_bytes
decode_bytes-Spelled offset [] s h = nil-Spelled s h
decode_bytes-Spelled offset (byte ∷ []) s h =
    Pushed-Spelled (byte ∷ []) [] (ok []) s (plain-Pushed offset byte (ok []) s (ground arith))
      nil-Spelled
decode_bytes-Spelled offset (byte ∷ first ∷ []) s h =
    Pushed-Spelled (byte ∷ []) (first ∷ []) (decode_bytes (offset + 1) (first ∷ [])) s
      (plain-Pushed offset byte (decode_bytes (offset + 1) (first ∷ [])) s (ground arith))
      (λ t e. decode_bytes-Spelled (offset + 1) (first ∷ []) t e)
decode_bytes-Spelled offset (byte ∷ first ∷ second ∷ later) s h = elim (Bool-cases (byte == b'%')) [
  | inl percent ↦
      subst (λ b. Spelled (b ∷ first ∷ second ∷ later) s) (ground arith)
        (Pushed-Spelled (b'%' ∷ first ∷ second ∷ []) later (decode_bytes (offset + 3) later) s
          (escape-Pushed offset first second (decode_bytes (offset + 3) later) s
            (rw (percent, decode_bytes) at h))
          (λ t e. decode_bytes-Spelled (offset + 3) later t e))
  | inr other ↦
      Pushed-Spelled (byte ∷ []) (first ∷ second ∷ later)
        (decode_bytes (offset + 1) (first ∷ second ∷ later)) s
        (plain-Pushed offset byte (decode_bytes (offset + 1) (first ∷ second ∷ later)) s
          (rw (other, decode_bytes) at h))
        (λ t e. decode_bytes-Spelled (offset + 1) (first ∷ second ∷ later) t e)
]

-- What a segment that is accepted went through.
record Accepted (raw : Text) (offset : ℕ) (s : Text) : Type 0 where
  pub some_byte : is_empty raw ≡ false
  pub decoded : decode_bytes offset raw ≡ ok s
  pub well_formed : is_utf8 s ≡ true
  pub no_dots : (text_eq s (text ".") || text_eq s (text "..")) ≡ false

refuse-ok : (b : Bool) (e : ParseError) {u : Unit {0}} → refuse b e ≡ ok u → b ≡ false
refuse-ok true e h = ground arith
refuse-ok false e h = refl

decode_segment-Accepted :
    (raw : Text) (offset : ℕ) (s : Text) → decode_segment raw offset ≡ ok s → Accepted raw offset s
unfolding decode_segment
decode_segment-Accepted raw offset s h =
    let (_, a, f) = >>=-eq-ok (refuse (is_empty raw) _) _ h in
    let (_, b, g) = >>=-eq-ok (refuse (not (all (λ byte. ltb byte 128) raw)) _) _ f in
    let (t, c, k) = >>=-eq-ok (decode_bytes offset raw) _ g in
    let (_, d, l) = >>=-eq-ok (refuse (not (is_utf8 t)) _) _ k in
    let (_, e, same) = >>=-eq-ok (refuse (text_eq t (text ".") || text_eq t (text "..")) _) _ l in
    let whole : t ≡ s = ground arith in
    subst (Accepted raw offset) whole (record {
      some_byte = refuse-ok _ _ a;
      decoded = c;
      well_formed = ground (arith, refuse-ok _ _ d);
      no_dots = refuse-ok _ _ e;
    })

accepted-spelling :
    (raw : Text) (offset : ℕ) (s : Text) → decode_segment raw offset ≡ ok s → spell s ≡ raw
accepted-spelling raw offset s h =
    let a = decode_segment-Accepted raw offset s h in
    let d = decode_bytes-Spelled offset raw s a.decoded in d.spelled

-- A segment that is accepted is spelled in the one canonical way, so no other spelling is accepted as
-- the same segment; it is well-formed UTF-8, is not empty, `.` or `..`, and holds no slash,
-- backslash, percent sign or ASCII control character.
pub decode_segment_canonical :
    (raw : Text) (offset : ℕ) (s : Text)
    → decode_segment raw offset ≡ ok s
    → (raw ≡ spell s)
      × ((other : Text) (offset' : ℕ) → decode_segment other offset' ≡ ok s → other ≡ raw)
      × (is_utf8 s ≡ true)
      × (s ≢ [])
      × (s ≢ text ".")
      × (s ≢ text "..")
      × (all harmless s ≡ true)
decode_segment_canonical raw offset s h =
    let a = decode_segment-Accepted raw offset s h in
    let d = decode_bytes-Spelled offset raw s a.decoded in
    (
      sym d.spelled,
      (λ other offset' k. sym (accepted-spelling other offset' s k) ∙ d.spelled),
      a.well_formed,
      (λ nil.
          let empty : true ≡ is_empty raw = ap is_empty (sym (ap spell nil) ∙ d.spelled) in
          ground (arith, empty, a.some_byte)),
      (λ dot. ground (arith, a.no_dots, text_eq_iff s (text "."))),
      (λ dots. ground (arith, a.no_dots, text_eq_iff s (text ".."))),
      d.is_harmless,
    )
