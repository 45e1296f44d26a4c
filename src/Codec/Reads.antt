-- ===== src/Codec/Reads.antt =====
-- src/store/codec.rs: what the methods of `Encoder` write, those of `Decoder` read back, wherever it
-- stands in the bytes.
use mathlib.Core.List.{append-nil, append_assoc}
use ops_light_secrets_server.Prelude.{
  ℕ, zero, suc, ◌+◌, ◌*◌, ◌/◌, ◌%◌, ◌≤◌, ◌<◌, ◌≡◌, refl, sym, ap, ◌∙◌, subst, Bool, true, false,
  some, List, [], ◌∷◌, ◌++◌, arith, leb, ltb, if◌then◌else◌, length, length-append, u64_max,
}
use ops_light_secrets_server.Prelude.Result.{ok}
use ops_light_secrets_server.Prelude.Action.{◌>>=◌, pure, refuse}
use ops_light_secrets_server.Prelude.Words.{be_bytes_of}
use ops_light_secrets_server.Codec.{CodecError, u32_max}
use ops_light_secrets_server.Codec.Decoder
use ops_light_secrets_server.Codec.Decoder.{Decode, take, slice, prefix, from_be, number}

prefix-append : (xs rest : List ℕ) → prefix (length xs) (xs ++ rest) ≡ some xs
prefix-append [] rest = refl
prefix-append (x ∷ xs) rest = ground (arith, prefix-append xs rest)

slice-append :
    (front xs rest : List ℕ) → slice (length front) (length xs) (front ++ (xs ++ rest)) ≡ some xs
slice-append [] xs rest = prefix-append xs rest
slice-append (f ∷ front) xs rest = slice-append front xs rest

-- The bound of an `n`-byte number.
abbrev pub bound : ℕ → ℕ
bound zero = 1
bound (suc n) = 256 * bound n

from_be-append :
    (high : ℕ) (xs : List ℕ) (b : ℕ) → from_be high (xs ++ b ∷ []) ≡ from_be high xs * 256 + b
from_be-append high [] b = refl
from_be-append high (x ∷ xs) b = from_be-append (high * 256 + x) xs b

from_be-be_bytes_of : (n value : ℕ) → value < bound n → from_be 0 (be_bytes_of n value) ≡ value
from_be-be_bytes_of zero value h = omega arith
from_be-be_bytes_of (suc n) value h =
    from_be-append 0 (be_bytes_of n (value / 256)) (value % 256)
    ∙ omega (arith, from_be-be_bytes_of n (value / 256) (omega arith))

length-be_bytes_of : (n value : ℕ) → length (be_bytes_of n value) ≡ n
length-be_bytes_of zero value = refl
length-be_bytes_of (suc n) value =
    length-append (be_bytes_of n (value / 256)) ((value % 256) ∷ [])
    ∙ omega (arith, length-be_bytes_of n (value / 256))

-- The bytes `xs` are read as `a` wherever the cursor stands in front of them.
pub record Reads {A : Type 0} (m : Decode A) (xs : List ℕ) (a : A) : Type 0 where
  pub at :
      (d : Decoder.Decoder) (front rest : List ℕ)
      → d.bytes ≡ front ++ (xs ++ rest)
      → d.cursor ≡ length front
      → length front + length xs ≤ u64_max
      → m d ≡ (ok a, record d { cursor = length front + length xs })

pub take-Reads : (xs : List ℕ) → Reads (take (length xs)) xs xs
unfolding take ◌>>=◌
take-Reads xs = record {
  at = λ d front rest b c fits.
      let small : leb (length front + length xs) u64_max ≡ true = ground arith in
      rw (c, b, small, slice-append front xs rest) refl;
}

pure-Reads : {A : Type 0} (a : A) → Reads (pure a) [] a
unfolding pure
pure-Reads a = record {
  at = λ d front rest b c fits.
      let e : d.cursor ≡ length front + 0 = omega (arith, c) in
      ap (λ n. (ok a, record d { cursor = n })) e;
}

pub bind-Reads :
    {A B : Type 0} (m : Decode A) (f : A → Decode B) (xs ys : List ℕ) (a : A) (b : B)
    → Reads m xs a
    → Reads (f a) ys b
    → Reads (m >>= f) (xs ++ ys) b
unfolding ◌>>=◌
bind-Reads m f xs ys a b h k = record {
  at = λ d front rest e c fits.
      let split : d.bytes ≡ front ++ (xs ++ (ys ++ rest)) =
        e ∙ ap (λ z. front ++ z) (append_assoc xs ys rest) in
      let both = length-append xs ys in
      let first = h.at d front (ys ++ rest) split c (omega (arith, fits, both)) in
      let moved = length-append front xs in
      let second =
        k.at (record d { cursor = length front + length xs }) (front ++ xs) rest
          (split ∙ sym (append_assoc front xs (ys ++ rest))) (sym moved)
          (omega (arith, fits, both, moved)) in
      let same : length (front ++ xs) + length ys ≡ length front + length (xs ++ ys) =
        omega (arith, both, moved) in
      rw first (second ∙ ap (λ n. (ok b, record d { cursor = n })) same);
}

pub then-Reads :
    {A B : Type 0} (m : Decode A) (f : A → B) (xs : List ℕ) (a : A)
    → Reads m xs a
    → Reads (m >>= λ x. pure (f x)) xs (f a)
then-Reads m f xs a h =
    subst (λ ys. Reads (m >>= λ x. pure (f x)) ys (f a)) (append-nil xs)
      (bind-Reads m (λ x. pure (f x)) xs [] a (f a) h (pure-Reads (f a)))

pub number-Reads :
    (width value : ℕ) → value < bound width → Reads (number width) (be_bytes_of width value) value
unfolding number
number-Reads width value h =
    let bs = be_bytes_of width value in
    subst (λ n. Reads (take n >>= λ x. pure (from_be 0 x)) bs value)
      (length-be_bytes_of width value)
      (subst (λ n. Reads (take (length bs) >>= λ x. pure (from_be 0 x)) bs n)
        (from_be-be_bytes_of width value h)
        (then-Reads (take (length bs)) (from_be 0) bs bs (take-Reads bs)))

pub u8-Reads : (n : ℕ) → n < 256 → Reads Decoder.u8 (n ∷ []) n
u8-Reads n h = subst (λ b. Reads Decoder.u8 (b ∷ []) n) (omega arith) (number-Reads 1 n h)

pub bool-Reads : (b : Bool) → Reads Decoder.bool ((if b then 1 else 0) ∷ []) b
unfolding Decoder.bool
bool-Reads true =
    bind-Reads Decoder.u8 _ (1 ∷ []) [] 1 true (u8-Reads 1 (omega arith)) (pure-Reads true)
bool-Reads false =
    bind-Reads Decoder.u8 _ (0 ∷ []) [] 0 false (u8-Reads 0 (omega arith)) (pure-Reads false)

pub refuse-Reads : (b : Bool) (e : CodecError) → b ≡ false → Reads (refuse b e) [] tt
unfolding refuse
refuse-Reads b e h = record {
  at = λ d front rest eq c fits.
      let same : d.cursor ≡ length front + 0 = omega (arith, c) in
      rw h (ap (λ n. (ok tt, record d { cursor = n })) same);
}

pub bytes-Reads :
    (xs : List ℕ) (maximum : ℕ)
    → length xs ≤ maximum
    → length xs ≤ u32_max
    → Reads (Decoder.bytes maximum) (be_bytes_of 4 (length xs) ++ xs) xs
unfolding Decoder.bytes
bytes-Reads xs maximum h k =
    bind-Reads Decoder.u32 _ (be_bytes_of 4 (length xs)) xs (length xs) xs
      (number-Reads 4 (length xs) (omega (arith, k)))
      (bind-Reads (refuse (ltb maximum (length xs)) _) _ [] xs tt xs
        (refuse-Reads _ _ (ground arith)) (take-Reads xs))
