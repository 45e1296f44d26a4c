-- ===== src/Prelude/Text.antt =====
-- Texts and bytes: a `String` is the list of its UTF-8 bytes, as `len` and `bytes` see it.
use ops_light_secrets_server.Prelude.{
  ℕ, ◌≡◌, refl, ◌↔◌, Bool, true, false, ◌&&◌, ◌||◌, List, [], ◌∷◌, ◌++◌, arith, leb, ltb, ◌==◌,
}
use ops_light_secrets_server.Prelude.Order.{same_key, same_key_iff, list_ord}
use Prim.Native.Char.{code}
use Prim.Native.String.{String}

abbrev pub Text : Type 0
Text = List ℕ

-- The bytes of an ASCII literal.
abbrev pub text : String → Text
text String.[] = []
text (String.◌∷◌ c s) = code c ∷ text s

abbrev pub text_eq : Text → Text → Bool
text_eq a b = same_key a b

pub text_eq_iff : (a b : Text) → (text_eq a b ≡ true) ↔ (a ≡ b)
text_eq_iff a b = same_key_iff a b

abbrev pub texts_eq : List Text → List Text → Bool
texts_eq [] [] = true
texts_eq [] (y ∷ ys) = false
texts_eq (x ∷ xs) [] = false
texts_eq (x ∷ xs) (y ∷ ys) = text_eq x y && texts_eq xs ys

pub eq_of_texts_eq : (xs ys : List Text) → texts_eq xs ys ≡ true → xs ≡ ys
eq_of_texts_eq [] [] h = refl
eq_of_texts_eq [] (y ∷ ys) h = ground arith
eq_of_texts_eq (x ∷ xs) [] h = ground arith
eq_of_texts_eq (x ∷ xs) (y ∷ ys) h = ground (arith, text_eq_iff x y, eq_of_texts_eq xs ys)

pub texts_eq_self : (xs : List Text) → texts_eq xs xs ≡ true
texts_eq_self [] = refl
texts_eq_self (x ∷ xs) = ground (arith, text_eq_iff x x, texts_eq_self xs)

-- `starts_with` on slices of segments.
abbrev pub starts_with : List Text → List Text → Bool
starts_with xs [] = true
starts_with [] (y ∷ ys) = false
starts_with (x ∷ xs) (y ∷ ys) = text_eq x y && starts_with xs ys

-- A list starts with a prefix exactly when the prefix and some rest make it up.
pub split_of_starts_with :
    (xs ys : List Text) → starts_with xs ys ≡ true → (rest : List Text) × (xs ≡ ys ++ rest)
split_of_starts_with [] [] h = ([], refl)
split_of_starts_with (x ∷ xs) [] h = (x ∷ xs, refl)
split_of_starts_with [] (y ∷ ys) h = ground arith
split_of_starts_with (x ∷ xs) (y ∷ ys) h =
    let (rest, e) = split_of_starts_with xs ys (ground arith) in
    (rest, ground (arith, text_eq_iff x y))

pub starts_with-append : (ys rest : List Text) → starts_with (ys ++ rest) ys ≡ true
starts_with-append [] [] = refl
starts_with-append [] (x ∷ xs) = refl
starts_with-append (y ∷ ys) rest = ground (arith, text_eq_iff y y, starts_with-append ys rest)

abbrev pub is_ascii_digit : ℕ → Bool
is_ascii_digit c = leb b'0' c && leb c b'9'

abbrev pub is_ascii_alphanumeric : ℕ → Bool
is_ascii_alphanumeric c =
    is_ascii_digit c || (leb b'A' c && leb c b'Z') || (leb b'a' c && leb c b'z')

-- `is_ascii_control` of a byte.
abbrev pub is_ascii_control : ℕ → Bool
is_ascii_control c = ltb c 0x20 || c == 0x7f

-- `segments.join("/")`.
abbrev pub join : List Text → Text
join [] = []
join (s ∷ []) = s
join (s ∷ t ∷ rest) = s ++ (b'/' ∷ join (t ∷ rest))
