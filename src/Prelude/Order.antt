-- ===== src/Prelude/Order.antt =====
-- Total orders as instances: the `Ord` bound of the ordered collections, numbers, byte strings,
-- and the lexicographic order that `derive(Ord)` gives.
use Prim.Native.Nat.{ℕ, compare, Ordering}
use Prim.Native.Nat.Ordering.{lt, eq, gt}
use mathlib.Core.Path.{◌≡◌, refl}
use mathlib.Core.Logic.{◌↔◌}
use mathlib.Core.Bool.{Bool, true, false}
use mathlib.Core.List.{List, [], ◌∷◌}
use native.Mathlib.Omega.{arith}

-- `Ordering::reverse`.
abbrev pub opposite : Ordering → Ordering
opposite lt = gt
opposite eq = eq
opposite gt = lt

-- `Ordering::then`.
abbrev pub then_cmp : Ordering → Ordering → Ordering
then_cmp lt o = lt
then_cmp eq o = o
then_cmp gt o = gt

pub record Ord {ℓ} (K : Type ℓ) : Type ℓ where
  pub cmp : K → K → Ordering
  pub cmp_self : (a : K) → cmp a a ≡ eq
  pub cmp_eq : (a b : K) → cmp a b ≡ eq → a ≡ b
  pub cmp_flip : (a b : K) → cmp b a ≡ opposite (cmp a b)
  pub cmp_trans : (a b c : K) → cmp a b ≡ lt → cmp b c ≡ lt → cmp a c ≡ lt

-- The test `a == b` of a type with an order.
abbrev pub is_eq : Ordering → Bool
is_eq lt = false
is_eq eq = true
is_eq gt = false

abbrev pub same_key {ℓ} : {K : Type ℓ} ⦃o : Ord K⦄ → K → K → Bool
same_key ⦃o⦄ a b = is_eq (o.cmp a b)

module _ {ℓ} {K : Type ℓ} ⦃o : Ord K⦄ where
  pub same_key_iff : (a b : K) → (same_key a b ≡ true) ↔ (a ≡ b)
  same_key_iff a b = (λ h. o.cmp_eq a b (ground arith), λ h. ground (arith, o.cmp_self a))

pub compare_trans : (a b c : ℕ) → compare a b ≡ lt → compare b c ≡ lt → compare a c ≡ lt
compare_trans a b c h k = ground arith

pub compare_self : (a : ℕ) → compare a a ≡ eq
compare_self a = ground arith

pub compare-eq : (a b : ℕ) → compare a b ≡ eq → a ≡ b
compare-eq a b h = ground arith

pub compare-flip : (a b : ℕ) → compare b a ≡ opposite (compare a b)
compare-flip a b = ground arith

instance abbrev pub nat_ord : Ord ℕ
nat_ord = record {
  cmp = compare;
  cmp_self = compare_self;
  cmp_eq = compare-eq;
  cmp_flip = compare-flip;
  cmp_trans = compare_trans;
}

-- Byte strings: the order of Rust's `str` and slices.
abbrev pub compare_list : List ℕ → List ℕ → Ordering
compare_list [] [] = eq
compare_list [] (y ∷ ys) = lt
compare_list (x ∷ xs) [] = gt
compare_list (x ∷ xs) (y ∷ ys) = then_cmp (compare x y) (compare_list xs ys)

pub compare_list_self : (xs : List ℕ) → compare_list xs xs ≡ eq
compare_list_self [] = refl
compare_list_self (x ∷ xs) = ground (arith, compare_list_self xs)

pub compare_list-eq : (xs ys : List ℕ) → compare_list xs ys ≡ eq → xs ≡ ys
compare_list-eq [] [] h = refl
compare_list-eq [] (y ∷ ys) h = ground arith
compare_list-eq (x ∷ xs) [] h = ground arith
compare_list-eq (x ∷ xs) (y ∷ ys) h = ground (arith, compare_list-eq xs ys)

pub compare_list-flip : (xs ys : List ℕ) → compare_list ys xs ≡ opposite (compare_list xs ys)
compare_list-flip [] [] = refl
compare_list-flip [] (y ∷ ys) = refl
compare_list-flip (x ∷ xs) [] = refl
compare_list-flip (x ∷ xs) (y ∷ ys) = ground (arith, compare_list-flip xs ys)

pub compare_list_trans :
    (xs ys zs : List ℕ)
    → compare_list xs ys ≡ lt
    → compare_list ys zs ≡ lt
    → compare_list xs zs ≡ lt
compare_list_trans [] [] zs h k = ground arith
compare_list_trans [] (y ∷ ys) [] h k = ground arith
compare_list_trans [] (y ∷ ys) (z ∷ zs) h k = refl
compare_list_trans (x ∷ xs) [] zs h k = ground arith
compare_list_trans (x ∷ xs) (y ∷ ys) [] h k = ground arith
compare_list_trans (x ∷ xs) (y ∷ ys) (z ∷ zs) h k = ground (arith, compare_list_trans xs ys zs)

instance abbrev pub list_ord : Ord (List ℕ)
list_ord = record {
  cmp = compare_list;
  cmp_self = compare_list_self;
  cmp_eq = compare_list-eq;
  cmp_flip = compare_list-flip;
  cmp_trans = compare_list_trans;
}
