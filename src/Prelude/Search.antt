-- ===== src/Prelude/Search.antt =====
-- Searching a list: `find`, `any` and `select` against membership.
use mathlib.Core.List.{Memᴰ}
use mathlib.Core.Path.{fun_ext}
use ops_light_secrets_server.Prelude.{
  ◌≡◌, ◌≢◌, refl, subst, sym, Bool, true, false, ◌&&◌, none, some, List, [], ◌∷◌, arith, any, all,
  find, select, is_empty, Bool-cases, inl, inr, is_some, not,
}

module _ {ℓ} {A : Type ℓ} where
  -- A search of selected elements is one search by both tests.
  pub find-select :
      (p q : A → Bool) (xs : List A) → find p (select q xs) ≡ find (λ x. q x && p x) xs
  find-select p q [] = refl
  find-select p q (x ∷ xs) = ground (arith, find-select p q xs)

  pub is_empty-select : (q : A → Bool) (xs : List A) → is_empty (select q xs) ≡ not (any q xs)
  is_empty-select q [] = refl
  is_empty-select q (x ∷ xs) = ground (arith, is_empty-select q xs)

  pub any-cong : (p q : A → Bool) (xs : List A) → ((x : A) → p x ≡ q x) → any p xs ≡ any q xs
  any-cong p q xs h = rw (fun_ext h)

  pub is_some-find : (p : A → Bool) (xs : List A) → is_some (find p xs) ≡ any p xs
  is_some-find p [] = refl
  is_some-find p (x ∷ xs) = ground (arith, is_some-find p xs)

  pub any-select : (p q : A → Bool) (xs : List A) → any p (select q xs) ≡ any (λ x. q x && p x) xs
  any-select p q [] = refl
  any-select p q (x ∷ xs) = ground (arith, any-select p q xs)

  -- What a search finds is in the list and passes the test.
  pub find_sound :
      (p : A → Bool) (xs : List A) (x : A) → find p xs ≡ some x → Memᴰ x xs × (p x ≡ true)
  find_sound p [] x h = ground arith
  find_sound p (y ∷ ys) x h = elim (Bool-cases (p y)) [
    | inl hit ↦ let e : y ≡ x = ground arith in (Memᴰ.head (sym e), subst (λ z. p z ≡ true) e hit)
    | inr miss ↦ let (m, t) = find_sound p ys x (ground arith) in (Memᴰ.tail m, t)
  ]

  pub find_complete :
      (p : A → Bool) (xs : List A) (x : A) → Memᴰ x xs → p x ≡ true → find p xs ≢ none
  find_complete p [] x m h = elim m [ ]
  find_complete p (y ∷ ys) x (Memᴰ.head e) h = ground arith
  find_complete p (y ∷ ys) x (Memᴰ.tail m) h = ground (arith, find_complete p ys x m h)

  pub any_complete : (p : A → Bool) (xs : List A) (x : A) → Memᴰ x xs → p x ≡ true → any p xs ≡ true
  any_complete p [] x m h = elim m [ ]
  any_complete p (y ∷ ys) x (Memᴰ.head e) h = ground arith
  any_complete p (y ∷ ys) x (Memᴰ.tail m) h = ground (arith, any_complete p ys x m h)

  pub any_sound :
      (p : A → Bool) (xs : List A) → any p xs ≡ true → (x : A) × Memᴰ x xs × (p x ≡ true)
  any_sound p [] h = ground arith
  any_sound p (y ∷ ys) h = elim (Bool-cases (p y)) [
    | inl hit ↦ (y, Memᴰ.head refl, hit)
    | inr miss ↦ let (x, m, t) = any_sound p ys (ground arith) in (x, Memᴰ.tail m, t)
  ]

  -- A weaker test finds nothing less.
  pub any_mono :
      (p q : A → Bool) (xs : List A)
      → ((x : A) → p x ≡ true → q x ≡ true)
      → any p xs ≡ true
      → any q xs ≡ true
  any_mono p q [] h k = k
  any_mono p q (x ∷ xs) h k = ground (arith, h x, any_mono p q xs h)

  -- What holds of all elements holds of each.
  pub all-mem : (p : A → Bool) (xs : List A) (x : A) → all p xs ≡ true → Memᴰ x xs → p x ≡ true
  all-mem p [] x h m = elim m [ ]
  all-mem p (y ∷ ys) x h (Memᴰ.head e) = ground arith
  all-mem p (y ∷ ys) x h (Memᴰ.tail m) = ground (arith, all-mem p ys x (ground arith) m)

  pub mem-nonempty : (x : A) (xs : List A) → Memᴰ x xs → is_empty xs ≡ false
  mem-nonempty x [] m = elim m [ ]
  mem-nonempty x (y ∷ xs) m = refl

  mem-head :
      (p : A → Bool) (y : A) (ys : List A) (x : A)
      → p y ≡ true
      → (Memᴰ x (select p ys) → Memᴰ x ys × (p x ≡ true))
      → Memᴰ x (y ∷ select p ys)
      → Memᴰ x (y ∷ ys) × (p x ≡ true)
  mem-head p y ys x hit rec (Memᴰ.head e) = (Memᴰ.head e, subst (λ z. p z ≡ true) (sym e) hit)
  mem-head p y ys x hit rec (Memᴰ.tail m) = let (k, h) = rec m in (Memᴰ.tail k, h)

  -- A selected element is one of the list that passes the test, and the other way round.
  pub mem-select :
      (p : A → Bool) (xs : List A) (x : A) → Memᴰ x (select p xs) → Memᴰ x xs × (p x ≡ true)
  mem-select p [] x m = elim m [ ]
  mem-select p (y ∷ ys) x m = elim (Bool-cases (p y)) [
    | inl hit ↦ mem-head p y ys x hit (mem-select p ys x) (rw hit at m)
    | inr miss ↦ let (k, h) = mem-select p ys x (rw miss at m) in (Memᴰ.tail k, h)
  ]

  pub select-mem :
      (p : A → Bool) (xs : List A) (x : A) → Memᴰ x xs → p x ≡ true → Memᴰ x (select p xs)
  select-mem p [] x m h = elim m [ ]
  select-mem p (y ∷ ys) x (Memᴰ.head e) h = rw (subst (λ z. p z ≡ true) e h) (Memᴰ.head e)
  select-mem p (y ∷ ys) x (Memᴰ.tail m) h = elim (Bool-cases (p y)) [
    | inl hit ↦ rw hit (Memᴰ.tail (select-mem p ys x m h))
    | inr miss ↦ rw miss (select-mem p ys x m h)
  ]
