-- ===== src/Prelude/Ends.antt =====
-- What an action that succeeds went through: one inversion for each way to build an action.
use ops_light_secrets_server.Prelude.{
  ◌≡◌, refl, ap, sym, Bool, true, false, Option, none, some, arith, ◌⊎◌, inl, inr,
}
use ops_light_secrets_server.Prelude.Result.{Result, ok, err}
use ops_light_secrets_server.Prelude.Action.{
  Action, continue, ◌>>=◌, pure, fail, lift, gets, modify, some_or, refuse, when,
}

module _ {S E : Type 0} where
  -- `m` succeeds from `s` with `a`, and leaves `t`.
  pub record Ends {A : Type 0} (m : Action S E A) (s : S) (a : A) (t : S) : Type 0 where
    pub returned : (m s).0 ≡ ok a
    pub left : (m s).1 ≡ t

  continue-ok :
      {A B : Type 0} (r : Result E A) (s : S) (f : A → Action S E B) (b : B) (t : S)
      → (continue r f s).0 ≡ ok b
      → (continue r f s).1 ≡ t
      → (a : A) × (r ≡ ok a) × Ends (f a) s b t
  continue-ok (ok a) s f b t h k = (a, refl, record { returned = h; left = k })
  continue-ok (err e) s f b t h k = ground arith

  pub Ends-bind :
      {A B : Type 0} (m : Action S E A) (f : A → Action S E B) {s : S} {b : B} {t : S}
      → Ends (m >>= f) s b t
      → (a : A) × (u : S) × Ends m s a u × Ends (f a) u b t
  unfolding ◌>>=◌
  Ends-bind m f {s} {b} {t} h =
      let (a, e, k) = continue-ok (m s).0 (m s).1 f b t h.returned h.left in
      (a, (m s).1, record { returned = e; left = refl }, k)

  pub bind-Ends :
      {A B : Type 0} (m : Action S E A) (f : A → Action S E B) {s : S} {b : B} {t : S} (a : A)
      (u : S)
      → Ends m s a u
      → Ends (f a) u b t
      → Ends (m >>= f) s b t
  unfolding ◌>>=◌
  bind-Ends m f {s} {b} {t} a u h k = record {
    returned = rw (h.returned, h.left) k.returned;
    left = rw (h.returned, h.left) k.left;
  }

  pub Ends-pure :
      {A : Type 0} (a : A) {s : S} {b : A} {t : S} → Ends {A = A} (pure a) s b t → (b ≡ a) × (t ≡ s)
  unfolding pure
  Ends-pure a h = let r = h.returned in let l = h.left in ground arith

  pub Ends-fail : {A B : Type 0} (e : E) {s : S} {a : A} {t : S} → Ends {A = A} (fail e) s a t → B
  unfolding fail
  Ends-fail e h = let r = h.returned in ground arith

  pub Ends-modify : (f : S → S) {s : S} {a : Unit {0}} {t : S} → Ends (modify f) s a t → t ≡ f s
  unfolding modify
  Ends-modify f h = sym h.left

  -- The steps that leave the state alone, or change it outright: the rest begins where they end.
  pub lift_bind-Ends :
      {A B : Type 0} (r : Result E A) (f : A → Action S E B) {s : S} {b : B} {t : S}
      → Ends (lift r >>= f) s b t
      → (a : A) × (r ≡ ok a) × Ends (f a) s b t
  unfolding ◌>>=◌
  lift_bind-Ends (ok a) f h = (a, refl, record { returned = h.returned; left = h.left })
  lift_bind-Ends (err e) f h = let r = h.returned in ground arith

  pub gets_bind-Ends :
      {A B : Type 0} (g : S → A) (f : A → Action S E B) {s : S} {b : B} {t : S}
      → Ends (gets g >>= f) s b t
      → Ends (f (g s)) s b t
  unfolding ◌>>=◌
  gets_bind-Ends g f h = record { returned = h.returned; left = h.left }

  pub modify_bind-Ends :
      {B : Type 0} (g : S → S) (f : Unit {0} → Action S E B) {s : S} {b : B} {t : S}
      → Ends (modify g >>= f) s b t
      → Ends (f tt) (g s) b t
  unfolding ◌>>=◌
  modify_bind-Ends g f h = record { returned = h.returned; left = h.left }

  pub some_or_bind-Ends :
      {A B : Type 0} (o : Option A) (e : E) (f : A → Action S E B) {s : S} {b : B} {t : S}
      → Ends (some_or o e >>= f) s b t
      → (a : A) × (o ≡ some a) × Ends (f a) s b t
  unfolding ◌>>=◌
  some_or_bind-Ends none e f h = let r = h.returned in ground arith
  some_or_bind-Ends (some a) e f h = (a, refl, record { returned = h.returned; left = h.left })

  pub refuse_bind-Ends :
      {B : Type 0} (x : Bool) (e : E) (f : Unit {0} → Action S E B) {s : S} {b : B} {t : S}
      → Ends (refuse x e >>= f) s b t
      → (x ≡ false) × Ends (f tt) s b t
  unfolding ◌>>=◌
  refuse_bind-Ends true e f h = let r = h.returned in ground arith
  refuse_bind-Ends false e f h = (refl, record { returned = h.returned; left = h.left })

  -- An action that ends in failure whatever it does first.
  pub fails_bind :
      {A B C : Type 0} (m : Action S E A) (e : E) {s : S} {b : B} {t : S}
      → Ends (m >>= λ _. fail e) s b t
      → C
  fails_bind m e h = let (_, _, _, k) = Ends-bind m _ h in Ends-fail e k

  -- A branch.
  pub when-Ends :
      {A : Type 0} (x : Bool) (m k : Action S E A) {s : S} {a : A} {t : S}
      → Ends (when x m k) s a t
      → ((x ≡ true) × Ends m s a t) ⊎ ((x ≡ false) × Ends k s a t)
  unfolding when
  when-Ends true m k h = inl (refl, h)
  when-Ends false m k h = inr (refl, h)

  pub Ends-of :
      {A : Type 0} (m : Action S E A) {s : S} {a : A} {t : S} → m s ≡ (ok a, t) → Ends m s a t
  Ends-of m h = record { returned = ap (λ x. x.0) h; left = ap (λ x. x.1) h }
