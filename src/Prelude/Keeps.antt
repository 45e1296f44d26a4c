-- ===== src/Prelude/Keeps.antt =====
-- Invariants of actions: `m` keeps `P` of the state whether it returns or fails, and what it
-- returns meets `Q`. One rule for each way to build an action.
use ops_light_secrets_server.Prelude.{◌≡◌, refl, Bool, true, false, Option, none, some}
use ops_light_secrets_server.Prelude.Result.{Result, ok, err}
use ops_light_secrets_server.Prelude.Action.{
  Action, continue, ◌>>=◌, pure, fail, lift, gets, modify, some_or, refuse, when,
}

abbrev pub Returns : {E A : Type 0} → (A → Type 0) → Result E A → Type 0
Returns Q (ok a) = Q a
Returns Q (err e) = Unit

pub record Keeps {S E A : Type 0} (P : S → Type 0) (Q : A → Type 0) (m : Action S E A)
    : Type 0 where
  pub at : (s : S) → P s → P (m s).1 × Returns Q (m s).0

-- No claim about the result.
abbrev pub Any : {A : Type 0} → A → Type 0
Any a = Unit

pub Returns-any : {E A : Type 0} (r : Result E A) → Returns Any r
Returns-any (ok a) = tt
Returns-any (err e) = tt

module _ {S E : Type 0} {P : S → Type 0} where
  pub Keeps-pure : {A : Type 0} (Q : A → Type 0) (a : A) → Q a → Keeps {E = E} P Q (pure a)
  unfolding pure
  Keeps-pure Q a q = record { at = λ s p. (p, q) }

  pub Keeps-pure_any : {A : Type 0} (a : A) → Keeps {E = E} P Any (pure a)
  unfolding pure
  Keeps-pure_any a = record { at = λ s p. (p, tt) }

  pub Keeps-fail : {A : Type 0} (Q : A → Type 0) (e : E) → Keeps {A = A} P Q (fail e)
  unfolding fail
  Keeps-fail Q e = record { at = λ s p. (p, tt) }

  pub Keeps-lift : {A : Type 0} (Q : A → Type 0) (r : Result E A) → Returns Q r → Keeps P Q (lift r)
  unfolding lift
  Keeps-lift Q r q = record { at = λ s p. (p, q) }

  pub Keeps-lift_any : {A : Type 0} (r : Result E A) → Keeps P Any (lift r)
  unfolding lift
  Keeps-lift_any r = record { at = λ s p. (p, Returns-any r) }

  pub Keeps-gets : {A : Type 0} (f : S → A) → Keeps {E = E} P Any (gets f)
  unfolding gets
  Keeps-gets f = record { at = λ s p. (p, tt) }

  pub Keeps-gets_such :
      {A : Type 0} (Q : A → Type 0) (f : S → A)
      → ((s : S) → P s → Q (f s))
      → Keeps {E = E} P Q (gets f)
  unfolding gets
  Keeps-gets_such Q f q = record { at = λ s p. (p, q s p) }

  pub Keeps-modify : (f : S → S) → ((s : S) → P s → P (f s)) → Keeps {E = E} P Any (modify f)
  unfolding modify
  Keeps-modify f h = record { at = λ s p. (h s p, tt) }

  pub Keeps-some_or : {A : Type 0} (o : Option A) (e : E) → Keeps P (λ a. o ≡ some a) (some_or o e)
  unfolding some_or
  Keeps-some_or none e = record { at = λ s p. (p, tt) }
  Keeps-some_or (some a) e = record { at = λ s p. (p, refl) }

  pub Keeps-refuse : (b : Bool) (e : E) → Keeps P (λ _. b ≡ false) (refuse b e)
  unfolding refuse
  Keeps-refuse true e = record { at = λ s p. (p, tt) }
  Keeps-refuse false e = record { at = λ s p. (p, refl) }

  pub Keeps-when :
      {A : Type 0} (Q : A → Type 0) (b : Bool) (m k : Action S E A)
      → Keeps P Q m
      → Keeps P Q k
      → Keeps P Q (when b m k)
  unfolding when
  Keeps-when Q true m k h g = h
  Keeps-when Q false m k h g = g

  continue-keeps :
      {A B : Type 0} (Q : A → Type 0) (R : B → Type 0) (r : Result E A) (f : A → Action S E B)
      (s : S)
      → P s
      → Returns Q r
      → ((a : A) → Q a → Keeps P R (f a))
      → P (continue r f s).1 × Returns R (continue r f s).0
  continue-keeps Q R (ok a) f s p q h = (h a q).at s p
  continue-keeps Q R (err e) f s p q h = (p, tt)

  pub Keeps-bind :
      {A B : Type 0} (Q : A → Type 0) (R : B → Type 0) {m : Action S E A} {f : A → Action S E B}
      → Keeps P Q m
      → ((a : A) → Q a → Keeps P R (f a))
      → Keeps P R (m >>= f)
  unfolding ◌>>=◌
  Keeps-bind Q R {m} {f} k h = record {
    at = λ s p. let (p', q) = k.at s p in continue-keeps Q R (m s).0 f (m s).1 p' q h;
  }

  -- The rules of a `do` block, each for one kind of first step; the rest may use what it found.
  pub Keeps-bind_any :
      {A B : Type 0} (R : B → Type 0) {m : Action S E A} {f : A → Action S E B}
      → Keeps P Any m
      → ((a : A) → Keeps P R (f a))
      → Keeps P R (m >>= f)
  Keeps-bind_any R k h = Keeps-bind Any R k (λ a _. h a)

  pub Keeps-bind_some_or :
      {A B : Type 0} (R : B → Type 0) (o : Option A) (e : E) (f : A → Action S E B)
      → ((a : A) → o ≡ some a → Keeps P R (f a))
      → Keeps P R (some_or o e >>= f)
  Keeps-bind_some_or R o e f h = Keeps-bind _ R (Keeps-some_or o e) h

  pub Keeps-bind_refuse :
      {B : Type 0} (R : B → Type 0) (b : Bool) (e : E) (f : Unit {0} → Action S E B)
      → (b ≡ false → Keeps P R (f tt))
      → Keeps P R (refuse b e >>= f)
  Keeps-bind_refuse R b e f h = Keeps-bind (λ _. b ≡ false) R (Keeps-refuse b e) (λ _ q. h q)

  pub Keeps-bind_lift :
      {A B : Type 0} (R : B → Type 0) (r : Result E A) (f : A → Action S E B)
      → ((a : A) → r ≡ ok a → Keeps P R (f a))
      → Keeps P R (lift r >>= f)
  unfolding ◌>>=◌
  Keeps-bind_lift R (ok a) f h = h a refl
  Keeps-bind_lift R (err e) f h = record { at = λ s p. (p, tt) }
