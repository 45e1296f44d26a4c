-- ===== src/Prelude/Leads.antt =====
-- Where an action leads, whether it returns or fails: `R` of the state it leaves. One rule for each way
-- to build an action, which keeps what the action read.
use ops_light_secrets_server.Prelude.{◌≡◌, refl, sym, subst, Bool, true, false, Option, none, some}
use ops_light_secrets_server.Prelude.Result.{Result, ok, err}
use ops_light_secrets_server.Prelude.Action.{
  Action, continue, ◌>>=◌, pure, lift, gets, modify, some_or, refuse, when,
}

module _ {S E : Type 0} (R : S → Type 0) where
  continue-leads :
      {A B : Type 0} (r : Result E A) (f : A → Action S E B) (s : S)
      → R s
      → ((a : A) → r ≡ ok a → R (f a s).1)
      → R (continue r f s).1
  continue-leads (ok a) f s h k = k a refl
  continue-leads (err e) f s h k = h

  pub bind_leads :
      {A B : Type 0} (m : Action S E A) (f : A → Action S E B) (s : S)
      → R (m s).1
      → ((a : A) → (m s).0 ≡ ok a → R (f a (m s).1).1)
      → R ((m >>= f) s).1
  unfolding ◌>>=◌
  bind_leads m f s h k = continue-leads (m s).0 f (m s).1 h k

  pub gets_leads :
      {A B : Type 0} (g : S → A) (f : A → Action S E B) (s : S)
      → R (f (g s) s).1
      → R ((gets g >>= f) s).1
  unfolding ◌>>=◌
  gets_leads g f s k = k

  pub lift_leads :
      {A B : Type 0} (r : Result E A) (f : A → Action S E B) (s : S)
      → R s
      → ((a : A) → r ≡ ok a → R (f a s).1)
      → R ((lift r >>= f) s).1
  unfolding ◌>>=◌
  lift_leads r f s h k = continue-leads r f s h k

  pub some_or_leads :
      {A B : Type 0} (o : Option A) (e : E) (f : A → Action S E B) (s : S)
      → R s
      → ((a : A) → o ≡ some a → R (f a s).1)
      → R ((some_or o e >>= f) s).1
  unfolding ◌>>=◌
  some_or_leads none e f s h k = h
  some_or_leads (some a) e f s h k = k a refl

  pub refuse_leads :
      {B : Type 0} (b : Bool) (e : E) (f : Unit {0} → Action S E B) (s : S)
      → R s
      → (b ≡ false → R (f tt s).1)
      → R ((refuse b e >>= f) s).1
  unfolding ◌>>=◌
  refuse_leads true e f s h k = h
  refuse_leads false e f s h k = k refl

  pub modify_leads :
      {B : Type 0} (g : S → S) (f : Unit {0} → Action S E B) (s : S)
      → R (f tt (g s)).1
      → R ((modify g >>= f) s).1
  unfolding ◌>>=◌
  modify_leads g f s k = k

  -- An action whose end is known.
  pub returned_leads :
      {A B : Type 0} (m : Action S E A) (f : A → Action S E B) (s t : S) (a : A)
      → m s ≡ (ok a, t)
      → R (f a t).1
      → R ((m >>= f) s).1
  unfolding ◌>>=◌
  returned_leads m f s t a e h = subst (λ x. R (continue x.0 f x.1).1) (sym e) h

  pub failed_leads :
      {A B : Type 0} (m : Action S E A) (f : A → Action S E B) (s t : S) (x : E)
      → m s ≡ (err x, t)
      → R t
      → R ((m >>= f) s).1
  unfolding ◌>>=◌
  failed_leads m f s t x e h = subst (λ x. R (continue x.0 f x.1).1) (sym e) h

  pub when_leads :
      {A : Type 0} (b : Bool) (m k : Action S E A) (s : S)
      → (b ≡ true → R (m s).1)
      → (b ≡ false → R (k s).1)
      → R (when b m k s).1
  unfolding when
  when_leads true m k s h j = h refl
  when_leads false m k s h j = j refl

pub pure_leads :
    {S A : Type 0} (E : Type 0) (R : S → Type 0) (a : A) (s : S) → R s → R (pure {E = E} a s).1
unfolding pure
pure_leads E R a s h = h
